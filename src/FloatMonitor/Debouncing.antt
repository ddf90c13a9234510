-- ===== src/FloatMonitor/Debouncing.antt =====
-- A level counts only after it has been stable for the debounce time.
use irrigation.Base.{
  ℕ, ◌+◌, ◌*◌, ◌≤◌, ◌<◌, ◌≡◌, refl, subst, ◌⊎◌, Bool, true, false, ◌&&◌, List, [], ◌∷◌, ◌++◌,
  Option, none, some, arith, leb, if◌then◌else◌,
}
use irrigation.FloatMonitor.{
  GroupState, Moment, debounce, apply_level, on_level_low, on_level_restored, pause, emergency_stop,
  bool_beq,
}

-- A report of the level by the sensor.
pub record Report : Type 0 where
  pub level : Bool
  pub at : Moment

unfoldable pub reported : List Report → GroupState → GroupState
reported [] gs = gs
reported (r ∷ rs) gs = reported rs (debounce r.level r.at gs).0

-- The clock does not go back.
abbrev pub IsOrdered : (from : ℕ) → List Report → Type 0
IsOrdered from [] = Unit
IsOrdered from (r ∷ rs) = (from ≤ r.at.now) × IsOrdered r.at.now rs

-- A stretch of reports of one level, with the time when it began; a report goes on with it or
-- begins another.
abbrev pub next : Bool × ℕ → Report → Bool × ℕ
next (level, since) r = if bool_beq level r.level then (level, since) else (r.level, r.at.now)

abbrev pub stretch : Bool × ℕ → List Report → Bool × ℕ
stretch s [] = s
stretch s (r ∷ rs) = stretch (next s r) rs

-- What is pending is the level of the stretch that is going on, and not from before it.
abbrev within_of : Bool → ℕ → Option Bool → Option ℕ → Bool
within_of level since none t = true
within_of level since (some pending) none = bool_beq level pending
within_of level since (some pending) (some t) = bool_beq level pending && leb since t

abbrev is_within : Bool × ℕ → GroupState → Bool
is_within (level, since) gs = within_of level since gs.pending_level_ok gs.pending_since

apply_level-keeps :
    (level : Bool) (at : Moment) (gs : GroupState)
    → let gs' = (apply_level level at gs).0 in
      (gs'.pending_level_ok ≡ gs.pending_level_ok)
      × (gs'.pending_since ≡ gs.pending_since)
      × (gs'.debounce_seconds ≡ gs.debounce_seconds)
      × (gs'.level_ok ≡ level)
unfolding apply_level on_level_low on_level_restored pause emergency_stop
apply_level-keeps true at gs = ground arith
apply_level-keeps false at gs = ground arith

debounce-seconds :
    (level : Bool) (at : Moment) (gs : GroupState)
    → (debounce level at gs).0.debounce_seconds ≡ gs.debounce_seconds
unfolding debounce
debounce-seconds level at gs = ground (arith, apply_level-keeps level at gs)

debounce-within :
    (level : Bool) (since : ℕ) (r : Report) (gs : GroupState)
    → 0 < gs.debounce_seconds
    → since ≤ r.at.now
    → is_within (level, since) gs ≡ true
    → is_within (next (level, since) r) (debounce r.level r.at gs).0 ≡ true
unfolding debounce
debounce-within true since r gs d h w = ground (arith, apply_level-keeps r.level r.at gs)
debounce-within false since r gs d h w = ground (arith, apply_level-keeps r.level r.at gs)

-- The level was left alone, or the report has set it at the end of a stable stretch.
abbrev pub IsDebounced :
    (debounce_seconds : ℕ) → Bool × ℕ → Report → GroupState → GroupState → Type 0
IsDebounced d (level, since) r before after =
    (after.level_ok ≡ before.level_ok)
    ⊎ ((after.level_ok ≡ r.level) × (level ≡ r.level) × (since + d * 1000 ≤ r.at.now))

debounce-IsDebounced :
    (level : Bool) (since : ℕ) (r : Report) (gs : GroupState)
    → 0 < gs.debounce_seconds
    → is_within (level, since) gs ≡ true
    → IsDebounced gs.debounce_seconds (next (level, since) r) r gs (debounce r.level r.at gs).0
unfolding debounce
debounce-IsDebounced true since r gs d w = ground (arith, apply_level-keeps r.level r.at gs)
debounce-IsDebounced false since r gs d w = ground (arith, apply_level-keeps r.level r.at gs)

next-ordered :
    (level : Bool) (since : ℕ) (r : Report)
    → since ≤ r.at.now
    → (next (level, since) r).1 ≤ r.at.now
next-ordered level since r h = ground arith

reported-IsDebounced :
    (from : ℕ) (rs : List Report) (r : Report) (s : Bool × ℕ) (gs : GroupState)
    → 0 < gs.debounce_seconds
    → s.1 ≤ from
    → IsOrdered from (rs ++ r ∷ [])
    → is_within s gs ≡ true
    → let gs' = reported rs gs in
      IsDebounced gs.debounce_seconds (stretch s (rs ++ r ∷ [])) r gs' (debounce r.level r.at gs').0
unfolding reported
reported-IsDebounced from [] r (level, since) gs d h ordered w =
    debounce-IsDebounced level since r gs d w
reported-IsDebounced from (q ∷ rs) r (level, since) gs d h ordered w =
    let gs' : GroupState = (debounce q.level q.at gs).0 in
    let same = debounce-seconds q.level q.at gs in
    let later : since ≤ q.at.now = omega (arith, h, ordered.0) in
    let rest =
      reported-IsDebounced q.at.now rs r (next (level, since) q) gs' (omega (arith, same, d))
        (next-ordered level since q later) ordered.1 (debounce-within level since q gs d later w) in
    subst
      (λ n.
        IsDebounced n (stretch (next (level, since) q) (rs ++ r ∷ [])) r (reported rs gs')
          (debounce r.level r.at (reported rs gs')).0)
      same rest

next-first : (r : Report) → next (r.level, r.at.now) r ≡ (r.level, r.at.now)
next-first r =
    elim r.level as (λ b. (if bool_beq b b then (b, r.at.now) else (b, r.at.now)) ≡ (b, r.at.now)) [
      | true ↦ refl
      | false ↦ refl
    ]

-- From a group with nothing pending, whatever the sensor reports: a report changes the level only
-- to what it reports, and only if the reports have been of that level alone for at least
-- `debounce_seconds`, counted from the first report of the stretch that this one ends.
pub debounce-stable :
    (first : Report) (rs : List Report) (r : Report) (gs : GroupState)
    → 0 < gs.debounce_seconds
    → gs.pending_level_ok ≡ none
    → IsOrdered first.at.now (rs ++ r ∷ [])
    → let gs' = reported (first ∷ rs) gs in
      IsDebounced gs.debounce_seconds
        (stretch (first.level, first.at.now) (rs ++ r ∷ []))
        r
        gs'
        (debounce r.level r.at gs').0
unfolding reported
debounce-stable first rs r gs d p ordered =
    let start : Bool × ℕ = (first.level, first.at.now) in
    let gs' : GroupState = reported (first ∷ rs) gs in
    let all =
      reported-IsDebounced first.at.now (first ∷ rs) r start gs d (omega arith)
        (omega arith, ordered) (rw p refl) in
    subst
      (λ s.
        IsDebounced gs.debounce_seconds (stretch s (rs ++ r ∷ [])) r gs'
          (debounce r.level r.at gs').0)
      (next-first first) all
