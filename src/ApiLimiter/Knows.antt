-- ===== src/ApiLimiter/Knows.antt =====
-- The invariant of the limiter over a history of calls: what it knows of the grants so far.
use mathlib.Core.List.{append-nil}
use native.Mathlib.Nat.{le_refl}
use irrigation.Base.{
  ℕ, ◌*◌, ◌≤◌, ◌<◌, ◌≡◌, refl, subst, ◌∙◌, ap, inl, inr, Bool, true, false, ◌&&◌, List, [], ◌∷◌,
  ◌++◌, arith, length, keep_if, keep_if-append, leb, if◌then◌else◌, Key, ◌==◌, Bool-cases,
}
use irrigation.Base.Recent.{recent_of, in_window, recent_of-recent_of, bound_snoc}
use irrigation.ApiLimiter.Recent.{stored, count_call-recent}
use irrigation.ApiLimiter.{
  Limiter, Verdict, allowed, refused, index_error, prune_window, count_call, decide_recent,
  is_allowed,
}

-- A call of `is_allowed` by some client, with the limits of its endpoint group.
pub record Call (K : Type 0) : Type 0 where
  pub key : K
  pub max_requests : ℕ
  pub window_sec : ℕ
  pub at : ℕ

abbrev pub is_grant : Verdict → Bool
is_grant allowed = true
is_grant (refused _) = false
is_grant index_error = false

module _ {K : Type 0} ⦃e : Key K⦄ where
  abbrev pub serve : Call K → Limiter K → Verdict × Limiter K
  serve c s = is_allowed c.key c.max_requests c.window_sec c.at s

  -- The times at which calls by `k` were let through.
  unfoldable pub grants : K → List (Call K) → Limiter K → List ℕ
  grants k [] s = []
  grants k (c ∷ cs) s =
      let rest = grants k cs (serve c s).1 in
      if c.key == k && is_grant (serve c s).0 then c.at ∷ rest else rest

  -- The clock does not go back, and the calls by `k` come with the limits `m` and `w`.
  abbrev pub IsHistory : (k : K) (m w last : ℕ) → List (Call K) → Type 0
  IsHistory k m w last [] = Unit
  IsHistory k m w last (c ∷ cs) =
      (last ≤ c.at)
      × (c.key ≡ k → (c.max_requests ≡ m) × (c.window_sec ≡ w))
      × IsHistory k m w c.at cs

  -- What the limiter knows of the grants so far.
  pub record Knows (k : K) (m w last : ℕ) (s : Limiter K) (past : List ℕ) : Type 0 where
    pub covers :
        (later : ℕ)
        → last ≤ later
        → recent_of later (w * 1000) (stored k s) ≡ recent_of later (w * 1000) past
    pub bound : (t : ℕ) → length (keep_if (in_window (w * 1000) t) past) ≤ m

  decide_recent-other :
      (key k : K) (m now w : ℕ) (recent : List ℕ) (s : Limiter K)
      → (key == k) ≡ false
      → stored k (decide_recent key m now w recent s).1 ≡ stored k s
  unfolding decide_recent
  decide_recent-other key k m now w [] s h = ground arith
  decide_recent-other key k m now w (x ∷ xs) s h = ground arith

  -- A grant appends the present request to fewer than `m`; a refusal keeps the recent ones, or
  -- leaves the store alone.
  data Decides (k : K) (m now : ℕ) (recent : List ℕ) (s : Limiter K) (r : Verdict × Limiter K)
      : Type 0 where
    grants_it :
        is_grant r.0 ≡ true
        → stored k r.1 ≡ recent ++ now ∷ []
        → length recent < m
        → Decides k m now recent s r
    trims : is_grant r.0 ≡ false → stored k r.1 ≡ recent → Decides k m now recent s r
    leaves : is_grant r.0 ≡ false → stored k r.1 ≡ stored k s → Decides k m now recent s r

  decide_recent-Decides :
      (k : K) (m now w : ℕ) (recent : List ℕ) (s : Limiter K)
      → Decides k m now recent s (decide_recent k m now w recent s)
  unfolding decide_recent
  decide_recent-Decides k m now w [] s = elim (Bool-cases (leb m 0)) [
    | inl t ↦ rw t (leaves refl refl)
    | inr f ↦ rw f (grants_it refl (rw ((e.eqb_iff k k).1 refl)) (ground arith))
  ]
  decide_recent-Decides k m now w (x ∷ xs) s = elim (Bool-cases (leb m (length (x ∷ xs)))) [
    | inl t ↦ rw t (trims refl (rw ((e.eqb_iff k k).1 refl)))
    | inr f ↦ rw f (grants_it refl (rw ((e.eqb_iff k k).1 refl)) (ground arith))
  ]

  module _ (k : K) (m w : ℕ) where
    -- One call by another client, or by `k`.
    pub Knows-other :
        (c : Call K) (last : ℕ) (s : Limiter K) (past : List ℕ)
        → w * 1000 ≤ prune_window
        → last ≤ c.at
        → (c.key == k) ≡ false
        → Knows k m w last s past
        → Knows k m w c.at (serve c s).1 past
    unfolding is_allowed
    Knows-other c last s past wide h other known = record {
      covers = λ later g.
          rw (decide_recent-other c.key k _ c.at _ _ (count_call c.at s) other)
            (count_call-recent k c.at later (w * 1000) s g wide ∙ known.covers later (omega arith));
      bound = known.bound;
    }

    abbrev pub granted : Verdict × Limiter K → ℕ → List ℕ
    granted r now = if is_grant r.0 then now ∷ [] else []

    Knows-decided :
        (now : ℕ) (s : Limiter K) (past : List ℕ) (r : Verdict × Limiter K)
        → Knows k m w now s past
        → Decides k m now (recent_of now (w * 1000) (stored k s)) s r
        → Knows k m w now r.1 (past ++ granted r now)
    Knows-decided now s past r known (grants_it yes_it e' room) = rw yes_it (record {
      covers = λ later g.
          rw
            (
              e',
              keep_if-append,
              keep_if-append,
              recent_of-recent_of now later (w * 1000) (w * 1000) (stored k s) g (le_refl _),
            )
            (ap (λ l. l ++ recent_of later (w * 1000) (now ∷ [])) (known.covers later g));
      bound =
          bound_snoc (w * 1000) m now now past (le_refl now)
            (subst (λ l. length l < m) (known.covers now (le_refl now)) room) known.bound;
    })
    Knows-decided now s past r known (trims no_it e') =
        rw (no_it, append-nil)
          (record {
            covers = λ later g.
                rw
                  (
                    e',
                    recent_of-recent_of now later (w * 1000) (w * 1000) (stored k s) g (le_refl _),
                  )
                  (known.covers later g);
            bound = known.bound;
          })
    Knows-decided now s past r known (leaves no_it e') =
        rw (no_it, append-nil)
          (record { covers = λ later g. rw e' (known.covers later g); bound = known.bound })

    pub Knows-count_call :
        (now last : ℕ) (s : Limiter K) (past : List ℕ)
        → w * 1000 ≤ prune_window
        → last ≤ now
        → Knows k m w last s past
        → Knows k m w now (count_call now s) past
    Knows-count_call now last s past wide h known = record {
      covers = λ later g.
          count_call-recent k now later (w * 1000) s g wide ∙ known.covers later (omega arith);
      bound = known.bound;
    }

    pub Knows-serve :
        (now last : ℕ) (s : Limiter K) (past : List ℕ)
        → w * 1000 ≤ prune_window
        → last ≤ now
        → Knows k m w last s past
        → Knows k m w now (is_allowed k m w now s).1 (past ++ granted (is_allowed k m w now s) now)
    unfolding is_allowed
    Knows-serve now last s past wide h known =
        Knows-decided now (count_call now s) past _ (Knows-count_call now last s past wide h known)
          (decide_recent-Decides k m now (w * 1000) _ (count_call now s))
