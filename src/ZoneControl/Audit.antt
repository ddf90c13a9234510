-- ===== src/ZoneControl/Audit.antt =====
-- The audit log of services/zones_state.py tells every change of a zone's state.
use Prim.Native.String.{String}
use mathlib.Core.List.{append-nil, append_assoc}
use irrigation.Base.{
  ℕ, ◌≡◌, refl, sym, ap, ◌∙◌, subst, ◌⊎◌, inl, inr, true, List, [], ◌∷◌, ◌++◌, Option, none, some,
  arith, if◌then◌else◌, ◌==◌, nat_eq, nat_beq_iff, Bool-cases, Option-cases,
}
use irrigation.Base.Maps.{lookup, map_some, lookup-adjust}
use irrigation.ZoneControl.{
  ZoneState, Zone, Update, Change, System, World, same_state, apply_update, update_zone_state,
}
use irrigation.ZoneControl.Stop.{Stats, measured, store_stats}
use irrigation.ZoneControl.Steps.{
  SameZones, same_zones, IsStep, close_masters-SameZones, fire-SameZones,
}
use irrigation.ZoneControl.Trace.{
  Event, start, stop_one, stop_group, emergency_stop, emergency_retry, emergency_close, timer,
  perform, perform_all,
}
use irrigation.ZoneControl.Emergency.{emergency}
use irrigation.ZoneControl.Quiet.{lookup-update_zone_state}
use irrigation.ZoneControl.Calls.{
  exclusive_start_zone-step, stop_zone-step, stop_all_in_group-step, stop_groups-step, retry-step,
}

abbrev pub state_of : Option Zone → Option ZoneState
state_of none = none
state_of (some z) = some z.state

-- What the log says of a zone, from its state at the beginning; a zone that is not there has none.
abbrev replay : ℕ → List Change → Option ZoneState → Option ZoneState
replay id [] o = o
replay id (c ∷ cs) o = replay id cs (if c.zone_id == id then map_some (λ _. c.after) o else o)

-- Each entry about the zone names the state that the zone had before.
abbrev IsChained : ℕ → List Change → Option ZoneState → Type 0
IsChained id [] o = Unit
IsChained id (c ∷ cs) o =
    (c.zone_id ≡ id → c.before ≡ o)
    × IsChained id cs (if c.zone_id == id then map_some (λ _. c.after) o else o)

pub record Audited (s s' : System) : Type 0 where
  pub changes : List Change
  pub audit : s'.audit ≡ s.audit ++ changes
  replayed :
      (id : ℕ) → state_of (lookup id s'.zones) ≡ replay id changes (state_of (lookup id s.zones))
  chained : (id : ℕ) → IsChained id changes (state_of (lookup id s.zones))

replay-append :
    (id : ℕ) (cs ds : List Change) (o : Option ZoneState)
    → replay id (cs ++ ds) o ≡ replay id ds (replay id cs o)
replay-append id [] ds o = refl
replay-append id (c ∷ cs) ds o = replay-append id cs ds _

IsChained-append :
    (id : ℕ) (cs ds : List Change) (o : Option ZoneState)
    → IsChained id cs o
    → IsChained id ds (replay id cs o)
    → IsChained id (cs ++ ds) o
IsChained-append id [] ds o h k = k
IsChained-append id (c ∷ cs) ds o (h, hs) k = (h, IsChained-append id cs ds _ hs k)

Audited-same : (s s' : System) → SameZones s s' → Audited s s'
Audited-same s s' e = record {
  changes = [];
  audit = e.audit ∙ sym (append-nil s.audit);
  replayed = λ id. ap (λ zones. state_of (lookup id zones)) e.zones;
  chained = λ id. tt;
}

Audited-trans : (s₁ s₂ s₃ : System) → Audited s₁ s₂ → Audited s₂ s₃ → Audited s₁ s₃
Audited-trans s₁ s₂ s₃ h k = record {
  changes = h.changes ++ k.changes;
  audit =
      k.audit ∙ ap (λ log. log ++ k.changes) h.audit ∙ append_assoc s₁.audit h.changes k.changes;
  replayed = λ id.
      k.replayed id
      ∙ ap (replay id k.changes) (h.replayed id)
      ∙ sym (replay-append id h.changes k.changes _);
  chained = λ id.
      IsChained-append id h.changes k.changes _ (h.chained id)
        (subst (IsChained id k.changes) (h.replayed id) (k.chained id));
}

state_of-measured :
    (stats : Stats) (o : Option Zone) → state_of (map_some (measured stats) o) ≡ state_of o
state_of-measured stats none = refl
state_of-measured stats (some z) = refl

Audited-measure : (k : ℕ) (stats : Stats) (s : System) → Audited s (store_stats k stats s)
Audited-measure k stats s = record {
  changes = [];
  audit = sym (append-nil s.audit);
  replayed = λ id.
      ap state_of (lookup-adjust k id (measured stats) s.zones) ∙ (elim (Bool-cases (k == id)) [
        | inl same ↦ rw same (state_of-measured stats (lookup id s.zones))
        | inr differs ↦ rw differs refl
      ]);
  chained = λ id. tt;
}

same_state-eq : (a b : ZoneState) → same_state a b ≡ true → a ≡ b
same_state-eq a b h = ground arith

state_of-updated :
    (u : Update) (o : Option Zone)
    → state_of (map_some (apply_update u) o) ≡ map_some (λ _. u.state) (state_of o)
state_of-updated u none = refl
state_of-updated u (some z) = refl

state_of-update :
    (id k : ℕ) (u : Update) (reason : String) (s : System)
    → let o = state_of (lookup id s.zones) in
      state_of (lookup id (update_zone_state k u reason s).zones)
      ≡ (if k == id then map_some (λ _. u.state) o else o)
state_of-update id k u reason s =
    ap state_of (lookup-update_zone_state id k u reason s) ∙ (elim (Bool-cases (k == id)) [
      | inl same ↦ rw same (state_of-updated u (lookup id s.zones))
      | inr differs ↦ rw differs refl
    ])

abbrev entry : (k : ℕ) → Update → (reason : String) → System → Change
entry k u reason s = record {
  zone_id = k;
  before = state_of (lookup k s.zones);
  after = u.state;
  reason = reason;
}

-- An update is logged, unless the zone has the state already.
update-audit :
    (k : ℕ) (u : Update) (reason : String) (s : System)
    → let log = (update_zone_state k u reason s).audit in
      (log ≡ s.audit ++ entry k u reason s ∷ [])
      ⊎ ((log ≡ s.audit) × (state_of (lookup k s.zones) ≡ some u.state))
unfolding update_zone_state
update-audit k u reason s = elim (Option-cases (lookup k s.zones)) [
  | inl missing ↦ inl (rw (update_zone_state, missing) refl)
  | inr (z, there) ↦ elim (Bool-cases (same_state z.state u.state)) [
    | inl same ↦ inr (
      rw (update_zone_state, there, same) refl,
      ap state_of there ∙ ap some (same_state-eq z.state u.state same),
    )
    | inr differs ↦ inl (rw (update_zone_state, there, differs) refl)
  ]
]

map_some-same : (a : ZoneState) (o : Option ZoneState) → o ≡ some a → map_some (λ _. a) o ≡ o
map_some-same a o h = rw h refl

unchanged :
    (k id : ℕ) (u : Update) (s : System)
    → state_of (lookup k s.zones) ≡ some u.state
    → let o = state_of (lookup id s.zones) in (if k == id then map_some (λ _. u.state) o else o) ≡ o
unchanged k id u s h = elim (Bool-cases (k == id)) [
  | inl same ↦ rw same (
      map_some-same u.state _
        (ap (λ j. state_of (lookup j s.zones)) (sym ((nat_beq_iff k id).0 same)) ∙ h))
  | inr differs ↦ rw differs refl
]

Audited-update :
    (k : ℕ) (u : Update) (reason : String) (s : System) → Audited s (update_zone_state k u reason s)
Audited-update k u reason s = elim (update-audit k u reason s) [
  | inl logged ↦ record {
    changes = entry k u reason s ∷ [];
    audit = logged;
    replayed = λ id. state_of-update id k u reason s;
    chained = λ id. ((λ e. ap (λ j. state_of (lookup j s.zones)) e), tt);
  }
  | inr (quiet, same) ↦ record {
    changes = [];
    audit = quiet ∙ sym (append-nil s.audit);
    replayed = λ id. state_of-update id k u reason s ∙ unchanged k id u s same;
    chained = λ id. tt;
  }
]

abbrev Audited-IsStep : IsStep Audited
Audited-IsStep = record {
  same = Audited-same;
  trans = Audited-trans;
  rest = λ k u reason s _. Audited-update k u reason s;
  measure = Audited-measure;
}

perform-Audited : (event : Event) (w : World) (s : System) → Audited s (perform event w s)
perform-Audited (start id source) w s =
    exclusive_start_zone-step Audited Audited-IsStep id
      (λ u reason t _. Audited-update id u reason t) source w s
perform-Audited (stop_one id stop) w s = stop_zone-step Audited Audited-IsStep id stop w s
perform-Audited (stop_group gid stop) w s =
    stop_all_in_group-step Audited Audited-IsStep gid stop w s
perform-Audited (emergency_stop gids reason) w s =
    stop_groups-step Audited Audited-IsStep gids (emergency reason) w s
perform-Audited (emergency_retry gids reason) w s =
    retry-step Audited Audited-IsStep gids reason w s
perform-Audited (emergency_close groups) w s =
    Audited-same s _ (close_masters-SameZones [] groups w s)
perform-Audited (timer key) w s = Audited-same s _ (fire-SameZones key w s)

-- Whatever is started, stopped and closed, in whatever order: the audit log only grows, each new entry
-- about a zone names the state that it had before, and going through the entries from the state of a
-- zone at the beginning gives its state in the end.
pub perform_all-Audited :
    (events : List (Event × World)) (s : System) → Audited s (perform_all events s)
perform_all-Audited [] s = Audited-same s s (same_zones s)
perform_all-Audited ((event, w) ∷ events) s =
    Audited-trans s (perform event w s) _ (perform-Audited event w s)
      (perform_all-Audited events (perform event w s))
