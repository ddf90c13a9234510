-- ===== src/ZoneControl/Trace.antt =====
-- Sequences of the operations of services/zone_control.py, and what they keep.
use Prim.Native.String.{String}
use mathlib.Core.Bool.{false≢true}
use irrigation.Base.{
  ℕ, ◌≡◌, ◌≢◌, refl, sym, ap, subst, ◌∙◌, inl, inr, true, false, List, [], ◌∷◌, none, some, ◌==◌,
  nat_eq, list_eq, nat_beq_iff, Bool-cases, Option-cases,
}
use irrigation.Base.Maps.{lookup}
use irrigation.Topics.{Topic}
use irrigation.ZoneControl.{Zone, Group, System, World, in_group}
use irrigation.ZoneControl.Master.{is_on_or_starting, fire}
use irrigation.ZoneControl.Start.{exclusive_start_zone}
use irrigation.ZoneControl.Stop.{Stop, stop_zone, stop_all_in_group}
use irrigation.ZoneControl.Emergency.{emergency, stop_groups, retry, close_masters}
use irrigation.ZoneControl.Quiet.{Moves-IsStep, Moves, Moves-refl, Moves-off, Moves-in_group}
use irrigation.ZoneControl.Exclusive.{
  Moves-exclusive_start_zone, exclusive_start_zone-IsAlone, other-rested,
}
use irrigation.ZoneControl.Calls.{
  stop_zone-step, stop_all_in_group-step, stop_groups-step, retry-step,
}
use irrigation.ZoneControl.Steps.{IsStep, close_masters-SameZones, fire-SameZones}

-- One call, as far as no other call comes in between: the three phases of an emergency stop count
-- separately, and a timer is taken to close its valve at once.
pub data Event : Type 0 where
  start : (id : ℕ) → (source : String) → Event
  stop_one : (id : ℕ) → Stop → Event
  stop_group : (gid : ℕ) → Stop → Event
  emergency_stop : (gids : List ℕ) → (reason : String) → Event
  emergency_retry : (gids : List ℕ) → (reason : String) → Event
  emergency_close : List (ℕ × Group) → Event
  timer : Topic → Event

abbrev pub perform : Event → World → System → System
perform (start id source) w s = (exclusive_start_zone id source w s).0
perform (stop_one id stop) w s = (stop_zone id stop w s).0
perform (stop_group gid stop) w s = stop_all_in_group gid stop w s
perform (emergency_stop gids reason) w s = stop_groups gids (emergency reason) w s
perform (emergency_retry gids reason) w s = retry gids reason w s
perform (emergency_close groups) w s = (close_masters [] groups w s).0
perform (timer key) w s = fire key w (λ s'. s') s

abbrev pub perform_all : List (Event × World) → System → System
perform_all [] s = s
perform_all ((event, w) ∷ events) s = perform_all events (perform event w s)

-- At most one zone of the group runs.
pub record IsExclusive (gid : ℕ) (s : System) : Type 0 where
  pub only :
      (i j : ℕ)
      → in_group gid (lookup i s.zones) ≡ true
      → is_on_or_starting i s ≡ true
      → in_group gid (lookup j s.zones) ≡ true
      → is_on_or_starting j s ≡ true
      → i ≡ j

runs-before :
    {s s' : System} (i : ℕ)
    → Moves (λ _. false) s s'
    → is_on_or_starting i s' ≡ true
    → is_on_or_starting i s ≡ true
runs-before {s} i m runs = elim (Bool-cases (is_on_or_starting i s)) [
  | inl ran ↦ ran
  | inr rested ↦ absurd (false≢true (sym (Moves-off i m refl rested) ∙ runs))
]

pub Moves-IsExclusive :
    (gid : ℕ) (s s' : System) → Moves (λ _. false) s s' → IsExclusive gid s → IsExclusive gid s'
Moves-IsExclusive gid s s' m h = record {
  only = λ i j member runs member' runs'.
      h.only i j (sym (Moves-in_group gid i m) ∙ member) (runs-before i m runs)
        (sym (Moves-in_group gid j m) ∙ member') (runs-before j m runs');
}

missing-start :
    (id : ℕ) (source : String) (w : World) (s : System)
    → lookup id s.zones ≡ none
    → (exclusive_start_zone id source w s).0 ≡ s
unfolding exclusive_start_zone
missing-start id source w s missing = rw (exclusive_start_zone, missing) refl

outside :
    (gid id i : ℕ) (s : System)
    → in_group gid (lookup id s.zones) ≡ false
    → in_group gid (lookup i s.zones) ≡ true
    → (i == id) ≡ false
outside gid id i s foreign member = elim (Bool-cases (i == id)) [
  | inl same ↦ absurd (
      false≢true (
        sym foreign
        ∙ ap (λ k. in_group gid (lookup k s.zones)) (sym ((nat_beq_iff i id).0 same))
        ∙ member))
  | inr other ↦ other
]

-- A start in the group itself, and one in another group.
pub own-start :
    (id : ℕ) (source : String) (w : World) (s : System) (z : Zone)
    → lookup id s.zones ≡ some z
    → z.group_id ≢ 0
    → IsExclusive z.group_id (exclusive_start_zone id source w s).0
own-start id source w s z there n = record {
  only = λ i j member runs member' runs'.
      let m = Moves-exclusive_start_zone (λ _. true) id source w s refl in
      let (own, alone, others) = exclusive_start_zone-IsAlone id source w s z there n in
      alone i (sym (Moves-in_group z.group_id i m) ∙ member) runs
      ∙ sym (alone j (sym (Moves-in_group z.group_id j m) ∙ member') runs');
}

-- At most a zone of another group starts.
pub foreign-IsExclusive :
    (gid id : ℕ) (s s' : System)
    → in_group gid (lookup id s.zones) ≡ false
    → Moves (λ k. k == id) s s'
    → IsExclusive gid s
    → IsExclusive gid s'
foreign-IsExclusive gid id s s' foreign m h = record {
  only = λ i j member runs member' runs'.
      let member₀ = sym (Moves-in_group gid i m) ∙ member in
      let member₁ = sym (Moves-in_group gid j m) ∙ member' in
      h.only i j member₀
        (other-rested (λ k. k == id) s s' i m (outside gid id i s foreign member₀) runs) member₁
        (other-rested (λ k. k == id) s s' j m (outside gid id j s foreign member₁) runs');
}

pub start-IsExclusive :
    (gid id : ℕ) (source : String) (w : World) (s : System)
    → gid ≢ 0
    → IsExclusive gid s
    → IsExclusive gid (exclusive_start_zone id source w s).0
start-IsExclusive gid id source w s n h = elim (Option-cases (lookup id s.zones)) [
  | inl missing ↦ rw (missing-start id source w s missing) h
  | inr (z, there) ↦ elim (Bool-cases (z.group_id == gid)) [
    | inl same ↦
        (let e = (nat_beq_iff z.group_id gid).0 same in
          subst (λ g. IsExclusive g (exclusive_start_zone id source w s).0) e
            (own-start id source w s z there (λ zero. n (sym e ∙ zero))))
    | inr other ↦
        foreign-IsExclusive gid id s _ (ap (in_group gid) there ∙ other)
          (Moves-exclusive_start_zone (λ k. k == id) id source w s ((nat_beq_iff id id).1 refl)) h
  ]
]

abbrev rests : IsStep (Moves (λ _. false))
rests = Moves-IsStep (λ _. false)

pub perform-IsExclusive :
    (gid : ℕ) (event : Event) (w : World) (s : System)
    → gid ≢ 0
    → IsExclusive gid s
    → IsExclusive gid (perform event w s)
perform-IsExclusive gid (start id source) w s n h = start-IsExclusive gid id source w s n h
perform-IsExclusive gid (stop_one id stop) w s n h =
    Moves-IsExclusive gid s _ (stop_zone-step _ rests id stop w s) h
perform-IsExclusive gid (stop_group k stop) w s n h =
    Moves-IsExclusive gid s _ (stop_all_in_group-step _ rests k stop w s) h
perform-IsExclusive gid (emergency_stop gids reason) w s n h =
    Moves-IsExclusive gid s _ (stop_groups-step _ rests gids (emergency reason) w s) h
perform-IsExclusive gid (emergency_retry gids reason) w s n h =
    Moves-IsExclusive gid s _ (retry-step _ rests gids reason w s) h
perform-IsExclusive gid (emergency_close groups) w s n h =
    Moves-IsExclusive gid s _ (Moves-refl _ s _ (close_masters-SameZones [] groups w s).zones) h
perform-IsExclusive gid (timer key) w s n h =
    Moves-IsExclusive gid s _ (Moves-refl _ s _ (fire-SameZones key w s).zones) h

-- Whatever is started, stopped and closed, in whatever order: if at most one zone of a group, other
-- than group 0, runs at the beginning, at most one does in the end.
pub perform_all-IsExclusive :
    (gid : ℕ) (events : List (Event × World)) (s : System)
    → gid ≢ 0
    → IsExclusive gid s
    → IsExclusive gid (perform_all events s)
perform_all-IsExclusive gid [] s n h = h
perform_all-IsExclusive gid ((event, w) ∷ events) s n h =
    perform_all-IsExclusive gid events (perform event w s) n (perform-IsExclusive gid event w s n h)
