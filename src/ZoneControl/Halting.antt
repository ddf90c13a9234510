-- ===== src/ZoneControl/Halting.antt =====
-- What `emergency_stop_all` of services/zone_control.py leaves running.
use Prim.Native.String.{String}
use irrigation.Base.{
  ℕ, ◌≡◌, ◌≢◌, refl, sym, ap, ◌∙◌, inl, inr, Bool, true, false, not, ◌&&◌, ◌||◌, List, [], ◌∷◌,
  arith, contains, contains-keep_if, contains-append, ◌==◌, nat_eq, list_eq, nat_beq_iff,
  Bool-cases,
}
use irrigation.Base.Maps.{lookup}
use irrigation.ZoneControl.{System, World, in_group, keys, zones_by_group}
use irrigation.ZoneControl.Master.{active, is_on_or_starting}
use irrigation.ZoneControl.Emergency.{
  emergency, stop_groups, stuck_zones, stuck_in, retry, emergency_stop_all,
}
use irrigation.ZoneControl.Calls.{retry-step, stop_each-step}
use irrigation.ZoneControl.Steps.{close_masters-SameZones}
use irrigation.ZoneControl.Quiet.{Moves-IsStep, Moves-off, Moves-in_group, contains-zones_by_group}
use irrigation.ZoneControl.Stopping.{stop_each-stops}

is_zero : (n : ℕ) → n ≢ 0 → (n == 0) ≡ false
is_zero n h = ground (arith, nat_beq_iff n 0)

or_true : (b : Bool) → (b || true) ≡ true
or_true true = refl
or_true false = refl

contains-stuck_in :
    (gid i : ℕ) (s : System)
    → gid ≢ 0
    → i ≢ 0
    → in_group gid (lookup i s.zones) ≡ true
    → is_on_or_starting i s ≡ true
    → contains (stuck_in gid s) i ≡ true
unfolding stuck_in
contains-stuck_in gid i s grouped real member runs =
    rw (stuck_in, is_zero gid grouped)
      (contains-keep_if (λ id. is_on_or_starting id s && not (id == 0)) (zones_by_group gid s) i
        ∙ rw (contains-zones_by_group gid i s, member, runs, is_zero i real) refl)

contains-stuck_zones :
    (gids : List ℕ) (gid i : ℕ) (s : System)
    → contains gids gid ≡ true
    → gid ≢ 0
    → i ≢ 0
    → in_group gid (lookup i s.zones) ≡ true
    → is_on_or_starting i s ≡ true
    → contains (stuck_zones gids s) i ≡ true
unfolding stuck_zones
contains-stuck_zones [] gid i s h grouped real member runs = ground arith
contains-stuck_zones (k ∷ gids) gid i s h grouped real member runs =
    contains-append (stuck_in k s) (stuck_zones gids s) i ∙ (elim (Bool-cases (k == gid)) [
      | inl same ↦
          rw ((nat_beq_iff k gid).0 same, contains-stuck_in gid i s grouped real member runs) refl
      | inr other ↦
          rw (contains-stuck_zones gids gid i s (ground arith) grouped real member runs)
            (or_true (contains (stuck_in k s) i))
    ])

retry-stops :
    (gids : List ℕ) (reason : String) (w : World) (s : System) (gid i : ℕ)
    → contains gids gid ≡ true
    → gid ≢ 0
    → i ≢ 0
    → in_group gid (lookup i s.zones) ≡ true
    → is_on_or_starting i (retry gids reason w s) ≡ false
unfolding retry
retry-stops gids reason w s gid i listed grouped real member =
    elim (Bool-cases (is_on_or_starting i s)) [
      | inl runs ↦
          stop_each-stops (stuck_zones gids s) i _ w s
            (contains-stuck_zones gids gid i s listed grouped real member runs)
      | inr rests ↦
          Moves-off i (stop_each-step _ (Moves-IsStep (λ _. false)) (stuck_zones gids s) _ w s) refl
            rests
    ]

-- Whatever other threads do between the first stop and the second: after an emergency stop no zone
-- runs that has a number and belongs to a group that was there at the beginning.
pub emergency_stop_all-stops :
    (reason : String) (w : World) (others : System → System) (s : System) (gid i : ℕ)
    → contains (keys s.groups) gid ≡ true
    → gid ≢ 0
    → i ≢ 0
    → let s' = (emergency_stop_all reason w others s).0 in
      in_group gid (lookup i s'.zones) ≡ true → is_on_or_starting i s' ≡ false
unfolding emergency_stop_all
emergency_stop_all-stops reason w others s gid i listed grouped real member =
    let t = others (stop_groups (keys s.groups) (emergency reason) w s) in
    let t' = retry (keys s.groups) reason w t in
    let closed = (close_masters-SameZones [] s.groups w t').zones in
    let same = λ (j : ℕ). ap (lookup j) closed in
    let before = ap (in_group gid) (sym (same i)) ∙ member in
    let earlier =
      sym
        (Moves-in_group gid i (retry-step _ (Moves-IsStep (λ _. false)) (keys s.groups) reason w t))
      ∙ before in
    ap active (same i) ∙ retry-stops (keys s.groups) reason w t gid i listed grouped real earlier
