-- ===== src/Scheduler/Starting.antt =====
-- What the start of a zone by a program of irrigation_scheduler.py leaves of the zone.
use irrigation.Base.{
  ℕ, ◌≡◌, ◌≢◌, ◌∙◌, refl, sym, ap, inl, inr, true, false, Option, none, some, arith, ◌+◌, ◌*◌,
  nat_eq, ◌==◌, nat_beq_iff, Option-cases,
}
use irrigation.Base.Maps.{lookup, map_some, lookup-adjust}
use irrigation.ZoneControl.{Zone, System, World, in_group, update_zone_state}
use irrigation.ZoneControl.Start.{peers_of}
use irrigation.ZoneControl.Master.{active, is_on_or_starting}
use irrigation.ZoneControl.Quiet.{
  Moves, Moves-trans, Moves-IsStep, Moves-in_group, Moves-update_zone_state,
}
use irrigation.ZoneControl.Exclusive.{exclusive_start_zone-IsAlone}
use irrigation.Scheduler.{Scheduler}
use irrigation.Scheduler.Steps.{peers_off-step}
use irrigation.Scheduler.Program.{peers_off, to_scheduled, plan_end, switch_zones, start_scheduled}
use irrigation.Scheduler.Resting.{start_scheduled-system}

-- Another end that is planned leaves the zones that run.
active-planned :
    (end_time : Option ℕ) (o : Option Zone)
    → active (map_some (λ (z : Zone). record z { planned_end_time = end_time }) o) ≡ active o
active-planned end_time none = refl
active-planned end_time (some z) = refl

plan_end-runs :
    (id : ℕ) (end_time : Option ℕ) (s : System)
    → is_on_or_starting id s ≡ true
    → is_on_or_starting id (plan_end id end_time s) ≡ true
plan_end-runs id end_time s h =
    ap active (
      lookup-adjust id id (λ (z : Zone). record z { planned_end_time = end_time }) s.zones
      ∙ rw ((nat_beq_iff id id).1 refl) refl)
    ∙ active-planned end_time (lookup id s.zones)
    ∙ h

-- What the zone counts as before it is started.
abbrev counted : ℕ → (gid : ℕ) → World → System → System
counted id gid w s =
    update_zone_state id (to_scheduled w) "scheduled_start" (peers_off w (peers_of id gid s) s)

counted-Moves : (id gid : ℕ) (w : World) (s : System) → Moves (λ _. true) s (counted id gid w s)
counted-Moves id gid w s =
    let anything = λ (_ : ℕ). true in
    let cleared = peers_off w (peers_of id gid s) s in
    Moves-trans {s₂ = cleared}
      (peers_off-step (Moves anything) (Moves-IsStep anything) w (peers_of id gid s) s)
      (Moves-update_zone_state anything id (to_scheduled w) "scheduled_start" cleared
        (ground arith))

switch_zones-runs :
    (id gid : ℕ) (w : World) (s : System) (z : Zone)
    → lookup id s.zones ≡ some z
    → z.group_id ≢ 0
    → is_on_or_starting id (switch_zones id gid w s) ≡ true
unfolding switch_zones
switch_zones-runs id gid w s z there grouped =
    let s₁ = counted id gid w s in
    let member : in_group z.group_id (lookup id s₁.zones) ≡ true =
      Moves-in_group z.group_id id (counted-Moves id gid w s)
      ∙ ap (in_group z.group_id) there
      ∙ (nat_beq_iff z.group_id z.group_id).1 refl in
    elim (Option-cases (lookup id s₁.zones)) [
      | inl missing ↦ (let clash : false ≡ true = rw missing at member in cc)
      | inr (z₁, found) ↦
          (let same : (z₁.group_id == z.group_id) ≡ true = rw found at member in
            (exclusive_start_zone-IsAlone id "program" w s₁ z₁ found
              (λ e. grouped (sym ((nat_beq_iff z₁.group_id z.group_id).0 same) ∙ e))).0)
    ]

-- A zone of a group that a program starts runs, whatever state it finds.
pub start_scheduled-runs :
    (id gid duration : ℕ) (w : World) (s : Scheduler) (z : Zone)
    → lookup id s.system.zones ≡ some z
    → z.group_id ≢ 0
    → is_on_or_starting id (start_scheduled id gid duration w s).system ≡ true
start_scheduled-runs id gid duration w s z there grouped =
    rw (start_scheduled-system id gid duration w s) (
      plan_end-runs id (some (w.time + duration * 60)) (switch_zones id gid w s.system)
        (switch_zones-runs id gid w s.system z there grouped))
