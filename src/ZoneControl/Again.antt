-- ===== src/ZoneControl/Again.antt =====
-- A second `stop_zone` of services/zone_control.py.
use irrigation.Base.{
  ℕ, ◌≡◌, refl, ap, ◌∙◌, subst, inl, inr, Bool, true, false, not, ◌&&◌, Option, none, some, arith,
  nat_eq, Bool-cases,
}
use irrigation.Base.Maps.{lookup}
use irrigation.ZoneControl.{Zone, System, World, is_stopped}
use irrigation.ZoneControl.Stop.{finish_water, stop_again, stop_zone, Stop, start_of}
use irrigation.ZoneControl.Steps.{plan_close-OnlyTimers}
use irrigation.ZoneControl.Resting.{
  IsMeasured, lookup-finish_water, finish_water-zones, stop_active-IsRested,
}

stopped : Option Zone → Bool
stopped none = false
stopped (some z) = is_stopped z.state

measured-stopped : (o o' : Option Zone) → IsMeasured o o' → stopped o' ≡ stopped o
unfolding IsMeasured stopped
measured-stopped o o' (inl e) = ap stopped e
measured-stopped none o' (inr (stats, e)) = ap stopped e
measured-stopped (some z) o' (inr (stats, e)) = ap stopped e

-- What a stop of a stopped zone does.
stop_again-IsMeasured :
    (id : ℕ) (z : Zone) (stop : Stop) (w : World) (s : System)
    → let s' = stop_again id z stop w s in
      (s'.published ≡ s.published)
      × (s'.audit ≡ s.audit)
      × IsMeasured (lookup id s.zones) (lookup id s'.zones)
unfolding stop_again
stop_again-IsMeasured id z stop w s =
    let s₁ = finish_water id z.group_id true (start_of id z s.runs) w s in
    let planned =
      plan_close-OnlyTimers z.group_id stop.master_close_immediately stop.skip_master_close w s₁ in
    let (zones, published, audit) =
      finish_water-zones id z.group_id true (start_of id z s.runs) w s in
    (
      planned.published ∙ published,
      planned.audit ∙ audit,
      rw (stop_again, planned.zones)
          (lookup-finish_water id id z.group_id true (start_of id z s.runs) w s).1,
    )

stopped-some :
    (o : Option Zone) → stopped o ≡ true → (z : Zone) × (o ≡ some z) × (is_stopped z.state ≡ true)
unfolding stopped
stopped-some none h = ground arith
stopped-some (some z) h = (z, refl, h)

stop_zone-stopped :
    (id : ℕ) (stop : Stop) (w : World) (s : System) (z : Zone)
    → lookup id s.zones ≡ some z
    → stopped (lookup id (stop_zone id stop w s).0.zones) ≡ true
unfolding stop_zone stopped
stop_zone-stopped id stop w s z there = elim (Bool-cases (is_stopped z.state && not stop.force)) [
  | inl again ↦
      (let (p, a, m) = stop_again-IsMeasured id z stop w s in
        rw (stop_zone, there, again) (measured-stopped _ _ m ∙ ap stopped there ∙ ground arith))
  | inr runs ↦
      (let ((z', found, rests), p, q) = stop_active-IsRested id stop w s z there runs in
        ap stopped found ∙ ap is_stopped rests.0)
]

again-of :
    (id : ℕ) (again : Stop) (w : World) (s : System) (z : Zone)
    → lookup id s.zones ≡ some z
    → (is_stopped z.state && not again.force) ≡ true
    → let s' = (stop_zone id again w s).0 in
      (s'.published ≡ s.published)
      × (s'.audit ≡ s.audit)
      × IsMeasured (lookup id s.zones) (lookup id s'.zones)
unfolding stop_zone
again-of id again w s z found rests =
    let (p, a, m) = stop_again-IsMeasured id z again w s in
    rw (stop_zone, found, rests)
      (p, a, subst (λ o. IsMeasured o (lookup id (stop_again id z again w s).zones)) found m)

-- A stop that follows another stop of a zone, not by force, publishes nothing, records no change, and
-- writes at most the measurements into the zone.
stop_zone-again :
    (id : ℕ) (stop again : Stop) (w w' : World) (s : System) (z : Zone)
    → lookup id s.zones ≡ some z
    → again.force ≡ false
    → let s' = (stop_zone id stop w s).0 in
      let s'' = (stop_zone id again w' s').0 in
      (s''.published ≡ s'.published)
      × (s''.audit ≡ s'.audit)
      × IsMeasured (lookup id s'.zones) (lookup id s''.zones)
stop_zone-again id stop again w w' s z there gentle =
    let s' = (stop_zone id stop w s).0 in
    let (z', found, rests) =
      stopped-some (lookup id s'.zones) (stop_zone-stopped id stop w s z there) in
    again-of id again w' s' z' found (rw (rests, gentle) refl)
