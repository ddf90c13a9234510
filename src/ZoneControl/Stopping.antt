-- ===== src/ZoneControl/Stopping.antt =====
-- What the stops of services/zone_control.py do to the question which zones of a group run.
use irrigation.Base.{
  ℕ, ◌≡◌, refl, ap, ◌∙◌, subst, inl, inr, true, false, not, ◌&&◌, List, [], ◌∷◌, arith, contains,
  ◌==◌, nat_eq, list_eq, nat_beq_iff, Bool-cases, Option-cases,
}
use irrigation.Base.Maps.{lookup}
use irrigation.ZoneControl.{Zone, System, World, is_active, is_stopped}
use irrigation.ZoneControl.Master.{active, is_on_or_starting}
use irrigation.ZoneControl.Stop.{stop_zone, stop_each, Stop}
use irrigation.ZoneControl.Calls.{stop_zone-step, stop_each-step}
use irrigation.ZoneControl.Quiet.{Moves-IsStep, Moves-off}
use irrigation.ZoneControl.Resting.{stop_active-IsRested}

stopped-inactive : (z : Zone) → is_stopped z.state ≡ true → is_active z.state ≡ false
stopped-inactive z h = ground arith

-- However a stop goes, the zone does not run afterwards.
pub stop_zone-stops :
    (id : ℕ) (stop : Stop) (w : World) (s : System)
    → is_on_or_starting id (stop_zone id stop w s).0 ≡ false
unfolding stop_zone
stop_zone-stops id stop w s = elim (Option-cases (lookup id s.zones)) [
  | inl missing ↦ rw (stop_zone, missing) (ap active missing)
  | inr (z, there) ↦ elim (Bool-cases (is_stopped z.state && not stop.force)) [
    | inl again ↦
        Moves-off id (stop_zone-step _ (Moves-IsStep (λ _. false)) id stop w s) refl
          (ap active there ∙ stopped-inactive z (ground arith))
    | inr runs ↦
        (let ((z', found, rests), p, q) = stop_active-IsRested id stop w s z there runs in
          ap active found ∙ ap is_active rests.0)
  ]
]

pub stop_each-stops :
    (ids : List ℕ) (i : ℕ) (stop : Stop) (w : World) (s : System)
    → contains ids i ≡ true
    → is_on_or_starting i (stop_each ids stop w s) ≡ false
unfolding stop_each
stop_each-stops [] i stop w s h = ground arith
stop_each-stops (id ∷ ids) i stop w s h = elim (Bool-cases (id == i)) [
  | inl same ↦
      Moves-off i
        (stop_each-step _ (Moves-IsStep (λ _. false)) ids stop w (stop_zone id stop w s).0) refl
        (subst (λ j. is_on_or_starting j (stop_zone id stop w s).0 ≡ false)
          ((nat_beq_iff id i).0 same) (stop_zone-stops id stop w s))
  | inr other ↦ stop_each-stops ids i stop w (stop_zone id stop w s).0 (ground arith)
]
