-- ===== src/Scheduler/Steps.antt =====
-- The writes of a program of irrigation_scheduler.py to the zones keep what those of the zone control
-- keep.
use irrigation.Base.{
  ℕ, ◌≡◌, refl, true, false, inl, inr, List, [], ◌∷◌, arith, if◌then◌else◌, nat_eq, Option-cases,
}
use Prim.Native.String.{String}
use irrigation.Base.Maps.{lookup}
use irrigation.ZoneControl.{
  Update, System, World, is_active, publish, relay_publish, reaches, update_zone_state,
}
use irrigation.ZoneControl.Start.{peer_off, peers_of}
use irrigation.ZoneControl.Calls.{exclusive_start_zone-step}
use irrigation.ZoneControl.Steps.{IsStep}
use irrigation.Scheduler.Program.{peer_off_scheduled, peers_off, to_scheduled, switch_zones}

module _ (R : System → System → Type 0) (law : IsStep R) where
  peer_off_scheduled-step : (w : World) (id : ℕ) (s : System) → R s (peer_off_scheduled w id s)
  unfolding peer_off_scheduled
  peer_off_scheduled-step w id s = elim (Option-cases (lookup id s.zones)) [
    | inl missing ↦
        rw (peer_off_scheduled, missing) (law.same s s (record { zones = refl; audit = refl }))
    | inr (z, there) ↦
        rw (peer_off_scheduled, there)
          (let s₁ =
              if reaches w z.topic z.mqtt_server_id then publish (relay_publish z false) s else s in
            law.trans s s₁ _ (law.same s s₁ (record { zones = ground arith; audit = ground arith }))
              (law.rest id peer_off "peer_off_scheduled" s₁ refl))
  ]

  pub peers_off-step : (w : World) (ids : List ℕ) (s : System) → R s (peers_off w ids s)
  unfolding peers_off
  peers_off-step w [] s = law.same s s (record { zones = refl; audit = refl })
  peers_off-step w (id ∷ ids) s =
      law.trans s (peer_off_scheduled w id s) _ (peer_off_scheduled-step w id s)
        (peers_off-step w ids (peer_off_scheduled w id s))

  pub switch_zones-step :
      (id gid : ℕ) (w : World) (s : System)
      → ((u : Update) (reason : String) (s : System)
          → is_active u.state ≡ true
          → R s (update_zone_state id u reason s))
      → R s (switch_zones id gid w s)
  unfolding switch_zones
  switch_zones-step id gid w s begin =
      let s₁ = peers_off w (peers_of id gid s) s in
      let s₂ = update_zone_state id (to_scheduled w) "scheduled_start" s₁ in
      law.trans s s₁ _ (peers_off-step w (peers_of id gid s) s) (
        law.trans s₁ s₂ _ (begin (to_scheduled w) "scheduled_start" s₁ refl)
          (exclusive_start_zone-step R law id begin "program" w s₂))
