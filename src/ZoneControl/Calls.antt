-- ===== src/ZoneControl/Calls.antt =====
-- Every call of services/zone_control.py keeps a relation that its writes keep.
use Prim.Native.String.{String, ◌++◌ as ◌++ₛ◌}
use irrigation.Base.{
  ℕ, ◌≡◌, refl, inl, inr, Bool, true, false, not, ◌&&◌, List, [], ◌∷◌, Option, none, some,
  if◌then◌else◌, ◌==◌, nat_eq, list_eq, Bool-cases, Option-cases,
}
use irrigation.Base.Maps.{lookup}
use irrigation.ZoneControl.{
  Zone, Update, System, World, is_active, is_off, is_stopped, is_group, update_zone_state, publish,
  relay_publish, reaches, zones_by_group,
}
use irrigation.ZoneControl.Start.{
  to_starting, to_stopping, acknowledged_on, peer_off, finish_run, open_run, open_master,
  mark_starting, switch_on, start_zone, mark_peer, switch_peer_off, stop_peer, stop_peers, peers_of,
  exclusive_start_zone,
}
use irrigation.ZoneControl.Stop.{
  run_stats, get_open_run, or_summary, finish_water, switch_off, shut_down, to_off_complete,
  stop_active, stop_again, stop_zone, stop_each, stop_all_in_group, Stop, start_of,
}
use irrigation.ZoneControl.Emergency.{stop_groups, stuck_zones, retry}
use irrigation.ZoneControl.Steps.{
  same_zones, IsStep, opened-SameZones, plan_close-SameZones, switch_off-SameZones,
}

module _ (R : System → System → Type 0) (law : IsStep R) where
  step_refl : (s : System) → R s s
  step_refl s = law.same s s (same_zones s)

  step_if : (b : Bool) (s x y : System) → R s x → R s y → R s (if b then x else y)
  step_if true s x y h k = h
  step_if false s x y h k = k

  -- A command to a relay that is followed by an update.
  pub switch_peer_off-step :
      (id : ℕ) (z : Zone) (w : World) (s : System) → R s (switch_peer_off id z w s)
  unfolding switch_peer_off
  switch_peer_off-step id z w s =
      let s₁ = record (publish (relay_publish z false) s) {
        runs = finish_run id w.time none none none s.runs;
      } in
      step_if (reaches w z.topic z.mqtt_server_id) s (update_zone_state id peer_off "peer_off" s₁) s
        (law.trans s s₁ _ (law.same s s₁ (record { zones = refl; audit = refl }))
          (law.rest id peer_off "peer_off" s₁ refl))
        (step_refl s)

  mark_peer-step : (id : ℕ) (z : Zone) (s : System) → R s (mark_peer id z s)
  unfolding mark_peer
  mark_peer-step id z s =
      step_if (is_off z.state) s s _ (step_refl s) (law.rest id to_stopping "peer_stop" s refl)

  stop_peer-step : (w : World) (id : ℕ) (s : System) → R s (stop_peer w id s)
  unfolding stop_peer
  stop_peer-step w id s = elim (Option-cases (lookup id s.zones)) [
    | inl missing ↦ rw (stop_peer, missing) (step_refl s)
    | inr (z, there) ↦
        rw (stop_peer, there)
          (law.trans s (mark_peer id z s) _ (mark_peer-step id z s)
            (switch_peer_off-step id z w (mark_peer id z s)))
  ]

  pub stop_peers-step : (w : World) (ids : List ℕ) (s : System) → R s (stop_peers w ids s)
  unfolding stop_peers
  stop_peers-step w [] s = step_refl s
  stop_peers-step w (id ∷ ids) s =
      law.trans s (stop_peer w id s) _ (stop_peer-step w id s)
        (stop_peers-step w ids (stop_peer w id s))

  finish_water-step :
      (id gid : ℕ) (needs_start : Bool) (since : Option ℕ) (w : World) (s : System)
      → R s (finish_water id gid needs_start since w s)
  unfolding finish_water
  finish_water-step id gid needs_start since w s = elim (Bool-cases (is_group gid)) [
    | inl grouped ↦
        (let stats = run_stats w gid (get_open_run id s.runs) in
          let s₁ = record s {
            runs = finish_run id w.time (w.pulses_at_end gid) stats.0 stats.1 s.runs;
          } in
          let asks : Bool = elim since [ none ↦ not needs_start | some t ↦ true ] in
          rw (finish_water, grouped)
            (law.trans s s₁ _ (law.same s s₁ (record { zones = refl; audit = refl }))
              (law.measure id (if asks then or_summary w gid since stats else stats) s₁)))
    | inr alone ↦ rw (finish_water, alone) (step_refl s)
  ]

  shut_down-step :
      (id : ℕ) (z : Zone) (stop : Stop) (w : World) (s : System) → R s (shut_down id z stop w s)
  unfolding shut_down
  shut_down-step id z stop w s =
      let s₁ = update_zone_state id to_stopping ("stop_" ++ₛ stop.reason) s in
      let s₂ = switch_off id z stop w s₁ in
      law.trans s s₁ _ (law.rest id to_stopping _ s refl) (
        law.trans s₁ s₂ _ (law.same s₁ s₂ (switch_off-SameZones id z stop w s₁))
          (law.rest id to_off_complete _ s₂ refl))

  stop_active-step :
      (id : ℕ) (z : Zone) (stop : Stop) (w : World) (s : System) → R s (stop_active id z stop w s)
  unfolding stop_active
  stop_active-step id z stop w s =
      law.trans s (shut_down id z stop w s) _ (shut_down-step id z stop w s)
        (finish_water-step id z.group_id false z.watering_start_time w (shut_down id z stop w s))

  stop_again-step :
      (id : ℕ) (z : Zone) (stop : Stop) (w : World) (s : System) → R s (stop_again id z stop w s)
  unfolding stop_again
  stop_again-step id z stop w s =
      let s₁ = finish_water id z.group_id true (start_of id z s.runs) w s in
      law.trans s s₁ _ (finish_water-step id z.group_id true (start_of id z s.runs) w s) (
        law.same s₁ _ (
          plan_close-SameZones z.group_id stop.master_close_immediately stop.skip_master_close w
            s₁))

  pub stop_zone-step :
      (id : ℕ) (stop : Stop) (w : World) (s : System) → R s (stop_zone id stop w s).0
  unfolding stop_zone
  stop_zone-step id stop w s = elim (Option-cases (lookup id s.zones)) [
    | inl missing ↦ rw (stop_zone, missing) (step_refl s)
    | inr (z, there) ↦
        rw (stop_zone, there)
          (step_if (is_stopped z.state && not stop.force) s _ _ (stop_again-step id z stop w s)
            (stop_active-step id z stop w s))
  ]

  pub stop_each-step :
      (ids : List ℕ) (stop : Stop) (w : World) (s : System) → R s (stop_each ids stop w s)
  unfolding stop_each
  stop_each-step [] stop w s = step_refl s
  stop_each-step (id ∷ ids) stop w s =
      law.trans s (stop_zone id stop w s).0 _ (stop_zone-step id stop w s)
        (stop_each-step ids stop w (stop_zone id stop w s).0)

  pub stop_groups-step :
      (gids : List ℕ) (stop : Stop) (w : World) (s : System) → R s (stop_groups gids stop w s)
  unfolding stop_groups
  stop_groups-step [] stop w s = step_refl s
  stop_groups-step (gid ∷ gids) stop w s =
      let s₁ = if gid == 0 then s else stop_each (zones_by_group gid s) stop w s in
      law.trans s s₁ _
        (step_if (gid == 0) s s _ (step_refl s) (stop_each-step (zones_by_group gid s) stop w s))
        (stop_groups-step gids stop w s₁)

  pub retry-step :
      (gids : List ℕ) (reason : String) (w : World) (s : System) → R s (retry gids reason w s)
  unfolding retry
  retry-step gids reason w s = stop_each-step (stuck_zones gids s) _ w s

  pub stop_all_in_group-step :
      (gid : ℕ) (stop : Stop) (w : World) (s : System) → R s (stop_all_in_group gid stop w s)
  unfolding stop_all_in_group
  stop_all_in_group-step gid stop w s = stop_each-step (zones_by_group gid s) stop w s

  -- A start also brings the zone into a state in which it runs.
  module _ (id : ℕ)
      (begin : (u : Update) (reason : String) (s : System)
        → is_active u.state ≡ true
        → R s (update_zone_state id u reason s)) where
    mark_starting-step : (z : Zone) (w : World) (s : System) → R s (mark_starting id z w s)
    unfolding mark_starting
    mark_starting-step z w s =
        step_if (is_active z.state) s s _ (step_refl s)
          (begin (to_starting w) "manual_start" s refl)

    switch_on-step : (z : Zone) (w : World) (s : System) → R s (switch_on id z w s)
    unfolding switch_on
    switch_on-step z w s =
        let s₁ = publish (relay_publish z true) s in
        step_if (reaches w z.topic z.mqtt_server_id) s
          (update_zone_state id acknowledged_on "mqtt_ack_on" s₁) s
          (law.trans s s₁ _ (law.same s s₁ (record { zones = refl; audit = refl }))
            (begin acknowledged_on "mqtt_ack_on" s₁ refl))
          (step_refl s)

    start_zone-step :
        (z : Zone) (source : String) (w : World) (s : System) → R s (start_zone id z source w s)
    unfolding start_zone
    start_zone-step z source w s =
        let s₁ = mark_starting id z w s in
        let s₂ = open_master z.group_id w (open_run id z.group_id source w s₁) in
        law.trans s s₁ _ (mark_starting-step z w s) (
          law.trans s₁ s₂ _ (law.same s₁ s₂ (opened-SameZones id z.group_id source w s₁))
            (switch_on-step z w s₂))

    pub exclusive_start_zone-step :
        (source : String) (w : World) (s : System) → R s (exclusive_start_zone id source w s).0
    unfolding exclusive_start_zone
    exclusive_start_zone-step source w s = elim (Option-cases (lookup id s.zones)) [
      | inl missing ↦ rw (exclusive_start_zone, missing) (step_refl s)
      | inr (z, there) ↦
          (let s₁ = start_zone id z source w s in
            rw (exclusive_start_zone, there)
              (law.trans s s₁ _ (start_zone-step z source w s)
                (stop_peers-step w (peers_of id z.group_id s) s₁)))
    ]
