-- ===== src/Scheduler/Sequencing.antt =====
-- What a run of a group sequence of irrigation_scheduler.py leaves running.
use irrigation.Base.{
  ℕ, ◌≡◌, ◌-◌, ◌+◌, ◌*◌, refl, ap, inl, inr, Bool, true, false, not, ◌&&◌, List, [], ◌∷◌, Option,
  none, some, arith, All, ◌==◌, nat_eq, nat_beq, nat_beq_iff, if◌then◌else◌, Bool-cases,
  Option-cases,
}
use irrigation.Base.Maps.{lookup}
use irrigation.ZoneControl.{Zone, System, World, reaches, publish, relay_publish, update_zone_state}
use irrigation.ZoneControl.Master.{is_on_or_starting}
use irrigation.ZoneControl.Start.{open_valve}
use irrigation.ZoneControl.Stop.{stop_zone}
use irrigation.ZoneControl.Duration.{per_zone_dur}
use irrigation.ZoneControl.Steps.{open_run-SameZones, open_valve-SameZones}
use irrigation.ZoneControl.Quiet.{
  Moves, Moves-refl, Moves-trans, Moves-off, Moves-update_zone_state,
}
use irrigation.Scheduler.{Scheduler, group_weather_skip, group_seq_complete, add_log, event_is_set}
use irrigation.Scheduler.Jobs.{clamp_early, schedule_zone_hard_stop}
use irrigation.Scheduler.Waiting.{Request, Outside, Thread, world_at, update, look, wait}
use irrigation.Scheduler.Program.{clear_stale, duration_of, plan_end, end_zone}
use irrigation.Scheduler.Sequence.{
  to_sequence, open_for, open_zone, start_in_sequence, sequence_stop, make_up, end_in_sequence,
  water_in_sequence, run_in_sequence, run_sequence, end_sequence, run_group_sequence,
}
use irrigation.Scheduler.Moving.{or_zone, stopped-Moves, Moves-wider, Allows, plan_end-Moves}
use irrigation.Scheduler.Resting.{clear_stale-system, release-system, look-Moves, wait-Moves}

module _ (only : ℕ → Bool) where
  open_for-Moves : (gid : ℕ) (w : World) (s : System) → Moves only s (open_for gid w s)
  unfolding open_for
  open_for-Moves gid w s = elim (Bool-cases (gid == 0)) [
    | inl zero ↦ rw (open_for, zero) (Moves-refl only s s refl)
    | inr grouped ↦
        rw (open_for, grouped)
          (elim (Option-cases (lookup gid s.groups)) [
            | inl missing ↦ rw missing (Moves-refl only s s refl)
            | inr (g, there) ↦
                rw there
                  (Moves-refl only s (open_valve gid g w s) (open_valve-SameZones gid g w s).zones)
          ])
  ]

  open_zone-Moves :
      (id : ℕ) (z : Zone) (planned_end : ℕ) (w : World) (s : System)
      → only id ≡ true
      → Moves only s (open_zone id z planned_end w s)
  unfolding open_zone
  open_zone-Moves id z planned_end w s h =
      let s₁ = update_zone_state id (to_sequence w planned_end) "group_sequence_start" s in
      let s₂ = open_for z.group_id w s₁ in
      let s₃ =
        if reaches w z.topic z.mqtt_server_id then publish (relay_publish z true) s₂ else s₂ in
      Moves-trans {s₂ = s₁}
        (Moves-update_zone_state only id (to_sequence w planned_end) "group_sequence_start" s
          (rw h refl))
        (Moves-trans {s₂ = s₂} (open_for-Moves z.group_id w s₁) (
          Moves-trans {s₂ = s₃} (Moves-refl only s₂ s₃ (ground arith))
            (Moves-refl only s₃ _ (open_run-SameZones id z.group_id "program" w s₃).zones)))

  start_in_sequence-Moves :
      (gid id : ℕ) (z : Zone) (duration : ℕ) (w : World) (s : Scheduler)
      → only id ≡ true
      → Moves only s.system (start_in_sequence gid id z duration w s).system
  unfolding start_in_sequence schedule_zone_hard_stop
  start_in_sequence-Moves gid id z duration w s h =
      open_zone-Moves id z (w.time + duration * 60) w s.system h

end_sequence-system :
    (gid : ℕ) (event : Option ℕ) (s : Scheduler) → (end_sequence gid event s).system ≡ s.system
end_sequence-system gid none s = refl
end_sequence-system gid (some e) s = release-system gid e s

make_up-system :
    (event : Option ℕ) (early : ℕ) (p : Thread)
    → (make_up event early p).scheduler.system ≡ p.scheduler.system
make_up-system event early p = ground arith

module _ (only : ℕ → Bool) (o : Outside)
    (allowed : (n : ℕ) → All (λ (r : Request × World). Allows only r.0) (o.others n)) where
  end_in_sequence-Moves :
      (gid : ℕ) (event : Option ℕ) (id : ℕ) (skipped : Bool) (p : Thread)
      → Moves only
          (stop_zone id sequence_stop (world_at o p) p.scheduler.system).0
          (end_in_sequence o gid event id skipped p).scheduler.system
  unfolding end_in_sequence
  end_in_sequence-Moves gid event id true p =
      plan_end-Moves only id none (stop_zone id sequence_stop (world_at o p) p.scheduler.system).0
  end_in_sequence-Moves gid event id false p =
      let s = (stop_zone id sequence_stop (world_at o p) p.scheduler.system).0 in
      let s₁ = end_zone id sequence_stop (world_at o p) p.scheduler in
      let q = update (record s₁ { system = plan_end id none s₁.system }) p in
      Moves-trans {s₂ = plan_end id none s} (plan_end-Moves only id none s) (
        Moves-refl only (plan_end id none s) _
          (ap (λ (t : System). t.zones) (make_up-system event (clamp_early o.early_off_seconds) q)))

  water_in_sequence-Moves :
      (gid : ℕ) (event : Option ℕ) (id : ℕ) (z : Zone) (duration : ℕ) (p : Thread)
      → Moves only p.scheduler.system
          (water_in_sequence o gid event id z duration p).scheduler.system
  unfolding water_in_sequence
  water_in_sequence-Moves gid event id z duration p =
      let q = update (start_in_sequence gid id z duration (world_at o p) p.scheduler) p in
      let n = duration * 60 - clamp_early o.early_off_seconds in
      let r = wait o (λ s. event) gid n q in
      Moves-trans {s₂ = (stop_zone id sequence_stop (world_at o r.0) r.0.scheduler.system).0}
        (stopped-Moves only id sequence_stop (world_at o r.0) p.scheduler.system
          r.0.scheduler.system
          (Moves-trans {s₂ = q.scheduler.system}
            (start_in_sequence-Moves (or_zone only id) gid id z duration (world_at o p) p.scheduler
              (ground (arith, nat_beq_iff id id)))
            (Moves-wider only (or_zone only id) (λ i h. rw h refl)
              (wait-Moves only o allowed (λ s. event) gid n q))))
        (end_in_sequence-Moves gid event id r.1 r.0)

  run_in_sequence-Moves :
      (gid : ℕ) (event minutes percent : Option ℕ) (manual : Bool) (id : ℕ) (p : Thread)
      → Moves only p.scheduler.system
          (run_in_sequence o gid event minutes percent manual id p).scheduler.system
  unfolding run_in_sequence
  run_in_sequence-Moves gid event minutes percent manual id p =
      let q = update (clear_stale gid p.scheduler) p in
      let stale =
        Moves-refl only p.scheduler.system q.scheduler.system
          (ap (λ (s : System). s.zones) (clear_stale-system gid p.scheduler)) in
      elim (Option-cases (lookup id q.scheduler.system.zones)) [
        | inl missing ↦ rw (run_in_sequence, missing) stale
        | inr (z, there) ↦
            (let d = duration_of o manual (per_zone_dur z.duration minutes percent).0 q in
              rw (run_in_sequence, there)
                (elim (Bool-cases (nat_beq d 0)) [
                  | inl nothing ↦ rw nothing stale
                  | inr some_time ↦ rw some_time (
                      Moves-trans {s₂ = q.scheduler.system} stale
                        (water_in_sequence-Moves gid event id z d q))
                ]))
      ]

  run_sequence-Moves :
      (gid : ℕ) (event minutes percent : Option ℕ) (manual : Bool) (ids : List ℕ) (p : Thread)
      → Moves only p.scheduler.system
          (run_sequence o gid event minutes percent manual ids p).scheduler.system
  unfolding run_sequence
  run_sequence-Moves gid event minutes percent manual [] p =
      Moves-refl only p.scheduler.system p.scheduler.system refl
  run_sequence-Moves gid event minutes percent manual (id ∷ ids) p =
      let q = look o p in
      let r = run_in_sequence o gid event minutes percent manual id q in
      let seen = look-Moves only o allowed p in
      elim (Bool-cases (event_is_set event q.scheduler)) [
        | inl cancelled ↦ rw (run_sequence, cancelled) seen
        | inr goes_on ↦
            rw (run_sequence, goes_on)
              (Moves-trans {s₂ = q.scheduler.system} seen (
                Moves-trans {s₂ = r.scheduler.system}
                  (run_in_sequence-Moves gid event minutes percent manual id q)
                  (run_sequence-Moves gid event minutes percent manual ids r)))
      ]

  run_group_sequence-Moves :
      (gid : ℕ) (ids : List ℕ) (minutes percent : Option ℕ) (manual : Bool) (s : Scheduler)
      → Moves only s.system (run_group_sequence o gid ids minutes percent manual s).system
  unfolding run_group_sequence
  run_group_sequence-Moves gid ids minutes percent manual s =
      let event = lookup gid s.group_cancel_events in
      let p : Thread = record { scheduler = s; looks = 0; clock = 0 } in
      let q = run_sequence o gid event minutes percent manual ids p in
      elim (Bool-cases (not manual && o.should_skip)) [
        | inl skips ↦
            rw (run_group_sequence, skips)
              (Moves-refl only s.system _ (
                ap (λ (t : System). t.zones)
                  (end_sequence-system gid event (add_log (group_weather_skip gid) s))))
        | inr runs ↦
            rw (run_group_sequence, runs)
              (Moves-trans {s₂ = q.scheduler.system}
                (run_sequence-Moves gid event minutes percent manual ids p)
                (Moves-refl only q.scheduler.system _ (
                  ap (λ (t : System). t.zones)
                    (end_sequence-system gid event
                      (add_log (group_seq_complete gid ids) q.scheduler)))))
      ]

-- Whatever reaches a run of a group's sequence while it waits, cancels and skips included: a zone that
-- was neither on nor starting before the run, and that no request in the meantime starts, is neither
-- of them after the run.
pub run_group_sequence-rests :
    (only : ℕ → Bool) (o : Outside) (gid : ℕ) (ids : List ℕ) (minutes percent : Option ℕ)
    (manual : Bool) (s : Scheduler) (i : ℕ)
    → ((n : ℕ) → All (λ (r : Request × World). Allows only r.0) (o.others n))
    → only i ≡ false
    → is_on_or_starting i s.system ≡ false
    → is_on_or_starting i (run_group_sequence o gid ids minutes percent manual s).system ≡ false
run_group_sequence-rests only o gid ids minutes percent manual s i allowed foreign off =
    Moves-off i (run_group_sequence-Moves only o allowed gid ids minutes percent manual s) foreign
      off
