-- ===== src/Scheduler/Stranding.antt =====
-- A sequence of irrigation_scheduler.py that is cancelled before its job has run.
use irrigation.Base.{
  ℕ, ◌≡◌, ◌∙◌, refl, sym, ap, subst, inl, inr, Bool, true, false, List, [], ◌∷◌, Option, none, some,
  length, ◌&&◌, not, nat_eq, nat_beq, nat_beq_iff, Bool-cases, Option-cases,
}
use irrigation.Base.Maps.{lookup, erase, lookup-insert, lookup-erase}
use irrigation.ZoneControl.{World}
use irrigation.Scheduler.{
  event_is_set, release, add_log, group_weather_skip, group_seq_complete, group_seq, job_id, job_eq,
  Scheduler, is_some, is_cancelled, is_group_session_active, plant, with_system,
}
use irrigation.Scheduler.Jobs.{cancel_group_jobs}
use irrigation.Scheduler.Sequence.{
  end_sequence, run_sequence, run_group_sequence, start_group_sequence, sequence_zones, bulk_off,
}
use irrigation.Scheduler.Waiting.{Outside, look, serve_all}
use irrigation.Scheduler.Cancelling.{cancel_group_jobs-cancels}

plant-active : (gid : ℕ) (s : Scheduler) → is_group_session_active gid (plant gid s).0 ≡ true
unfolding plant
plant-active gid s = elim (Option-cases (lookup gid s.group_cancel_events)) [
  | inl free ↦
      rw (plant, free)
        (ap is_some (lookup-insert gid gid s.fresh s.group_cancel_events)
          ∙ rw ((nat_beq_iff gid gid).1 refl) refl)
  | inr (e, held) ↦ rw (plant, held) (ap is_some held)
]

start-active :
    (gid : ℕ) (minutes percent : Option ℕ) (zone_ids : Option (List ℕ)) (manual : Bool) (now : ℕ)
    (s : Scheduler)
    → (start_group_sequence gid minutes percent zone_ids manual now s).1 ≡ true
    → is_group_session_active gid (start_group_sequence gid minutes percent zone_ids manual now s).0
      ≡ true
unfolding start_group_sequence
start-active gid minutes percent zone_ids manual now s started =
    let ids = sequence_zones gid zone_ids s.system in
    elim (Bool-cases (nat_beq (length ids) 0)) [
      | inl nothing ↦
          (let clash : false ≡ true = rw (start_group_sequence, nothing) at started in cc)
      | inr found ↦
          rw (start_group_sequence, found)
            (plant-active gid (with_system (bulk_off ids s.system) s))
    ]

-- A group whose sequence has been started and is cancelled before the job of the sequence has begun:
-- the job is gone, and the session, which only the end of that job would have closed, stays open and
-- cancelled.
pub cancel_group_jobs-stranded :
    (gid : ℕ) (minutes percent : Option ℕ) (zone_ids : Option (List ℕ)) (manual : Bool) (now : ℕ)
    (immediate : Bool) (w : World) (s : Scheduler)
    → (start_group_sequence gid minutes percent zone_ids manual now s).1 ≡ true
    → let s' =
        cancel_group_jobs gid immediate w
          (start_group_sequence gid minutes percent zone_ids manual now s).0 in
      ((tag : List ℕ) → lookup (job_id group_seq gid tag) s'.jobs ≡ none)
      × (is_cancelled gid s' ≡ true)
cancel_group_jobs-stranded gid minutes percent zone_ids manual now immediate w s started =
    let s₁ = (start_group_sequence gid minutes percent zone_ids manual now s).0 in
    let (cancelled, stopped, jobs) = cancel_group_jobs-cancels gid immediate w s₁ in
    (
      λ tag. jobs (job_id group_seq gid tag) ∙ rw ((nat_beq_iff gid gid).1 refl) refl,
      cancelled ∙ start-active gid minutes percent zone_ids manual now s started,
    )

look-alone :
    (o : Outside) (s : Scheduler)
    → o.others 0 ≡ []
    → (look o (record { scheduler = s; looks = 0; clock = 0 })).scheduler ≡ s
unfolding look serve_all
look-alone o s alone = rw (look, alone) refl

run_sequence-cancelled :
    (o : Outside) (gid : ℕ) (event minutes percent : Option ℕ) (manual : Bool) (ids : List ℕ)
    (s : Scheduler)
    → event_is_set event s ≡ true
    → o.others 0 ≡ []
    → (run_sequence o gid event minutes percent manual ids
        (record { scheduler = s; looks = 0; clock = 0 })).scheduler
      ≡ s
unfolding run_sequence
run_sequence-cancelled o gid event minutes percent manual [] s set alone = refl
run_sequence-cancelled o gid event minutes percent manual (id ∷ ids) s set alone =
    let same = look-alone o s alone in rw (run_sequence, ap (event_is_set event) same ∙ set) same

erased : (gid : ℕ) (m : List (ℕ × ℕ)) → lookup gid (erase gid m) ≡ none
erased gid m = lookup-erase gid gid m ∙ rw ((nat_beq_iff gid gid).1 refl) refl

end_sequence-own :
    (gid e : ℕ) (s : Scheduler)
    → lookup gid s.group_cancel_events ≡ some e
    → (is_group_session_active gid (end_sequence gid (some e) s) ≡ false)
      × ((end_sequence gid (some e) s).system ≡ s.system)
unfolding release
end_sequence-own gid e s held =
    rw (end_sequence, release, held, (nat_beq_iff e e).1 refl)
      (ap is_some (erased gid s.group_cancel_events), refl)

-- A sequence of a group whose session is cancelled already, when nobody makes a request, does nothing
-- but close the session: no zone is written or switched. So the first start after a cancel that came
-- before the job is lost.
run_group_sequence-cancelled :
    (o : Outside) (gid : ℕ) (ids : List ℕ) (minutes percent : Option ℕ) (manual : Bool)
    (s : Scheduler)
    → is_cancelled gid s ≡ true
    → o.others 0 ≡ []
    → let s' = run_group_sequence o gid ids minutes percent manual s in
      (s'.system ≡ s.system) × (is_group_session_active gid s' ≡ false)
unfolding run_group_sequence
run_group_sequence-cancelled o gid ids minutes percent manual s cancelled alone =
    elim (Option-cases (lookup gid s.group_cancel_events)) [
      | inl free ↦ (let clash : false ≡ true = rw free at cancelled in cc)
      | inr (e, held) ↦
          (let event = lookup gid s.group_cancel_events in
            let ran =
              run_sequence-cancelled o gid event minutes percent manual ids s cancelled alone in
            elim (Bool-cases (not manual && o.should_skip)) [
              | inl skips ↦
                  (let ended = end_sequence-own gid e (add_log (group_weather_skip gid) s) held in
                    rw (run_group_sequence, skips, held) (ended.1, ended.0))
              | inr runs ↦
                  (let ended =
                      end_sequence-own gid e (add_log (group_seq_complete gid ids) s) held in
                    rw (run_group_sequence, runs)
                      (subst
                        (λ t.
                          let s' =
                            end_sequence gid event (add_log (group_seq_complete gid ids) t) in
                          (s'.system ≡ s.system) × (is_group_session_active gid s' ≡ false))
                        (sym ran) (rw held (ended.1, ended.0))))
            ])
    ]
