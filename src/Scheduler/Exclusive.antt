-- ===== src/Scheduler/Exclusive.antt =====
-- Mutual exclusion in a group while a program of irrigation_scheduler.py runs.
use irrigation.Base.{
  ℕ, ◌≡◌, ◌≢◌, ◌∙◌, refl, sym, ap, subst, inl, inr, Bool, false, not, List, [], ◌∷◌, none, some,
  ◌+◌, ◌*◌, length, ◌==◌, nat_eq, nat_beq, nat_beq_iff, Bool-cases, Option-cases,
}
use irrigation.Base.Maps.{lookup}
use irrigation.ZoneControl.{System, World, in_group, update_zone_state}
use irrigation.ZoneControl.Master.{active, is_on_or_starting}
use irrigation.ZoneControl.Start.{peers_of, exclusive_start_zone}
use irrigation.ZoneControl.Stop.{stop_zone}
use irrigation.ZoneControl.Quiet.{Moves, Moves-trans, Moves-in_group, Moves-update_zone_state}
use irrigation.ZoneControl.Trace.{
  IsExclusive, Moves-IsExclusive, own-start, start-IsExclusive, foreign-IsExclusive,
  perform-IsExclusive,
}
use irrigation.Scheduler.{Scheduler}
use irrigation.Scheduler.Waiting.{
  Request, skip_current_zone, cancel_group, control, shut_down, serve, serve_all, Outside,
}
use irrigation.Scheduler.Program.{
  peers_off, to_scheduled, switch_zones, start_scheduled, auto_stop, run_session, register_sessions,
  program_gids, blocking_gids, run_program,
}
use irrigation.Scheduler.Moving.{
  clear_expired-Moves, Moves-narrower, peers_off-Moves, plan_end-Moves, stop_zone-Moves,
  serve-Moves,
}
use irrigation.Scheduler.Kept.{IsKept, run_session-keeps}
use irrigation.Scheduler.Resting.{start_scheduled-system, register_sessions-system, clean_up-system}

-- A zone that is on neither before nor after does not count.
missing-Moves :
    (id : ℕ) (s s' : System)
    → lookup id s'.zones ≡ none
    → Moves (λ i. i == id) s s'
    → Moves (λ _. false) s s'
missing-Moves id s s' missing m =
    Moves-narrower (λ i. i == id) (λ _. false)
      (λ i h. inr (ap (λ k. is_on_or_starting k s') ((nat_beq_iff i id).0 h) ∙ ap active missing)) m

switch_zones-IsExclusive :
    (gid id g : ℕ) (w : World) (s : System)
    → gid ≢ 0
    → IsExclusive gid s
    → IsExclusive gid (switch_zones id g w s)
unfolding switch_zones
switch_zones-IsExclusive gid id g w s n h =
    let s₁ = peers_off w (peers_of id g s) s in
    let s₂ = update_zone_state id (to_scheduled w) "scheduled_start" s₁ in
    let m = Moves-trans {s₂ = s₁} (peers_off-Moves (λ i. i == id) w (peers_of id g s) s) (
      Moves-update_zone_state (λ i. i == id) id (to_scheduled w) "scheduled_start" s₁
        (rw ((nat_beq_iff id id).1 refl) refl)) in
    elim (Option-cases (lookup id s₂.zones)) [
      | inl missing ↦
          start-IsExclusive gid id "program" w s₂ n
            (Moves-IsExclusive gid s s₂ (missing-Moves id s s₂ missing m) h)
      | inr (z, there) ↦ elim (Bool-cases (z.group_id == gid)) [
        | inl same ↦
            (let e = (nat_beq_iff z.group_id gid).0 same in
              subst (λ k. IsExclusive k (exclusive_start_zone id "program" w s₂).0) e
                (own-start id "program" w s₂ z there (λ zero. n (sym e ∙ zero))))
        | inr another ↦ start-IsExclusive gid id "program" w s₂ n (
            foreign-IsExclusive gid id s s₂
              (sym (Moves-in_group gid id m) ∙ ap (in_group gid) there ∙ another) m h)
      ]
    ]

stop_zone-IsExclusive :
    (gid id : ℕ) (w : World) (s : System)
    → IsExclusive gid s
    → IsExclusive gid (stop_zone id auto_stop w s).0
stop_zone-IsExclusive gid id w s h =
    Moves-IsExclusive gid s _ (stop_zone-Moves (λ _. false) id auto_stop w s) h

start_scheduled-IsExclusive :
    (gid id g duration : ℕ) (w : World) (s : Scheduler)
    → gid ≢ 0
    → IsExclusive gid s.system
    → IsExclusive gid (start_scheduled id g duration w s).system
start_scheduled-IsExclusive gid id g duration w s n h =
    let s₁ = switch_zones id g w s.system in
    rw (start_scheduled-system id g duration w s) (
      Moves-IsExclusive gid s₁ _ (plan_end-Moves (λ _. false) id (some (w.time + duration * 60)) s₁)
        (switch_zones-IsExclusive gid id g w s.system n h))

serve-IsExclusive :
    (gid : ℕ) (r : Request) (w : World) (s : Scheduler)
    → gid ≢ 0
    → IsExclusive gid s.system
    → IsExclusive gid (serve r w s).system
unfolding serve
serve-IsExclusive gid (skip_current_zone g now) w s n h =
    Moves-IsExclusive gid s.system _ (serve-Moves (λ _. false) (skip_current_zone g now) w s tt) h
serve-IsExclusive gid (cancel_group g immediate) w s n h =
    Moves-IsExclusive gid s.system _ (serve-Moves (λ _. false) (cancel_group g immediate) w s tt) h
serve-IsExclusive gid (control event) w s n h = perform-IsExclusive gid event w s.system n h
serve-IsExclusive gid shut_down w s n h = h

serve_all-IsExclusive :
    (gid : ℕ) (requests : List (Request × World)) (s : Scheduler)
    → gid ≢ 0
    → IsExclusive gid s.system
    → IsExclusive gid (serve_all requests s).system
unfolding serve_all
serve_all-IsExclusive gid [] s n h = h
serve_all-IsExclusive gid ((r, w) ∷ requests) s n h =
    serve_all-IsExclusive gid requests (serve r w s) n (serve-IsExclusive gid r w s n h)

IsExclusive-IsKept : (gid : ℕ) (o : Outside) → gid ≢ 0 → IsKept o (λ s. IsExclusive gid s.system)
IsExclusive-IsKept gid o real = record {
  requests = λ n s h. serve_all-IsExclusive gid (o.others n) s real h;
  skip = λ g s h. h;
  expired =
      λ id z s h. Moves-IsExclusive gid s.system _ (clear_expired-Moves (λ _. false) id z s) h;
  start =
      λ id g duration w s member free h. start_scheduled-IsExclusive gid id g duration w s real h;
  stop = λ id w s h. stop_zone-IsExclusive gid id w s.system h;
  logged = λ entry s plain h. h;
}

-- If at most one zone of a group, other than group 0, is on or starting when a program begins to run,
-- at most one is so when the run is over, whatever others start, stop, skip and cancel in the
-- meantime.
pub run_program-IsExclusive :
    (gid : ℕ) (o : Outside) (pid : ℕ) (zones : List ℕ) (manual : Bool) (s : Scheduler)
    → gid ≢ 0
    → IsExclusive gid s.system
    → IsExclusive gid (run_program o pid zones manual s).system
unfolding run_program
run_program-IsExclusive gid o pid zones manual s n h =
    let gids = program_gids zones s.system in
    let s₁ = (register_sessions gids s).0 in
    let registered = (register_sessions gids s).1 in
    let s₂ = run_session o pid zones manual s₁ in
    elim (Bool-cases (not (nat_beq (length (blocking_gids gids s)) 0))) [
      | inl blocked ↦ rw (run_program, blocked) h
      | inr free ↦
          rw (run_program, free, clean_up-system registered s₂)
            (run_session-keeps o _ (IsExclusive-IsKept gid o n) pid zones manual s₁
              (rw (register_sessions-system gids s) h))
    ]
