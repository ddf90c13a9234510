-- ===== src/Scheduler/Sessions.antt =====
-- The sessions of the groups over a run of a program of irrigation_scheduler.py.
pub mod Registering
pub mod Releasing
use irrigation.Base.{
  ℕ, ◌≡◌, ◌∙◌, refl, sym, ap, inl, inr, Bool, not, List, [], ◌∷◌, arith, length, ◌==◌, nat_eq,
  nat_beq, if◌then◌else◌, Bool-cases, Option-cases,
}
use irrigation.Base.Maps.{lookup}
use irrigation.ZoneControl.{World}
use irrigation.Scheduler.{Scheduler, request_skip_current_zone}
use irrigation.Scheduler.Jobs.{schedule_zone_hard_stop}
use irrigation.Scheduler.Waiting.{
  Request, skip_current_zone, cancel_group, control, shut_down, serve, serve_all, Outside,
}
use irrigation.Scheduler.Program.{
  start_scheduled, program_gids, register_sessions, clean_up, run_session, blocking_gids,
  run_program,
}
use irrigation.Scheduler.Sparing.{cancel_group_jobs-Spares}
use irrigation.Scheduler.Kept.{IsKept, run_session-keeps}
use irrigation.Scheduler.Sessions.Registering.{
  event_of, register_sessions-held, register_sessions-none,
}
use irrigation.Scheduler.Sessions.Releasing.{clean_up-free, clean_up-other, clean_up-own}

-- The same groups have the same events.
abbrev pub Keeps : List (ℕ × ℕ) → Scheduler → Type 0
Keeps events s = s.group_cancel_events ≡ events

request_skip-events :
    (gid now : ℕ) (s : Scheduler)
    → (request_skip_current_zone gid now s).0.group_cancel_events ≡ s.group_cancel_events
unfolding request_skip_current_zone
request_skip-events gid now s = ground arith

pub serve-events :
    (r : Request) (w : World) (s : Scheduler)
    → (serve r w s).group_cancel_events ≡ s.group_cancel_events
unfolding serve
serve-events (skip_current_zone gid now) w s = request_skip-events gid now s
serve-events (cancel_group gid immediate) w s = (cancel_group_jobs-Spares gid immediate w s).events
serve-events (control event) w s = refl
serve-events shut_down w s = refl

serve_all-events :
    (requests : List (Request × World)) (s : Scheduler)
    → (serve_all requests s).group_cancel_events ≡ s.group_cancel_events
unfolding serve_all
serve_all-events [] s = refl
serve_all-events ((r, w) ∷ requests) s =
    serve_all-events requests (serve r w s) ∙ serve-events r w s

start_scheduled-events :
    (id gid duration : ℕ) (w : World) (s : Scheduler)
    → (start_scheduled id gid duration w s).group_cancel_events ≡ s.group_cancel_events
unfolding start_scheduled schedule_zone_hard_stop
start_scheduled-events id gid duration w s = refl

Keeps-IsKept : (o : Outside) (events : List (ℕ × ℕ)) → IsKept o (Keeps events)
Keeps-IsKept o events = record {
  requests = λ n s h. serve_all-events (o.others n) s ∙ h;
  skip = λ gid s h. h;
  expired = λ id z s h. ground arith;
  start = λ id gid duration w s member free h. start_scheduled-events id gid duration w s ∙ h;
  stop = λ id w s h. h;
  logged = λ entry s plain h. h;
}

-- What was registered is cleaned up, if nobody else touches the events in between.
clean_up-register :
    (gids : List ℕ) (k : ℕ) (s t : Scheduler)
    → t.group_cancel_events ≡ (register_sessions gids s).0.group_cancel_events
    → event_of k (clean_up (register_sessions gids s).1 t) ≡ event_of k s
clean_up-register gids k s t same = elim (Option-cases (event_of k s)) [
  | inr (e, held) ↦
      (let (absent, kept) = register_sessions-held gids k s e held in
        clean_up-other (register_sessions gids s).1 k t absent
        ∙ ap (lookup k) same
        ∙ kept
        ∙ sym held)
  | inl free ↦
      (let found = ap (lookup k) same ∙ register_sessions-none gids k s free in
        (elim (Option-cases (lookup k (register_sessions gids s).1)) [
          | inl absent ↦ clean_up-free (register_sessions gids s).1 k t (found ∙ absent)
          | inr (e, listed) ↦
              clean_up-own (register_sessions gids s).1 k e t listed (found ∙ listed)
        ])
        ∙ sym free)
]

-- After a run of a program, blocked or not, and whatever skips, cancels and stops reach it, each group
-- has the very event that it had before, or none if it had none: the run gives up the sessions that
-- it has opened and no others.
pub run_program-sessions :
    (o : Outside) (pid : ℕ) (zones : List ℕ) (manual : Bool) (s : Scheduler) (gid : ℕ)
    → lookup gid (run_program o pid zones manual s).group_cancel_events
      ≡ lookup gid s.group_cancel_events
unfolding run_program
run_program-sessions o pid zones manual s gid =
    let gids = program_gids zones s.system in
    let s₁ = (register_sessions gids s).0 in
    let t = run_session o pid zones manual s₁ in
    elim (Bool-cases (not (nat_beq (length (blocking_gids gids s)) 0))) [
      | inl blocked ↦ rw (run_program, blocked) refl
      | inr free ↦
          rw (run_program, free)
            (clean_up-register gids gid s t (
              run_session-keeps o _ (Keeps-IsKept o s₁.group_cancel_events) pid zones manual s₁
                refl))
    ]
