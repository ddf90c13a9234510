-- ===== src/Scheduler/Halted.antt =====
-- What a run of a program of irrigation_scheduler.py still starts in a group that is cancelled.
use irrigation.Base.{
  ℕ, ◌≡◌, ◌∙◌, refl, sym, ap, inl, inr, Bool, true, false, List, [], ◌∷◌, ◌++◌, Option, none, some,
  arith, ◌+◌, ◌*◌, keep_if, keep_if-append, nat_eq, Bool-cases, Option-cases,
}
use mathlib.Core.List.{append-nil}
use irrigation.Base.Maps.{lookup}
use irrigation.ZoneControl.{Zone, System, World, in_group, zones_by_group}
use irrigation.ZoneControl.Quiet.{Moves, Moves-refl, Moves-trans, Moves-in_group}
use irrigation.ZoneControl.Trace.{
  start, stop_one, stop_group, emergency_stop, emergency_retry, emergency_close, timer,
}
use irrigation.Scheduler.{
  Scheduler, Log, zone_auto_start, program_start, program_finish, program_weather_skip,
  prog_skipped_manual_running, zone_skip, group_weather_skip, group_seq_zone_start,
  group_seq_complete, postpone_expired, zone_auto_stop, is_cancelled, request_skip_current_zone,
  add_log, event_is_set,
}
use irrigation.Scheduler.Jobs.{cancel_group_jobs, set_cancel, halt_group, schedule_zone_hard_stop}
use irrigation.Scheduler.Waiting.{
  Request, skip_current_zone, cancel_group, control, shut_down, serve, serve_all, Outside, Thread,
}
use irrigation.Scheduler.Program.{
  start_scheduled, clear_expired, end_zone, auto_stop, switch_zones, run_zones,
}
use irrigation.Scheduler.Moving.{
  Allows, serve-Moves, switch_zones-Moves, plan_end-Moves, stop_zone-Moves, clear_expired-Moves,
}
use irrigation.Scheduler.Sessions.{serve-events}
use irrigation.Scheduler.Cancelling.{cancel_each-cancelled}
use irrigation.Scheduler.Sparing.{cancel_group_jobs-Spares}
use irrigation.Scheduler.Kept.{clear_expired-cancelled, is_start, IsKept, run_zones-keeps}

-- The entries for starts of zones of the group.
abbrev pub is_start_in : (gid : ℕ) → System → Log → Bool
is_start_in gid s (zone_auto_start id duration end_time) = in_group gid (lookup id s.zones)
is_start_in gid s _ = false

abbrev pub starts_in : (gid : ℕ) → System → List Log → List Log
starts_in gid s log = keep_if (is_start_in gid s) log

-- The group is cancelled, it has the zones that it had, and none of them has been started since.
pub record IsHalted (gid : ℕ) (before : Scheduler) (s : Scheduler) : Type 0 where
  pub cancelled : is_cancelled gid s ≡ true
  pub members :
      (i : ℕ) → in_group gid (lookup i s.system.zones) ≡ in_group gid (lookup i before.system.zones)
  pub starts : starts_in gid before.system s.log ≡ starts_in gid before.system before.log

allowed : (r : Request) → Allows (λ _. true) r
allowed (skip_current_zone gid now) = tt
allowed (cancel_group gid immediate) = tt
allowed (control (start id source)) = refl
allowed (control (stop_one id stop)) = tt
allowed (control (stop_group gid stop)) = tt
allowed (control (emergency_stop gids reason)) = tt
allowed (control (emergency_retry gids reason)) = tt
allowed (control (emergency_close groups)) = tt
allowed (control (timer key)) = tt
allowed shut_down = tt

-- No request starts a zone of the program.
serve-log : (r : Request) (w : World) (s : Scheduler) → (serve r w s).log ≡ s.log
unfolding serve request_skip_current_zone
serve-log (skip_current_zone gid now) w s = ground arith
serve-log (cancel_group gid immediate) w s = (cancel_group_jobs-Spares gid immediate w s).log
serve-log (control event) w s = refl
serve-log shut_down w s = refl

-- An event that is set stays so when another one is set.
set_cancel-cancelled :
    (g gid : ℕ) (s : Scheduler)
    → is_cancelled gid s ≡ true
    → is_cancelled gid (set_cancel g s) ≡ true
set_cancel-cancelled g gid s h = elim (Option-cases (lookup g s.group_cancel_events)) [
  | inl free ↦ rw (set_cancel, free) h
  | inr (e, held) ↦
      rw (set_cancel, held)
        (elim (Option-cases (lookup gid s.group_cancel_events)) [
          | inl free ↦ (let clash : false ≡ true = rw free at h in cc)
          | inr (e', there) ↦ rw there (let is : s.is_set e' ≡ true = rw there at h in ground arith)
        ])
]

skip-is_set :
    (gid now : ℕ) (s : Scheduler) → (request_skip_current_zone gid now s).0.is_set ≡ s.is_set
unfolding request_skip_current_zone
skip-is_set gid now s = ground arith

serve-cancelled :
    (gid : ℕ) (r : Request) (w : World) (s : Scheduler)
    → is_cancelled gid s ≡ true
    → is_cancelled gid (serve r w s) ≡ true
unfolding serve cancel_group_jobs halt_group
serve-cancelled gid (skip_current_zone g now) w s h =
    ap (λ events. event_is_set (lookup gid events) (request_skip_current_zone g now s).0)
      (unfold serve in serve-events (skip_current_zone g now) w s)
    ∙ ap
        (λ (is : ℕ → Bool).
          event_is_set (lookup gid s.group_cancel_events) (record s { is_set = is }))
        (skip-is_set g now s)
    ∙ h
serve-cancelled gid (cancel_group g immediate) w s h =
    let s₁ = halt_group g immediate w s in
    cancel_each-cancelled (zones_by_group g s₁.system) gid s₁ ∙ set_cancel-cancelled g gid s h
serve-cancelled gid (control event) w s h = h
serve-cancelled gid shut_down w s h = h

clear_expired-log : (id : ℕ) (z : Zone) (s : Scheduler) → (clear_expired id z s).log ≡ s.log
clear_expired-log id z s = elim (Option-cases z.postpone_until) [
  | inl never ↦ rw (clear_expired, never) refl
  | inr (t, there) ↦ rw (clear_expired, there) refl
]

one_group : (g gid : ℕ) (o : Option Zone) → in_group g o ≡ true → in_group gid o ≡ true → g ≡ gid
one_group g gid none h k = ground arith
one_group g gid (some z) h k = ground arith

plain_start :
    (gid : ℕ) (s : System) (entry : Log) → is_start entry ≡ false → is_start_in gid s entry ≡ false
plain_start gid s (zone_auto_start id d t) h = ground arith
plain_start gid s (program_start pid) h = refl
plain_start gid s (program_finish pid) h = refl
plain_start gid s (program_weather_skip pid) h = refl
plain_start gid s (prog_skipped_manual_running pid gids) h = refl
plain_start gid s (zone_skip g id) h = refl
plain_start gid s (group_weather_skip g) h = refl
plain_start gid s (group_seq_zone_start g id d) h = refl
plain_start gid s (group_seq_complete g ids) h = refl
plain_start gid s (postpone_expired id) h = refl
plain_start gid s (zone_auto_stop id) h = refl

module _ (gid : ℕ) (before : Scheduler) where
  serve-IsHalted :
      (r : Request) (w : World) (s : Scheduler)
      → IsHalted gid before s
      → IsHalted gid before (serve r w s)
  serve-IsHalted r w s h = record {
    cancelled = serve-cancelled gid r w s h.cancelled;
    members = λ i. Moves-in_group gid i (serve-Moves (λ _. true) r w s (allowed r)) ∙ h.members i;
    starts = ap (starts_in gid before.system) (serve-log r w s) ∙ h.starts;
  }

  serve_all-IsHalted :
      (requests : List (Request × World)) (s : Scheduler)
      → IsHalted gid before s
      → IsHalted gid before (serve_all requests s)
  unfolding serve_all
  serve_all-IsHalted [] s h = h
  serve_all-IsHalted ((r, w) ∷ requests) s h =
      serve_all-IsHalted requests (serve r w s) (serve-IsHalted r w s h)

  -- A step that does nothing to the sessions and logs no start of a zone of the group.
  halted :
      (s s' : Scheduler)
      → is_cancelled gid s' ≡ is_cancelled gid s
      → Moves (λ _. true) s.system s'.system
      → starts_in gid before.system s'.log ≡ starts_in gid before.system s.log
      → IsHalted gid before s
      → IsHalted gid before s'
  halted s s' cancelled m log h = record {
    cancelled = cancelled ∙ h.cancelled;
    members = λ i. Moves-in_group gid i m ∙ h.members i;
    starts = log ∙ h.starts;
  }

  unlogged :
      (entry : Log) (log : List Log)
      → is_start_in gid before.system entry ≡ false
      → starts_in gid before.system (log ++ entry ∷ []) ≡ starts_in gid before.system log
  unlogged entry log h =
      keep_if-append (is_start_in gid before.system) log (entry ∷ [])
      ∙ rw h (append-nil (starts_in gid before.system log))

  foreign :
      (id g : ℕ) (s : Scheduler)
      → IsHalted gid before s
      → in_group g (lookup id s.system.zones) ≡ true
      → is_cancelled g s ≡ false
      → in_group gid (lookup id before.system.zones) ≡ false
  foreign id g s h member free = elim (Bool-cases (in_group gid (lookup id before.system.zones))) [
    | inr another ↦ another
    | inl own ↦
        (let e = one_group g gid (lookup id s.system.zones) member (h.members id ∙ own) in
          let clash : false ≡ true = sym free ∙ ap (λ k. is_cancelled k s) e ∙ h.cancelled in cc)
  ]

  start-IsHalted :
      (id g d : ℕ) (w : World) (s : Scheduler)
      → in_group g (lookup id s.system.zones) ≡ true
      → is_cancelled g s ≡ false
      → IsHalted gid before s
      → IsHalted gid before (start_scheduled id g d w s)
  unfolding start_scheduled schedule_zone_hard_stop
  start-IsHalted id g d w s member free h =
      let s₁ = switch_zones id g w s.system in
      halted s (start_scheduled id g d w s) refl
        (Moves-trans {s₂ = s₁} (switch_zones-Moves (λ _. true) id g w s.system refl)
          (plan_end-Moves (λ _. true) id (some (w.time + d * 60)) s₁))
        (unlogged (zone_auto_start id d (w.time + d * 60)) s.log (foreign id g s h member free)) h

  IsHalted-IsKept : (o : Outside) → IsKept o (IsHalted gid before)
  IsHalted-IsKept o = record {
    requests = λ n s h. serve_all-IsHalted (o.others n) s h;
    skip = λ g s h. record { cancelled = h.cancelled; members = h.members; starts = h.starts };
    expired = λ id z s h.
        halted s (clear_expired id z s) (clear_expired-cancelled gid id z s)
          (clear_expired-Moves (λ _. true) id z s)
          (ap (starts_in gid before.system) (clear_expired-log id z s)) h;
    start = λ id g d w s member free h. start-IsHalted id g d w s member free h;
    stop = λ id w s h.
        halted s (end_zone id auto_stop w s) refl
          (stop_zone-Moves (λ _. true) id auto_stop w s.system) refl h;
    logged = λ entry s plain h.
        halted s (add_log entry s) refl (Moves-refl (λ _. true) s.system s.system refl)
          (unlogged entry s.log (plain_start gid before.system entry plain)) h;
  }

-- A run of a program that goes on with its remaining zones when a group is cancelled starts no zone
-- of the group any more, and the group stays cancelled until the run is over, whatever skips, cancels,
-- calls of the zone control and shutdowns are requested meanwhile. This is about times at which no
-- other program or sequence comes to its end, which could take the session of the group away, and a
-- request counts from the next time the run looks around.
pub run_zones-halted :
    (gid : ℕ) (o : Outside) (manual : Bool) (ids : List ℕ) (p : Thread)
    → is_cancelled gid p.scheduler ≡ true
    → let s' = (run_zones o manual ids p).scheduler in
      (is_cancelled gid s' ≡ true)
      × (starts_in gid p.scheduler.system s'.log ≡ starts_in gid p.scheduler.system p.scheduler.log)
run_zones-halted gid o manual ids p cancelled =
    let before = p.scheduler in
    let h =
      run_zones-keeps o (IsHalted gid before) (IsHalted-IsKept gid before o) manual ids p
        (record { cancelled = cancelled; members = λ i. refl; starts = refl }) in
    (h.cancelled, h.starts)
