-- ===== src/Scheduler/Waiting.antt =====
-- What a thread of irrigation_scheduler.py meets while it waits for the end of a zone: the requests
-- of the others, and the signals that it looks for each second.
-- All the time that passes is that of the waits; what others do counts when the thread looks next.
use irrigation.Base.{
  ℕ, zero, suc, ◌≡◌, refl, ◌⊎◌, inl, inr, ◌||◌, ◌+◌, ◌*◌, ◌/◌, ◌%◌, max, Bool, true, false, List,
  [], ◌∷◌, Option, none, some, ltb, if◌then◌else◌, nat_eq, nat_beq,
}
use irrigation.Base.Maps.{lookup}
use irrigation.ZoneControl.{World}
use irrigation.ZoneControl.Trace.{Event, perform}
use irrigation.Scheduler.{
  Scheduler, with_system, event_is_set, is_skipped, clear_skip, request_skip_current_zone,
}
use irrigation.Scheduler.Jobs.{cancel_group_jobs}

-- What others do while a run waits. Other programs and sequences, and with them the end of one that
-- shares the session of a group, are left out.
pub data Request : Type 0 where
  skip_current_zone : (gid now : ℕ) → Request
  cancel_group : (gid : ℕ) → (master_close_immediately : Bool) → Request
  -- A call of the zone control.
  control : Event → Request
  shut_down : Request

unfoldable pub serve : Request → World → Scheduler → Scheduler
unfolding request_skip_current_zone cancel_group_jobs
serve (skip_current_zone gid now) w s = (request_skip_current_zone gid now s).0
serve (cancel_group gid immediate) w s = cancel_group_jobs gid immediate w s
serve (control event) w s = with_system (perform event w s.system) s
serve shut_down w s = record s { shutdown = true }

unfoldable pub serve_all : List (Request × World) → Scheduler → Scheduler
unfolding serve
serve_all [] s = s
serve_all ((r, w) ∷ requests) s = serve_all requests (serve r w s)

-- What a run meets, by how often the thread has looked, with the time at which it began.
pub record Outside : Type 0 where
  pub time : ℕ
  pub now : ℕ
  pub world : ℕ → World
  pub others : ℕ → List (Request × World)
  -- The coefficient of the weather in percent, if the adjustment is enabled.
  pub coefficient : ℕ → Option ℕ
  -- Is the adjustment enabled, and says that watering should be skipped?
  pub should_skip : Bool
  -- `is_program_run_cancelled_for_group` of today for the program.
  pub cancelled_today : (look gid : ℕ) → Bool
  pub early_off_seconds : ℕ

pub record Thread : Type 0 where
  pub scheduler : Scheduler
  pub looks : ℕ
  pub clock : ℕ

abbrev pub world_at : Outside → Thread → World
world_at o p = record (o.world p.looks) { time = o.time + p.clock; now = o.now + p.clock * 1000 }

abbrev pub update : Scheduler → Thread → Thread
update s p = record p { scheduler = s }

abbrev pub pass : (seconds : ℕ) → Thread → Thread
pass n p = record p { clock = p.clock + n }

unfoldable pub look : Outside → Thread → Thread
unfolding serve_all
look o p = record p { scheduler = serve_all (o.others p.looks) p.scheduler; looks = suc p.looks }

-- The event of a group's session: a program asks for it at each look, a sequence at its beginning.
abbrev pub Session : Type 0
Session = Scheduler → Option ℕ

abbrev pub session_of : (gid : ℕ) → Session
session_of gid s = lookup gid s.group_cancel_events

pub data Signal : Type 0 where
  cancel skip halt proceed : Signal

abbrev pub signal_of : Session → (gid : ℕ) → Scheduler → Signal
signal_of session gid s =
    if event_is_set (session s) s
    then cancel
    else (if is_skipped gid s then skip else (if s.shutdown then halt else proceed))

pub Signal-cases : (s : Signal) → (s ≡ cancel) ⊎ (s ≡ skip) ⊎ (s ≡ halt) ⊎ (s ≡ proceed)
Signal-cases cancel = inl refl
Signal-cases skip = inr (inl refl)
Signal-cases halt = inr (inr (inl refl))
Signal-cases proceed = inr (inr (inr refl))

-- The loop over the seconds that a zone runs, and whether the zone was skipped.
unfoldable pub wait : Outside → Session → (gid : ℕ) → (remaining : ℕ) → Thread → Thread × Bool
unfolding look
wait o session gid zero p = (p, false)
wait o session gid (suc n) p =
    let q = look o p in
    elim (signal_of session gid q.scheduler) [
      | cancel ↦ (q, false)
      | skip ↦ (update (clear_skip gid q.scheduler) q, true)
      | halt ↦ (q, false)
      | proceed ↦ wait o session gid n (pass 1 q)
    ]

abbrev pub has_ended : (gid : ℕ) → Scheduler → Bool
has_ended gid s = event_is_set (session_of gid s) s || s.shutdown

-- The rest of the time of a program's zone that was switched off early.
unfoldable pub wait_early : Outside → (gid : ℕ) → (remaining : ℕ) → Thread → Thread
unfolding look
wait_early o gid zero p = p
wait_early o gid (suc n) p =
    let q = look o p in
    elim (has_ended gid q.scheduler) [ true ↦ q | false ↦ wait_early o gid n (pass 1 q) ]

-- `round` to the nearest, to the even one in the middle.
abbrev pub round_percent : ℕ → ℕ
round_percent n =
    let q = n / 100 in
    let r = n % 100 in if ltb r 50 then q else (if ltb 50 r then q + 1 else q + q % 2)

-- `_get_weather_adjusted_duration`
unfoldable pub weather_adjusted : (coefficient : Option ℕ) → (base : ℕ) → ℕ
weather_adjusted none base = base
weather_adjusted (some c) base = if nat_beq c 0 then 0 else max 1 (round_percent (base * c))
