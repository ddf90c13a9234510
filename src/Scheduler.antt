-- ===== src/Scheduler.antt =====
-- IrrigationScheduler of irrigation_scheduler.py: its state, the sessions of the groups and the
-- requests that reach it while a program runs.
-- The state of the zones is that of the zone control.
pub mod Jobs
pub mod Programs
pub mod Recovery
pub mod Waiting
pub mod Program
pub mod Sequence
pub mod Boot
pub mod Steps
pub mod Rows
pub mod Moving
pub mod Resting
pub mod Kept
pub mod Sparing
pub mod Sessions
pub mod Cancelling
pub mod Resuming
pub mod Booting
pub mod Examples
pub mod Tracking
pub mod Planning
pub mod Stranding
pub mod Skipping
pub mod Halted
pub mod Undisturbed
pub mod Watering
pub mod OnTime
pub mod Starting
pub mod Weekly
pub mod Days
pub mod Exclusive
pub mod Sequencing
use irrigation.Base.{
  ℕ, ◌+◌, ◌-◌, ◌*◌, suc, Bool, true, false, not, List, [], ◌∷◌, ◌++◌, Option, none, some, ltb, ◌↔◌,
  ◌≡◌, if◌then◌else◌, ◌==◌, Key, nat_eq, nat_beq, nat_beq_iff, list_eq, list_beq, list_beq_iff,
  ◌&&◌, arith,
}
use irrigation.Base.Maps.{lookup, insert, erase, get_or}
use irrigation.ZoneControl.{System}

-- What the id of a job begins with.
pub data JobKind : Type 0 where
  zone_stop zone_hard_stop zone_cap_stop master_cap_close group_seq program_run program_recover :
      JobKind

abbrev pub kind_code : JobKind → ℕ
kind_code zone_stop = 0
kind_code zone_hard_stop = 1
kind_code zone_cap_stop = 2
kind_code master_cap_close = 3
kind_code group_seq = 4
kind_code program_run = 5
kind_code program_recover = 6

abbrev pub kind_beq : JobKind → JobKind → Bool
kind_beq k l = nat_beq (kind_code k) (kind_code l)

pub kind_beq_iff : (k l : JobKind) → (kind_beq k l ≡ true) ↔ (k ≡ l)
kind_beq_iff k l = ground arith

-- The id of a job: its kind, the number of the zone, group or program, and what follows.
pub record JobId : Type 0 where
  pub kind : JobKind
  pub number : ℕ
  pub tag : List ℕ

abbrev pub job_beq : JobId → JobId → Bool
job_beq a b = kind_beq a.kind b.kind && nat_beq a.number b.number && list_beq a.tag b.tag

pub job_beq_iff : (a b : JobId) → (job_beq a b ≡ true) ↔ (a ≡ b)
job_beq_iff a b =
    ground
      (arith, kind_beq_iff a.kind b.kind, nat_beq_iff a.number b.number, list_beq_iff a.tag b.tag)

instance abbrev pub job_eq : Key JobId
job_eq = record { eqb = job_beq; eqb_iff = job_beq_iff }

abbrev pub job_id : JobKind → ℕ → List ℕ → JobId
job_id kind number tag = record { kind = kind; number = number; tag = tag }

pub data Call : Type 0 where
  job_stop_zone : (zone_id : ℕ) → Call
  job_close_master_valve : (group_id : ℕ) → Call
  job_run_program : (program_id : ℕ) → (zones : List ℕ) → Call
  job_run_group_sequence :
      (group_id : ℕ)
      → (zone_ids : List ℕ) → (override_duration override_percent : Option ℕ) → (manual : Bool)
      → Call

pub data Trigger : Type 0 where
  date : (run_date : ℕ) → Trigger
  -- CronTrigger of a day of the week, of the even or of the odd days of the month.
  weekly : (day_of_week hour minute : ℕ) → Trigger
  monthly : (even : Bool) → (hour minute : ℕ) → Trigger
  interval : (days start_date : ℕ) → Trigger

pub record Job : Type 0 where
  pub call : Call
  pub trigger : Trigger

pub data Log : Type 0 where
  program_start program_finish program_weather_skip : (program_id : ℕ) → Log
  prog_skipped_manual_running : (program_id : ℕ) → (blocking_gids : List ℕ) → Log
  zone_auto_start : (zone_id duration end_time : ℕ) → Log
  zone_skip : (group_id zone_id : ℕ) → Log
  group_weather_skip : (group_id : ℕ) → Log
  group_seq_zone_start : (group_id zone_id duration : ℕ) → Log
  group_seq_complete : (group_id : ℕ) → (zones : List ℕ) → Log
  postpone_expired : (zone : ℕ) → Log
  zone_auto_stop : (zone_id : ℕ) → Log

pub record Scheduler : Type 0 where
  pub system : System
  -- The objects `threading.Event` of the sessions by their identity: whether one is set, and the
  -- identity of the next.
  pub is_set : ℕ → Bool
  pub fresh : ℕ
  pub group_cancel_events : List (ℕ × ℕ)
  pub group_skip_current_events : List (ℕ × Bool)
  -- In milliseconds of the monotonic clock.
  pub last_skip_ts : List (ℕ × ℕ)
  pub active_zones : List (ℕ × ℕ)
  pub jobs : List (JobId × Job)
  pub program_jobs : List (ℕ × List JobId)
  -- `_shutdown_event`
  pub shutdown : Bool
  -- Oldest first.
  pub log : List Log

abbrev pub add_log : Log → Scheduler → Scheduler
add_log entry s = record s { log = s.log ++ entry ∷ [] }

abbrev pub with_system : System → Scheduler → Scheduler
with_system system s = record s { system = system }

abbrev pub is_some {ℓ} : {A : Type ℓ} → Option A → Bool
is_some none = false
is_some (some a) = true

-- A group has a session while it has an event.
abbrev pub is_group_session_active : ℕ → Scheduler → Bool
is_group_session_active gid s = is_some (lookup gid s.group_cancel_events)

-- `event and event.is_set()`
abbrev pub event_is_set : Option ℕ → Scheduler → Bool
event_is_set event s = elim event [ none ↦ false | some e ↦ s.is_set e ]

abbrev pub is_cancelled : (gid : ℕ) → Scheduler → Bool
is_cancelled gid s = event_is_set (lookup gid s.group_cancel_events) s

abbrev pub is_skipped : (gid : ℕ) → Scheduler → Bool
is_skipped gid s = get_or gid false s.group_skip_current_events

abbrev pub set_event : ℕ → Bool → Scheduler → Scheduler
set_event e b s = record s { is_set = λ e'. if e == e' then b else s.is_set e' }

-- `skip_event.clear()`
abbrev pub clear_skip : (gid : ℕ) → Scheduler → Scheduler
clear_skip gid s = record s {
  group_skip_current_events = insert gid false s.group_skip_current_events;
}

-- `group_cancel_events.setdefault(gid, threading.Event())`: the event of the group, and whether it
-- is the new one.
unfoldable pub plant : (gid : ℕ) → Scheduler → Scheduler × ℕ × Bool
plant gid s = elim (lookup gid s.group_cancel_events) [
  | some e ↦ (s, e, false)
  | none ↦ (
    record s {
      is_set = λ e. if s.fresh == e then false else s.is_set e;
      fresh = suc s.fresh;
      group_cancel_events = insert gid s.fresh s.group_cancel_events;
    },
    s.fresh,
    true,
  )
]

-- The end of a session: the event goes if the group still has it.
unfoldable pub release : (gid event : ℕ) → Scheduler → Scheduler
release gid event s = elim (lookup gid s.group_cancel_events) [
  | none ↦ s
  | some e ↦
      if e == event
      then record (set_event event false s) {
        group_cancel_events = erase gid s.group_cancel_events;
      }
      else s
]

abbrev pub drop_skip : (gid : ℕ) → Scheduler → Scheduler
drop_skip gid s = record s { group_skip_current_events = erase gid s.group_skip_current_events }

pub data SkipAnswer : Type 0 where
  ok no_session debounced : SkipAnswer

abbrev pub skip_debounce : ℕ
skip_debounce = 1000

abbrev pub accept_skip : (gid now : ℕ) → Scheduler → Scheduler
accept_skip gid now s = record s {
  last_skip_ts = insert gid now s.last_skip_ts;
  group_skip_current_events = insert gid true s.group_skip_current_events;
}

unfoldable pub request_skip_current_zone : (gid now : ℕ) → Scheduler → Scheduler × SkipAnswer
request_skip_current_zone gid now s =
    if not (is_group_session_active gid s)
    then (s, no_session)
    else (if ltb (now - get_or gid 0 s.last_skip_ts) skip_debounce
        then (s, debounced)
        else (accept_skip gid now s, ok))
