-- ===== src/Lib.antt =====
-- Irrigation controller: a model of its services, written from the Python sources.
--
-- The parts and how they interact. Programs, which are checked for conflicts when they are edited,
-- put entries into the queue of a group; the group's worker runs the zones of one entry after the
-- other, and asks the float monitor, which watches the water level, before each zone. The rain
-- monitor postpones the zones of the groups that use its sensor. The scheduler runs programs and
-- group sequences at their times and by hand. The queue, the scheduler and the routes start and
-- stop zones through the zone control, which switches relays and master valves by MQTT. HTTP
-- requests come through two limiters, one for logins and one for calls of the API. The files of
-- this library and the code they are about:
--
-- Queue.antt, Queue/Worker.antt, Queue/Manager.antt: services/program_queue.py. `GroupQueue` is the
--   record of the same name, with the worker's program counter (`Phase`) in place of its thread;
--   `enqueue`, `cancel_entry`, `cancel_program`, `cancel_group` and `stop` (a part of `shutdown`)
--   are what the methods of `ProgramQueueManager` do to one queue under its lock, and Queue/Manager
--   has the methods over all queues. `work` is one step of `_worker` and `_run_entry`, from one
--   point where another thread can get in to the next. Queue/Events puts calls and steps of the
--   worker into sequences, which stand for all interleavings; its theorems are in Queue/Order,
--   Lifecycle, Cancelling, Progress, Capacity and Races, of which Lifecycle, Cancelling and
--   Progress have lemmas on single steps in files of their own.
-- Queue/Tracker.antt: `ProgramCompletionTracker` of the same file.
-- ApiLimiter.antt: services/api_rate_limiter.py, `_is_allowed`, `_prune_old` and the decorator.
-- LoginLimiter.antt: services/rate_limiter.py, and `api_login` of routes/auth.py, its client.
-- FloatMonitor.antt: services/float_monitor.py. `GroupState` is `_GroupState`; `debounce`,
--   `apply_level`, `on_level_low` and `on_level_restored` are what a message does to one group.
--   FloatMonitor/Monitor has the states of all groups, `on_float_message` and `check_timeouts`,
--   FloatMonitor/Subscriptions the loading and reloading of groups, FloatMonitor/Waiting the loop
--   in which a worker waits, FloatMonitor/View the state for clients, and FloatMonitor/Zones the
--   statement of db/float.py that pauses the zones of a group. FloatMonitor/Events puts all of it
--   into sequences of events.
-- Conflicts.antt: `check_program_conflicts` of db/programs.py. `legacy_conflict` and
--   `group_conflict` are the checks of one program, and Conflicts/Answers has the loops over
--   programs and groups and the answer in both of its forms.
-- RainMonitor.antt: services/monitors/rain_monitor.py, `_handle_payload`, `_on_rain_start` and
--   `_on_rain_stop`, on the rows of the zones and of the cancelled runs. RainMonitor/Service has
--   the start and stop of the monitor with its MQTT client, and `api_rain_config` of
--   routes/system_config_api.py, which saves its configuration; RainMonitor/Saving is about these.
-- Topics.antt: `normalize_topic` of utils.py, over the numbers of the characters.
-- ZoneControl.antt: services/zone_control.py, on the rows of zones, groups and runs, with
--   `update_zone_state` of services/zones_state.py and the statements of db/zones.py that they
--   call. ZoneControl/Start, Stop, Emergency, Master and Duration have its functions. A state is a
--   `System`, and what the rest of the world answers during a call a `World`. ZoneControl/Steps and
--   Calls show that every call keeps a relation between states that its writes keep; Quiet and
--   Audit are two such relations. Peers, Exclusive, Resting, Stopping, Again, Halting, Sent, Valves
--   and Closing are about single calls, and Trace is about sequences of them. In a sequence a call
--   is one step, but for the three phases of the emergency stop, between which others can come, and
--   the look of a timer at the zones and its close, which `fire` keeps apart for Closing.
-- ZoneControl/Verify.antt: `StateVerifier.verify` of services/observed_state.py, with the payloads
--   that each wait brings and what other threads do meanwhile as arguments; ZoneControl/Verified is
--   about it.
-- Scheduler.antt: irrigation_scheduler.py. `Scheduler` is the state of `IrrigationScheduler`, with
--   the zones of the zone control, the objects `threading.Event` of the sessions by their identity,
--   and the jobs of APScheduler by id. Scheduler/Jobs has the jobs of zones, groups and valves and
--   `cancel_group_jobs`; Scheduler/Programs `schedule_program`, Scheduler/Recovery
--   `recover_missed_runs`, Scheduler/Boot `init_scheduler` and what a job does. `run_program` of
--   Scheduler/Program is `_run_program_threaded` and `run_group_sequence` of Scheduler/Sequence
--   `_run_group_sequence`: each time the thread looks around while it waits, it finds what others
--   have requested since (Scheduler/Waiting), and only waiting takes time; the start and the end of
--   other programs and sequences are not among the requests. `boot` takes as an argument what jobs
--   that are live do after each of its steps. Scheduler/Steps and Rows say what the writes to the
--   zones keep, Moving which zones can start, and Kept that a run keeps what its steps keep;
--   Resting, Exclusive, Sessions, Halted, and, for runs that nobody disturbs, Undisturbed,
--   Watering, Starting and OnTime are about runs of programs. Cancelling, Resuming, Booting,
--   Skipping, Stranding, Tracking, Planning, Days and Weekly are about the other operations, and
--   Sequencing about runs of sequences; Sparing has what a cancel leaves alone.
-- Watchdog.antt: `_check_zones` of services/watchdog.py, a client of the zone control, and `run`,
--   the rounds of its thread; Watchdog/Capping is about one check, and Watchdog/Running about the
--   rounds.
-- EtCalculator.antt: services/et_calculator.py, in exact arithmetic: the code has floating-point
--   numbers. The loop of `calc_cycle_soak` is recursion on fuel, the run time in its smallest unit,
--   which EtCalculator/Cycles shows to be enough. Decision.antt: services/irrigation_decision.py.
-- Base.antt: tests on numbers, lists, dictionaries and the lists of recent times that both limiters
--   keep.
--
-- Times are whole milliseconds, where the code has floating-point seconds; the limits and spans of
-- the configuration are whole seconds or minutes, as they are there. A dictionary is a function or
-- an association list. Every loop but that of `calc_cycle_soak` is structural recursion: a worker's
-- wait is a list of the turns of its loop. The locks of the code make each operation one step, and
-- the theorems on queues hold for every sequence of steps; but `api_login` is one step too,
-- although it takes its lock twice, and the worker's start of a zone is the passing of the tests
-- before it. Conflicts.antt reads of a program what the check selects: its main time and days, not
-- its extra times or the kind of its schedule.
--
-- Outside the model: the clock, the identifiers that `uuid4` makes, the answer of
-- `verify_password`, the decimal name of an MQTT topic, and which MQTT servers have a client are
-- arguments. Log lines and Telegram notices do not touch the state and are left out, as are the
-- audit records of other things than a zone's state, and `join`, which only waits. The float
-- monitor lets go of its lock while Telegram is called; its handlers are taken to end before the
-- next event. The calls of the database in the zone control are taken to succeed. The connections
-- of MQTT clients, the length of the watchdog's waits, and the columns `observed_state` and
-- `last_fault` are left out. Of the scheduler, the columns of the planned starts, the jobs of the
-- backup, the audit and the water balance, and the branches under TESTING are left out; whether the
-- weather asks to skip, its coefficient, and the cancelled runs of the day are arguments. While one
-- program or sequence runs, other ones appear only by their calls of the zone control. The other
-- services, the rest of the database and the other routes are not modelled.
pub mod Base
pub mod ApiLimiter
pub mod LoginLimiter
pub mod ZoneControl
pub mod Scheduler
pub mod Watchdog
pub mod EtCalculator
pub mod Decision
pub mod Topics
pub mod RainMonitor
pub mod Conflicts
pub mod FloatMonitor
pub mod Queue
