-- ===== src/FloatMonitor/Events.antt =====
-- What can happen to the float monitor, as a sequence of events in the order of its lock.
-- Telegram's answer, for which a handler lets go of the lock, is taken to come before the next event.
use Prim.Native.String.{String}
use irrigation.Base.{ℕ, List, [], ◌∷◌, Bool, Option}
use irrigation.FloatMonitor.{Moment}
use irrigation.FloatMonitor.Monitor.{
  Config, Monitor, on_float_message, check_timeouts, get_resume_event,
}
use irrigation.FloatMonitor.Subscriptions.{start, stop, reload_group}

pub data Event : Type 0 where
  receives : (group_id : ℕ) (payload : String) → Moment → Event
  checks : (now : ℕ) → Event
  asks_resume : (group_id : ℕ) → Event
  reloads : (group_id : ℕ) → Option Config → Event
  starts : List Config → Event
  stops : Event

module _ (has_client : ℕ → Bool) (tripped_topic_of : ℕ → String) where
  unfoldable pub step : Event → Monitor → Monitor
  step (receives group_id payload at) m = (on_float_message group_id payload at m).0
  step (checks now) m = (check_timeouts now m).0
  step (asks_resume group_id) m = (get_resume_event group_id m).1
  step (reloads group_id row) m = reload_group has_client tripped_topic_of group_id row m
  step (starts rows) m = start has_client tripped_topic_of rows m
  step stops m = stop m

  unfoldable pub run : List Event → Monitor → Monitor
  unfolding step
  run [] m = m
  run (ev ∷ evs) m = run evs (step ev m)
