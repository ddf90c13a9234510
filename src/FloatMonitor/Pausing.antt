-- ===== src/FloatMonitor/Pausing.antt =====
-- When a group is paused, and what its workers can rely on.
use irrigation.Base.{
  ℕ, ◌≡◌, refl, Bool, true, false, not, ◌&&◌, ◌||◌, Option, none, some, arith, length, leb,
}
use irrigation.FloatMonitor.{
  GroupState, new_state, Moment, debounce, apply_level, on_level_low, on_level_restored, pause,
  emergency_stop,
}
use irrigation.FloatMonitor.Monitor.{time_out, times_out}

abbrev pub is_some {ℓ} : {A : Type ℓ} → Option A → Bool
is_some none = false
is_some (some a) = true

-- A paused group holds its workers back, and is either stopped for good or has a timeout; a group
-- that is not paused has none; and two trips are the most that do not stop it.
abbrev pub is_sound : GroupState → Bool
is_sound gs =
    (not gs.paused || not gs.resume_event)
    && (not gs.emergency_stopped || gs.paused)
    && (not gs.paused || gs.emergency_stopped || is_some gs.timeout_at)
    && (not (is_some gs.timeout_at) || gs.paused)
    && (gs.emergency_stopped || leb (length gs.trip_times) 2)

abbrev pub IsSound : GroupState → Type 0
IsSound gs = is_sound gs ≡ true

pub new_state-IsSound : (group_id : ℕ) → IsSound (new_state group_id)
unfolding new_state
new_state-IsSound group_id = refl

on_level_low-IsSound : (at : Moment) (gs : GroupState) → IsSound gs → IsSound (on_level_low at gs).0
unfolding on_level_low emergency_stop pause
on_level_low-IsSound at gs sound = ground arith

on_level_restored-IsSound :
    (at : Moment) (gs : GroupState) → IsSound gs → IsSound (on_level_restored at gs).0
unfolding on_level_restored
on_level_restored-IsSound at gs sound = ground arith

apply_level-IsSound :
    (level : Bool) (at : Moment) (gs : GroupState)
    → IsSound gs
    → IsSound (apply_level level at gs).0
unfolding apply_level
apply_level-IsSound true at gs sound =
    on_level_restored-IsSound at (record gs { level_ok = true }) sound
apply_level-IsSound false at gs sound =
    on_level_low-IsSound at (record gs { level_ok = false }) sound

pub debounce-IsSound :
    (level : Bool) (at : Moment) (gs : GroupState) → IsSound gs → IsSound (debounce level at gs).0
unfolding debounce
debounce-IsSound level at gs sound = ground (arith, apply_level-IsSound level at gs sound)

pub time_out-IsSound :
    (now : ℕ) (gs : GroupState) → times_out now gs ≡ true → IsSound gs → IsSound (time_out gs)
unfolding time_out
time_out-IsSound now gs due sound = ground arith
