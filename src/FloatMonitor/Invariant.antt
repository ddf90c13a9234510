-- ===== src/FloatMonitor/Invariant.antt =====
-- The invariant of all groups, over every sequence of events.
use Prim.Native.String.{String}
use irrigation.Base.{
  ℕ, ◌≡◌, refl, inl, inr, Bool, true, List, [], ◌∷◌, Option, none, some, arith, All, nat_eq,
  string_eq, Bool-cases, Option-cases,
}
use irrigation.Base.Maps.{lookup, insert}
use irrigation.FloatMonitor.{GroupState, new_state, Moment}
use irrigation.FloatMonitor.Monitor.{
  Config, Monitor, new_monitor, on_float_message, handle_level, parse_payload, check_timeouts,
  check_states, get_resume_event, times_out,
}
use irrigation.FloatMonitor.Subscriptions.{
  start, stop, reload_group, load_group, load_all_groups, subscribe_group, unsubscribe_group,
  configure, state_or_new,
}
use irrigation.FloatMonitor.Events.{
  Event, receives, checks, asks_resume, reloads, starts, stops, step, run,
}
use irrigation.FloatMonitor.Pausing.{
  is_sound, IsSound, new_state-IsSound, debounce-IsSound, time_out-IsSound,
}

-- Every group's state is sound.
abbrev pub AllSound : List (ℕ × GroupState) → Type 0
AllSound states = All (λ s. IsSound s.1) states

abbrev sound_of : Option GroupState → Bool
sound_of none = true
sound_of (some gs) = is_sound gs

lookup-sound_of :
    (g : ℕ) (states : List (ℕ × GroupState)) → AllSound states → sound_of (lookup g states) ≡ true
lookup-sound_of g [] sound = refl
lookup-sound_of g ((j, v) ∷ states) sound =
    ground (arith, sound.0, lookup-sound_of g states sound.1)

insert-AllSound :
    (g : ℕ) (gs : GroupState) (states : List (ℕ × GroupState))
    → IsSound gs
    → AllSound states
    → AllSound (insert g gs states)
insert-AllSound g gs [] here sound = (here, tt)
insert-AllSound g gs ((j, v) ∷ states) here sound =
    ground (arith, insert-AllSound g gs states here sound.1)

check_states-AllSound :
    (now : ℕ) (states : List (ℕ × GroupState))
    → AllSound states
    → AllSound (check_states now states).0
unfolding check_states
check_states-AllSound now [] sound = tt
check_states-AllSound now ((g, gs) ∷ states) sound =
    let rest = check_states-AllSound now states sound.1 in
    elim (Bool-cases (times_out now gs)) [
      | inl due ↦ rw due (time_out-IsSound now gs due sound.0, rest)
      | inr f ↦ rw f (sound.0, rest)
    ]

handle_level-AllSound :
    (g : ℕ) (raw : Bool) (at : Moment) (o : Option GroupState) (m : Monitor)
    → sound_of o ≡ true
    → AllSound m.states
    → AllSound (handle_level g raw at o m).0.states
unfolding handle_level
handle_level-AllSound g raw at none m here sound = sound
handle_level-AllSound g raw at (some gs) m here sound =
    insert-AllSound g _ m.states (debounce-IsSound _ at gs here) sound

on_float_message-AllSound :
    (g : ℕ) (payload : String) (at : Moment) (m : Monitor)
    → AllSound m.states
    → AllSound (on_float_message g payload at m).0.states
unfolding on_float_message
on_float_message-AllSound g payload at m sound = elim (Option-cases (parse_payload payload)) [
  | inl bad ↦ rw (bad, on_float_message) sound
  | inr (raw, good) ↦
      rw (good, on_float_message)
        (handle_level-AllSound g raw at (lookup g m.states) m (lookup-sound_of g m.states sound)
          sound)
]

get_resume_event-AllSound :
    (g : ℕ) (m : Monitor) → AllSound m.states → AllSound (get_resume_event g m).1.states
unfolding get_resume_event
get_resume_event-AllSound g m sound = elim (Option-cases (lookup g m.states)) [
  | inl unknown ↦
      rw (unknown, get_resume_event) (insert-AllSound g _ m.states (new_state-IsSound g) sound)
  | inr (gs, known) ↦ rw (known, get_resume_event) sound
]

state_or_new-IsSound :
    (g : ℕ) (o : Option GroupState) → sound_of o ≡ true → IsSound (state_or_new g o)
unfolding new_state
state_or_new-IsSound g none here = refl
state_or_new-IsSound g (some gs) here = here

configure-AllSound :
    (cfg : Config) (server_id : ℕ) (topic : String) (m : Monitor)
    → AllSound m.states
    → AllSound (configure cfg server_id topic m).states
unfolding configure
configure-AllSound cfg server_id topic m sound =
    insert-AllSound cfg.id _ m.states
      (state_or_new-IsSound cfg.id (lookup cfg.id m.states) (lookup-sound_of cfg.id m.states sound))
      sound

unsubscribe_group-states : (g : ℕ) (m : Monitor) → (unsubscribe_group g m).states ≡ m.states
unfolding unsubscribe_group
unsubscribe_group-states g m = ground arith

module _ (has_client : ℕ → Bool) (topic_of : ℕ → String) where
  subscribe_group-AllSound :
      (cfg : Config) (m : Monitor)
      → AllSound m.states
      → AllSound (subscribe_group has_client topic_of cfg m).states
  unfolding subscribe_group
  subscribe_group-AllSound cfg m sound = elim (Option-cases cfg.server_id) [
    | inl missing ↦ rw (missing, subscribe_group) sound
    | inr (server_id, there) ↦
        rw (there, subscribe_group) ground
          (arith, sound, configure-AllSound cfg server_id (topic_of cfg.id) m sound)
  ]

  load_group-AllSound :
      (row : Option Config) (m : Monitor)
      → AllSound m.states
      → AllSound (load_group has_client topic_of row m).states
  unfolding load_group
  load_group-AllSound none m sound = sound
  load_group-AllSound (some cfg) m sound =
      ground (arith, sound, subscribe_group-AllSound cfg m sound)

  load_all_groups-AllSound :
      (rows : List Config) (m : Monitor)
      → AllSound m.states
      → AllSound (load_all_groups has_client topic_of rows m).states
  unfolding load_all_groups
  load_all_groups-AllSound [] m sound = sound
  load_all_groups-AllSound (cfg ∷ rows) m sound =
      load_all_groups-AllSound rows _ (subscribe_group-AllSound cfg m sound)

  step-AllSound :
      (ev : Event) (m : Monitor)
      → AllSound m.states
      → AllSound (step has_client topic_of ev m).states
  unfolding step check_timeouts reload_group start stop
  step-AllSound (receives g payload at) m sound = on_float_message-AllSound g payload at m sound
  step-AllSound (checks now) m sound = check_states-AllSound now m.states sound
  step-AllSound (asks_resume g) m sound = get_resume_event-AllSound g m sound
  step-AllSound (reloads g row) m sound =
      load_group-AllSound row (unsubscribe_group g m) (rw (unsubscribe_group-states g m) sound)
  step-AllSound (starts rows) m sound = load_all_groups-AllSound rows _ sound
  step-AllSound stops m sound = tt

  run-AllSound :
      (evs : List Event) (m : Monitor)
      → AllSound m.states
      → AllSound (run has_client topic_of evs m).states
  unfolding run
  run-AllSound [] m sound = sound
  run-AllSound (ev ∷ evs) m sound = run-AllSound evs _ (step-AllSound ev m sound)

-- Whatever messages, checks, reloads and restarts come in whatever order, each group is in order:
-- a paused one holds its workers back, and is stopped for good or has a timeout; only a paused one
-- has a timeout or is stopped; and one that is not stopped has had at most two recent trips.
pub run-IsSound :
    (has_client : ℕ → Bool) (topic_of : ℕ → String) (evs : List Event)
    → All (λ s. IsSound s.1) (run has_client topic_of evs new_monitor).states
unfolding new_monitor
run-IsSound has_client topic_of evs = run-AllSound has_client topic_of evs new_monitor tt
