-- ===== src/FloatMonitor/Latch.antt =====
-- An emergency stop is for good.
use Prim.Native.String.{String}
use mathlib.Core.Bool.{false≢true}
use irrigation.Base.{
  ℕ, ◌≡◌, refl, sym, subst, inl, inr, Bool, true, false, ◌&&◌, List, [], ◌∷◌, Option, none, some,
  arith, All, nat_eq, string_eq, Bool-cases, Option-cases, ◌==◌, nat_beq_iff,
}
use irrigation.Base.Maps.{lookup, insert, lookup-insert}
use irrigation.FloatMonitor.{
  GroupState, new_state, Moment, debounce, apply_level, on_level_low, on_level_restored,
}
use irrigation.FloatMonitor.Monitor.{
  Config, Monitor, on_float_message, handle_level, parse_payload, check_timeouts, check_states,
  time_out, get_resume_event,
}
use irrigation.FloatMonitor.Subscriptions.{
  start, reload_group, load_group, load_all_groups, subscribe_group, unsubscribe_group, configure,
}
use irrigation.FloatMonitor.Events.{
  Event, receives, checks, asks_resume, reloads, starts, stops, step, run,
}

abbrev pub is_latched : Option GroupState → Bool
is_latched none = false
is_latched (some gs) = gs.emergency_stopped && gs.paused

-- The group is stopped, and its workers are held back.
abbrev pub IsStopped : ℕ → Monitor → Type 0
IsStopped g m = is_latched (lookup g m.states) ≡ true

-- The event is not the end of the monitor, which forgets all groups.
abbrev pub GoesOn : Event → Type 0
GoesOn stops = true ≡ false
GoesOn (receives g payload at) = Unit
GoesOn (checks now) = Unit
GoesOn (asks_resume g) = Unit
GoesOn (reloads g row) = Unit
GoesOn (starts rows) = Unit

debounce-latched :
    (level : Bool) (at : Moment) (gs : GroupState)
    → is_latched (some gs) ≡ true
    → is_latched (some (debounce level at gs).0) ≡ true
unfolding debounce apply_level on_level_low on_level_restored
debounce-latched true at gs h = ground arith
debounce-latched false at gs h = ground arith

-- Writing a group's state keeps every stop, if it keeps that of the group.
insert-latched :
    (g j : ℕ) (gs : GroupState) (states : List (ℕ × GroupState))
    → (is_latched (lookup j states) ≡ true → is_latched (some gs) ≡ true)
    → is_latched (lookup g states) ≡ true
    → is_latched (lookup g (insert j gs states)) ≡ true
insert-latched g j gs states here h = rw (lookup-insert j g gs states) (elim (Bool-cases (j == g)) [
  | inl t ↦ rw t (here (rw ((nat_beq_iff j g).0 t) h))
  | inr f ↦ rw f h
])

check_states-latched :
    (now g : ℕ) (states : List (ℕ × GroupState))
    → is_latched (lookup g states) ≡ true
    → is_latched (lookup g (check_states now states).0) ≡ true
unfolding check_states time_out
check_states-latched now g [] h = h
check_states-latched now g ((j, gs) ∷ states) h = ground (arith, check_states-latched now g states)

handle_level-latched :
    (g j : ℕ) (raw : Bool) (at : Moment) (o : Option GroupState) (m : Monitor)
    → lookup j m.states ≡ o
    → IsStopped g m
    → IsStopped g (handle_level j raw at o m).0
unfolding handle_level
handle_level-latched g j raw at none m known h = h
handle_level-latched g j raw at (some gs) m known h =
    insert-latched g j _ m.states
      (λ l. debounce-latched _ at gs (subst (λ o. is_latched o ≡ true) known l)) h

on_float_message-latched :
    (g j : ℕ) (payload : String) (at : Moment) (m : Monitor)
    → IsStopped g m
    → IsStopped g (on_float_message j payload at m).0
unfolding on_float_message
on_float_message-latched g j payload at m h = elim (Option-cases (parse_payload payload)) [
  | inl bad ↦ rw (bad, on_float_message) h
  | inr (raw, good) ↦
      rw (good, on_float_message) (handle_level-latched g j raw at (lookup j m.states) m refl h)
]

get_resume_event-latched :
    (g j : ℕ) (m : Monitor) → IsStopped g m → IsStopped g (get_resume_event j m).1
unfolding get_resume_event
get_resume_event-latched g j m h = elim (Option-cases (lookup j m.states)) [
  | inl unknown ↦
      rw (unknown, get_resume_event)
        (insert-latched g j (new_state j) m.states (λ l. absurd (false≢true (rw unknown at l))) h)
  | inr (gs, known) ↦ rw (known, get_resume_event) h
]

configure-latched :
    (g : ℕ) (cfg : Config) (server_id : ℕ) (topic : String) (m : Monitor)
    → IsStopped g m
    → IsStopped g (configure cfg server_id topic m)
unfolding configure
configure-latched g cfg server_id topic m h = elim (Option-cases (lookup cfg.id m.states)) [
  | inl unknown ↦ insert-latched g cfg.id _ m.states (λ l. absurd (false≢true (rw unknown at l))) h
  | inr (gs, known) ↦ insert-latched g cfg.id _ m.states (λ l. rw known (rw known at l)) h
]

unsubscribe_group-latched :
    (g j : ℕ) (m : Monitor) → IsStopped g m → IsStopped g (unsubscribe_group j m)
unfolding unsubscribe_group
unsubscribe_group-latched g j m h = elim (Option-cases (lookup j m.subscriptions)) [
  | inl missing ↦ rw (missing, unsubscribe_group) h
  | inr (sub, there) ↦ rw (there, unsubscribe_group) h
]

module _ (has_client : ℕ → Bool) (topic_of : ℕ → String) where
  subscribe_group-latched :
      (g : ℕ) (cfg : Config) (m : Monitor)
      → IsStopped g m
      → IsStopped g (subscribe_group has_client topic_of cfg m)
  unfolding subscribe_group
  subscribe_group-latched g cfg m h = elim (Option-cases cfg.server_id) [
    | inl missing ↦ rw (missing, subscribe_group) h
    | inr (server_id, there) ↦
        rw (there, subscribe_group) ground
          (arith, h, configure-latched g cfg server_id (topic_of cfg.id) m h)
  ]

  load_group-latched :
      (g : ℕ) (row : Option Config) (m : Monitor)
      → IsStopped g m
      → IsStopped g (load_group has_client topic_of row m)
  unfolding load_group
  load_group-latched g none m h = h
  load_group-latched g (some cfg) m h = ground (arith, h, subscribe_group-latched g cfg m h)

  load_all_groups-latched :
      (g : ℕ) (rows : List Config) (m : Monitor)
      → IsStopped g m
      → IsStopped g (load_all_groups has_client topic_of rows m)
  unfolding load_all_groups
  load_all_groups-latched g [] m h = h
  load_all_groups-latched g (cfg ∷ rows) m h =
      load_all_groups-latched g rows _ (subscribe_group-latched g cfg m h)

  step-latched :
      (g : ℕ) (ev : Event) (m : Monitor)
      → GoesOn ev
      → IsStopped g m
      → IsStopped g (step has_client topic_of ev m)
  unfolding step check_timeouts reload_group start
  step-latched g (receives j payload at) m on h = on_float_message-latched g j payload at m h
  step-latched g (checks now) m on h = check_states-latched now g m.states h
  step-latched g (asks_resume j) m on h = get_resume_event-latched g j m h
  step-latched g (reloads j row) m on h =
      load_group-latched g row (unsubscribe_group j m) (unsubscribe_group-latched g j m h)
  step-latched g (starts rows) m on h = load_all_groups-latched g rows _ h
  step-latched g stops m on h = absurd (false≢true (sym on))

  -- A group that is stopped stays stopped and paused whatever messages, checks, reloads and starts
  -- come, for as long as `stop` does not make the monitor forget it.
  pub run-IsStopped :
      (g : ℕ) (evs : List Event) (m : Monitor)
      → All GoesOn evs
      → IsStopped g m
      → IsStopped g (run has_client topic_of evs m)
  unfolding run
  run-IsStopped g [] m on h = h
  run-IsStopped g (ev ∷ evs) m on h = run-IsStopped g evs _ on.1 (step-latched g ev m on.0 h)
