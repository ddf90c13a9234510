-- ===== src/FloatMonitor/Subscriptions.antt =====
-- Subscribing and unsubscribing of services/float_monitor.py. The calls of the MQTT clients are
-- outside, with the name of a group's second topic, which is an argument.
use Prim.Native.String.{String}
use irrigation.Base.{
  ℕ, Bool, true, false, List, [], ◌∷◌, ◌++◌, Option, none, some, if◌then◌else◌, ◌==◌, nat_eq,
  string_eq, contains,
}
use irrigation.Base.Maps.{lookup, insert, erase}
use irrigation.FloatMonitor.{GroupState, new_state}
use irrigation.FloatMonitor.Monitor.{Config, Monitor}

abbrev pub state_or_new : ℕ → Option GroupState → GroupState
state_or_new group_id none = new_state group_id
state_or_new group_id (some gs) = gs

-- The new configuration of a group that has a client; its state is kept if there is one.
unfoldable pub configure : Config → (server_id : ℕ) (tripped_topic : String) → Monitor → Monitor
configure cfg server_id tripped_topic m = record {
  subscriptions =
      insert cfg.id
        (record {
          topic = cfg.topic;
          server_id = server_id;
          float_mode = cfg.float_mode;
          timeout_minutes = cfg.timeout_minutes;
          debounce_seconds = cfg.debounce_seconds;
          tripped_topic = tripped_topic;
        })
        m.subscriptions;
  topic_to_group = insert tripped_topic cfg.id (insert cfg.topic cfg.id m.topic_to_group);
  states =
      insert cfg.id
        (record (state_or_new cfg.id (lookup cfg.id m.states)) {
          debounce_seconds = cfg.debounce_seconds;
          timeout_minutes = cfg.timeout_minutes;
        })
        m.states;
  started = m.started;
  hooked = if contains m.hooked server_id then m.hooked else m.hooked ++ server_id ∷ [];
}

module _ (has_client : ℕ → Bool) (tripped_topic_of : ℕ → String) where
  -- `_subscribe_group`; a server identifier of 0 counts as none.
  unfoldable pub subscribe_group : Config → Monitor → Monitor
  unfolding configure
  subscribe_group cfg m = elim cfg.server_id [
    | none ↦ m
    | some server_id ↦
        if cfg.topic == ""
        then m
        else (if server_id == 0
            then m
            else (if has_client server_id
                then configure cfg server_id (tripped_topic_of cfg.id) m
                else m))
  ]

  -- `_load_group`, with the row that the database has, if any.
  unfoldable pub load_group : Option Config → Monitor → Monitor
  unfolding subscribe_group
  load_group none m = m
  load_group (some cfg) m = if cfg.float_enabled then subscribe_group cfg m else m

  -- `_load_all_groups`, with the rows of the enabled groups.
  unfoldable pub load_all_groups : List Config → Monitor → Monitor
  unfolding subscribe_group
  load_all_groups [] m = m
  load_all_groups (cfg ∷ rows) m = load_all_groups rows (subscribe_group cfg m)

  unfoldable pub start : List Config → Monitor → Monitor
  unfolding load_all_groups
  start rows m = load_all_groups rows (record m { started = true })

-- `_unsubscribe_group`
unfoldable pub unsubscribe_group : ℕ → Monitor → Monitor
unsubscribe_group group_id m = elim (lookup group_id m.subscriptions) [
  | none ↦ m
  | some sub ↦ record m {
    topic_to_group = erase sub.tripped_topic (erase sub.topic m.topic_to_group);
    subscriptions = erase group_id m.subscriptions;
  }
]

unfoldable pub reload_group :
    (has_client : ℕ → Bool) (tripped_topic_of : ℕ → String) → ℕ → Option Config → Monitor → Monitor
unfolding unsubscribe_group load_group
reload_group has_client tripped_topic_of group_id row m =
    load_group has_client tripped_topic_of row (unsubscribe_group group_id m)

unfoldable pub stop : Monitor → Monitor
stop m = record m { started = false; subscriptions = []; topic_to_group = []; states = [] }
