-- ===== src/RainMonitor/Service.antt =====
-- The life of the monitor of services/monitors/rain_monitor.py: its start with the configuration of
-- db/settings.py, its MQTT client, and `api_rain_config` of routes/system_config_api.py, which saves
-- another configuration. What paho-mqtt and the broker do is an argument.
use Prim.Native.String.{String}
use irrigation.Base.{
  ℕ, suc, Bool, true, false, not, ◌&&◌, List, [], ◌∷◌, ◌++◌, map, Option, none, some, keep_if,
  contains, if◌then◌else◌, ◌==◌, nat_eq,
}
use irrigation.Topics.{Topic}
use irrigation.ZoneControl.{strip, is_blank}
use irrigation.RainMonitor.{Group, SensorType, Day, Monitor, handle_payload}

-- `get_rain_config`
pub record Config : Type 0 where
  pub enabled : Bool
  pub topic : Topic
  pub sensor : SensorType
  pub server_id : Option ℕ

-- What becomes of a connection: the server has no row, it cannot be reached, or all is well.
pub data Connection : Type 0 where
  unknown failed connected : Connection

-- The clients are told apart by numbers, and `loops` are those whose network loop runs.
pub record Service : Type 0 where
  pub monitor : Monitor
  pub cfg : Option Config
  pub topic : Option Topic
  pub server_id : Option ℕ
  pub client : Option ℕ
  pub loops : List ℕ
  pub fresh : ℕ
  pub settings : Config
  pub groups : List Group

-- `_ensure_client`
unfoldable pub ensure_client : Connection → Service → Service
ensure_client unknown s = s
ensure_client failed s = s
ensure_client connected s = record s {
  client = some s.fresh;
  loops = s.loops ++ s.fresh ∷ [];
  fresh = suc s.fresh;
}

abbrev start_with : (connect : ℕ → Connection) → Config → ℕ → Service → Service
unfolding ensure_client
start_with connect cfg server s =
    ensure_client (connect server)
      (record s { cfg = some cfg; topic = some (strip cfg.topic); server_id = some server })

-- `start`
unfoldable pub start : (connect : ℕ → Connection) → Config → Service → Service
unfolding start_with
start connect cfg s = elim cfg.server_id [
  | none ↦ s
  | some server ↦
      if cfg.enabled && not (is_blank (strip cfg.topic)) && not (server == 0)
      then start_with connect cfg server s
      else s
]

-- `start_rain_monitor`
unfoldable pub start_rain_monitor : (connect : ℕ → Connection) → Service → Service
unfolding start
start_rain_monitor connect s = if s.settings.enabled then start connect s.settings s else s

-- `stop`
unfoldable pub stop : Service → Service
stop s = elim s.client [
  | none ↦ s
  | some c ↦ record s { client = none; loops = keep_if (λ l. not (l == c)) s.loops }
]

-- The type of the sensor: that of the configuration at the start, or else the saved one.
abbrev pub sensor_of : Option Config → (settings : Config) → SensorType
sensor_of none settings = settings.sensor
sensor_of (some cfg) settings = cfg.sensor

-- `_on_message` of a client, if its loop runs.
unfoldable pub on_message : (client : ℕ) → Day → (payload : String) → Service → Service
unfolding handle_payload
on_message client day payload s =
    if contains s.loops client
    then record s {
      monitor = handle_payload (sensor_of s.cfg s.settings) s.groups day payload s.monitor;
    }
    else s

abbrev pub set_group_use_rain : Group → Group
set_group_use_rain g = if g.id == 999 then g else record g { use_rain = true }

-- The POST of `api_rain_config`, and whether it succeeds. A blank topic is refused for a sensor that
-- is enabled; all groups use an enabled sensor.
unfoldable pub save : Config → Service → Service × Bool
save config s = if config.enabled && is_blank (strip config.topic) then (s, false) else (
  record s {
    settings = record config { topic = strip config.topic };
    groups = if config.enabled then map set_group_use_rain s.groups else s.groups;
  },
  true,
)
