-- ===== src/ZoneControl/Closing.antt =====
-- When a master valve is closed: the timers of services/zone_control.py.
use irrigation.Base.{Bool, false, Option, none, some, nat_eq, list_eq}
use irrigation.Topics.{Topic}
use irrigation.ZoneControl.{Publish, Group}
use irrigation.ZoneControl.Master.{shares_master}

abbrev shared : Topic → Option Group → Bool
shared key none = false
shared key (some g) = shares_master key g

-- The command to close: "1" to a valve that is normally open, "0" to another.
abbrev pub close_command : Topic → Group → Publish
close_command key g = record {
  server = g.master_mqtt_server_id;
  topic = key;
  value = g.normally_open;
}
