-- ===== src/Watchdog/Examples.antt =====
-- A garden with a zone that is on for five hours and one that began ten minutes ago.
use irrigation.Base.{◌≡◌, refl, true, false, List, [], ◌∷◌, some, none, nat_eq, ℕ}
use irrigation.ZoneControl.{on, to_on, Zone, System, World}
use irrigation.Watchdog.{force_stopped, check_zones, Round, run}

abbrev zone_since : ℕ → Zone
zone_since start = record {
  group_id = 1;
  state = on;
  commanded_state = some to_on;
  version = 3;
  topic = 47 ∷ 97 ∷ [];
  mqtt_server_id = 1;
  watering_start_time = some start;
  planned_end_time = none;
  last_avg_flow = none;
  last_total_liters = none;
  fault_count = 0;
  duration = 10;
  postpone_until = none;
}

abbrev garden : System
garden = record {
  zones = (5, zone_since 2000) ∷ (6, zone_since 19400) ∷ [];
  groups = [];
  runs = [];
  published = [];
  audit = [];
  timers = [];
}

abbrev outside : World
outside = record {
  time = 20000;
  now = 0;
  knows_server = λ n. true;
  acknowledges = λ p. true;
  pulses_at_start = λ gid. none;
  pulses_at_end = λ gid. none;
  summarize = λ gid since. (none, none);
}

alerted : (check_zones none outside garden).1 ≡ force_stopped 5 300 240 ∷ []
unfolding check_zones
alerted = refl

-- A round in which nothing else happens.
abbrev round_at : ℕ → Round
round_at time = record {
  is_stopped = false;
  setting = none;
  world = record outside { time = time };
  others = λ s. s;
}

abbrev rounds : List Round
rounds = round_at 16000 ∷ round_at 16060 ∷ round_at 16500 ∷ []

-- The third round is the first that finds the zone late.
stopped_in_time : (run rounds garden).1 ≡ force_stopped 5 241 240 ∷ []
unfolding run
stopped_in_time = refl
