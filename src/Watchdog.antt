-- ===== src/Watchdog.antt =====
-- services/watchdog.py: a check stops the zones that are on for too long.
pub mod Capping
pub mod Running
pub mod Examples
use irrigation.Base.{
  ℕ, ◌+◌, ◌-◌, ◌*◌, max, Bool, true, false, ◌&&◌, List, [], ◌∷◌, ◌++◌, Option, none, some, ltb, ◌/◌,
  if◌then◌else◌, ◌==◌, nat_eq,
}
use irrigation.ZoneControl.{ZoneState, on, Zone, System, World}
use irrigation.ZoneControl.Stop.{Stop, stop_zone}

pub data Alert : Type 0 where
  force_stopped : (zone_id elapsed_min cap_minutes : ℕ) → Alert
  many_zones : (count : ℕ) → Alert

abbrev pub max_concurrent_zones : ℕ
max_concurrent_zones = 4

-- `_get_zone_cap_minutes`, from the setting `zone_cap_minutes`, which is absent or a number: with one
-- that `int` cannot read the code raises ValueError, and the check does not take place.
abbrev pub zone_cap_minutes : (setting : Option ℕ) → ℕ
zone_cap_minutes none = 240
zone_cap_minutes (some n) = max 1 n

abbrev pub is_on : ZoneState → Bool
is_on on = true
is_on _ = false

-- Seconds since the start; a start in the future counts as 0, which no cap is below.
abbrev pub elapsed : (now start : ℕ) → ℕ
elapsed now start = now - start

abbrev pub is_overdue : (cap now : ℕ) → Zone → Bool
is_overdue cap now z =
    is_on z.state
    && elim z.watering_start_time [ none ↦ false | some start ↦ ltb (cap * 60) (elapsed now start) ]

abbrev pub watchdog_stop : Stop
watchdog_stop = record {
  reason = "watchdog_cap";
  force = true;
  master_close_immediately = false;
  skip_master_close = false;
}

abbrev pub alert_of : ℕ → (cap now : ℕ) → Zone → Alert
alert_of id cap now z =
    force_stopped id (elim z.watering_start_time [ none ↦ 0 | some start ↦ elapsed now start / 60 ])
      cap

-- The loop over the zones as they were read at the beginning.
unfoldable pub check_rows : (cap : ℕ) → List (ℕ × Zone) → World → System → System × List Alert
unfolding stop_zone
check_rows cap [] w s = (s, [])
check_rows cap ((id, z) ∷ rows) w s =
    let s' = if is_overdue cap w.time z then (stop_zone id watchdog_stop w s).0 else s in
    let (s'', alerts) = check_rows cap rows w s' in
    (s'', if is_overdue cap w.time z then alert_of id cap w.time z ∷ alerts else alerts)

abbrev pub count_on : List (ℕ × Zone) → ℕ
count_on [] = 0
count_on ((id, z) ∷ rows) = (if is_on z.state then 1 else 0) + count_on rows

-- `_check_zones`
unfoldable pub check_zones : (setting : Option ℕ) → World → System → System × List Alert
unfolding check_rows
check_zones setting w s =
    let (s', alerts) = check_rows (zone_cap_minutes setting) s.zones w s in
    let count = count_on s.zones in
    (s', alerts ++ (if ltb max_concurrent_zones count then many_zones count ∷ [] else []))

-- What a round of the thread meets: whether `stop` has been called, the setting, the world at the
-- check, and what other threads do while the thread waits afterwards.
pub record Round : Type 0 where
  pub is_stopped : Bool
  pub setting : Option ℕ
  pub world : World
  pub others : System → System

-- The loop of `run`, after its first wait.
unfoldable pub run : List Round → System → System × List Alert
unfolding check_zones
run [] s = (s, [])
run (r ∷ rs) s =
    let (s', alerts) = check_zones r.setting r.world s in
    let (s'', later) = run rs (r.others s') in
    if r.is_stopped then (s, []) else (s'', alerts ++ later)
