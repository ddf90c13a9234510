-- ===== src/Watchdog/Running.antt =====
-- What the thread of services/watchdog.py comes to over its rounds.
use irrigation.Base.{ℕ, ◌≡◌, Bool, false, ◌||◌, List, [], ◌∷◌, nat_eq}
use irrigation.Base.Maps.{lookup}
use irrigation.ZoneControl.{Zone, System}
use irrigation.Watchdog.{zone_cap_minutes, is_overdue, Round}

-- The thread goes on, and the others leave the zone alone while it waits.
abbrev pub Spares : ℕ → Round → Type 0
Spares id r =
    (r.is_stopped ≡ false) × ((s : System) → lookup id (r.others s).zones ≡ lookup id s.zones)

-- Does one of the checks find the zone on for longer than the cap?
abbrev pub comes_due : List Round → Zone → Bool
comes_due [] z = false
comes_due (r ∷ rs) z = is_overdue (zone_cap_minutes r.setting) r.world.time z || comes_due rs z
