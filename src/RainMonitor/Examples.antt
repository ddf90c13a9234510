-- ===== src/RainMonitor/Examples.antt =====
-- Tests of the rain monitor, and its theorems at a concrete garden.
use Prim.Native.String.{String}
use irrigation.Base.{ℕ, ◌≡◌, refl, true, false, List, [], ◌∷◌, none, some}
use irrigation.Topics.{rstrip, lstrip}
use irrigation.RainMonitor.{Zone, Group, no, nc, Monitor, Day, handle_payload}
use irrigation.RainMonitor.Service.{Config, Service, connected, start, stop}
use irrigation.RainMonitor.Saving.{message, saved, serve_all, serve_all-is_rain}
use irrigation.RainMonitor.Postponing.{AllFit, Reading, run, last_rain, run-AllFit}

abbrev groups : List Group
groups =
    record { id = 1; use_rain = true }
    ∷ record { id = 2; use_rain = false }
    ∷ record { id = 999; use_rain = true }
    ∷ []

abbrev zone : ℕ → ℕ → Zone
zone id group_id = record {
  id = id;
  group_id = group_id;
  postpone_until = none;
  postpone_reason = none;
}

-- The first zone was postponed by hand.
abbrev garden : Monitor
garden = record {
  is_rain = none;
  zones =
      record (zone 1 1) { postpone_until = some "2026-06-10"; postpone_reason = some "manual" }
      ∷ zone 2 2
      ∷ zone 3 999
      ∷ [];
  cancellations = (4, "2026-06-01", 1) ∷ (4, "2026-06-01", 2) ∷ [];
  stopped = [];
}

abbrev monday : Day
monday = record { today = "2026-06-01"; end_of_day = "2026-06-01 23:59:59" }

abbrev reading : String → Reading
reading payload = record { day = monday; payload = payload }

rain_stops_groups : (handle_payload nc groups monday "off" garden).stopped ≡ 1 ∷ []
unfolding handle_payload
rain_stops_groups = refl

dry_clears_cancellations :
    (handle_payload no groups monday "0" garden).cancellations ≡ (4, "2026-06-01", 2) ∷ []
unfolding handle_payload
dry_clears_cancellations = refl

abbrev readings : List Reading
readings = reading "1" ∷ reading "noise" ∷ []

run-AllFit_example :
    ((run no groups readings garden).is_rain ≡ last_rain no readings none)
    × AllFit groups "2026-06-01 23:59:59" (run no groups readings garden)
run-AllFit_example =
    run-AllFit no groups readings "" garden ((λ _ h. cc), ((λ _ h. refl), ((λ _ h. refl), tt)))

-- A sensor on the topic "/r".
abbrev config : Config
config = record { enabled = true; topic = 47 ∷ 114 ∷ []; sensor = no; server_id = some 1 }

abbrev idle : Service
idle = record {
  monitor = garden;
  cfg = none;
  topic = none;
  server_id = none;
  client = none;
  loops = [];
  fresh = 0;
  settings = config;
  groups = groups;
}

abbrev service : Service
unfolding start rstrip lstrip
service = start (λ n. connected) config idle

-- The sensor is saved as one that is off and opens in rain, and the relay then says "1".
serve_all-is_rain_example :
    (serve_all
      (saved (record config { enabled = false; sensor = nc }) ∷ message 0 (reading "1") ∷ [])
      service).monitor.is_rain
    ≡ some true
unfolding service
serve_all-is_rain_example =
    serve_all-is_rain config
      (saved (record config { enabled = false; sensor = nc }) ∷ message 0 (reading "1") ∷ [])
      service refl

-- A second start leaves the first client running: both are heard, and a stop ends the second only.
both_run : (stop (start (λ n. connected) config service)).loops ≡ 0 ∷ []
unfolding start stop service rstrip lstrip
both_run = refl
