-- ===== src/RainMonitor/Saving.antt =====
-- What a new configuration of the rain sensor changes while the monitor runs.
use irrigation.Base.{
  ◌≡◌, refl, ◌∙◌, inl, inr, ℕ, List, [], ◌∷◌, some, contains, arith, if◌then◌else◌, Bool-cases,
  nat_eq,
}
use irrigation.RainMonitor.{parse_payload}
use irrigation.RainMonitor.Postponing.{Reading, last_rain, reading_of, handle_payload-is_rain}
use irrigation.RainMonitor.Service.{Config, Service, sensor_of, on_message, save}

-- What reaches the monitor between its start and its next start or stop.
pub data Event : Type 0 where
  message : (client : ℕ) → Reading → Event
  saved : Config → Event

abbrev pub serve : Event → Service → Service
serve (message client r) s = on_message client r.day r.payload s
serve (saved config) s = (save config s).0

unfoldable pub serve_all : List Event → Service → Service
serve_all [] s = s
serve_all (e ∷ events) s = serve_all events (serve e s)

-- The readings that come from the clients whose loops run.
abbrev pub heard : (loops : List ℕ) → List Event → List Reading
heard loops [] = []
heard loops (saved config ∷ events) = heard loops events
heard loops (message client r ∷ events) =
    if contains loops client then r ∷ heard loops events else heard loops events

-- What the events keep of the service.
record Keeps (s s' : Service) : Type 0 where
  cfg : s'.cfg ≡ s.cfg
  loops : s'.loops ≡ s.loops

save-Keeps :
    (config : Config) (s : Service)
    → Keeps s (save config s).0 × ((save config s).0.monitor ≡ s.monitor)
unfolding save
save-Keeps config s = ground arith

on_message-Keeps :
    (client : ℕ) (r : Reading) (s : Service) → Keeps s (on_message client r.day r.payload s)
unfolding on_message
on_message-Keeps client r s = ground arith

on_message-is_rain :
    (client : ℕ) (r : Reading) (s : Service)
    → (on_message client r.day r.payload s).monitor.is_rain ≡ (
        if contains s.loops client
        then reading_of (sensor_of s.cfg s.settings) s.monitor.is_rain (parse_payload r.payload)
        else s.monitor.is_rain)
unfolding on_message
on_message-is_rain client r s = elim (Bool-cases (contains s.loops client)) [
  | inl runs ↦
      rw (on_message, runs)
        (handle_payload-is_rain (sensor_of s.cfg s.settings) s.groups r s.monitor)
  | inr ended ↦ rw (on_message, ended) refl
]

-- Whatever is saved while the monitor runs, another type of the sensor and its end included: until
-- the next start or stop the monitor hears its clients as before, and holds what the last readable
-- message says to the configuration with which it was started.
pub serve_all-is_rain :
    (c : Config) (events : List Event) (s : Service)
    → s.cfg ≡ some c
    → (serve_all events s).monitor.is_rain
      ≡ last_rain c.sensor (heard s.loops events) s.monitor.is_rain
unfolding serve_all
serve_all-is_rain c [] s started = refl
serve_all-is_rain c (saved config ∷ events) s started =
    let (keeps, same) = save-Keeps config s in
    serve_all-is_rain c events (save config s).0 (keeps.cfg ∙ started) ∙ rw (keeps.loops, same) refl
serve_all-is_rain c (message client r ∷ events) s started =
    let keeps = on_message-Keeps client r s in
    let s' : Service = on_message client r.day r.payload s in
    serve_all-is_rain c events s' (keeps.cfg ∙ started)
    ∙ rw (keeps.loops, on_message-is_rain client r s, started)
        (elim (Bool-cases (contains s.loops client)) [
          | inl runs ↦ rw runs refl
          | inr ended ↦ rw ended refl
        ])
