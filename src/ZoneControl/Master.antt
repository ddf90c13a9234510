-- ===== src/ZoneControl/Master.antt =====
-- `_schedule_master_close` of services/zone_control.py: the delayed close of a master valve.
use irrigation.Base.{
  ℕ, ◌+◌, ◌*◌, max, Bool, true, false, not, ◌&&◌, ◌||◌, List, [], ◌∷◌, Option, none, some, any, leb,
  if◌then◌else◌, ◌==◌, nat_eq, list_eq,
}
use irrigation.Base.Maps.{lookup, insert, adjust, erase}
use irrigation.Topics.{Topic, normalize_topic}
use irrigation.ZoneControl.{
  Zone, Group, Valve, closed, Publish, System, World, is_active, strip, is_blank, zones_by_group,
  publish,
}

abbrev pub master_close_delay_sec : ℕ
master_close_delay_sec = 60

abbrev pub or_default : ℕ → Option ℕ → ℕ
or_default n none = n
or_default n (some m) = m

-- `max(1, delay)`, or no delay at all.
abbrev delay_of : (immediate : Bool) → Group → ℕ
delay_of true g = 0
delay_of false g = max 1 (or_default master_close_delay_sec g.master_close_delay_sec)

abbrev pub master_key : Group → Topic
master_key g = normalize_topic (strip g.master_mqtt_topic)

-- Has the group a master valve that can be reached?
unfoldable pub has_master : Group → Bool
has_master g =
    g.use_master_valve
    && not (is_blank (strip g.master_mqtt_topic))
    && not (g.master_mqtt_server_id == 0)

-- A new timer takes the place of the one that is pending for the same valve.
unfoldable pub schedule_master_close :
    (group_id : ℕ) → Group → (immediate : Bool) → World → System → System
unfolding has_master
schedule_master_close gid g immediate w s =
    if has_master g
    then record s {
      timers =
          insert (master_key g)
            (record { group_id = gid; group = g; due = w.now + delay_of immediate g * 1000 })
            s.timers;
    }
    else s

abbrev pub active : Option Zone → Bool
active none = false
active (some z) = is_active z.state

abbrev pub is_on_or_starting : ℕ → System → Bool
is_on_or_starting id s = active (lookup id s.zones)

-- The groups with the same master valve.
abbrev pub shares_master : Topic → Group → Bool
shares_master key g = not (is_blank (strip g.master_mqtt_topic)) && master_key g == key

-- Is a zone of such a group on or starting?
unfoldable pub any_on_in : Topic → List (ℕ × Group) → System → Bool
any_on_in key [] s = false
any_on_in key ((gid, g) ∷ groups) s =
    shares_master key g && any (λ id. is_on_or_starting id s) (zones_by_group gid s)
    || any_on_in key groups s

unfoldable pub any_on : Topic → System → Bool
unfolding any_on_in
any_on key s = any_on_in key s.groups s

-- Closed is "1" for a valve that is normally open.
abbrev pub close_publish : Topic → Group → Publish
close_publish key g = record {
  server = g.master_mqtt_server_id;
  topic = key;
  value = g.normally_open;
}

abbrev pub observe : ℕ → Valve → List (ℕ × Group) → List (ℕ × Group)
observe gid v groups = adjust gid (λ g. record g { master_valve_observed = some v }) groups

-- The end of `_do_close`, once no zone needs the water.
unfoldable pub publish_close : Topic → ℕ → Group → World → System → System
publish_close key gid g w s =
    let s' = publish (close_publish key g) s in
    if w.knows_server g.master_mqtt_server_id
    then (if w.acknowledges (close_publish key g) && not (gid == 0)
        then record s' { groups = observe gid closed s.groups }
        else s')
    else s

-- `_do_close`: no lock is held from the look at the zones to the close, so that other threads can get
-- in between; `others` is what they do.
unfoldable pub do_close : Topic → ℕ → Group → World → (others : System → System) → System → System
unfolding any_on publish_close
do_close key gid g w others s = if any_on key s then s else publish_close key gid g w (others s)

-- A timer that is due closes its valve.
unfoldable pub fire : Topic → World → (others : System → System) → System → System
unfolding do_close
fire key w others s = elim (lookup key s.timers) [
  | none ↦ s
  | some t ↦
      if leb t.due w.now
      then do_close key t.group_id t.group w others (record s { timers = erase key s.timers })
      else s
]
