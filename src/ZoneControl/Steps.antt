-- ===== src/ZoneControl/Steps.antt =====
-- Relations between two states that every write of services/zone_control.py keeps: it is enough that
-- they hold across the updates of a zone's state and across what leaves the states alone.
use Prim.Native.String.{String}
use irrigation.Base.{
  ℕ, ◌≡◌, refl, ◌∙◌, inl, inr, Bool, false, not, ◌&&◌, List, [], ◌∷◌, arith, leb, contains, ◌==◌,
  nat_eq, list_eq, Bool-cases, Option-cases,
}
use irrigation.Base.Maps.{lookup, erase}
use irrigation.Topics.{Topic}
use irrigation.ZoneControl.{
  Zone, Group, Update, System, World, is_active, is_group, update_zone_state, publish,
  relay_publish, reaches,
}
use irrigation.ZoneControl.Master.{
  has_master, master_key, schedule_master_close, any_on, publish_close, do_close, fire,
}
use irrigation.ZoneControl.Start.{open_run, open_valve, open_master}
use irrigation.ZoneControl.Stop.{Stats, store_stats, plan_close, switch_off, Stop}
use irrigation.ZoneControl.Emergency.{close_valve, close_once, close_group, see, close_masters}

-- Neither the zones nor the audit log differ.
pub record SameZones (s s' : System) : Type 0 where
  pub zones : s'.zones ≡ s.zones
  pub audit : s'.audit ≡ s.audit

pub same_zones : (s : System) → SameZones s s
same_zones s = record { zones = refl; audit = refl }

SameZones-trans : (s₁ s₂ s₃ : System) → SameZones s₁ s₂ → SameZones s₂ s₃ → SameZones s₁ s₃
SameZones-trans s₁ s₂ s₃ h k = record { zones = k.zones ∙ h.zones; audit = k.audit ∙ h.audit }

pub record IsStep (R : System → System → Type 0) : Type 0 where
  pub same : (s s' : System) → SameZones s s' → R s s'
  pub trans : (s₁ s₂ s₃ : System) → R s₁ s₂ → R s₂ s₃ → R s₁ s₃
  -- To a state in which the zone does not run.
  pub rest :
      (k : ℕ) (u : Update) (reason : String) (s : System)
      → is_active u.state ≡ false
      → R s (update_zone_state k u reason s)
  pub measure : (k : ℕ) (stats : Stats) (s : System) → R s (store_stats k stats s)

pub open_run-SameZones :
    (id gid : ℕ) (source : String) (w : World) (s : System)
    → SameZones s (open_run id gid source w s)
unfolding open_run
open_run-SameZones id gid source w s = record { zones = ground arith; audit = ground arith }

pub open_valve-SameZones :
    (gid : ℕ) (g : Group) (w : World) (s : System) → SameZones s (open_valve gid g w s)
unfolding open_valve
open_valve-SameZones gid g w s = record { zones = ground arith; audit = ground arith }

open_master-SameZones : (gid : ℕ) (w : World) (s : System) → SameZones s (open_master gid w s)
unfolding open_master
open_master-SameZones gid w s = elim (Bool-cases (is_group gid)) [
  | inl grouped ↦
      rw (open_master, grouped)
        (elim (Option-cases (lookup gid s.groups)) [
          | inl missing ↦ rw missing (same_zones s)
          | inr (g, there) ↦ rw there (open_valve-SameZones gid g w s)
        ])
  | inr alone ↦ rw (open_master, alone) (same_zones s)
]

-- What happens between the two updates of a start.
pub opened-SameZones :
    (id gid : ℕ) (source : String) (w : World) (s : System)
    → SameZones s (open_master gid w (open_run id gid source w s))
opened-SameZones id gid source w s =
    SameZones-trans s (open_run id gid source w s) _ (open_run-SameZones id gid source w s)
      (open_master-SameZones gid w (open_run id gid source w s))

-- Everything but the timers is as it was.
pub record OnlyTimers (s s' : System) : Type 0 where
  pub zones : s'.zones ≡ s.zones
  pub published : s'.published ≡ s.published
  pub audit : s'.audit ≡ s.audit
  pub runs : s'.runs ≡ s.runs

only_timers : (s : System) → OnlyTimers s s
only_timers s = record { zones = refl; published = refl; audit = refl; runs = refl }

schedule_master_close-OnlyTimers :
    (gid : ℕ) (g : Group) (immediate : Bool) (w : World) (s : System)
    → OnlyTimers s (schedule_master_close gid g immediate w s)
unfolding schedule_master_close
schedule_master_close-OnlyTimers gid g immediate w s = record {
  zones = ground arith;
  published = ground arith;
  audit = ground arith;
  runs = ground arith;
}

pub plan_close-OnlyTimers :
    (gid : ℕ) (immediate skip : Bool) (w : World) (s : System)
    → OnlyTimers s (plan_close gid immediate skip w s)
unfolding plan_close
plan_close-OnlyTimers gid immediate skip w s = elim (Bool-cases (is_group gid && not skip)) [
  | inl planned ↦
      rw (plan_close, planned)
        (elim (Option-cases (lookup gid s.groups)) [
          | inl missing ↦ rw missing (only_timers s)
          | inr (g, there) ↦ rw there (schedule_master_close-OnlyTimers gid g immediate w s)
        ])
  | inr unplanned ↦ rw (plan_close, unplanned) (only_timers s)
]

pub plan_close-SameZones :
    (gid : ℕ) (immediate skip : Bool) (w : World) (s : System)
    → SameZones s (plan_close gid immediate skip w s)
plan_close-SameZones gid immediate skip w s =
    let p = plan_close-OnlyTimers gid immediate skip w s in
    record { zones = p.zones; audit = p.audit }

pub switch_off-SameZones :
    (id : ℕ) (z : Zone) (stop : Stop) (w : World) (s : System)
    → SameZones s (switch_off id z stop w s)
unfolding switch_off
switch_off-SameZones id z stop w s = elim (Bool-cases (reaches w z.topic z.mqtt_server_id)) [
  | inl sent ↦
      (let p =
          plan_close-SameZones z.group_id stop.master_close_immediately stop.skip_master_close w
            (publish (relay_publish z false) s) in
        rw (switch_off, sent) (record { zones = p.zones; audit = p.audit }))
  | inr unsent ↦ rw (switch_off, unsent) (same_zones s)
]

publish_close-SameZones :
    (key : Topic) (gid : ℕ) (g : Group) (w : World) (s : System)
    → SameZones s (publish_close key gid g w s)
unfolding publish_close
publish_close-SameZones key gid g w s = record { zones = ground arith; audit = ground arith }

do_close-SameZones :
    (key : Topic) (gid : ℕ) (g : Group) (w : World) (s : System)
    → SameZones s (do_close key gid g w (λ s'. s') s)
unfolding do_close
do_close-SameZones key gid g w s = elim (Bool-cases (any_on key s)) [
  | inl needed ↦ rw (do_close, needed) (same_zones s)
  | inr free ↦ rw (do_close, free) (publish_close-SameZones key gid g w s)
]

pub fire-SameZones : (key : Topic) (w : World) (s : System) → SameZones s (fire key w (λ s'. s') s)
unfolding fire
fire-SameZones key w s = elim (Option-cases (lookup key s.timers)) [
  | inl missing ↦ rw (fire, missing) (same_zones s)
  | inr (t, there) ↦
      rw (fire, there)
        (elim (Bool-cases (leb t.due w.now)) [
          | inl due ↦
              (let d =
                  do_close-SameZones key t.group_id t.group w
                    (record s { timers = erase key s.timers }) in
                rw due (record { zones = d.zones; audit = d.audit }))
          | inr early ↦ rw early (same_zones s)
        ])
]

close_valve-SameZones :
    (gid : ℕ) (g : Group) (w : World) (s : System) → SameZones s (close_valve gid g w s).0
unfolding close_valve
close_valve-SameZones gid g w s = record { zones = ground arith; audit = ground arith }

close_once-SameZones :
    (seen : List Topic) (gid : ℕ) (g : Group) (w : World) (s : System)
    → SameZones s (close_once seen gid g w s).0
unfolding close_once
close_once-SameZones seen gid g w s =
    let c = close_valve-SameZones gid g w (record s { timers = erase (master_key g) s.timers }) in
    elim (Bool-cases (contains seen (master_key g))) [
      | inl dup ↦ rw (close_once, dup) (record { zones = refl; audit = refl })
      | inr new ↦ rw (close_once, new) (record { zones = c.zones; audit = c.audit })
    ]

close_group-SameZones :
    (seen : List Topic) (gid : ℕ) (g : Group) (w : World) (s : System)
    → SameZones s (close_group seen gid g w s).0
unfolding close_group
close_group-SameZones seen gid g w s = elim (Bool-cases (not g.use_master_valve)) [
  | inl unused ↦ rw (close_group, unused) (same_zones s)
  | inr used ↦
      rw (close_group, used)
        (elim (Bool-cases (has_master g)) [
          | inl master ↦ rw master (close_once-SameZones seen gid g w s)
          | inr none_there ↦ rw none_there (same_zones s)
        ])
]

pub close_masters-SameZones :
    (seen : List Topic) (groups : List (ℕ × Group)) (w : World) (s : System)
    → SameZones s (close_masters seen groups w s).0
unfolding close_masters
close_masters-SameZones seen [] w s = same_zones s
close_masters-SameZones seen ((gid, g) ∷ groups) w s = elim (Bool-cases (gid == 0)) [
  | inl zero ↦ rw (close_masters, zero) (close_masters-SameZones seen groups w s)
  | inr nonzero ↦
      rw (close_masters, nonzero)
        (SameZones-trans s (close_group seen gid g w s).0 _ (close_group-SameZones seen gid g w s)
          (close_masters-SameZones (see g seen) groups w (close_group seen gid g w s).0))
]
