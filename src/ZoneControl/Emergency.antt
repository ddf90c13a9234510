-- ===== src/ZoneControl/Emergency.antt =====
-- `emergency_stop_all` of services/zone_control.py, in its three phases.
use Prim.Native.String.{String, ◌++◌ as ◌++ₛ◌}
use irrigation.Base.{
  ℕ, true, false, not, ◌&&◌, List, [], ◌∷◌, ◌++◌, keep_if, contains, if◌then◌else◌, ◌==◌, nat_eq,
  list_eq,
}
use irrigation.Base.Maps.{erase}
use irrigation.Topics.{Topic}
use irrigation.ZoneControl.{Group, closed, System, World, zones_by_group, publish, keys}
use irrigation.ZoneControl.Master.{
  has_master, master_key, close_publish, observe, is_on_or_starting,
}
use irrigation.ZoneControl.Stop.{Stop, stop_each}

abbrev pub emergency : String → Stop
emergency reason = record {
  reason = reason;
  force = true;
  master_close_immediately = false;
  skip_master_close = true;
}

-- Phase A: the zones of each group are stopped, and no close is planned.
unfoldable pub stop_groups : List ℕ → Stop → World → System → System
unfolding stop_each zones_by_group
stop_groups [] stop w s = s
stop_groups (gid ∷ gids) stop w s =
    stop_groups gids stop w (if gid == 0 then s else stop_each (zones_by_group gid s) stop w s)

-- The zones of a group that are on or starting.
unfoldable pub stuck_in : (gid : ℕ) → System → List ℕ
unfolding zones_by_group
stuck_in gid s =
    if gid == 0
    then []
    else keep_if (λ id. is_on_or_starting id s && not (id == 0)) (zones_by_group gid s)

unfoldable pub stuck_zones : List ℕ → System → List ℕ
unfolding stuck_in
stuck_zones [] s = []
stuck_zones (gid ∷ gids) s = stuck_in gid s ++ stuck_zones gids s

-- Phase B, after the wait: what still runs is stopped again.
unfoldable pub retry : List ℕ → (reason : String) → World → System → System
unfolding stuck_zones stop_each
retry gids reason w s = stop_each (stuck_zones gids s) (emergency (reason ++ₛ "_retry")) w s

-- What becomes of the master valve of a group.
pub data Outcome : Type 0 where
  valve_closed no_use_master no_topic dup_topic failed_publish : Outcome

unfoldable pub close_valve : ℕ → Group → World → System → System × Outcome
close_valve gid g w s =
    let p = close_publish (master_key g) g in
    let s' = publish p s in
    if w.knows_server g.master_mqtt_server_id
    then (if w.acknowledges p
        then (record s' { groups = observe gid closed s.groups }, valve_closed)
        else (s', failed_publish))
    else (s, failed_publish)

-- The pending timer is cancelled, and the valve closed unless an earlier group had the same one.
unfoldable pub close_once : List Topic → ℕ → Group → World → System → System × Outcome
unfolding close_valve
close_once seen gid g w s =
    let s' = record s { timers = erase (master_key g) s.timers } in
    if contains seen (master_key g) then (s', dup_topic) else close_valve gid g w s'

unfoldable pub close_group : List Topic → ℕ → Group → World → System → System × Outcome
unfolding close_once has_master
close_group seen gid g w s =
    if not g.use_master_valve
    then (s, no_use_master)
    else (if has_master g then close_once seen gid g w s else (s, no_topic))

unfoldable pub see : Group → List Topic → List Topic
unfolding has_master
see g seen = if has_master g then master_key g ∷ seen else seen

-- Phase C, over the groups as they were read at the beginning.
unfoldable pub close_masters :
    List Topic → List (ℕ × Group) → World → System → System × List Outcome
unfolding close_group see
close_masters seen [] w s = (s, [])
close_masters seen ((gid, g) ∷ groups) w s =
    let (s₁, outcome) = close_group seen gid g w s in
    let (s₂, outcomes) = close_masters (see g seen) groups w s₁ in
    let rest = close_masters seen groups w s in if gid == 0 then rest else (s₂, outcome ∷ outcomes)

-- `others` is what other threads do while phase B waits.
unfoldable pub emergency_stop_all :
    (reason : String) → World → (others : System → System) → System → System × List Outcome
unfolding stop_groups retry close_masters
emergency_stop_all reason w others s =
    let gids = keys s.groups in
    let stopped = stop_groups gids (emergency reason) w s in
    close_masters [] s.groups w (retry gids reason w (others stopped))
