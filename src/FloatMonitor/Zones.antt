-- ===== src/FloatMonitor/Zones.antt =====
-- `pause_active_zones` of db/float.py, on the rows of the zones table.
use irrigation.Base.{
  ℕ, ◌≡◌, refl, Bool, true, false, ◌&&◌, List, [], ◌∷◌, map, Option, none, some, arith, keep_if,
  nat_beq, if◌then◌else◌,
}

-- The states of a zone that the statement tells apart.
pub data ZoneState : Type 0 where
  on paused other : ZoneState

-- `duration` is the planned run time in minutes.
pub record Zone : Type 0 where
  pub id : ℕ
  pub group_id : ℕ
  pub state : ZoneState
  pub duration : Option ℕ
  pub paused_by_float : Bool
  pub pause_remaining_seconds : ℕ

abbrev pub is_on : ZoneState → Bool
is_on on = true
is_on paused = false
is_on other = false

abbrev pub or_zero : Option ℕ → ℕ
or_zero none = 0
or_zero (some n) = n

abbrev pub is_active : ℕ → Zone → Bool
is_active group_id zone = nat_beq zone.group_id group_id && is_on zone.state

abbrev pub pause_zone : Zone → Zone
pause_zone zone = record zone {
  state = paused;
  paused_by_float = true;
  pause_remaining_seconds = or_zero zone.duration;
}

-- The updated rows, and the identifiers of the zones that were paused.
unfoldable pub pause_active_zones : ℕ → List Zone → List Zone × List ℕ
pause_active_zones group_id [] = ([], [])
pause_active_zones group_id (zone ∷ zones) =
    let (zones', ids) = pause_active_zones group_id zones in
    if is_active group_id zone
    then (pause_zone zone ∷ zones', zone.id ∷ ids)
    else (zone ∷ zones', ids)

-- The zones of the group that run are paused, and named, in order; each other zone is left alone;
-- and a second call finds none. What is stored as the remaining seconds is the planned duration.
pause_active_zones-exact :
    (group_id : ℕ) (zones : List Zone)
    → let (zones', ids) = pause_active_zones group_id zones in
      (zones' ≡ map (λ z. if is_active group_id z then pause_zone z else z) zones)
      × (ids ≡ map (λ z. z.id) (keep_if (is_active group_id) zones))
      × (pause_active_zones group_id zones' ≡ (zones', []))
unfolding pause_active_zones
pause_active_zones-exact group_id [] = (refl, refl, refl)
pause_active_zones-exact group_id (zone ∷ zones) =
    ground (arith, pause_active_zones-exact group_id zones)
