-- ===== src/ZoneControl/Resting.antt =====
-- What `stop_zone` of services/zone_control.py leaves of the zone and of the others.
use Prim.Native.String.{String, ◌++◌ as ◌++ₛ◌}
use mathlib.Core.List.{append-nil}
use irrigation.Base.{
  ℕ, ◌+◌, ◌≡◌, ◌≢◌, refl, sym, ap, ◌∙◌, ◌⊎◌, inl, inr, Bool, false, not, ◌&&◌, List, [], ◌∷◌, ◌++◌,
  Option, none, some, arith, if◌then◌else◌, ◌==◌, nat_eq, list_eq, nat_beq_iff, Bool-cases,
  Option-cases,
}
use irrigation.Base.Maps.{lookup, adjust, map_some, lookup-adjust}
use irrigation.ZoneControl.{
  off, to_off, Zone, Update, System, World, Publish, is_stopped, is_group, apply_update,
  update_zone_state, publish, relay_publish, reaches,
}
use irrigation.ZoneControl.Start.{to_stopping}
use irrigation.ZoneControl.Stop.{
  Stats, measured, finish_water, switch_off, shut_down, stop_zone, to_off_complete, Stop,
}
use irrigation.ZoneControl.Steps.{plan_close-OnlyTimers}
use irrigation.ZoneControl.Quiet.{lookup-update_zone_state}

abbrev pub relay_off : Zone → World → List Publish
relay_off z w = if reaches w z.topic z.mqtt_server_id then relay_publish z false ∷ [] else []

switch_off-zones :
    (id : ℕ) (z : Zone) (stop : Stop) (w : World) (s : System)
    → ((switch_off id z stop w s).zones ≡ s.zones)
      × ((switch_off id z stop w s).published ≡ s.published ++ relay_off z w)
unfolding switch_off
switch_off-zones id z stop w s = elim (Bool-cases (reaches w z.topic z.mqtt_server_id)) [
  | inl sent ↦
      rw (switch_off, sent)
        (let planned =
            plan_close-OnlyTimers z.group_id stop.master_close_immediately stop.skip_master_close w
              (publish (relay_publish z false) s) in
          (planned.zones, planned.published))
  | inr unsent ↦ rw (switch_off, unsent) (refl, sym (append-nil s.published))
]

-- The zones after the end of a run, with whatever was measured.
pub finish_water-zones :
    (id gid : ℕ) (needs_start : Bool) (since : Option ℕ) (w : World) (s : System)
    → let s' = finish_water id gid needs_start since w s in
      ((s'.zones ≡ s.zones) ⊎ ((stats : Stats) × (s'.zones ≡ adjust id (measured stats) s.zones)))
      × (s'.published ≡ s.published)
      × (s'.audit ≡ s.audit)
unfolding finish_water
finish_water-zones id gid needs_start since w s = elim (Bool-cases (is_group gid)) [
  | inl grouped ↦ rw (finish_water, grouped) (inr (_, refl), refl, refl)
  | inr alone ↦ rw (finish_water, alone) (inl refl, refl, refl)
]

-- A row that differs at most in what was measured.
unfoldable pub IsMeasured : Option Zone → Option Zone → Type 0
IsMeasured o o' = (o' ≡ o) ⊎ ((stats : Stats) × (o' ≡ map_some (measured stats) o))

pub lookup-finish_water :
    (i id gid : ℕ) (needs_start : Bool) (since : Option ℕ) (w : World) (s : System)
    → let s' = finish_water id gid needs_start since w s in
      ((id == i) ≡ false → lookup i s'.zones ≡ lookup i s.zones)
      × IsMeasured (lookup id s.zones) (lookup id s'.zones)
unfolding IsMeasured
lookup-finish_water i id gid needs_start since w s =
    elim (finish_water-zones id gid needs_start since w s).0 [
      | inl same ↦ (λ _. ap (lookup i) same, inl (ap (lookup id) same))
      | inr (stats, e) ↦ (
        λ other. ap (lookup i) e ∙ lookup-adjust id i (measured stats) s.zones ∙ rw other refl,
        inr (
          stats,
          ap (lookup id) e
              ∙ lookup-adjust id id (measured stats) s.zones
              ∙ rw ((nat_beq_iff id id).1 refl) refl,
        ),
      )
    ]

-- A zone at rest, since `z`, whatever was measured of its run.
abbrev pub IsRested : Zone → Zone → Type 0
IsRested z z' =
    (z'.state ≡ off)
    × (z'.commanded_state ≡ some to_off)
    × (z'.watering_start_time ≡ none)
    × (z'.planned_end_time ≡ none)
    × (z'.version ≡ z.version + 2)
    × (z'.group_id ≡ z.group_id)

IsRested-measured :
    (z : Zone) (o o' : Option Zone)
    → o ≡ some (apply_update to_off_complete (apply_update to_stopping z))
    → IsMeasured o o'
    → (z' : Zone) × (o' ≡ some z') × IsRested z z'
unfolding IsMeasured
IsRested-measured z o o' shut (inl e) = (_, e ∙ shut, (refl, refl, refl, refl, omega arith, refl))
IsRested-measured z o o' shut (inr (stats, e)) =
    (_, e ∙ ap (map_some (measured stats)) shut, (refl, refl, refl, refl, omega arith, refl))

lookup-shut_down :
    (i id : ℕ) (z : Zone) (stop : Stop) (w : World) (s : System)
    → lookup i (shut_down id z stop w s).zones ≡ (
        if id == i
        then map_some
            (apply_update to_off_complete)
            (map_some (apply_update to_stopping) (lookup i s.zones))
        else lookup i s.zones)
unfolding shut_down
lookup-shut_down i id z stop w s =
    let s₁ = update_zone_state id to_stopping ("stop_" ++ₛ stop.reason) s in
    let first = lookup-update_zone_state i id to_stopping ("stop_" ++ₛ stop.reason) s in
    let sent = (switch_off-zones id z stop w s₁).0 in
    rw
      (
        lookup-update_zone_state i id to_off_complete ("stop_" ++ₛ stop.reason ++ₛ "_complete")
            (switch_off id z stop w s₁),
        sent,
        first,
      )
      (elim (Bool-cases (id == i)) [ inl same ↦ rw same refl | inr other ↦ rw other refl ])

pub update_zone_state-published :
    (k : ℕ) (u : Update) (reason : String) (s : System)
    → (update_zone_state k u reason s).published ≡ s.published
unfolding update_zone_state
update_zone_state-published k u reason s = elim (Option-cases (lookup k s.zones)) [
  | inl missing ↦ rw (missing, update_zone_state) refl
  | inr (z, there) ↦ rw (there, update_zone_state) refl
]

shut_down-published :
    (id : ℕ) (z : Zone) (stop : Stop) (w : World) (s : System)
    → (shut_down id z stop w s).published ≡ s.published ++ relay_off z w
unfolding shut_down
shut_down-published id z stop w s =
    update_zone_state-published id to_off_complete _ _
    ∙ (switch_off-zones id z stop w
        (update_zone_state id to_stopping ("stop_" ++ₛ stop.reason) s)).1
    ∙ ap (λ p. p ++ relay_off z w) (update_zone_state-published id to_stopping _ s)

neither : (k i : ℕ) → i ≢ k → (k == i) ≡ false
neither k i h = ground (arith, nat_beq_iff k i)

-- A stop of a zone that is there and neither off nor stopping, or of any zone by force: the zone is then
-- off, commanded to be off, and has neither a start nor a planned end; it has got two new versions. Its
-- relay is told so if it can be reached. The other zones are untouched.
pub stop_active-IsRested :
    (id : ℕ) (stop : Stop) (w : World) (s : System) (z : Zone)
    → lookup id s.zones ≡ some z
    → (is_stopped z.state && not stop.force) ≡ false
    → let s' = (stop_zone id stop w s).0 in
      ((z' : Zone) × (lookup id s'.zones ≡ some z') × IsRested z z')
      × (s'.published ≡ s.published ++ relay_off z w)
      × ((i : ℕ) → i ≢ id → lookup i s'.zones ≡ lookup i s.zones)
unfolding stop_zone
stop_active-IsRested id stop w s z there h =
    let s₁ = shut_down id z stop w s in
    let finished =
      λ (i : ℕ). lookup-finish_water i id z.group_id false z.watering_start_time w s₁ in
    rw (stop_zone, there, h)
      (
        IsRested-measured z _ _
            (lookup-shut_down id id z stop w s ∙ rw ((nat_beq_iff id id).1 refl, there) refl)
            (finished id).1,
        (finish_water-zones id z.group_id false z.watering_start_time w s₁).1
            ∙ shut_down-published id z stop w s,
        λ i other.
            let differs = neither id i other in
            (finished i).0 differs ∙ lookup-shut_down i id z stop w s ∙ rw differs refl,
      )
