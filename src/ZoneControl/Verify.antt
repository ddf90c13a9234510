-- ===== src/ZoneControl/Verify.antt =====
-- `StateVerifier.verify` of services/observed_state.py: does the relay do what it was told?
use Prim.Native.String.{String}
use irrigation.Base.{
  ℕ, zero, suc, ◌+◌, Bool, true, false, ◌&&◌, ◌||◌, List, [], ◌∷◌, contains, none, some, map,
  if◌then◌else◌, ◌==◌, nat_eq, string_eq,
}
use irrigation.Base.Maps.{lookup}
use irrigation.Topics.{normalize_topic}
use irrigation.ZoneControl.{
  fault, Zone, Run, System, World, Update, is_blank, strip, publish, relay_publish,
  update_zone_state,
}
use irrigation.ZoneControl.Start.{is_open}

-- One wait for the echo of the relay: the payloads that came on the topic before the time was up,
-- decoded and stripped, and what other threads did meanwhile. A connection that fails brings none.
pub record Turn : Type 0 where
  pub payloads : List String
  pub others : System → System

abbrev pub to_fault : Zone → Update
to_fault z = record {
  state = fault;
  commanded_state = none;
  watering_start_time = none;
  planned_end_time = none;
  fault_count = some (z.fault_count + 1);
}

-- `_record_fault`: the count is that of the zone as it was read at the beginning.
unfoldable pub record_fault : ℕ → Zone → System → System
unfolding update_zone_state
record_fault id z s = update_zone_state id (to_fault z) "fault_detected" s

abbrev confirm : ℕ → Run → Run
confirm id r = if r.zone_id == id && is_open r then record r { confirmed = true } else r

-- `mark_zone_run_confirmed`, if the zone was switched on.
abbrev pub mark_confirmed : ℕ → (expected : Bool) → System → System
mark_confirmed id expected s = if expected then record s { runs = map (confirm id) s.runs } else s

abbrev pub expected_payloads : (expected : Bool) → List String
expected_payloads true = "1" ∷ "on" ∷ "ON" ∷ "true" ∷ "True" ∷ "TRUE" ∷ []
expected_payloads false = "0" ∷ "off" ∷ "OFF" ∷ "false" ∷ "False" ∷ "FALSE" ∷ []

-- `_subscribe_and_wait`: does one of the payloads say what is expected?
unfoldable pub subscribe_and_wait : (expected : Bool) → List String → Bool
subscribe_and_wait expected [] = false
subscribe_and_wait expected (p ∷ payloads) =
    contains (expected_payloads expected) p || subscribe_and_wait expected payloads

abbrev is_last : (left : ℕ) → Bool
is_last zero = true
is_last (suc left) = false

-- The loop: `left` attempts are left, of which the last publishes nothing afterwards.
unfoldable pub attempt :
    (left : ℕ) (id : ℕ) → Zone → (expected : Bool) → (turns : ℕ → Turn) → System → System × Bool
unfolding record_fault
attempt zero id z expected turns s = (record_fault id z s, false)
attempt (suc left) id z expected turns s =
    let s' = (turns left).others s in
    let again = if is_last left then s' else publish (relay_publish z expected) s' in
    let rest = attempt left id z expected turns again in
    if subscribe_and_wait expected (turns left).payloads
    then (mark_confirmed id expected s', true)
    else rest

unfoldable pub verify :
    (id : ℕ) (expected : Bool) (retries : ℕ) → (turns : ℕ → Turn) → World → System → System × Bool
unfolding attempt
verify id expected retries turns w s = elim (lookup id s.zones) [
  | none ↦ (s, false)
  | some z ↦
      if is_blank (strip z.topic) || z.mqtt_server_id == 0
      then (s, true)
      else (if w.knows_server z.mqtt_server_id
          then (if is_blank (normalize_topic (strip z.topic))
              then (s, true)
              else attempt retries id z expected turns s)
          else (s, false))
]
