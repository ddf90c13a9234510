-- ===== src/ZoneControl/Verified.antt =====
-- What `StateVerifier.verify` of services/observed_state.py comes to.
use Prim.Native.String.{String}
use irrigation.Base.{
  ℕ, zero, suc, ◌-◌, ◌≤◌, ◌≡◌, refl, Bool, true, false, not, ◌&&◌, ◌||◌, List, [], ◌∷◌, ◌++◌, some,
  arith, if◌then◌else◌, ◌==◌, nat_eq,
}
use irrigation.Base.Maps.{lookup, map_some}
use irrigation.Topics.{normalize_topic}
use irrigation.ZoneControl.{
  Zone, System, World, Publish, reaches, is_blank, strip, relay_publish, apply_update,
}
use irrigation.ZoneControl.Master.{is_on_or_starting}
use irrigation.ZoneControl.Stop.{Stop, stop_zone}
use irrigation.ZoneControl.Verify.{Turn, to_fault, subscribe_and_wait, attempt, verify}
use irrigation.ZoneControl.Stopping.{stop_zone-stops}

-- No other thread does anything while the verification waits.
abbrev pub alone : (payloads : ℕ → List String) → ℕ → Turn
alone payloads n = record { payloads = payloads n; others = λ s. s }

-- In which of the waits a payload comes that says what is expected.
abbrev pub answers_of : (expected : Bool) → (payloads : ℕ → List String) → ℕ → Bool
answers_of expected payloads n = subscribe_and_wait expected (payloads n)

-- Does the echo come in one of the waits?
abbrev echoes : ℕ → (answers : ℕ → Bool) → Bool
echoes zero answers = false
echoes (suc n) answers = answers n || echoes n answers

abbrev copies : ℕ → Publish → List Publish
copies zero p = []
copies (suc n) p = p ∷ copies n p

-- The outcome of a number of attempts.
pub record IsVerified (id : ℕ) (z : Zone) (p : Publish) (n : ℕ) (answers : ℕ → Bool) (s s' : System)
    (ok : Bool) : Type 0 where
  pub answer : ok ≡ echoes n answers
  pub kept : ok ≡ true → s'.zones ≡ s.zones
  pub failed :
      ok ≡ false → lookup id s'.zones ≡ map_some (apply_update (to_fault z)) (lookup id s.zones)
  pub again : (k : ℕ) × (k ≤ n - 1) × (s'.published ≡ s.published ++ copies k p)

reached_parts :
    (blank unset known : Bool)
    → (not blank && not unset && known) ≡ true
    → ((blank ≡ false) × (unset ≡ false)) × (known ≡ true)
reached_parts blank unset known h = ground arith

-- The turns of such a verification: the attempt 2 is the first of three.
abbrev pub stopped_at_first : ℕ → Stop → World → ℕ → Turn
stopped_at_first id stop w' n =
    if n == 2
    then record { payloads = []; others = λ s. (stop_zone id stop w' s).0 }
    else record { payloads = "on" ∷ []; others = λ s. s }

-- A verification that waits for a zone to be on tells its relay to switch on again though the zone has
-- been stopped in the meantime: if the first of the three waits has no echo, the zone is stopped during
-- it, and the second has one, then the zone is off, and the last publish switches its relay on.
verify-reopens :
    (id : ℕ) (stop : Stop) (w w' : World) (s : System) (z : Zone)
    → lookup id s.zones ≡ some z
    → reaches w z.topic z.mqtt_server_id ≡ true
    → is_blank (normalize_topic (strip z.topic)) ≡ false
    → let s' = (verify id true 3 (stopped_at_first id stop w') w s).0 in
      (is_on_or_starting id s' ≡ false)
      × ((ps : List Publish) × (s'.published ≡ ps ++ relay_publish z true ∷ []))
unfolding verify attempt subscribe_and_wait
verify-reopens id stop w w' s z there reached named =
    let ((topic, server), known) =
      reached_parts (is_blank (strip z.topic)) (z.mqtt_server_id == 0)
        (w.knows_server z.mqtt_server_id) reached in
    rw (verify, there, topic, server, known, named)
      (stop_zone-stops id stop w' s, ((stop_zone id stop w' s).0.published, refl))
