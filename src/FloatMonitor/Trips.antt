-- ===== src/FloatMonitor/Trips.antt =====
-- When a group is stopped: after three trips, and after the timeout.
use irrigation.Base.{
  ℕ, suc, ◌+◌, ◌*◌, ◌≤◌, ◌≡◌, refl, ◌⊎◌, inl, inr, true, false, List, [], ◌∷◌, map, arith, length,
  keep_if, length-keep_if-le, leb,
}
use irrigation.FloatMonitor.{
  GroupState, Moment, debounce, apply_level, on_level_low, pause, emergency_stop, trips_at,
  trip_window,
}
use irrigation.FloatMonitor.Monitor.{time_out, times_out, check_states}

-- The trip that comes now counts with those of the last 300 s.
length-trips_at :
    (now : ℕ) (trips : List ℕ)
    → length (trips_at now trips) ≡ suc (length (keep_if (λ t. leb now (t + 300000)) trips))
length-trips_at now [] = ground arith
length-trips_at now (t ∷ trips) = ground (arith, length-trips_at now trips)

-- Low water pauses a group that is not stopped. It stops the group at once exactly if two trips or
-- more of the last 300 s are known already, and otherwise a check finds the group due exactly from
-- `timeout_minutes` after the trip on.
pub on_level_low-times_out :
    (at : Moment) (gs : GroupState) (now : ℕ)
    → gs.emergency_stopped ≡ false
    → let gs' = (on_level_low at gs).0 in
      (gs'.paused ≡ true)
      × (gs'.emergency_stopped
          ≡ leb 2 (length (keep_if (λ t. leb at.now (t + 300000)) gs.trip_times)))
      × (gs'.emergency_stopped ≡ false
          → times_out now gs' ≡ leb (at.now + gs.timeout_minutes * 60000) now)
unfolding on_level_low pause emergency_stop
on_level_low-times_out at gs now h = ground (arith, length-trips_at at.now gs.trip_times)

-- The trips since a time.
abbrev since : (from : ℕ) → List ℕ → List ℕ
since from trips = keep_if (λ t. leb from t) trips

length-since_trips :
    (from now : ℕ) (trips : List ℕ)
    → from ≤ now
    → now ≤ from + trip_window
    → length (since from (trips_at now trips)) ≡ length (since from trips) + 1
length-since_trips from now [] a b = ground arith
length-since_trips from now (t ∷ trips) a b = ground (arith, length-since_trips from now trips a b)

-- A group without debouncing that is stopped, or has had `n` trips since a time, of at most two.
abbrev HasTripped : (from n : ℕ) → GroupState → Type 0
HasTripped from n gs =
    (gs.debounce_seconds ≡ 0)
    × ((gs.emergency_stopped ≡ true)
        ⊎ ((n ≤ length (since from gs.trip_times)) × (length gs.trip_times ≤ 2)))

debounce-HasTripped :
    (from n : ℕ) (at : Moment) (gs : GroupState)
    → from ≤ at.now
    → at.now ≤ from + trip_window
    → (gs.debounce_seconds ≡ 0)
    → ((gs.emergency_stopped ≡ true) ⊎ (n ≤ length (since from gs.trip_times)))
    → HasTripped from (n + 1) (debounce false at gs).0
unfolding debounce apply_level on_level_low pause emergency_stop
debounce-HasTripped from n at gs a b d h =
    ground (arith, length-since_trips from at.now gs.trip_times a b)

at_least :
    (from n : ℕ) (gs : GroupState)
    → (gs.emergency_stopped ≡ true)
      ⊎ ((n ≤ length (since from gs.trip_times)) × (length gs.trip_times ≤ 2))
    → (gs.emergency_stopped ≡ true) ⊎ (n ≤ length (since from gs.trip_times))
at_least from n gs (inl stopped) = inl stopped
at_least from n gs (inr (many, few)) = inr many

-- Three trips do not fit into two.
too_many :
    (from : ℕ) (gs : GroupState)
    → (gs.emergency_stopped ≡ true)
      ⊎ ((3 ≤ length (since from gs.trip_times)) × (length gs.trip_times ≤ 2))
    → gs.emergency_stopped ≡ true
too_many from gs (inl stopped) = stopped
too_many from gs (inr (many, few)) =
    absurd (omega (arith, many, few, length-keep_if-le (leb from) gs.trip_times))

-- A sensor without debouncing that reports low water three times within 300 s stops the group for
-- good, though the level has not come back in between: each report counts as a trip.
debounce-repeated_low :
    (gs : GroupState) (a b c : Moment)
    → gs.debounce_seconds ≡ 0
    → a.now ≤ b.now
    → b.now ≤ c.now
    → c.now ≤ a.now + 300 * 1000
    → let gs₁ = (debounce false a gs).0 in
      let gs₂ = (debounce false b gs₁).0 in (debounce false c gs₂).0.emergency_stopped ≡ true
debounce-repeated_low gs a b c d ab bc ac =
    let gs₁ : GroupState = (debounce false a gs).0 in
    let gs₂ : GroupState = (debounce false b gs₁).0 in
    let none_yet : 0 ≤ length (since a.now gs.trip_times) = omega arith in
    let one = debounce-HasTripped a.now 0 a gs (omega arith) (omega arith) d (inr none_yet) in
    let (d₁, trips₁) = one in
    let two = debounce-HasTripped a.now 1 b gs₁ ab (omega arith) d₁ (at_least a.now 1 gs₁ trips₁) in
    let (d₂, trips₂) = two in
    let three =
      debounce-HasTripped a.now 2 c gs₂ (omega arith) ac d₂ (at_least a.now 2 gs₂ trips₂) in
    too_many a.now (debounce false c gs₂).0 three.1

-- A check names each group that is due, in order, and a second check at the same time none.
check_states-exact :
    (now : ℕ) (states : List (ℕ × GroupState))
    → ((check_states now states).1 ≡ map (λ s. s.0) (keep_if (λ s. times_out now s.1) states))
      × ((check_states now (check_states now states).0).1 ≡ [])
unfolding check_states time_out
check_states-exact now [] = (refl, refl)
check_states-exact now ((g, gs) ∷ states) = ground (arith, check_states-exact now states)
