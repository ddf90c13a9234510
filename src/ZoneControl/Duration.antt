-- ===== src/ZoneControl/Duration.antt =====
-- `per_zone_dur` of services/zone_control.py: how long a zone runs that is started by hand.
use native.Mathlib.Nat.{mul-le-mul_left}
use irrigation.Base.{
  ℕ, ◌+◌, ◌*◌, ◌/◌, ◌≤◌, ◌<◌, ◌≡◌, List, [], ◌∷◌, ◌++◌, Option, none, some, arith, ltb, nat_beq,
  if◌then◌else◌,
}

pub data Warning : Type 0 where
  norm_not_set clipped_min clipped_max : Warning

abbrev max_manual_watering_min : ℕ
max_manual_watering_min = 240

abbrev percent_fallback_base_min : ℕ
percent_fallback_base_min = 15

-- A missing duration, or one that is no number, is 0.
abbrev base_of : (duration : ℕ) → ℕ × List Warning
base_of duration =
    if nat_beq duration 0 then (percent_fallback_base_min, norm_not_set ∷ []) else (duration, [])

-- `math.ceil(base * percent / 100)`
abbrev percent_of : ℕ → ℕ → ℕ
percent_of base percent = (base * percent + 99) / 100

abbrev clip : ℕ → ℕ × List Warning
clip n =
    if ltb n 1
    then (1, clipped_min ∷ [])
    else (if ltb max_manual_watering_min n
        then (max_manual_watering_min, clipped_max ∷ [])
        else (n, []))

-- The minutes win over the percentage.
unfoldable pub per_zone_dur :
    (duration : ℕ) (override_duration override_percent : Option ℕ) → ℕ × List Warning
per_zone_dur duration (some minutes) percent = (minutes, [])
per_zone_dur duration none none = (duration, [])
per_zone_dur duration none (some percent) =
    let (base, warnings) = base_of duration in
    let (computed, clipped) = clip (percent_of base percent) in (computed, warnings ++ clipped)

clip_bounds : (n : ℕ) → (1 ≤ (clip n).0) × ((clip n).0 ≤ 240) × (1 ≤ n → n ≤ 240 → (clip n).0 ≡ n)
clip_bounds n = ground arith

clip_mono : (m n : ℕ) → m ≤ n → (clip m).0 ≤ (clip n).0
clip_mono m n h = ground arith

-- A percentage gives between 1 minute and 240: the exact share, rounded up by less than a minute,
-- if nothing is clipped, and no less for a larger percentage. The norm of a zone without a
-- duration is 15 minutes.
per_zone_dur_bounds :
    (duration percent more : ℕ)
    → percent ≤ more
    → let n = (per_zone_dur duration none (some percent)).0 in
      let norm = (base_of duration).0 in
      (1 ≤ n)
      × (n ≤ 240)
      × (n ≤ (per_zone_dur duration none (some more)).0)
      × (1 ≤ norm * percent
          → norm * percent ≤ 24000
          → (norm * percent ≤ n * 100) × (n * 100 < norm * percent + 100))
unfolding per_zone_dur
per_zone_dur_bounds duration percent more h =
    let norm : ℕ = (base_of duration).0 in
    let wider = mul-le-mul_left norm h in
    let l = clip_mono (percent_of norm percent) (percent_of norm more) (omega (arith, wider)) in
    let (a, b, c) = clip_bounds (percent_of norm percent) in
    (a, b, l, λ low high. let e = c (omega arith) (omega arith) in omega (arith, e))
