-- ===== src/EtCalculator.antt =====
-- services/et_calculator.py: how much water a lawn needs, and for how long a zone runs for it.
-- Temperatures are hundredths of a degree, rain and water depths hundredths of a millimetre, the rates
-- of nozzles and soil hundredths of a millimetre per hour, and times tenths of a minute. The products are
-- exact, where the code has floating-point numbers.
pub mod Cycles
pub mod Examples
use irrigation.Base.{
  ℕ, zero, suc, ◌+◌, ◌-◌, ◌*◌, ◌/◌, ◌%◌, min, max, Bool, true, false, ◌||◌, List, [], ◌∷◌, Option,
  none, some, ltb, leb, nat_beq, map, if◌then◌else◌,
}

pub data ℤ : Type 0 where
  pos negsuc : ℕ → ℤ

-- Comparisons with a threshold in whole degrees above 0.
abbrev pub below : ℤ → (degrees : ℕ) → Bool
below (pos t) d = ltb t (d * 100)
below (negsuc t) d = true

abbrev pub above : ℤ → (degrees : ℕ) → Bool
above (pos t) d = ltb (d * 100) t
above (negsuc t) d = false

pub data Site : Type 0 where
  orsk cholpon_ata other_site : Site

abbrev pub lookup_et_base : ℤ → ℕ
lookup_et_base t =
    if below t 5
    then 0
    else (if below t 15
        then 200
        else (if below t 20
            then 300
            else (if below t 25
                then 400
                else (if below t 30
                    then 550
                    else (if below t 35 then 650 else (if below t 40 then 750 else 800))))))

-- In percent.
abbrev pub calc_kt : ℤ → ℕ
calc_kt t =
    if below t 5
    then 0
    else (if below t 10
        then 50
        else (if below t 15
            then 70
            else (if below t 20
                then 85
                else (if below t 25
                    then 100
                    else (if below t 30
                        then 115
                        else (if below t 35 then 125 else (if below t 40 then 135 else 140)))))))

abbrev pub altitude_correction : Site → ℕ
altitude_correction orsk = 100
altitude_correction cholpon_ata = 112
altitude_correction other_site = 100

abbrev pub lake_humidity_factor : Site → ℕ
lake_humidity_factor orsk = 100
lake_humidity_factor cholpon_ata = 92
lake_humidity_factor other_site = 100

-- In units of 10⁻⁸ mm.
abbrev pub calc_et_corrected : ℤ → Site → ℕ
calc_et_corrected t site =
    lookup_et_base t * calc_kt t * altitude_correction site * lake_humidity_factor site

-- The rain that the soil takes up, in units of 10⁻⁴ mm: 90 % of the first 5 mm, 75 % of the next 10 and
-- 50 % of the rest.
abbrev pub effective : (precip_48h : ℕ) → ℕ
effective p = min p 500 * 90 + min (p - 500) 1000 * 75 + (p - 1500) * 50

abbrev pub calc_k_precip : (et_need : ℕ) (precip_48h : ℕ) → ℕ
calc_k_precip need p = need - effective p * 10000

unfoldable pub calc_irrigation_need : (t_avg : ℤ) (precip_48h : ℕ) → Site → ℕ
calc_irrigation_need t p site = calc_k_precip (calc_et_corrected t site) p

-- `round(a / b)`, which rounds a half to the even neighbour.
abbrev pub round_div : ℕ → ℕ → ℕ
round_div a b =
    let q = a / b in
    if ltb (2 * (a % b)) b then q else (if ltb b (2 * (a % b)) then q + 1 else q + q % 2)

-- In tenths of a minute, of a need in units of 10⁻⁸ mm: between 2 minutes and 60, or nothing.
unfoldable pub calc_zone_runtime : (irrigation_need pr : ℕ) → ℕ
calc_zone_runtime need pr =
    if nat_beq pr 0 || nat_beq need 0
    then 0
    else max 20 (min 600 (round_div (need * 600) (pr * 1000000)))

pub record Cycle : Type 0 where
  pub run_min : ℕ
  pub soak_min : ℕ

abbrev pub is_positive : ℕ → Bool
is_positive n = ltb 0 n

-- The loop of `calc_cycle_soak`, with `remaining` and the longest run in tenths of a minute times the
-- rate of the nozzle, so that they are whole. It ends when nothing remains, or the fuel.
unfoldable pub cycles_from : (fuel : ℕ) (pr max_run remaining : ℕ) → Option (List (ℕ × ℕ))
cycles_from zero pr max_run remaining = if is_positive remaining then none else some []
cycles_from (suc fuel) pr max_run remaining =
    let run = min remaining max_run in
    let left = remaining - run in
    let rest = cycles_from fuel pr max_run left in
    if is_positive remaining
    then elim rest [
      | none ↦ none
      | some cycles ↦ some ((run, if is_positive left then 120 else 0) ∷ cycles)
    ]
    else some []

abbrev pub rounded : (pr : ℕ) → ℕ × ℕ → Cycle
rounded pr (run, soak) = record { run_min = round_div run pr; soak_min = soak }

abbrev pub or_infiltration : Option ℕ → ℕ
or_infiltration none = 1500
or_infiltration (some n) = n

-- The longest run: 8 minutes, or what soaks in.
abbrev pub max_run_of : (pr infiltration : ℕ) → ℕ
max_run_of pr infiltration = min (infiltration * 600) (80 * pr)

abbrev pub all_rounded : (pr : ℕ) → Option (List (ℕ × ℕ)) → Option (List Cycle)
all_rounded pr none = none
all_rounded pr (some cycles) = some (map (rounded pr) cycles)

-- `none` if the loop does not end within its fuel.
unfoldable pub calc_cycle_soak :
    (runtime pr : ℕ) (max_infiltration : Option ℕ) → Option (List Cycle)
unfolding cycles_from
calc_cycle_soak runtime pr max_infiltration =
    let infiltration = or_infiltration max_infiltration in
    if leb pr infiltration
    then some (record { run_min = runtime; soak_min = 0 } ∷ [])
    else all_rounded pr (cycles_from (runtime * pr) pr (max_run_of pr infiltration) (runtime * pr))
