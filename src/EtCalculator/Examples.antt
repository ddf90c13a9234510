-- ===== src/EtCalculator/Examples.antt =====
-- Runs of services/et_calculator.py, and the theorem on cycles at a fast nozzle.
use irrigation.Base.{min, ℕ, ◌≡◌, ◌*◌, refl, List, some, map, arith}
use irrigation.EtCalculator.{
  pos, orsk, rounded, calc_irrigation_need, calc_zone_runtime, calc_cycle_soak,
}
use irrigation.EtCalculator.Cycles.{IsPlan, calc_cycle_soak-IsPlan}

-- 20 minutes of a nozzle of 40 mm/h on a soil that takes up 15 mm/h.
calc_cycle_soak-IsPlan_example :
    (cycles : List (ℕ × ℕ)) × (calc_cycle_soak 200 4000 (some 1500)
      ≡ some (map (rounded 4000) cycles))
    × IsPlan (min (1500 * 600) (8 * 10 * 4000)) (200 * 4000) cycles
calc_cycle_soak-IsPlan_example = calc_cycle_soak-IsPlan 200 4000 1500 (omega arith) (omega arith)

-- 22 degrees and 10 mm of rain leave nothing to do.
wet_day : calc_irrigation_need (pos 2200) 1000 orsk ≡ 0
unfolding calc_irrigation_need
wet_day = refl

-- 4 mm at 22 degrees take 24 minutes at 10 mm/h.
dry_day : calc_zone_runtime (calc_irrigation_need (pos 2200) 0 orsk) 1000 ≡ 240
unfolding calc_irrigation_need calc_zone_runtime
dry_day = refl
