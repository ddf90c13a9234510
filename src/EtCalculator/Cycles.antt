-- ===== src/EtCalculator/Cycles.antt =====
-- The cycles of `calc_cycle_soak` of services/et_calculator.py.
use irrigation.Base.{
  ℕ, zero, suc, ◌-◌, ◌*◌, ◌≤◌, ◌<◌, ◌≡◌, refl, subst, min, inl, inr, true, false, List, [], ◌∷◌,
  none, some, map, arith, leb, if◌then◌else◌, Bool-cases,
}
use irrigation.EtCalculator.{is_positive, cycles_from, rounded, max_run_of, calc_cycle_soak}

-- Runs of at most `max_run` that add up to `total`, with a pause of 12 minutes after each but the last.
abbrev pub IsPlan : (max_run total : ℕ) → List (ℕ × ℕ) → Type 0
IsPlan max_run total [] = total ≡ 0
IsPlan max_run total ((run, soak) ∷ cycles) =
    (1 ≤ run)
    × (run ≤ max_run)
    × (run ≤ total)
    × (soak ≡ (if is_positive (total - run) then 120 else 0))
    × IsPlan max_run (total - run) cycles

cycles_from-IsPlan :
    (fuel pr max_run remaining : ℕ)
    → 1 ≤ max_run
    → remaining ≤ fuel
    → (cycles : List (ℕ × ℕ)) × (cycles_from fuel pr max_run remaining ≡ some cycles)
      × IsPlan max_run remaining cycles
unfolding cycles_from
cycles_from-IsPlan zero pr max_run remaining m h = ([], ground arith, ground arith)
cycles_from-IsPlan (suc fuel) pr max_run remaining m h = elim (Bool-cases (is_positive remaining)) [
  | inl more ↦
      (let run = min remaining max_run in
        let (cycles, found, plan) =
          cycles_from-IsPlan fuel pr max_run (remaining - run) m (ground arith) in
        (
          (run, if is_positive (remaining - run) then 120 else 0) ∷ cycles,
          rw (cycles_from, more, found) refl,
          (ground arith, ground arith, ground arith, refl, plan),
        ))
  | inr done ↦ ([], rw (cycles_from, done) refl, ground arith)
]

max_run :
    (pr infiltration : ℕ) → max_run_of pr infiltration ≡ min (infiltration * 600) (8 * 10 * pr)
max_run pr infiltration = ground arith

-- A nozzle that is faster than the soil takes water up, if the soil takes any up: the loop ends with
-- runs that are not empty and add up to the whole run time, none of them longer than 8 minutes or than
-- what soaks in at once takes, with a pause of 12 minutes after each but the last. That is said of the
-- exact times; the runs that are returned are these, rounded to tenths of a minute, which may be 0.
pub calc_cycle_soak-IsPlan :
    (runtime pr infiltration : ℕ)
    → 1 ≤ infiltration
    → infiltration < pr
    → (cycles : List (ℕ × ℕ)) × (calc_cycle_soak runtime pr (some infiltration)
        ≡ some (map (rounded pr) cycles))
      × IsPlan (min (infiltration * 600) (8 * 10 * pr)) (runtime * pr) cycles
unfolding calc_cycle_soak
calc_cycle_soak-IsPlan runtime pr infiltration soaks fast =
    let (cycles, found, plan) =
      cycles_from-IsPlan (runtime * pr) pr (max_run_of pr infiltration) (runtime * pr)
        (ground arith) (omega arith) in
    let slow : leb pr infiltration ≡ false = ground arith in
    (
      cycles,
      rw (calc_cycle_soak, slow, found) refl,
      subst (λ m. IsPlan m (runtime * pr) cycles) (max_run pr infiltration) plan,
    )

-- A loop whose runs are empty does not end, whatever the fuel.
never_done : (fuel pr remaining : ℕ) → 1 ≤ remaining → cycles_from fuel pr 0 remaining ≡ none
unfolding cycles_from
never_done zero pr remaining h = ground arith
never_done (suc fuel) pr remaining h =
    let rest = never_done fuel pr remaining h in
    let more : is_positive remaining ≡ true = ground arith in
    let same : remaining - min remaining 0 ≡ remaining = omega arith in
    rw (cycles_from, more, same, rest) refl
