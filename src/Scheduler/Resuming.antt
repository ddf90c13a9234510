-- ===== src/Scheduler/Resuming.antt =====
-- Where `recover_missed_runs` of irrigation_scheduler.py resumes a program.
use irrigation.Base.{
  ℕ, suc, ◌≡◌, ◌∙◌, ◌≤◌, ◌<◌, ◌+◌, ◌-◌, ◌*◌, ◌/◌, refl, ap, inl, inr, false, List, [], ◌∷◌, ◌++◌,
  arith, any, length, ltb, leb, leb→le, Bool-cases,
}
use irrigation.ZoneControl.{System}
use irrigation.Scheduler.Recovery.{
  drop, sum, duration_in, durations, is_on, start_idx, missed_zones,
}

-- The zones before the one that is due `elapsed` minutes after the start, that one, and those behind it.
record IsDue (s : System) (ids : List ℕ) (cumulative elapsed idx result : ℕ) : Type 0 where
  first : List ℕ
  id : ℕ
  rest : List ℕ
  split : ids ≡ first ++ id ∷ rest
  at : result ≡ idx + length first
  begun : cumulative + sum (durations s first) ≤ elapsed
  unfinished : elapsed < cumulative + sum (durations s first) + duration_in s id

start_idx-IsDue :
    (s : System) (ids : List ℕ) (cumulative elapsed idx : ℕ)
    → cumulative ≤ elapsed
    → elapsed < cumulative + sum (durations s ids)
    → IsDue s ids cumulative elapsed idx (start_idx elapsed (durations s ids) cumulative idx)
unfolding start_idx
start_idx-IsDue s [] c e i low high = absurd (omega (arith, low, high))
start_idx-IsDue s (id ∷ ids) c e i low high =
    let d = duration_in s id in
    elim (Bool-cases (leb (c + d) e)) [
      | inl over ↦
          (let later =
              start_idx-IsDue s ids (c + d) e (suc i) (leb→le (c + d) e over) (omega arith) in
            rw (start_idx, over)
              (record {
                first = id ∷ later.first;
                id = later.id;
                rest = later.rest;
                split = ap (λ l. id ∷ l) later.split;
                at = omega (arith, later.at);
                begun = omega (arith, later.begun);
                unfinished = omega (arith, later.unfinished);
              }))
      | inr running ↦
          rw (start_idx, running)
            (record {
              first = [];
              id = id;
              rest = ids;
              split = refl;
              at = omega arith;
              begun = omega arith;
              unfinished = ground arith;
            })
    ]

drop-append : (xs ys : List ℕ) → drop (length xs) (xs ++ ys) ≡ ys
drop-append [] ys = refl
drop-append (x ∷ xs) ys = drop-append xs ys

not_before : (start now : ℕ) → start ≤ now → ltb now start ≡ false
not_before start now h = ground arith

not_over : (end_time now : ℕ) → now < end_time → leb end_time now ≡ false
not_over end_time now h = ground arith

-- A program that began at `start`, none of whose zones is on, and whose zones together take longer than
-- the time since then: the zones that are left begin with the very zone that would be watered now,
-- had the zones before it run for their durations.
pub missed_zones-resumes :
    (start now : ℕ) (zones : List ℕ) (s : System)
    → start ≤ now
    → now < start + sum (durations s zones) * 60
    → any (is_on s) zones ≡ false
    → (first : List ℕ) × (id : ℕ) × (rest : List ℕ) × (zones ≡ first ++ id ∷ rest)
      × (missed_zones start now zones s ≡ id ∷ rest)
      × start + sum (durations s first) * 60 ≤ now
      × now < start + (sum (durations s first) + duration_in s id) * 60
unfolding missed_zones
missed_zones-resumes start now zones s begun unfinished off =
    let durs = durations s zones in
    let elapsed = (now - start) / 60 in
    let due =
      start_idx-IsDue s zones 0 elapsed 0 (omega arith) (omega (arith, begun, unfinished)) in
    let idx = start_idx elapsed durs 0 0 in
    let at : idx ≡ length due.first = omega (arith, due.at) in
    (
      due.first,
      due.id,
      due.rest,
      due.split,
      rw
          (
            missed_zones,
            not_before start now begun,
            off,
            not_over (start + sum durs * 60) now unfinished,
          )
          (ap (λ n. drop n zones) at
            ∙ ap (drop (length due.first)) due.split
            ∙ drop-append due.first (due.id ∷ due.rest)),
      omega (arith, begun, due.begun),
      omega (arith, begun, due.unfinished),
    )
