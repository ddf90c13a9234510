-- ===== src/Conflicts/Weather.antt =====
-- The weather factor in `check_program_conflicts` of db/programs.py.
use native.Mathlib.Nat.{mul-le-mul_left}
use irrigation.Base.{
  ℕ, ◌≤◌, ◌≡◌, inl, inr, max, Bool, true, false, List, [], ◌∷◌, Option, none, some, arith, nat_eq,
  Option-cases,
}
use irrigation.Conflicts.{ZoneRow, Program, Query, minutes_of, group_conflict, group_duration}
use irrigation.Conflicts.Answers.{
  over_groups, group_conflicts_at, group_conflicts, Request, Rows, Answer, legacy, extended,
  any_conflict, check_program_conflicts, answer,
}
use irrigation.Conflicts.Overlap.{any_conflict-append}

group_conflict_mono :
    (rows : List ZoneRow) (f g : ℕ) (q : Query) (p : Program) (start group_id : ℕ)
    → f ≤ g
    → any_conflict (group_conflict rows f q p start group_id) ≡ true
    → any_conflict (group_conflict rows g q p start group_id) ≡ true
unfolding group_conflict
group_conflict_mono rows f g q p start group_id h =
    let d : ℕ = group_duration rows group_id p.zones in
    let wider : max 100 f ≤ max 100 g = omega (arith, h) in
    let longer = mul-le-mul_left d wider in ground (arith, longer)

over_groups_mono :
    (rows : List ZoneRow) (f g : ℕ) (q : Query) (p : Program) (start : ℕ) (groups : List ℕ)
    → f ≤ g
    → any_conflict (over_groups rows f q p start groups) ≡ true
    → any_conflict (over_groups rows g q p start groups) ≡ true
unfolding over_groups
over_groups_mono rows f g q p start [] le h = h
over_groups_mono rows f g q p start (i ∷ groups) le h = ground (
  arith,
  any_conflict-append (group_conflict rows f q p start i) (over_groups rows f q p start groups),
  any_conflict-append (group_conflict rows g q p start i) (over_groups rows g q p start groups),
  group_conflict_mono rows f g q p start i le,
  over_groups_mono rows f g q p start groups le,
)

group_conflicts_at_mono :
    (rows : List ZoneRow) (f g : ℕ) (q : Query) (p : Program) (o : Option (ℕ × ℕ))
    → f ≤ g
    → any_conflict (group_conflicts_at rows f q p o) ≡ true
    → any_conflict (group_conflicts_at rows g q p o) ≡ true
unfolding group_conflicts_at
group_conflicts_at_mono rows f g q p none le h = h
group_conflicts_at_mono rows f g q p (some time) le h =
    over_groups_mono rows f g q p (minutes_of time) _ le h

-- A conflict that shows at one weather factor shows at every larger one, as an error or a warning.
group_conflicts_mono :
    (rows : List ZoneRow) (f g : ℕ) (q : Query) (programs : List Program)
    → f ≤ g
    → any_conflict (group_conflicts rows f q programs) ≡ true
    → any_conflict (group_conflicts rows g q programs) ≡ true
unfolding group_conflicts
group_conflicts_mono rows f g q [] le h = h
group_conflicts_mono rows f g q (p ∷ programs) le h = ground (
  arith,
  any_conflict-append (group_conflicts_at rows f q p p.time) (group_conflicts rows f q programs),
  any_conflict-append (group_conflicts_at rows g q p p.time) (group_conflicts rows g q programs),
  group_conflicts_at_mono rows f g q p p.time le,
  group_conflicts_mono rows f g q programs le,
)

abbrev pub has_conflicts : Answer → Bool
has_conflicts (legacy conflicts) = any_conflict conflicts
has_conflicts (extended b conflicts coefficient) = b

-- If the weather is to be included, no factor is given and none is stored, the answer is that there
-- is no conflict, whatever the programs are.
has_conflicts-check_without_factor :
    (db : Rows) (r : Request)
    → r.include_weather ≡ true
    → r.weather_factor ≡ none
    → db.max_weather_coefficient ≡ none
    → has_conflicts (check_program_conflicts (some db) r) ≡ false
unfolding check_program_conflicts answer
has_conflicts-check_without_factor db r a b c = elim (Option-cases r.time) [
  | inl missing ↦ rw (missing, check_program_conflicts) ground arith
  | inr (time, known) ↦ rw (known, check_program_conflicts) ground arith
]
