-- ===== src/Conflicts/Answers.antt =====
-- `check_program_conflicts` of db/programs.py over all programs, and what it answers.
use irrigation.Base.{
  ℕ, Bool, true, false, not, ◌||◌, List, [], ◌∷◌, ◌++◌, Option, none, some, keep_if, if◌then◌else◌,
  ◌==◌, nat_eq,
}
use irrigation.Conflicts.{
  ZoneRow, Program, Query, Conflict, GroupConflict, is_related, legacy_conflict, group_conflict,
  common, groups_of, minutes_of, is_empty,
}

unfoldable pub conflicts_at : List ZoneRow → Query → Program → Option (ℕ × ℕ) → List Conflict
unfolding legacy_conflict
conflicts_at rows q p none = []
conflicts_at rows q p (some time) = legacy_conflict rows q p (minutes_of time)

unfoldable pub legacy_conflicts : List ZoneRow → Query → List Program → List Conflict
unfolding conflicts_at is_related
legacy_conflicts rows q [] = []
legacy_conflicts rows q (p ∷ programs) =
    let rest = legacy_conflicts rows q programs in
    if is_related rows q p then conflicts_at rows q p p.time ++ rest else rest

-- The common groups, in turn.
unfoldable pub over_groups :
    List ZoneRow → ℕ → Query → Program → (start : ℕ) → List ℕ → List GroupConflict
unfolding group_conflict
over_groups rows factor q p start [] = []
over_groups rows factor q p start (group_id ∷ groups) =
    group_conflict rows factor q p start group_id ++ over_groups rows factor q p start groups

unfoldable pub group_conflicts_at :
    List ZoneRow → ℕ → Query → Program → Option (ℕ × ℕ) → List GroupConflict
unfolding over_groups
group_conflicts_at rows factor q p none = []
group_conflicts_at rows factor q p (some time) =
    over_groups rows factor q p (minutes_of time)
      (common (groups_of rows q.zones) (groups_of rows p.zones))

unfoldable pub group_conflicts : List ZoneRow → ℕ → Query → List Program → List GroupConflict
unfolding group_conflicts_at is_related
group_conflicts rows factor q [] = []
group_conflicts rows factor q (p ∷ programs) =
    let rest = group_conflicts rows factor q programs in
    if is_related rows q p then group_conflicts_at rows factor q p p.time ++ rest else rest

-- The arguments of the call; a missing list and an empty one are treated alike.
pub record Request : Type 0 where
  pub program_id : Option ℕ
  pub time : Option (ℕ × ℕ)
  pub zones : List ℕ
  pub days : List ℕ
  pub weather_factor : Option ℕ
  pub include_weather : Bool

-- What the database and the weather adjustment say.
pub record Rows : Type 0 where
  pub programs : List Program
  pub zones : List ZoneRow
  pub max_weather_coefficient : Option ℕ
  pub current_coefficient : ℕ

pub data Answer : Type 0 where
  legacy : List Conflict → Answer
  extended :
      (has_conflicts : Bool) → List GroupConflict → (current_weather_coefficient : ℕ) → Answer

abbrev pub is_some {ℓ} : {A : Type ℓ} → Option A → Bool
is_some none = false
is_some (some a) = true

abbrev pub is_extended : Request → Bool
is_extended r = is_some r.weather_factor || r.include_weather

abbrev pub no_conflicts : (extended_form : Bool) → (coefficient : ℕ) → Answer
no_conflicts true coefficient = extended false [] coefficient
no_conflicts false coefficient = legacy []

-- `if program_id:` leaves out the program itself.
abbrev pub others : Option ℕ → List Program → List Program
others none programs = programs
others (some id) programs = if id == 0 then programs else keep_if (λ p. not (p.id == id)) programs

abbrev pub resolve_factor : Request → Option ℕ → Option ℕ
resolve_factor r coefficient = elim r.weather_factor [
  | none ↦ if r.include_weather then coefficient else none
  | some factor ↦ some factor
]

-- `len(conflicts) > 0`
abbrev pub any_conflict {ℓ} : {A : Type ℓ} → List A → Bool
any_conflict [] = false
any_conflict (c ∷ conflicts) = true

unfoldable pub answer : Rows → Request → Query → Option ℕ → Answer
unfolding legacy_conflicts group_conflicts
answer db r q factor =
    let programs = others r.program_id db.programs in
    if is_extended r
    then elim factor [
      | none ↦ extended false [] db.current_coefficient
      | some f ↦
          let conflicts = group_conflicts db.zones f q programs in
          extended (any_conflict conflicts) conflicts db.current_coefficient
    ]
    else legacy (legacy_conflicts db.zones q programs)

-- `none` stands for a database that fails.
unfoldable pub check_program_conflicts : Option Rows → Request → Answer
unfolding answer
check_program_conflicts none r = no_conflicts (is_extended r) 100
check_program_conflicts (some db) r = elim r.time [
  | none ↦ no_conflicts (is_extended r) db.current_coefficient
  | some time ↦
      if is_empty r.days || is_empty r.zones
      then no_conflicts (is_extended r) db.current_coefficient
      else answer db r (record { start = minutes_of time; days = r.days; zones = r.zones })
          (resolve_factor r db.max_weather_coefficient)
]
