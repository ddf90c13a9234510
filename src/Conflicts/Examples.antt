-- ===== src/Conflicts/Examples.antt =====
-- Tests of the conflict check, and its theorems at concrete programs.
use irrigation.Base.{ℕ, ◌≡◌, refl, ◌↔◌, true, false, List, [], ◌∷◌, none, some, arith, All}
use irrigation.Conflicts.{ZoneRow, Program, Query, total_duration, get_dur, get_gid}
use irrigation.Conflicts.Answers.{any_conflict, legacy_conflicts, group_conflicts, Request, Rows}
use irrigation.Conflicts.Overlap.{Clashes, legacy_conflicts-exact}

abbrev zone : ℕ → ℕ → ZoneRow
zone id group_id = record { id = id; duration = 20; group_id = group_id }

abbrev zones : List ZoneRow
zones = zone 1 1 ∷ zone 2 1 ∷ zone 3 2 ∷ []

-- From 6:30 to 7:10 on Monday and Tuesday, and for twenty minutes from 7:30.
abbrev dawn : Program
dawn = record { id = 4; name = "dawn"; time = some (6, 30); days = 0 ∷ 1 ∷ []; zones = 1 ∷ 2 ∷ [] }

abbrev late : Program
late = record { id = 5; name = "late"; time = some (7, 30); days = 0 ∷ []; zones = 3 ∷ [] }

abbrev query : Query
query = record { start = 420; days = 1 ∷ []; zones = 1 ∷ [] }

dawn_is_found : any_conflict (legacy_conflicts zones query (dawn ∷ late ∷ [])) ≡ true
unfolding legacy_conflicts total_duration get_dur
dawn_is_found = refl

legacy_conflicts-exact_example :
    (any_conflict (legacy_conflicts zones query (dawn ∷ late ∷ [])) ≡ false)
    ↔ All (λ p. ¬ (Clashes zones query p)) (dawn ∷ late ∷ [])
unfolding total_duration get_dur
legacy_conflicts-exact_example =
    legacy_conflicts-exact zones query (dawn ∷ late ∷ []) (omega arith) (omega arith)

-- At 150 % dawn ends at 7:30.
abbrev after_dawn : Query
after_dawn = record query { start = 435 }

only_with_weather :
    (any_conflict (group_conflicts zones 100 after_dawn (dawn ∷ [])) ≡ false)
    × (any_conflict (group_conflicts zones 150 after_dawn (dawn ∷ [])) ≡ true)
unfolding group_conflicts get_gid total_duration get_dur
only_with_weather = (refl, refl)

abbrev rows : Rows
rows = record {
  programs = dawn ∷ late ∷ [];
  zones = zones;
  max_weather_coefficient = none;
  current_coefficient = 100;
}

abbrev request : Request
request = record {
  program_id = none;
  time = some (7, 0);
  zones = 1 ∷ [];
  days = 1 ∷ [];
  weather_factor = none;
  include_weather = true;
}
