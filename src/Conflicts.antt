-- ===== src/Conflicts.antt =====
-- `check_program_conflicts` of db/programs.py: does a program that is being edited overlap another?
-- Times of day and durations are minutes. A Python set is a list without repetitions, in the order
-- of the list that it is made from.
pub mod Overlap
pub mod Answers
pub mod Weather
pub mod Examples
use Prim.Native.String.{String}
use irrigation.Base.{
  ℕ, ◌+◌, ◌-◌, ◌*◌, max, min, Bool, true, false, not, ◌&&◌, ◌||◌, List, [], ◌∷◌, ◌++◌, map, Option,
  keep_if, contains, ltb, if◌then◌else◌, ◌==◌, nat_eq,
}

-- A row of `zones`: a missing duration or group is 0.
pub record ZoneRow : Type 0 where
  pub id : ℕ
  pub duration : ℕ
  pub group_id : ℕ

-- A row of `programs`, as the check selects it: neither the extra times nor the kind of the schedule
-- is read. `time` is the hour and the minute, or none if it cannot be parsed.
pub record Program : Type 0 where
  pub id : ℕ
  pub name : String
  pub time : Option (ℕ × ℕ)
  pub days : List ℕ
  pub zones : List ℕ

-- `_get_dur` and `_get_gid`: 0 for an unknown zone.
unfoldable pub get_dur : List ZoneRow → ℕ → ℕ
get_dur [] id = 0
get_dur (row ∷ rows) id = if row.id == id then row.duration else get_dur rows id

unfoldable pub get_gid : List ZoneRow → ℕ → ℕ
get_gid [] id = 0
get_gid (row ∷ rows) id = if row.id == id then row.group_id else get_gid rows id

abbrev pub minutes_of : ℕ × ℕ → ℕ
minutes_of (hour, minute) = hour * 60 + minute

-- `sum(_get_dur(int(zid)) for zid in zones)`
unfoldable pub total_duration : List ZoneRow → List ℕ → ℕ
total_duration rows [] = 0
total_duration rows (zone ∷ zones) = get_dur rows zone + total_duration rows zones

-- `set(xs)` and `set(xs) & set(ys)`
unfoldable pub unique : List ℕ → List ℕ
unique [] = []
unique (x ∷ xs) = x ∷ keep_if (λ y. not (y == x)) (unique xs)

unfoldable pub common : List ℕ → List ℕ → List ℕ
unfolding unique
common xs ys = keep_if (contains ys) (unique xs)

abbrev pub is_empty : List ℕ → Bool
is_empty [] = true
is_empty (x ∷ xs) = false

abbrev pub groups_of : List ZoneRow → List ℕ → List ℕ
groups_of rows zones = map (get_gid rows) zones

-- `start < other_end and end > other_start`
abbrev pub overlaps : (start end other_start other_end : ℕ) → Bool
overlaps start end other_start other_end = ltb start other_end && ltb other_start end

-- What is asked about: the new program.
pub record Query : Type 0 where
  pub start : ℕ
  pub days : List ℕ
  pub zones : List ℕ

abbrev pub end_of : List ZoneRow → Query → ℕ
end_of rows q = q.start + total_duration rows q.zones

-- The two programs share a day, and a zone or a group.
unfoldable pub is_related : List ZoneRow → Query → Program → Bool
unfolding common
is_related rows q p =
    not (is_empty (common q.days p.days))
    && (not (is_empty (common q.zones p.zones))
        || not (is_empty (common (groups_of rows q.zones) (groups_of rows p.zones))))

pub record Conflict : Type 0 where
  pub program_id : ℕ
  pub program_name : String
  pub program_duration : ℕ
  pub common_zones : List ℕ
  pub common_groups : List ℕ
  pub common_days : List ℕ
  pub overlap_start : ℕ
  pub overlap_end : ℕ

unfoldable pub legacy_conflict : List ZoneRow → Query → Program → ℕ → List Conflict
legacy_conflict rows q p start =
    let duration = total_duration rows p.zones in
    if overlaps q.start (end_of rows q) start (start + duration)
    then record {
      program_id = p.id;
      program_name = p.name;
      program_duration = duration;
      common_zones = common q.zones p.zones;
      common_groups = common (groups_of rows q.zones) (groups_of rows p.zones);
      common_days = common q.days p.days;
      overlap_start = max q.start start;
      overlap_end = min (end_of rows q) (start + duration);
    }
      ∷ []
    else []

pub data Level : Type 0 where
  error warning : Level

-- `overlap` is in hundredths of a minute; the code rounds it to tenths of a minute.
pub record GroupConflict : Type 0 where
  pub program_id : ℕ
  pub program_name : String
  pub level : Level
  pub overlap : ℕ
  pub weather_factor : ℕ
  pub group_id : ℕ

-- The duration of the zones of one group.
abbrev pub group_duration : List ZoneRow → (group_id : ℕ) → List ℕ → ℕ
group_duration rows group_id zones =
    total_duration rows (keep_if (λ zone. get_gid rows zone == group_id) zones)

-- One group of the extended check. With the factor in percent, times are compared in hundredths.
unfoldable pub group_conflict :
    List ZoneRow
    → (weather_factor : ℕ) → Query
    → Program
    → (start group_id : ℕ) → List GroupConflict
group_conflict rows weather_factor q p start group_id =
    let duration = group_duration rows group_id p.zones in
    let base_end = start + duration in
    let factor = max 100 weather_factor in
    let weather_end = start * 100 + duration * factor in
    let end = end_of rows q in
    if overlaps q.start end start base_end
    then record {
      program_id = p.id;
      program_name = p.name;
      level = error;
      overlap = (min base_end end - max q.start start) * 100;
      weather_factor = 100;
      group_id = group_id;
    }
      ∷ []
    else (if overlaps (q.start * 100) (end * 100) (start * 100) weather_end
        then record {
          program_id = p.id;
          program_name = p.name;
          level = warning;
          overlap = min weather_end (end * 100) - max q.start start * 100;
          weather_factor = factor;
          group_id = group_id;
        }
          ∷ []
        else [])
