-- ===== src/Queue/Tracker.antt =====
-- `ProgramCompletionTracker` of services/program_queue.py. A Python set is a list of its members.
pub mod Exact
use Prim.Native.String.{String}
use irrigation.Base.{
  ℕ, Bool, true, false, not, ◌&&◌, List, [], ◌∷◌, ◌++◌, Option, none, some, length, keep_if,
  contains, if◌then◌else◌, string_eq,
}
use irrigation.Base.Maps.{lookup, insert, erase}

-- `s.add(x)`
abbrev pub add : String → List String → List String
add x s = if contains s x then s else s ++ x ∷ []

abbrev pub to_set_from : List String → List String → List String
to_set_from s [] = s
to_set_from s (x ∷ xs) = to_set_from (add x s) xs

-- `set(xs)`
abbrev pub to_set : List String → List String
to_set = to_set_from []

-- `s >= t`
abbrev pub is_superset : List String → List String → Bool
is_superset s [] = true
is_superset s (x ∷ t) = contains s x && is_superset s t

pub record ProgramRun : Type 0 where
  pub program_id : Option ℕ
  pub program_name : Option String
  pub entry_ids : List String
  pub finished : List String

-- `_runs`, by the run's identifier.
abbrev pub Runs : Type 0
Runs = List (String × ProgramRun)

pub register : String → List String → Option ℕ → Option String → Runs → Runs
register run_id entry_ids program_id program_name = insert run_id (record {
  program_id = program_id;
  program_name = program_name;
  entry_ids = to_set entry_ids;
  finished = [];
})

pub finish_in : String → String → Option ProgramRun → Runs → Bool × Runs
finish_in run_id entry_id none runs = (true, runs)
finish_in run_id entry_id (some r) runs =
    let finished = add entry_id r.finished in
    if is_superset finished r.entry_ids
    then (true, erase run_id runs)
    else (false, insert run_id (record r { finished = finished }) runs)

-- An unknown run counts as complete.
pub entry_finished : String → String → Runs → Bool × Runs
unfolding finish_in
entry_finished run_id entry_id runs = finish_in run_id entry_id (lookup run_id runs) runs

abbrev pub is_none {ℓ} : {A : Type ℓ} → Option A → Bool
is_none none = true
is_none (some a) = false

pub is_program_complete : String → Runs → Bool
is_program_complete run_id runs = is_none (lookup run_id runs)

pub record Progress : Type 0 where
  pub program_id : Option ℕ
  pub program_name : Option String
  pub total : ℕ
  pub finished : ℕ
  pub remaining : ℕ

pub get_pending : Runs → List (String × Progress)
get_pending [] = []
get_pending ((run_id, r) ∷ runs) =
    (
      run_id,
      record {
        program_id = r.program_id;
        program_name = r.program_name;
        total = length r.entry_ids;
        finished = length r.finished;
        remaining = length (keep_if (λ x. not (contains r.finished x)) r.entry_ids);
      },
    )
    ∷ get_pending runs

pub record RunStatus : Type 0 where
  pub program_id : Option ℕ
  pub program_name : Option String
  pub total : ℕ
  pub finished : ℕ
  pub complete : Bool

abbrev status_of : Option ProgramRun → Option RunStatus
status_of none = none
status_of (some r) = some (record {
  program_id = r.program_id;
  program_name = r.program_name;
  total = length r.entry_ids;
  finished = length r.finished;
  complete = is_superset r.finished r.entry_ids;
})

pub get_program_status : String → Runs → Option RunStatus
get_program_status run_id runs = status_of (lookup run_id runs)
