-- ===== src/Queue/Tracker/Exact.antt =====
-- The tracker against what it stands for: a run is complete when all its entries have finished.
use Prim.Native.String.{String}
use mathlib.Core.List.{append-nil, append_assoc}
use mathlib.Core.Bool.{false≢true}
use irrigation.Base.{
  ◌≡◌, refl, sym, ap, ◌∙◌, inl, inr, Bool, true, false, ◌||◌, List, [], ◌∷◌, ◌++◌, Option, none,
  some, arith, contains, if◌then◌else◌, ◌==◌, string_eq, Bool-cases,
}
use irrigation.Base.Maps.{lookup, insert, lookup-insert, lookup-erase}
use irrigation.Queue.Tracker.{
  add, to_set, is_superset, ProgramRun, Runs, register, finish_in, entry_finished, is_none,
  is_program_complete,
}

contains-append :
    (xs ys : List String) (y : String) → contains (xs ++ ys) y ≡ (contains xs y || contains ys y)
contains-append [] ys y = refl
contains-append (x ∷ xs) ys y = ground (arith, contains-append xs ys y)

contains-add : (x y : String) (s : List String) → contains (add x s) y ≡ (contains s y || (x == y))
contains-add x y s = elim (Bool-cases (contains s x)) [
  | inl t ↦ rw t (ground (arith, string_eq.eqb_iff x y))
  | inr f ↦ rw f (rw contains-append (ground arith))
]

-- Which of the calls are for the run, as a list of entries.
abbrev pub calls_of : String → List (String × String) → List String
calls_of run_id [] = []
calls_of run_id ((r, entry_id) ∷ calls) =
    if r == run_id then entry_id ∷ calls_of run_id calls else calls_of run_id calls

pub finish_all : List (String × String) → Runs → Runs
finish_all [] runs = runs
finish_all ((r, entry_id) ∷ calls) runs = finish_all calls (entry_finished r entry_id runs).1

is_superset-ext :
    (s s' ids : List String)
    → ((y : String) → contains s y ≡ contains s' y)
    → is_superset s ids ≡ is_superset s' ids
is_superset-ext s s' [] h = refl
is_superset-ext s s' (x ∷ ids) h = cc (h x, is_superset-ext s s' ids h)

is_superset_mono :
    (s more ids : List String) → is_superset s ids ≡ true → is_superset (s ++ more) ids ≡ true
is_superset_mono s more [] h = refl
is_superset_mono s more (x ∷ ids) h =
    ground (arith, contains-append s more x, is_superset_mono s more ids)

some≢none {ℓ} : {A : Type ℓ} {a : A} → some a ≡ none → ⊥
some≢none h = cc

same_some {ℓ} : {A : Type ℓ} {a b : A} → some a ≡ some b → a ≡ b
same_some h = cc

is_none_iff :
    {A : Type 0} (o : Option A) (b : Bool)
    → (o ≡ none → b ≡ true)
    → (b ≡ true → o ≡ none)
    → is_none o ≡ b
is_none_iff none b h g = sym (h refl)
is_none_iff (some a) true h g = absurd (some≢none (g refl))
is_none_iff (some a) false h g = refl

module _ (run_id : String) (ids : List String) where
  -- What the tracker holds of the run when the entries `past` have been reported.
  data Tracks (past : List String) (runs : Runs) : Type 0 where
    open_run :
        (r : ProgramRun)
        → lookup run_id runs ≡ some r
        → r.entry_ids ≡ ids
        → ((y : String) → contains r.finished y ≡ contains past y)
        → Tracks past runs
    closed_run : lookup run_id runs ≡ none → is_superset past ids ≡ true → Tracks past runs

  self : (run_id == run_id) ≡ true
  self = (string_eq.eqb_iff run_id run_id).1 refl

  -- A report for the run: the answer, and what is held afterwards.
  record Reported (past : List String) (result : Bool × Runs) : Type 0 where
    answer : result.0 ≡ is_superset past ids
    absent_if : lookup run_id result.1 ≡ none → is_superset past ids ≡ true
    present_if : is_superset past ids ≡ true → lookup run_id result.1 ≡ none
    tracks : Tracks past result.1

  finished-snoc :
      (past finished : List String) (x : String)
      → ((y : String) → contains finished y ≡ contains past y)
      → (y : String) → contains (add x finished) y ≡ contains (past ++ x ∷ []) y
  finished-snoc past finished x h y =
      contains-add x y finished ∙ rw (h y, contains-append past (x ∷ []) y) (ground arith)

  finish_in-Reported :
      (past : List String) (x : String) (o : Option ProgramRun) (runs : Runs)
      → lookup run_id runs ≡ o
      → Tracks past runs
      → Reported (past ++ x ∷ []) (finish_in run_id x o runs)
  unfolding finish_in
  finish_in-Reported past x none runs e (open_run r there same h) = absurd (cc)
  finish_in-Reported past x none runs e (closed_run gone full) =
      let full' = is_superset_mono past (x ∷ []) ids full in
      record {
        answer = sym full';
        absent_if = λ _. full';
        present_if = λ _. e;
        tracks = closed_run e full';
      }
  finish_in-Reported past x (some r) runs e (closed_run gone full) = absurd (cc)
  finish_in-Reported past x (some r') runs e (open_run r there same h) =
      let same_run : r' ≡ r = same_some (sym e ∙ there) in
      let covered : is_superset (add x r'.finished) r'.entry_ids
          ≡ is_superset (past ++ x ∷ []) ids =
        ap (λ (q : ProgramRun). is_superset (add x q.finished) q.entry_ids) same_run
        ∙ ap (is_superset (add x r.finished)) same
        ∙ is_superset-ext (add x r.finished) (past ++ x ∷ []) ids
            (finished-snoc past r.finished x h) in
      elim (Bool-cases (is_superset (add x r'.finished) r'.entry_ids)) [
        | inl t ↦
            let full = sym covered ∙ t in
            let gone = lookup-erase run_id run_id runs ∙ rw self in
            rw t (record {
              answer = sym full;
              absent_if = λ _. full;
              present_if = λ _. gone;
              tracks = closed_run gone full;
            })
        | inr f ↦
            let partial = sym covered ∙ f in
            let grown : ProgramRun = record r' { finished = add x r'.finished } in
            let kept : lookup run_id (insert run_id grown runs) ≡ some grown =
              lookup-insert run_id run_id grown runs ∙ rw self in
            rw f (record {
              answer = sym partial;
              absent_if = λ missing. absurd (some≢none (sym kept ∙ missing));
              present_if = λ full. absurd (false≢true (sym partial ∙ full));
              tracks =
                  open_run grown kept (ap (λ (q : ProgramRun). q.entry_ids) same_run ∙ same) (λ y.
                    ap (λ (q : ProgramRun). contains (add x q.finished) y) same_run
                    ∙ finished-snoc past r.finished x h y);
            })
      ]

  lookup-finish_in :
      (r x : String) (o : Option ProgramRun) (runs : Runs)
      → (r == run_id) ≡ false
      → lookup run_id (finish_in r x o runs).1 ≡ lookup run_id runs
  unfolding finish_in
  lookup-finish_in r x none runs other = refl
  lookup-finish_in r x (some q) runs other =
      elim (Bool-cases (is_superset (add x q.finished) q.entry_ids)) [
        | inl t ↦ rw t (lookup-erase r run_id runs ∙ rw other)
        | inr f ↦ rw f (lookup-insert r run_id _ runs ∙ rw other)
      ]

  Tracks-same :
      {runs runs' : Runs} (past : List String)
      → lookup run_id runs' ≡ lookup run_id runs
      → Tracks past runs
      → Tracks past runs'
  Tracks-same past e (open_run r there same h) = open_run r (e ∙ there) same h
  Tracks-same past e (closed_run gone full) = closed_run (e ∙ gone) full

  Tracks-finish_all :
      (calls : List (String × String)) (past : List String) (runs : Runs)
      → Tracks past runs
      → Tracks (past ++ calls_of run_id calls) (finish_all calls runs)
  unfolding finish_all entry_finished
  Tracks-finish_all [] past runs t = rw append-nil t
  Tracks-finish_all ((r, x) ∷ calls) past runs t = elim (Bool-cases (r == run_id)) [
    | inl here ↦
        let e : r ≡ run_id = (string_eq.eqb_iff r run_id).0 here in
        rw (here, ← append_assoc past (x ∷ []) (calls_of run_id calls), e)
          (Tracks-finish_all calls (past ++ x ∷ []) _
            (finish_in-Reported past x (lookup run_id runs) runs refl t).tracks)
    | inr other ↦ rw other (
        Tracks-finish_all calls past _
          (Tracks-same past (lookup-finish_in r x (lookup r runs) runs other) t))
  ]

-- Reports may come in any order, repeatedly, and mixed with those of other runs: a report answers
-- that the run is complete exactly if every registered entry has been reported, this one
-- included, and exactly then the run is gone from the tracker.
pub entry_finished-exact :
    (run_id entry_id : String) (ids : List String) (calls : List (String × String)) (runs : Runs)
    → let result =
        entry_finished run_id entry_id (finish_all calls (register run_id ids none none runs)) in
      let reported = calls_of run_id calls ++ entry_id ∷ [] in
      (result.0 ≡ is_superset reported (to_set ids))
      × (is_program_complete run_id result.1 ≡ is_superset reported (to_set ids))
unfolding register entry_finished is_program_complete
entry_finished-exact run_id entry_id ids calls runs =
    let fresh : ProgramRun = record {
      program_id = none;
      program_name = none;
      entry_ids = to_set ids;
      finished = [];
    } in
    let start : Runs = register run_id ids none none runs in
    let held = finish_all calls start in
    let first : Tracks run_id (to_set ids) [] start =
      open_run fresh
        (lookup-insert run_id run_id fresh runs ∙ rw ((string_eq.eqb_iff run_id run_id).1 refl))
        refl (λ y. refl) in
    let r =
      finish_in-Reported run_id (to_set ids) (calls_of run_id calls) entry_id (lookup run_id held)
        held refl (Tracks-finish_all run_id (to_set ids) calls [] start first) in
    (r.answer, is_none_iff _ _ r.absent_if r.present_if)
