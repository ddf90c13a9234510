-- ===== src/Conflicts/Overlap.antt =====
-- What `check_program_conflicts` of db/programs.py finds, and what it does not.
use mathlib.Core.Bool.{false≢true}
use irrigation.Base.{
  ℕ, ◌+◌, ◌≤◌, ◌<◌, ◌≡◌, refl, sym, ap, ◌∙◌, subst, ◌↔◌, inl, inr, Bool, true, false, not, ◌&&◌,
  ◌||◌, List, [], ◌∷◌, ◌++◌, map, some, arith, keep_if, contains, All, ltb, ◌==◌, nat_eq,
  Bool-cases, Option-cases, nat_beq_iff,
}
use irrigation.Conflicts.{
  ZoneRow, Program, Query, get_gid, groups_of, minutes_of, total_duration, unique, common, is_empty,
  overlaps, end_of, is_related, legacy_conflict,
}
use irrigation.Conflicts.Answers.{conflicts_at, legacy_conflicts, any_conflict}

contains-keep_if :
    (p : ℕ → Bool) (xs : List ℕ) (x : ℕ) → contains (keep_if p xs) x ≡ (contains xs x && p x)
contains-keep_if p [] x = refl
contains-keep_if p (y ∷ xs) x = elim (Bool-cases (y == x)) [
  | inl t ↦
      let same : y ≡ x = (nat_beq_iff y x).0 t in ground (arith, contains-keep_if p xs x, ap p same)
  | inr f ↦ ground (arith, contains-keep_if p xs x)
]

contains-unique : (xs : List ℕ) (x : ℕ) → contains (unique xs) x ≡ contains xs x
unfolding unique
contains-unique [] x = refl
contains-unique (y ∷ xs) x =
    ground (arith, contains-keep_if (λ z. not (z == y)) (unique xs) x, contains-unique xs x)

-- The two lists have a member in common.
abbrev pub Shares : List ℕ → List ℕ → Type 0
Shares xs ys = (x : ℕ) × (contains xs x ≡ true) × (contains ys x ≡ true)

contains-common :
    (xs ys : List ℕ) (x : ℕ) → contains (common xs ys) x ≡ (contains xs x && contains ys x)
unfolding common
contains-common xs ys x =
    contains-keep_if (contains ys) (unique xs) x
    ∙ ap (λ b. b && contains ys x) (contains-unique xs x)

a_member : (zs : List ℕ) → is_empty zs ≡ false → (x : ℕ) × (contains zs x ≡ true)
a_member [] h = absurd (false≢true (sym h))
a_member (z ∷ zs) h = (z, ground (arith, nat_beq_iff z z))

member-is_empty : (zs : List ℕ) (x : ℕ) → contains zs x ≡ true → is_empty zs ≡ false
member-is_empty [] x h = sym h
member-is_empty (z ∷ zs) x h = refl

Shares-common : (xs ys : List ℕ) → is_empty (common xs ys) ≡ false → Shares xs ys
Shares-common xs ys h =
    let (x, member) = a_member (common xs ys) h in
    let both = contains-common xs ys x in
    (x, ground (arith, member, both), ground (arith, member, both))

common-Shares : (xs ys : List ℕ) → Shares xs ys → is_empty (common xs ys) ≡ false
common-Shares xs ys (x, a, b) =
    member-is_empty (common xs ys) x (ground (arith, a, b, contains-common xs ys x))

contains-map :
    (f : ℕ → ℕ) (xs : List ℕ) (x : ℕ) → contains xs x ≡ true → contains (map f xs) (f x) ≡ true
contains-map f [] x h = h
contains-map f (y ∷ xs) x h = elim (Bool-cases (y == x)) [
  | inl t ↦ let same : y ≡ x = (nat_beq_iff y x).0 t in ground (arith, ap f same)
  | inr f' ↦ ground (arith, contains-map f xs x)
]

-- The program runs at some minute of the query, on a day and for a group of both.
abbrev pub Clashes : List ZoneRow → Query → Program → Type 0
Clashes rows q p =
    Shares q.days p.days
    × Shares (groups_of rows q.zones) (groups_of rows p.zones)
    × ((time : ℕ × ℕ) × (p.time ≡ some time)
        × ((t : ℕ) × (q.start ≤ t)
            × (t < end_of rows q)
            × (minutes_of time ≤ t)
            × (t < minutes_of time + total_duration rows p.zones)))

overlaps-minute :
    (a d b e : ℕ)
    → 0 < d
    → 0 < e
    → overlaps a (a + d) b (b + e) ≡ true
    → (t : ℕ) × (a ≤ t) × (t < a + d) × (b ≤ t) × (t < b + e)
overlaps-minute a d b e hd he h = elim (Bool-cases (ltb a b)) [
  | inl t ↦ (b, ground arith, ground arith, omega arith, ground arith)
  | inr f ↦ (a, omega arith, ground arith, ground arith, ground arith)
]

minute-overlaps :
    (a d b e t : ℕ) → a ≤ t → t < a + d → b ≤ t → t < b + e → overlaps a (a + d) b (b + e) ≡ true
minute-overlaps a d b e t h i j k = ground arith

is_related-Shares :
    (rows : List ZoneRow) (q : Query) (p : Program)
    → is_related rows q p ≡ true
    → Shares q.days p.days × Shares (groups_of rows q.zones) (groups_of rows p.zones)
unfolding is_related
is_related-Shares rows q p h =
    let days = Shares-common q.days p.days (ground arith) in
    elim (Bool-cases (is_empty (common (groups_of rows q.zones) (groups_of rows p.zones)))) [
      | inr f ↦ (days, Shares-common _ _ f)
      | inl t ↦
          let (z, a, b) = Shares-common q.zones p.zones (ground arith) in
          (
            days,
            (
              get_gid rows z,
              contains-map (get_gid rows) q.zones z a,
              contains-map (get_gid rows) p.zones z b,
            ),
          )
    ]

Shares-is_related :
    (rows : List ZoneRow) (q : Query) (p : Program)
    → Shares q.days p.days
    → Shares (groups_of rows q.zones) (groups_of rows p.zones)
    → is_related rows q p ≡ true
unfolding is_related
Shares-is_related rows q p days groups =
    ground (arith, common-Shares _ _ days, common-Shares _ _ groups)

pub any_conflict-append {ℓ} :
    {A : Type ℓ} (xs ys : List A) → any_conflict (xs ++ ys) ≡ (any_conflict xs || any_conflict ys)
any_conflict-append [] ys = refl
any_conflict-append (x ∷ xs) ys = refl

any_conflict-legacy_conflict :
    (rows : List ZoneRow) (q : Query) (p : Program) (start : ℕ)
    → any_conflict (legacy_conflict rows q p start)
      ≡ overlaps q.start (end_of rows q) start (start + total_duration rows p.zones)
unfolding legacy_conflict
any_conflict-legacy_conflict rows q p start = ground arith

-- The answer about one program.
found : (rows : List ZoneRow) (q : Query) (p : Program) → Bool
found rows q p = is_related rows q p && any_conflict (conflicts_at rows q p p.time)

found-Clashes :
    (rows : List ZoneRow) (q : Query) (p : Program)
    → 0 < total_duration rows q.zones
    → 0 < total_duration rows p.zones
    → found rows q p ≡ true
    → Clashes rows q p
unfolding found conflicts_at
found-Clashes rows q p hq hp h = elim (Option-cases p.time) [
  | inl missing ↦ absurd (
      false≢true
        (subst (λ o. any_conflict (conflicts_at rows q p o) ≡ true) missing (ground arith)))
  | inr (time, known) ↦
      let (days, groups) = is_related-Shares rows q p (ground arith) in
      let hit = any_conflict-legacy_conflict rows q p (minutes_of time) in
      let h' : any_conflict (conflicts_at rows q p (some time)) ≡ true =
        subst (λ o. any_conflict (conflicts_at rows q p o) ≡ true) known (ground arith) in
      (days, groups, (time, known, overlaps-minute _ _ _ _ hq hp (sym hit ∙ h')))
]

Clashes-found :
    (rows : List ZoneRow) (q : Query) (p : Program) → Clashes rows q p → found rows q p ≡ true
unfolding found conflicts_at
Clashes-found rows q p (days, groups, (time, known, (t, a, b, c, d))) =
    let related = Shares-is_related rows q p days groups in
    let hit = minute-overlaps _ _ _ _ t a b c d in
    rw (related, known) (any_conflict-legacy_conflict rows q p (minutes_of time) ∙ hit)

any_conflict-legacy_conflicts :
    (rows : List ZoneRow) (q : Query) (p : Program) (programs : List Program)
    → any_conflict (legacy_conflicts rows q (p ∷ programs))
      ≡ (found rows q p || any_conflict (legacy_conflicts rows q programs))
unfolding legacy_conflicts found
any_conflict-legacy_conflicts rows q p programs =
    ground
      (arith, any_conflict-append (conflicts_at rows q p p.time) (legacy_conflicts rows q programs))

-- If every program waters for some time, the check reports no conflict exactly if no program
-- clashes: none of them shares with the query a day of the week, a group and a minute of the run that
-- begins at its main time on that day. Neither extra times nor the other kinds of schedule count.
pub legacy_conflicts-exact :
    (rows : List ZoneRow) (q : Query) (programs : List Program)
    → 0 < total_duration rows q.zones
    → All (λ p. 0 < total_duration rows p.zones) programs
    → (any_conflict (legacy_conflicts rows q programs) ≡ false)
      ↔ All (λ p. ¬ (Clashes rows q p)) programs
unfolding legacy_conflicts
legacy_conflicts-exact rows q [] hq hp = (λ h. tt, λ h. refl)
legacy_conflicts-exact rows q (p ∷ programs) hq hp =
    let split = any_conflict-legacy_conflicts rows q p programs in
    let rest = legacy_conflicts-exact rows q programs hq hp.1 in
    (
      λ h. (
        λ clash. false≢true (sym h ∙ split ∙ rw (Clashes-found rows q p clash) refl),
        rest.0 (ground (arith, h, split)),
      ),
      λ h. elim (Bool-cases (found rows q p)) [
        | inl t ↦ absurd (h.0 (found-Clashes rows q p hq hp.0 t))
        | inr f ↦ ground (arith, f, split, rest.1 h.1)
      ],
    )
