-- ===== src/Watchdog/Capping.antt =====
-- What a check of services/watchdog.py leaves on.
use irrigation.Base.{
  ℕ, ◌≡◌, ◌≢◌, refl, sym, subst, ◌∙◌, inl, inr, Bool, true, false, List, [], ◌∷◌, Option, none,
  some, arith, contains, ◌||◌, if◌then◌else◌, ◌==◌, nat_eq, nat_beq_iff, Bool-cases, Option-cases,
}
use irrigation.Base.Maps.{lookup}
use irrigation.ZoneControl.{Zone, System, World}
use irrigation.ZoneControl.Master.{is_on_or_starting}
use irrigation.ZoneControl.Stop.{stop_zone}
use irrigation.ZoneControl.Calls.{stop_zone-step}
use irrigation.ZoneControl.Quiet.{Moves, Moves-IsStep, Moves-refl, Moves-trans, Moves-off}
use irrigation.ZoneControl.Resting.{stop_active-IsRested}
use irrigation.ZoneControl.Stopping.{stop_zone-stops}
use irrigation.Watchdog.{is_overdue, watchdog_stop, check_rows}

pub check_rows-step :
    (cap : ℕ) (rows : List (ℕ × Zone)) (w : World) (s : System)
    → Moves (λ _. false) s (check_rows cap rows w s).0
unfolding check_rows
check_rows-step cap [] w s = Moves-refl _ s s refl
check_rows-step cap ((id, z) ∷ rows) w s = elim (Bool-cases (is_overdue cap w.time z)) [
  | inl late ↦
      rw (check_rows, late)
        (Moves-trans (stop_zone-step _ (Moves-IsStep (λ _. false)) id watchdog_stop w s)
          (check_rows-step cap rows w (stop_zone id watchdog_stop w s).0))
  | inr fine ↦ rw (check_rows, fine) (check_rows-step cap rows w s)
]

abbrev overdue_row : (cap now : ℕ) → Option Zone → Bool
overdue_row cap now none = false
overdue_row cap now (some z) = is_overdue cap now z

-- The zones that are on for longer than the cap.
abbrev pub late_ids : (cap now : ℕ) → List (ℕ × Zone) → List ℕ
late_ids cap now [] = []
late_ids cap now ((id, z) ∷ rows) =
    if is_overdue cap now z then id ∷ late_ids cap now rows else late_ids cap now rows

pub check_rows-late :
    (cap : ℕ) (rows : List (ℕ × Zone)) (w : World) (s : System) (id : ℕ)
    → contains (late_ids cap w.time rows) id ≡ true
    → is_on_or_starting id (check_rows cap rows w s).0 ≡ false
unfolding check_rows
check_rows-late cap [] w s id late = ground arith
check_rows-late cap ((k, y) ∷ rows) w s id late = elim (Bool-cases (is_overdue cap w.time y)) [
  | inr fine ↦ rw (check_rows, fine) (check_rows-late cap rows w s id (rw fine at late))
  | inl own ↦ elim (Bool-cases (k == id)) [
    | inl same ↦
        rw (check_rows, own)
          (Moves-off id (check_rows-step cap rows w (stop_zone k watchdog_stop w s).0) refl (
            subst (λ j. is_on_or_starting j (stop_zone k watchdog_stop w s).0 ≡ false)
              ((nat_beq_iff k id).0 same) (stop_zone-stops k watchdog_stop w s)))
    | inr differs ↦
        (let there : (k == id || contains (late_ids cap w.time rows) id) ≡ true = rw own at late in
          rw (check_rows, own)
            (check_rows-late cap rows w (stop_zone k watchdog_stop w s).0 id (rw differs at there)))
  ]
]

pub late_ids-lookup :
    (cap now : ℕ) (rows : List (ℕ × Zone)) (id : ℕ) (z : Zone)
    → lookup id rows ≡ some z
    → is_overdue cap now z ≡ true
    → contains (late_ids cap now rows) id ≡ true
late_ids-lookup cap now [] id z there late = ground arith
late_ids-lookup cap now ((k, y) ∷ rows) id z there late = elim (Bool-cases (k == id)) [
  | inl same ↦
      (let e : some y ≡ some z = rw same at there in
        let own : is_overdue cap now y ≡ true =
          subst (λ o. overdue_row cap now o ≡ true) (sym e) late in
        rw (own, same) refl)
  | inr differs ↦
      (let rest = late_ids-lookup cap now rows id z (rw differs at there) late in ground (arith))
]

force_stop-other :
    (k : ℕ) (w : World) (s : System) (i : ℕ)
    → i ≢ k
    → lookup i (stop_zone k watchdog_stop w s).0.zones ≡ lookup i s.zones
unfolding stop_zone
force_stop-other k w s i h = elim (Option-cases (lookup k s.zones)) [
  | inl missing ↦ rw (stop_zone, missing) refl
  | inr (z, there) ↦
      (let (z', sent, others) = stop_active-IsRested k watchdog_stop w s z there (ground arith) in
        others i h)
]

pub check_rows-other :
    (cap : ℕ) (rows : List (ℕ × Zone)) (w : World) (s : System) (i : ℕ)
    → contains (late_ids cap w.time rows) i ≡ false
    → lookup i (check_rows cap rows w s).0.zones ≡ lookup i s.zones
unfolding check_rows
check_rows-other cap [] w s i h = refl
check_rows-other cap ((k, y) ∷ rows) w s i h = elim (Bool-cases (is_overdue cap w.time y)) [
  | inl late ↦
      (let h' : (k == i || contains (late_ids cap w.time rows) i) ≡ false = rw late at h in
        rw (check_rows, late)
          (check_rows-other cap rows w (stop_zone k watchdog_stop w s).0 i (ground arith)
            ∙ force_stop-other k w s i (λ e. absurd (ground (arith, nat_beq_iff k i)))))
  | inr fine ↦ rw (check_rows, fine) (check_rows-other cap rows w s i (rw fine at h))
]
