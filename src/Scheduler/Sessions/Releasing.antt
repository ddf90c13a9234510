-- ===== src/Scheduler/Sessions/Releasing.antt =====
-- The sessions that a run of a program gives up at its end, in irrigation_scheduler.py.
use irrigation.Base.{
  ℕ, ◌≡◌, ◌∙◌, refl, sym, ap, inl, inr, true, false, List, [], ◌∷◌, none, some, arith, ◌==◌, nat_eq,
  nat_beq_iff, Bool-cases, Option-cases,
}
use irrigation.Base.Maps.{lookup, lookup-erase}
use irrigation.Scheduler.{Scheduler, release, drop_skip}
use irrigation.Scheduler.Program.{clean_up}
use irrigation.Scheduler.Sessions.Registering.{event_of}

-- The event of a group that is not released is still there.
release-other :
    (gid e k : ℕ) (s : Scheduler)
    → (gid == k) ≡ false
    → event_of k (drop_skip gid (release gid e s)) ≡ event_of k s
unfolding release
release-other gid e k s other = elim (Option-cases (event_of gid s)) [
  | inl free ↦ rw (release, free) refl
  | inr (e', held) ↦
      rw (release, held)
        (elim (Bool-cases (e' == e)) [
          | inl own ↦ rw own (lookup-erase gid k s.group_cancel_events ∙ rw other refl)
          | inr foreign ↦ rw foreign refl
        ])
]

release-free :
    (gid e k : ℕ) (s : Scheduler)
    → event_of k s ≡ none
    → event_of k (drop_skip gid (release gid e s)) ≡ none
unfolding release
release-free gid e k s free = elim (Option-cases (event_of gid s)) [
  | inl vacant ↦ rw (release, vacant) free
  | inr (e', held) ↦
      rw (release, held)
        (elim (Bool-cases (e' == e)) [
          | inl own ↦ rw own (lookup-erase gid k s.group_cancel_events ∙ ground arith)
          | inr foreign ↦ rw foreign free
        ])
]

release-own :
    (gid e k : ℕ) (s : Scheduler)
    → (gid == k) ≡ true
    → event_of k s ≡ some e
    → event_of k (drop_skip gid (release gid e s)) ≡ none
unfolding release
release-own gid e k s same held =
    rw
      (
        release,
        ap (λ i. event_of i s) ((nat_beq_iff gid k).0 same) ∙ held,
        (nat_beq_iff e e).1 refl,
      )
      (lookup-erase gid k s.group_cancel_events ∙ rw same refl)

pub clean_up-free :
    (registered : List (ℕ × ℕ)) (k : ℕ) (s : Scheduler)
    → event_of k s ≡ none
    → event_of k (clean_up registered s) ≡ none
unfolding clean_up
clean_up-free [] k s free = free
clean_up-free ((gid, e) ∷ registered) k s free =
    clean_up-free registered k (drop_skip gid (release gid e s)) (release-free gid e k s free)

pub clean_up-other :
    (registered : List (ℕ × ℕ)) (k : ℕ) (s : Scheduler)
    → lookup k registered ≡ none
    → event_of k (clean_up registered s) ≡ event_of k s
unfolding clean_up
clean_up-other [] k s absent = refl
clean_up-other ((gid, e) ∷ registered) k s absent = elim (Bool-cases (gid == k)) [
  | inl same ↦ (let clash : some e ≡ none = rw same at absent in cc)
  | inr other ↦
      clean_up-other registered k (drop_skip gid (release gid e s)) (rw other at absent)
      ∙ release-other gid e k s other
]

pub clean_up-own :
    (registered : List (ℕ × ℕ)) (k e : ℕ) (s : Scheduler)
    → lookup k registered ≡ some e
    → event_of k s ≡ some e
    → event_of k (clean_up registered s) ≡ none
unfolding clean_up
clean_up-own [] k e s listed held = cc
clean_up-own ((gid, e') ∷ registered) k e s listed held = elim (Bool-cases (gid == k)) [
  | inl same ↦
      clean_up-free registered k (drop_skip gid (release gid e' s))
        (release-own gid e' k s same (held ∙ sym (rw same at listed)))
  | inr other ↦
      clean_up-own registered k e (drop_skip gid (release gid e' s)) (rw other at listed)
        (release-other gid e' k s other ∙ held)
]
