-- ===== src/Scheduler/Sessions/Registering.antt =====
-- The sessions that a run of a program opens at its beginning, in irrigation_scheduler.py.
use irrigation.Base.{
  ℕ, suc, ◌≡◌, ◌∙◌, refl, sym, ap, inl, inr, false, List, [], ◌∷◌, Option, none, some, ◌==◌, nat_eq,
  nat_beq_iff, if◌then◌else◌, Bool-cases, Option-cases,
}
use irrigation.Base.Maps.{lookup, insert, lookup-insert}
use irrigation.Scheduler.{Scheduler, plant}
use irrigation.Scheduler.Program.{register_sessions}

abbrev pub event_of : ℕ → Scheduler → Option ℕ
event_of k s = lookup k s.group_cancel_events

-- What a new event changes.
abbrev planted : ℕ → Scheduler → Scheduler
planted gid s = record s {
  is_set = λ e. if s.fresh == e then false else s.is_set e;
  fresh = suc s.fresh;
  group_cancel_events = insert gid s.fresh s.group_cancel_events;
}

register_sessions-free :
    (gid : ℕ) (gids : List ℕ) (s : Scheduler)
    → event_of gid s ≡ none
    → register_sessions (gid ∷ gids) s ≡ (
      (register_sessions gids (planted gid s)).0,
      (gid, s.fresh) ∷ (register_sessions gids (planted gid s)).1,
    )
unfolding register_sessions plant
register_sessions-free gid gids s free = rw (register_sessions, plant, free) refl

register_sessions-taken :
    (gid : ℕ) (gids : List ℕ) (s : Scheduler) (e : ℕ)
    → event_of gid s ≡ some e
    → register_sessions (gid ∷ gids) s ≡ register_sessions gids s
unfolding register_sessions plant
register_sessions-taken gid gids s e taken = rw (register_sessions, plant, taken) refl

other_group :
    (gid k : ℕ) (s : Scheduler) (e : ℕ)
    → event_of gid s ≡ none
    → event_of k s ≡ some e
    → (gid == k) ≡ false
other_group gid k s e free held = elim (Bool-cases (gid == k)) [
  | inl same ↦
      (let clash : none ≡ some e =
          sym free ∙ ap (λ i. event_of i s) ((nat_beq_iff gid k).0 same) ∙ held in
        cc)
  | inr other ↦ other
]

planted-held :
    (gid k : ℕ) (s : Scheduler) (e : ℕ)
    → (gid == k) ≡ false
    → event_of k s ≡ some e
    → event_of k (planted gid s) ≡ some e
planted-held gid k s e other held =
    lookup-insert gid k s.fresh s.group_cancel_events ∙ rw other held

-- A group that has a session is not registered.
pub register_sessions-held :
    (gids : List ℕ) (k : ℕ) (s : Scheduler) (e : ℕ)
    → event_of k s ≡ some e
    → (lookup k (register_sessions gids s).1 ≡ none)
      × (event_of k (register_sessions gids s).0 ≡ some e)
register_sessions-held [] k s e held = unfold register_sessions in (refl, held)
register_sessions-held (gid ∷ gids) k s e held = elim (Option-cases (event_of gid s)) [
  | inl free ↦
      (let other = other_group gid k s e free held in
        let ih =
          register_sessions-held gids k (planted gid s) e (planted-held gid k s e other held) in
        rw (register_sessions-free gid gids s free) (rw other ih.0, ih.1))
  | inr (e', taken) ↦
      rw (register_sessions-taken gid gids s e' taken) (register_sessions-held gids k s e held)
]

-- A group that has none is registered if it has one then.
pub register_sessions-none :
    (gids : List ℕ) (k : ℕ) (s : Scheduler)
    → event_of k s ≡ none
    → event_of k (register_sessions gids s).0 ≡ lookup k (register_sessions gids s).1
register_sessions-none [] k s free = unfold register_sessions in free
register_sessions-none (gid ∷ gids) k s free = elim (Option-cases (event_of gid s)) [
  | inl vacant ↦ rw (register_sessions-free gid gids s vacant) (elim (Bool-cases (gid == k)) [
    | inl same ↦
        rw same
          (register_sessions-held gids k (planted gid s) s.fresh
            (lookup-insert gid k s.fresh s.group_cancel_events ∙ rw same refl)).1
    | inr other ↦ rw other (
        register_sessions-none gids k (planted gid s)
          (lookup-insert gid k s.fresh s.group_cancel_events ∙ rw other free))
  ])
  | inr (e, taken) ↦
      rw (register_sessions-taken gid gids s e taken) (register_sessions-none gids k s free)
]
