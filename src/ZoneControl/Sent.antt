-- ===== src/ZoneControl/Sent.antt =====
-- What the last phase of `emergency_stop_all` of services/zone_control.py publishes, and the timers that
-- it leaves.
use mathlib.Core.List.{append-nil, append_assoc}
use irrigation.Base.{
  ℕ, ◌≡◌, ◌≢◌, refl, sym, ap, subst, ◌∙◌, inl, inr, Bool, true, false, not, ◌&&◌, List, [], ◌∷◌,
  ◌++◌, none, arith, contains, All, if◌then◌else◌, ◌==◌, nat_eq, list_eq, nat_beq_iff, list_beq_iff,
  Bool-cases,
}
use irrigation.Base.Maps.{lookup, erase, lookup-erase}
use irrigation.Topics.{Topic}
use irrigation.ZoneControl.{Group, Publish, System, World}
use irrigation.ZoneControl.Master.{has_master, master_key, close_publish}
use irrigation.ZoneControl.Emergency.{close_valve, close_once, close_group, see, close_masters}

abbrev pub sent_by : List Topic → Group → World → List Publish
sent_by seen g w =
    if has_master g && not (contains seen (master_key g)) && w.knows_server g.master_mqtt_server_id
    then close_publish (master_key g) g ∷ []
    else []

unfoldable pub sent_all : List Topic → List (ℕ × Group) → World → List Publish
sent_all seen [] w = []
sent_all seen ((gid, g) ∷ groups) w =
    let others = sent_all (see g seen) groups w in
    let skipping = sent_all seen groups w in
    if gid == 0 then skipping else sent_by seen g w ++ others

close_valve-sends :
    (gid : ℕ) (g : Group) (w : World) (s : System)
    → let s' = (close_valve gid g w s).0 in
      (s'.timers ≡ s.timers)
      × (s'.published ≡ (
          if w.knows_server g.master_mqtt_server_id
          then s.published ++ close_publish (master_key g) g ∷ []
          else s.published))
unfolding close_valve
close_valve-sends gid g w s = ground arith

append_if :
    (b : Bool) (xs : List Publish) (p : Publish)
    → (if b then xs ++ p ∷ [] else xs) ≡ xs ++ (if b then p ∷ [] else [])
append_if true xs p = refl
append_if false xs p = sym (append-nil xs)

master_used : (g : Group) → has_master g ≡ true → g.use_master_valve ≡ true
unfolding has_master
master_used g h = ground arith

close_group-sends :
    (seen : List Topic) (gid : ℕ) (g : Group) (w : World) (s : System)
    → let s' = (close_group seen gid g w s).0 in
      (s'.timers ≡ (if has_master g then erase (master_key g) s.timers else s.timers))
      × (s'.published ≡ s.published ++ sent_by seen g w)
unfolding close_group close_once
close_group-sends seen gid g w s = elim (Bool-cases (has_master g)) [
  | inl master ↦
      rw (close_group, master, master_used g master)
        (elim (Bool-cases (contains seen (master_key g))) [
          | inl dup ↦ rw (close_once, dup) (refl, sym (append-nil s.published))
          | inr new ↦
              (let s₁ = record s { timers = erase (master_key g) s.timers } in
                let (kept, sent) = close_valve-sends gid g w s₁ in
                rw (close_once, new)
                  (kept, sent ∙ append_if (w.knows_server g.master_mqtt_server_id) s.published _))
        ])
  | inr bare ↦
      rw (close_group, bare)
        (elim (Bool-cases g.use_master_valve) [
          | inl used ↦ rw used (refl, sym (append-nil s.published))
          | inr unused ↦ rw unused (refl, sym (append-nil s.published))
        ])
]

pub close_masters-sends :
    (seen : List Topic) (groups : List (ℕ × Group)) (w : World) (s : System)
    → (close_masters seen groups w s).0.published ≡ s.published ++ sent_all seen groups w
unfolding close_masters sent_all
close_masters-sends seen [] w s = sym (append-nil s.published)
close_masters-sends seen ((gid, g) ∷ groups) w s = elim (Bool-cases (gid == 0)) [
  | inl zero ↦ rw (close_masters, sent_all, zero) (close_masters-sends seen groups w s)
  | inr nonzero ↦
      rw (close_masters, sent_all, nonzero)
        (close_masters-sends (see g seen) groups w (close_group seen gid g w s).0
          ∙ ap (λ p. p ++ sent_all (see g seen) groups w) (close_group-sends seen gid g w s).1
          ∙ append_assoc s.published (sent_by seen g w) _)
]

close_group-timers :
    (seen : List Topic) (gid : ℕ) (g : Group) (w : World) (s : System) (key : Topic)
    → lookup key s.timers ≡ none
    → lookup key (close_group seen gid g w s).0.timers ≡ none
close_group-timers seen gid g w s key h =
    ap (lookup key) (close_group-sends seen gid g w s).0 ∙ (elim (Bool-cases (has_master g)) [
      | inl master ↦ rw master (lookup-erase (master_key g) key s.timers ∙ rw h (ground arith))
      | inr bare ↦ rw bare h
    ])

close_group-own :
    (seen : List Topic) (gid : ℕ) (g : Group) (w : World) (s : System)
    → has_master g ≡ true
    → lookup (master_key g) (close_group seen gid g w s).0.timers ≡ none
close_group-own seen gid g w s master =
    ap (lookup (master_key g)) (close_group-sends seen gid g w s).0
    ∙ rw master (
        lookup-erase (master_key g) (master_key g) s.timers
        ∙ rw ((list_beq_iff (master_key g) (master_key g)).1 refl) refl)

-- What has no timer gets none.
close_masters-timers :
    (seen : List Topic) (groups : List (ℕ × Group)) (w : World) (s : System) (key : Topic)
    → lookup key s.timers ≡ none
    → lookup key (close_masters seen groups w s).0.timers ≡ none
unfolding close_masters
close_masters-timers seen [] w s key h = h
close_masters-timers seen ((gid, g) ∷ groups) w s key h = elim (Bool-cases (gid == 0)) [
  | inl zero ↦ rw (close_masters, zero) (close_masters-timers seen groups w s key h)
  | inr nonzero ↦
      rw (close_masters, nonzero)
        (close_masters-timers (see g seen) groups w (close_group seen gid g w s).0 key
          (close_group-timers seen gid g w s key h))
]

-- No timer is left for the valve of a group.
abbrev pub IsQuiet : System → ℕ × Group → Type 0
IsQuiet s (gid, g) = gid ≢ 0 → has_master g ≡ true → lookup (master_key g) s.timers ≡ none

close_masters-zero :
    (seen : List Topic) (gid : ℕ) (g : Group) (groups : List (ℕ × Group)) (w : World) (s : System)
    → (gid == 0) ≡ true
    → (close_masters seen ((gid, g) ∷ groups) w s).0 ≡ (close_masters seen groups w s).0
unfolding close_masters
close_masters-zero seen gid g groups w s zero = rw (close_masters, zero) refl

close_masters-nonzero :
    (seen : List Topic) (gid : ℕ) (g : Group) (groups : List (ℕ × Group)) (w : World) (s : System)
    → (gid == 0) ≡ false
    → (close_masters seen ((gid, g) ∷ groups) w s).0
      ≡ (close_masters (see g seen) groups w (close_group seen gid g w s).0).0
unfolding close_masters
close_masters-nonzero seen gid g groups w s nonzero = rw (close_masters, nonzero) refl

pub close_masters-own :
    (seen : List Topic) (groups : List (ℕ × Group)) (w : World) (s : System)
    → All (IsQuiet (close_masters seen groups w s).0) groups
close_masters-own seen [] w s = tt
close_masters-own seen ((gid, g) ∷ groups) w s = elim (Bool-cases (gid == 0)) [
  | inl zero ↦
      subst (λ t. All (IsQuiet t) ((gid, g) ∷ groups))
        (sym (close_masters-zero seen gid g groups w s zero))
        (
          (λ grouped _. absurd (grouped ((nat_beq_iff gid 0).0 zero))),
          close_masters-own seen groups w s,
        )
  | inr nonzero ↦
      (let s₁ = (close_group seen gid g w s).0 in
        subst (λ t. All (IsQuiet t) ((gid, g) ∷ groups))
          (sym (close_masters-nonzero seen gid g groups w s nonzero))
          (
            (λ grouped master.
                close_masters-timers (see g seen) groups w s₁ (master_key g)
                  (close_group-own seen gid g w s master)),
            close_masters-own (see g seen) groups w s₁,
          ))
]
