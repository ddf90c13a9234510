-- ===== src/ZoneControl/Valves.antt =====
-- The master valves in `emergency_stop_all` of services/zone_control.py.
use irrigation.Base.{
  ℕ, ◌⊎◌, ◌||◌, map, list_beq, ◌≡◌, ◌≢◌, refl, subst, inl, inr, Bool, true, false, not, ◌&&◌, List,
  [], ◌∷◌, ◌++◌, arith, contains, All, ◌==◌, nat_eq, list_eq, nat_beq_iff, list_beq_iff, Bool-cases,
}
use irrigation.Topics.{Topic}
use irrigation.ZoneControl.{Group, Publish, System, World}
use irrigation.ZoneControl.Master.{has_master, master_key}
use irrigation.ZoneControl.Emergency.{see, close_masters}
use irrigation.ZoneControl.Sent.{sent_by, sent_all, IsQuiet, close_masters-sends, close_masters-own}

-- The commands to close, in order: none to a valve of `seen`, and at most one to each valve.
abbrev pub AreSingle : List Topic → List Publish → Type 0
AreSingle seen [] = Unit
AreSingle seen (p ∷ ps) = (contains seen p.topic ≡ false) × AreSingle (p.topic ∷ seen) ps

fewer_seen :
    (seen more : List Topic) (ps : List Publish)
    → ((key : Topic) → contains more key ≡ false → contains seen key ≡ false)
    → AreSingle more ps
    → AreSingle seen ps
fewer_seen seen more [] h k = tt
fewer_seen seen more (p ∷ ps) h (new, rest) = (
  h p.topic new,
  fewer_seen (p.topic ∷ seen) (p.topic ∷ more) ps (λ key m. ground (arith, h key)) rest,
)

all_true : (a b : Bool) → (a && b) ≡ true → a ≡ true
all_true true b h = refl
all_true false b h = h

seen_less :
    (g : Group) (seen : List Topic) (key : Topic)
    → contains (see g seen) key ≡ false
    → contains seen key ≡ false
unfolding see
seen_less g seen key h = ground arith

see-master :
    (g : Group) (seen : List Topic) → has_master g ≡ true → see g seen ≡ master_key g ∷ seen
unfolding see
see-master g seen h = rw (see, h) refl

sent_by-AreSingle :
    (seen : List Topic) (g : Group) (w : World) (rest : List Publish)
    → AreSingle (see g seen) rest
    → AreSingle seen (sent_by seen g w ++ rest)
unfolding see
sent_by-AreSingle seen g w rest h =
    elim (Bool-cases (
      has_master g
      && not (contains seen (master_key g))
      && w.knows_server g.master_mqtt_server_id)) [
        | inl sent ↦ rw sent (
          ground arith,
          subst (λ keys. AreSingle keys rest) (see-master g seen (all_true _ _ (all_true _ _ sent)))
              h,
        )
        | inr unsent ↦ rw unsent (fewer_seen seen (see g seen) rest (seen_less g seen) h)
      ]

sent_all-AreSingle :
    (seen : List Topic) (groups : List (ℕ × Group)) (w : World)
    → AreSingle seen (sent_all seen groups w)
unfolding sent_all
sent_all-AreSingle seen [] w = tt
sent_all-AreSingle seen ((gid, g) ∷ groups) w = elim (Bool-cases (gid == 0)) [
  | inl zero ↦ rw (sent_all, zero) (sent_all-AreSingle seen groups w)
  | inr nonzero ↦
      rw (sent_all, nonzero)
        (sent_by-AreSingle seen g w (sent_all (see g seen) groups w)
          (sent_all-AreSingle (see g seen) groups w))
]

-- A command to close the valve of the group: "1" for a valve that is normally open, "0" for another.
abbrev pub IsCloseOf : Publish → ℕ × Group → Type 0
IsCloseOf p (gid, g) =
    (gid ≢ 0)
    × (has_master g ≡ true)
    × (p.topic ≡ master_key g)
    × (p.server ≡ g.master_mqtt_server_id)
    × (p.value ≡ g.normally_open)

-- One of the groups has it.
abbrev pub Some : List (ℕ × Group) → (ℕ × Group → Type 0) → Type 0
Some [] P = ⊥
Some (x ∷ xs) P = P x ⊎ Some xs P

abbrev pub topics_of : List Publish → List Topic
topics_of ps = map (λ p. p.topic) ps

-- There is a command to the valve of the group.
abbrev pub IsTold : List Topic → ℕ × Group → Type 0
IsTold told x = x.0 ≢ 0 → has_master x.1 ≡ true → contains told (master_key x.1) ≡ true

All-map {ℓ κ μ} :
    {A : Type ℓ} {P : A → Type κ} {Q : A → Type μ} (xs : List A)
    → ((x : A) → P x → Q x)
    → All P xs
    → All Q xs
All-map [] f h = tt
All-map (x ∷ xs) f h = (f x h.0, All-map xs f h.1)

sent_all-IsCloseOf :
    (seen : List Topic) (groups : List (ℕ × Group)) (w : World)
    → All (λ p. Some groups (IsCloseOf p)) (sent_all seen groups w)
unfolding sent_all
sent_all-IsCloseOf seen [] w = tt
sent_all-IsCloseOf seen ((gid, g) ∷ groups) w = elim (Bool-cases (gid == 0)) [
  | inl zero ↦
      rw (sent_all, zero)
        (All-map (sent_all seen groups w) (λ p h. inr h) (sent_all-IsCloseOf seen groups w))
  | inr nonzero ↦
      (let rest =
          All-map (sent_all (see g seen) groups w) (λ p h. inr h)
            (sent_all-IsCloseOf (see g seen) groups w) in
        rw (sent_all, nonzero)
          (elim (Bool-cases (
            has_master g
            && not (contains seen (master_key g))
            && w.knows_server g.master_mqtt_server_id)) [
              | inl sent ↦ rw sent (
                inl (
                  (λ e. absurd (ground (arith, nat_beq_iff gid 0))),
                  all_true _ _ (all_true _ _ sent),
                  refl,
                  refl,
                  refl,
                ),
                rest,
              )
              | inr unsent ↦ rw unsent rest
            ]))
]

-- A valve has a command already, or gets one.
abbrev IsServed : List Topic → List (ℕ × Group) → World → Topic → Type 0
IsServed seen groups w key =
    (contains seen key || contains (topics_of (sent_all seen groups w)) key) ≡ true

same_contained :
    (seen : List Topic) (key key' : Topic)
    → contains seen key ≡ true
    → list_beq key key' ≡ true
    → contains seen key' ≡ true
same_contained seen key key' h same =
    subst (λ k. contains seen k ≡ true) ((list_beq_iff key key').0 same) h

IsServed-cons :
    (seen : List Topic) (gid : ℕ) (g : Group) (groups : List (ℕ × Group)) (w : World) (key : Topic)
    → ((n : ℕ) → w.knows_server n ≡ true)
    → (gid == 0) ≡ false
    → IsServed (see g seen) groups w key
    → IsServed seen ((gid, g) ∷ groups) w key
unfolding sent_all see
IsServed-cons seen gid g groups w key known nonzero h = elim (Bool-cases (has_master g)) [
  | inr bare ↦ rw (sent_all, nonzero, bare) (rw (see, bare) at h)
  | inl master ↦
      (let h' = rw (see, master) at h in
        rw (sent_all, nonzero, see, master, known g.master_mqtt_server_id)
          (elim (Bool-cases (contains seen (master_key g))) [
            | inl old ↦ rw old (ground (arith, same_contained seen (master_key g) key old))
            | inr new ↦ rw new (ground arith)
          ]))
]

IsServed-own :
    (seen : List Topic) (gid : ℕ) (g : Group) (groups : List (ℕ × Group)) (w : World)
    → ((n : ℕ) → w.knows_server n ≡ true)
    → (gid == 0) ≡ false
    → has_master g ≡ true
    → IsServed seen ((gid, g) ∷ groups) w (master_key g)
unfolding see
IsServed-own seen gid g groups w known nonzero master =
    IsServed-cons seen gid g groups w (master_key g) known nonzero
      (rw (see, master, (list_beq_iff (master_key g) (master_key g)).1 refl) refl)

IsServed-zero :
    (seen : List Topic) (gid : ℕ) (g : Group) (groups : List (ℕ × Group)) (w : World) (key : Topic)
    → (gid == 0) ≡ true
    → IsServed seen groups w key
    → IsServed seen ((gid, g) ∷ groups) w key
unfolding sent_all
IsServed-zero seen gid g groups w key zero h = rw (sent_all, zero) h

-- Every group with a valve is served.
all_served :
    (seen : List Topic) (groups : List (ℕ × Group)) (w : World)
    → ((n : ℕ) → w.knows_server n ≡ true)
    → All
        (λ (x : ℕ × Group).
          x.0 ≢ 0 → has_master x.1 ≡ true → IsServed seen groups w (master_key x.1))
        groups
all_served seen [] w known = tt
all_served seen ((gid, g) ∷ groups) w known = elim (Bool-cases (gid == 0)) [
  | inl zero ↦ (
    (λ grouped _. absurd (grouped ((nat_beq_iff gid 0).0 zero))),
    All-map groups
        (λ x h grouped master.
          IsServed-zero seen gid g groups w (master_key x.1) zero (h grouped master))
        (all_served seen groups w known),
  )
  | inr nonzero ↦ (
    (λ _ master. IsServed-own seen gid g groups w known nonzero master),
    All-map groups
        (λ x h grouped master.
          IsServed-cons seen gid g groups w (master_key x.1) known nonzero (h grouped master))
        (all_served (see g seen) groups w known),
  )
]

-- The last phase of an emergency stop, over the groups that were there: it publishes commands to close
-- the master valves of these groups, "1" to a valve that is normally open and "0" to another, at most
-- one to each topic, and at least one to each if every server is known; and it leaves no timer for the
-- valve of any of the groups. Group 0 does not count.
pub close_masters-AreSingle :
    (groups : List (ℕ × Group)) (w : World) (s : System)
    → let s' = (close_masters [] groups w s).0 in
      ((ps : List Publish) × (s'.published ≡ s.published ++ ps)
        × AreSingle [] ps
        × All (λ p. Some groups (IsCloseOf p)) ps
        × (((n : ℕ) → w.knows_server n ≡ true) → All (IsTold (topics_of ps)) groups))
      × All (IsQuiet s') groups
close_masters-AreSingle groups w s = (
  (
    sent_all [] groups w,
    close_masters-sends [] groups w s,
    sent_all-AreSingle [] groups w,
    sent_all-IsCloseOf [] groups w,
    λ known. all_served [] groups w known,
  ),
  close_masters-own [] groups w s,
)
