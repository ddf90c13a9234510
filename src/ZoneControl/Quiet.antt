-- ===== src/ZoneControl/Quiet.antt =====
-- What the operations on zones do to the question which zones of a group run.
use Prim.Native.String.{String}
use irrigation.Base.{
  ℕ, ◌≡◌, refl, ap, ◌∙◌, inl, inr, Bool, true, false, not, ◌&&◌, ◌||◌, List, [], ◌∷◌, Option, none,
  some, arith, contains, contains-keep_if, if◌then◌else◌, ◌==◌, nat_eq, list_eq, nat_beq,
  nat_beq_iff, Bool-cases, Option-cases,
}
use irrigation.Base.Maps.{lookup, map_some, adjust, lookup-adjust}
use irrigation.ZoneControl.{
  Zone, Update, System, is_active, apply_update, update_zone_state, in_group, keys, zones_by_group,
}
use irrigation.ZoneControl.Stop.{Stats, measured}
use irrigation.ZoneControl.Steps.{IsStep}
use irrigation.ZoneControl.Master.{active, is_on_or_starting}

-- Is the zone still where it was, in the same group, and runs only if it did so before, or may?
abbrev pub moved : (may : Bool) → Option Zone → Option Zone → Bool
moved may none none = true
moved may none (some z) = false
moved may (some z) none = false
moved may (some z) (some z') =
    nat_beq z.group_id z'.group_id && (not (is_active z'.state) || is_active z.state || may)

-- At most the zones of `only` start to run.
pub record Moves (only : ℕ → Bool) (s s' : System) : Type 0 where
  pub at : (id : ℕ) → moved (only id) (lookup id s.zones) (lookup id s'.zones) ≡ true

moved_refl : (may : Bool) (o : Option Zone) → moved may o o ≡ true
moved_refl may none = refl
moved_refl may (some z) = ground arith

moved_trans :
    (may : Bool) (a b c : Option Zone)
    → moved may a b ≡ true
    → moved may b c ≡ true
    → moved may a c ≡ true
moved_trans may none none c h k = k
moved_trans may (some x) (some y) none h k = k
moved_trans may (some x) (some y) (some z) h k = ground arith
moved_trans may none (some y) c h k = ground arith
moved_trans may (some x) none c h k = ground arith

-- Also after a change of something other than the zones.
pub Moves-refl : (only : ℕ → Bool) (s s' : System) → s'.zones ≡ s.zones → Moves only s s'
Moves-refl only s s' e = record {
  at = λ id.
      ap (λ zones. moved (only id) (lookup id s.zones) (lookup id zones)) e
      ∙ moved_refl (only id) (lookup id s.zones);
}

pub Moves-trans :
    {only : ℕ → Bool} {s₁ s₂ s₃ : System} → Moves only s₁ s₂ → Moves only s₂ s₃ → Moves only s₁ s₃
Moves-trans {only} {s₁} {s₂} {s₃} h k = record {
  at = λ id.
      moved_trans (only id) (lookup id s₁.zones) (lookup id s₂.zones) (lookup id s₃.zones) (h.at id)
        (k.at id);
}

update_zone_state-zones :
    (k : ℕ) (u : Update) (reason : String) (s : System)
    → (update_zone_state k u reason s).zones ≡ adjust k (apply_update u) s.zones
unfolding update_zone_state
update_zone_state-zones k u reason s = elim (Option-cases (lookup k s.zones)) [
  | inl missing ↦ rw (missing, update_zone_state, adjust) refl
  | inr (z, there) ↦ rw (there, update_zone_state, adjust) refl
]

pub lookup-update_zone_state :
    (id k : ℕ) (u : Update) (reason : String) (s : System)
    → lookup id (update_zone_state k u reason s).zones
      ≡ (if k == id then map_some (apply_update u) (lookup id s.zones) else lookup id s.zones)
lookup-update_zone_state id k u reason s =
    ap (lookup id) (update_zone_state-zones k u reason s)
    ∙ lookup-adjust k id (apply_update u) s.zones

moved-updated :
    (may : Bool) (k id : ℕ) (u : Update) (o : Option Zone)
    → ((k == id) && is_active u.state && not may) ≡ false
    → moved may o (if k == id then map_some (apply_update u) o else o) ≡ true
moved-updated may k id u none h = ground arith
moved-updated may k id u (some z) h = ground arith

pub Moves-update_zone_state :
    (only : ℕ → Bool) (k : ℕ) (u : Update) (reason : String) (s : System)
    → (is_active u.state && not (only k)) ≡ false
    → Moves only s (update_zone_state k u reason s)
Moves-update_zone_state only k u reason s h = record {
  at = λ id.
      rw (lookup-update_zone_state id k u reason s)
        (moved-updated (only id) k id u (lookup id s.zones) (grind arith));
}

still_off : (a b : Option Zone) → moved false a b ≡ true → active a ≡ false → active b ≡ false
still_off none none m h = refl
still_off none (some y) m h = ground arith
still_off (some x) none m h = refl
still_off (some x) (some y) m h = ground arith

same_group :
    (may : Bool) (g : ℕ) (a b : Option Zone) → moved may a b ≡ true → in_group g b ≡ in_group g a
same_group may g none none m = refl
same_group may g none (some y) m = ground arith
same_group may g (some x) none m = ground arith
same_group may g (some x) (some y) m = ground arith

-- A zone that is off stays off.
pub Moves-off :
    {only : ℕ → Bool} {s s' : System} (id : ℕ)
    → Moves only s s'
    → only id ≡ false
    → is_on_or_starting id s ≡ false
    → is_on_or_starting id s' ≡ false
Moves-off {only} {s} {s'} id m h e =
    still_off (lookup id s.zones) (lookup id s'.zones) (rw h at (m.at id)) e

pub Moves-in_group :
    {only : ℕ → Bool} {s s' : System} (g id : ℕ)
    → Moves only s s'
    → in_group g (lookup id s'.zones) ≡ in_group g (lookup id s.zones)
Moves-in_group {only} {s} {s'} g id m =
    same_group (only id) g (lookup id s.zones) (lookup id s'.zones) (m.at id)

-- A row that is found has its key among the keys.
pub contains-keys :
    (g id : ℕ) (m : List (ℕ × Zone)) → in_group g (lookup id m) ≡ true → contains (keys m) id ≡ true
contains-keys g id [] h = h
contains-keys g id ((k, z) ∷ m) h = elim (Bool-cases (k == id)) [
  | inl same ↦ ground (arith, same)
  | inr other ↦ ground (arith, other, contains-keys g id m)
]

and_absorbs : (a b : Bool) → (b ≡ true → a ≡ true) → (a && b) ≡ b
and_absorbs true true h = refl
and_absorbs false true h = h refl
and_absorbs true false h = refl
and_absorbs false false h = refl

pub contains-zones_by_group :
    (g id : ℕ) (s : System) → contains (zones_by_group g s) id ≡ in_group g (lookup id s.zones)
unfolding zones_by_group
contains-zones_by_group g id s =
    contains-keep_if (λ i. in_group g (lookup i s.zones)) (keys s.zones) id
    ∙ and_absorbs _ (in_group g (lookup id s.zones)) (contains-keys g id s.zones)

-- An update leaves the other zones alone.
pub lookup-other :
    (i k : ℕ) (u : Update) (reason : String) (s : System)
    → (k == i) ≡ false
    → lookup i (update_zone_state k u reason s).zones ≡ lookup i s.zones
lookup-other i k u reason s h = lookup-update_zone_state i k u reason s ∙ rw h refl

active-updated :
    (u : Update) (o : Option Zone)
    → is_active u.state ≡ false
    → active (map_some (apply_update u) o) ≡ false
active-updated u none h = refl
active-updated u (some z) h = h

pub update_zone_state-stops :
    (k : ℕ) (u : Update) (reason : String) (s : System)
    → is_active u.state ≡ false
    → is_on_or_starting k (update_zone_state k u reason s) ≡ false
update_zone_state-stops k u reason s h =
    rw (is_on_or_starting, lookup-update_zone_state k k u reason s, (nat_beq_iff k k).1 refl)
      (active-updated u (lookup k s.zones) h)

updated-active :
    (u : Update) (o : Option Zone)
    → active o ≡ true
    → is_active u.state ≡ true
    → active (map_some (apply_update u) o) ≡ true
updated-active u none e h = e
updated-active u (some z) e h = h

-- A zone that runs goes on if its new state is one of a running zone.
pub update_zone_state-runs :
    (k : ℕ) (u : Update) (reason : String) (s : System)
    → is_on_or_starting k s ≡ true
    → is_active u.state ≡ true
    → is_on_or_starting k (update_zone_state k u reason s) ≡ true
update_zone_state-runs k u reason s e h =
    rw (is_on_or_starting, lookup-update_zone_state k k u reason s, (nat_beq_iff k k).1 refl)
      (updated-active u (lookup k s.zones) e h)

pub update_zone_state-starts :
    (k : ℕ) (u : Update) (reason : String) (s : System) (z : Zone)
    → lookup k s.zones ≡ some z
    → is_active u.state ≡ true
    → is_on_or_starting k (update_zone_state k u reason s) ≡ true
update_zone_state-starts k u reason s z there h =
    rw (is_on_or_starting, lookup-update_zone_state k k u reason s, (nat_beq_iff k k).1 refl, there)
      h

moved-measured :
    (may : Bool) (k id : ℕ) (stats : Stats) (o : Option Zone)
    → moved may o (if k == id then map_some (measured stats) o else o) ≡ true
moved-measured may k id stats none = ground arith
moved-measured may k id stats (some z) = elim (Bool-cases (k == id)) [
  | inl same ↦ rw same (moved_refl may (some z))
  | inr other ↦ rw other (moved_refl may (some z))
]

-- No call makes a zone run, but one that brings it into a state in which it runs.
pub Moves-IsStep : (only : ℕ → Bool) → IsStep (Moves only)
Moves-IsStep only = record {
  same = λ s s' e. Moves-refl only s s' e.zones;
  trans = λ s₁ s₂ s₃ h k. Moves-trans h k;
  rest = λ k u reason s h. Moves-update_zone_state only k u reason s (rw h refl);
  measure = λ k stats s. record {
    at = λ id.
        rw (lookup-adjust k id (measured stats) s.zones)
          (moved-measured (only id) k id stats (lookup id s.zones));
  };
}
