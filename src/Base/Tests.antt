-- ===== src/Base/Tests.antt =====
-- Boolean tests on the native numbers, the conditional, and an interface for equality tests.
use Prim.Native.Nat.{ℕ, ◌≤◌, ◌<◌, compare, Ordering}
use Prim.Native.String.{String}
use text.Mathlib.Text.{◌==◌ as str_eq}
use text.Mathlib.TextEquality.{eq_iff}
use mathlib.Core.Path.{◌≡◌, refl}
use mathlib.Core.Logic.{◌↔◌, ◌⊎◌, inl, inr}
use mathlib.Core.Bool.{Bool, true, false, ◌&&◌}
use mathlib.Core.Option.{Option, none, some}
use mathlib.Core.List.{List, [], ◌∷◌}
use native.Mathlib.Omega.{arith}

abbrev pub ltb : ℕ → ℕ → Bool
ltb a b = elim (compare a b) [ Ordering.lt ↦ true | _ ↦ false ]

abbrev pub leb : ℕ → ℕ → Bool
leb a b = elim (compare a b) [ Ordering.gt ↦ false | _ ↦ true ]

abbrev pub nat_beq : ℕ → ℕ → Bool
nat_beq a b = elim (compare a b) [ Ordering.eq ↦ true | _ ↦ false ]

infix 1 if◌then◌else◌
abbrev pub if◌then◌else◌ {ℓ} : {A : Type ℓ} → Bool → A → A → A
if true then x else y = x
if false then x else y = y

pub ltb→lt : (a b : ℕ) → ltb a b ≡ true → a < b
ltb→lt a b h = ground arith

pub lt→ltb : (a b : ℕ) → a < b → ltb a b ≡ true
lt→ltb a b h = ground arith

pub leb→le : (a b : ℕ) → leb a b ≡ true → a ≤ b
leb→le a b h = ground arith

pub le→leb : (a b : ℕ) → a ≤ b → leb a b ≡ true
le→leb a b h = ground arith

pub nat_beq_iff : (a b : ℕ) → (nat_beq a b ≡ true) ↔ (a ≡ b)
nat_beq_iff a b = ground arith

-- Keys with a Boolean equality test.
pub record Key {ℓ} (A : Type ℓ) : Type ℓ where
  pub eqb : A → A → Bool
  pub eqb_iff : (a b : A) → (eqb a b ≡ true) ↔ (a ≡ b)

infix 50 ◌==◌
abbrev pub ◌==◌ {ℓ} : {A : Type ℓ} ⦃key : Key A⦄ → A → A → Bool
◌==◌ ⦃key⦄ = key.eqb

instance abbrev pub nat_eq : Key ℕ
nat_eq = record { eqb = nat_beq; eqb_iff = nat_beq_iff }

instance abbrev pub string_eq : Key String
string_eq = record { eqb = str_eq; eqb_iff = eq_iff }

abbrev pub pair_beq {ℓ κ} :
    {A : Type ℓ} {B : Type κ} ⦃key : Key A⦄ ⦃f : Key B⦄ → A × B → A × B → Bool
pair_beq ⦃key⦄ ⦃f⦄ (a, b) (c, d) = key.eqb a c && f.eqb b d

pub pair_beq_iff {ℓ κ} :
    {A : Type ℓ} {B : Type κ} ⦃key : Key A⦄ ⦃f : Key B⦄ (p q : A × B)
    → (pair_beq p q ≡ true) ↔ (p ≡ q)
pair_beq_iff ⦃key⦄ ⦃f⦄ (a, b) (c, d) = ground (arith, key.eqb_iff a c, f.eqb_iff b d)

instance abbrev pub pair_eq {ℓ κ} :
    {A : Type ℓ} {B : Type κ} ⦃key : Key A⦄ ⦃f : Key B⦄ → Key (A × B)
pair_eq ⦃key⦄ ⦃f⦄ = record {
  eqb = pair_beq ⦃key = key⦄ ⦃f = f⦄;
  eqb_iff = pair_beq_iff ⦃key = key⦄ ⦃f = f⦄;
}

abbrev pub list_beq {ℓ} : {A : Type ℓ} ⦃key : Key A⦄ → List A → List A → Bool
list_beq [] [] = true
list_beq [] (y ∷ ys) = false
list_beq (x ∷ xs) [] = false
list_beq (x ∷ xs) (y ∷ ys) = x == y && list_beq xs ys

pub list_beq_iff {ℓ} :
    {A : Type ℓ} ⦃key : Key A⦄ (xs ys : List A) → (list_beq xs ys ≡ true) ↔ (xs ≡ ys)
list_beq_iff [] [] = ground arith
list_beq_iff [] (y ∷ ys) = ground arith
list_beq_iff (x ∷ xs) [] = ground arith
list_beq_iff ⦃key⦄ (x ∷ xs) (y ∷ ys) = ground (arith, key.eqb_iff x y, list_beq_iff xs ys)

instance abbrev pub list_eq {ℓ} : {A : Type ℓ} ⦃key : Key A⦄ → Key (List A)
list_eq ⦃key⦄ = record { eqb = list_beq ⦃key = key⦄; eqb_iff = list_beq_iff ⦃key = key⦄ }

-- To split on a computed value and keep the equation.
pub Bool-cases : (b : Bool) → (b ≡ true) ⊎ (b ≡ false)
Bool-cases true = inl refl
Bool-cases false = inr refl

pub Option-cases {ℓ} : {A : Type ℓ} (o : Option A) → (o ≡ none) ⊎ ((a : A) × (o ≡ some a))
Option-cases none = inl refl
Option-cases (some a) = inr (a, refl)
