-- ===== src/Prelude/Tests.antt =====
-- Boolean tests on numbers and texts, and the conditional.
use Prim.Native.Nat.{ℕ, compare, Ordering}
use Prim.Native.String.{String}
use mathlib.Core.Path.{◌≡◌, refl}
use mathlib.Core.Logic.{◌↔◌, ◌⊎◌, inl, inr}
use mathlib.Core.Bool.{Bool, true, false, ◌&&◌}
use mathlib.Core.Option.{Option, none, some}
use native.Mathlib.Omega.{arith}
use text.Mathlib.Text.{◌==◌ as text_eq}
use text.Mathlib.TextEquality.{eq_iff}

abbrev pub ltb : ℕ → ℕ → Bool
ltb a b = elim (compare a b) [ Ordering.lt ↦ true | _ ↦ false ]

abbrev pub leb : ℕ → ℕ → Bool
leb a b = elim (compare a b) [ Ordering.gt ↦ false | _ ↦ true ]

abbrev pub nat_eq : ℕ → ℕ → Bool
nat_eq a b = elim (compare a b) [ Ordering.eq ↦ true | _ ↦ false ]

infix 1 if◌then◌else◌
abbrev pub if◌then◌else◌ {ℓ} : {A : Type ℓ} → Bool → A → A → A
if true then x else y = x
if false then x else y = y

pub nat_eq_iff : (a b : ℕ) → (nat_eq a b ≡ true) ↔ (a ≡ b)
nat_eq_iff a b = ground arith

-- What holds in both branches.
pub if-both :
    {A : Type 0} (P : A → Type 0) (t : Bool) {x y : A} → P x → P y → P (if t then x else y)
if-both P true here there = here
if-both P false here there = there

-- What holds in each branch, by what the test says there.
pub if-split :
    {A : Type 0} (P : A → Type 0) (t : Bool) {x y : A}
    → (t ≡ true → P x)
    → (t ≡ false → P y)
    → P (if t then x else y)
if-split P true here there = here refl
if-split P false here there = there refl

-- Types whose values the program compares with `==`.
pub record Comparable {ℓ} (Key : Type ℓ) : Type ℓ where
  pub same : Key → Key → Bool
  pub same_iff : (left right : Key) → (same left right ≡ true) ↔ (left ≡ right)

instance abbrev pub eq_text : Comparable String
eq_text = record { same_iff = eq_iff; same = text_eq }

instance abbrev pub eq_nat : Comparable ℕ
eq_nat = record { same_iff = nat_eq_iff; same = nat_eq }

infix 50 ◌==◌
abbrev pub ◌==◌ {ℓ} : {Key : Type ℓ} ⦃c : Comparable Key⦄ → Key → Key → Bool
◌==◌ ⦃c⦄ left right = c.same left right

module _ {ℓ} {A : Type ℓ} ⦃c : Comparable A⦄ where
  pub eq_of_beq : (a b : A) → (a == b) ≡ true → a ≡ b
  eq_of_beq a b h = (c.same_iff a b).0 h

  pub beq_self : (a : A) → (a == a) ≡ true
  beq_self a = (c.same_iff a a).1 refl

  pub ne_of_beq : (a b : A) → (a == b) ≡ false → ¬ (a ≡ b)
  ne_of_beq a b h same = cc ((c.same_iff a b).1 same)

  pub beq_of_ne : (a b : A) → ¬ (a ≡ b) → (a == b) ≡ false
  beq_of_ne a b h =
      elim (a == b) as (λ t. ((t ≡ true) → a ≡ b) → t ≡ false) [
        | true ↦ λ same. absurd (h (same refl))
        | false ↦ λ same. refl
      ]
        (eq_of_beq a b)

-- To split on a computed value and keep the equation.
pub Bool-cases : (b : Bool) → (b ≡ true) ⊎ (b ≡ false)
Bool-cases true = inl refl
Bool-cases false = inr refl

pub Option-cases {ℓ} : {A : Type ℓ} (o : Option A) → (o ≡ none) ⊎ ((a : A) × (o ≡ some a))
Option-cases none = inl refl
Option-cases (some a) = inr (a, refl)

pub and_iff : (a b : Bool) → ((a && b) ≡ true) ↔ ((a ≡ true) × (b ≡ true))
and_iff a b = ground arith
