-- ===== src/Prelude/Result.antt =====
-- A value or an error, for Go's `(T, error)`.
use mathlib.Core.Path.{◌≡◌, refl}
use mathlib.Core.Bool.{Bool, true, false}
use mathlib.Core.Logic.{◌⊎◌, inl, inr}

pub data Result (E A : Type 0) : Type 0 where
  ok : A → Result E A
  err : E → Result E A

-- Go on with the value; an error ends the chain.
infixl 5 ◌>>=◌ ◌>>◌
abbrev pub ◌>>=◌ : {E S T : Type 0} → Result E S → (S → Result E T) → Result E T
err failure >>= next = err failure
ok value >>= next = next value

abbrev pub ◌>>◌ : {E T : Type 0} → Result E (Unit {0}) → Result E T → Result E T
first >> next = first >>= λ done. next

-- `if test { return err }`.
abbrev pub refuse_if : {E : Type 0} → Bool → E → Result E (Unit {0})
refuse_if true e = err e
refuse_if false e = ok tt

pub refuse_if-ok : {E : Type 0} (b : Bool) (e : E) {u : Unit {0}} → refuse_if b e ≡ ok u → b ≡ false
refuse_if-ok true e h = cc
refuse_if-ok false e h = refl

-- A chain that gives a value has passed through its first part.
pub >>=-eq-ok :
    {E S T : Type 0} (first : Result E S) (next : S → Result E T) {t : T}
    → (first >>= next) ≡ ok t
    → (s : S) × (first ≡ ok s) × (next s ≡ ok t)
>>=-eq-ok (err failure) next h = cc
>>=-eq-ok (ok value) next h = (value, refl, h)

-- A chain that gives a value was not refused.
pub not_refused :
    {E T : Type 0} (b : Bool) (e : E) (rest : Result E T) {t : T}
    → (refuse_if b e >> rest) ≡ ok t
    → (b ≡ false) × (rest ≡ ok t)
not_refused true e rest h = cc
not_refused false e rest h = (refl, h)

pub Result-cases :
    {E A : Type 0} (r : Result E A) → ((e : E) × (r ≡ err e)) ⊎ ((a : A) × (r ≡ ok a))
Result-cases (ok a) = inr (a, refl)
Result-cases (err e) = inl (e, refl)
