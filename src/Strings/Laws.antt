-- ===== src/Strings/Laws.antt =====
-- Trimming twice is trimming once.
use Prim.Native.Char.{Char}
use goloom.Prelude.{String, ◌≡◌, refl, inl, inr, false, Bool-cases}
use goloom.Strings.{is_space, trim_left, before_trimmed, trim_right, trim_space}

-- A text that is empty or begins with no space.
abbrev StartsClean : String → Type 0
StartsClean String.[] = Unit
StartsClean (String.◌∷◌ c s) = is_space c ≡ false

trim_left-StartsClean : (s : String) → StartsClean (trim_left s)
unfolding trim_left
trim_left-StartsClean String.[] = tt
trim_left-StartsClean (String.◌∷◌ c s) = elim (Bool-cases (is_space c)) [
  | inl space ↦ rw space (trim_left-StartsClean s)
  | inr other ↦ rw other other
]

trim_left_of_StartsClean : (s : String) → StartsClean s → trim_left s ≡ s
unfolding trim_left
trim_left_of_StartsClean String.[] h = refl
trim_left_of_StartsClean (String.◌∷◌ c s) h = rw h

before_trimmed-StartsClean :
    (c : Char) (t : String) → is_space c ≡ false → StartsClean (before_trimmed c t)
unfolding before_trimmed
before_trimmed-StartsClean c String.[] h = rw h h
before_trimmed-StartsClean c (String.◌∷◌ d t) h = h

trim_right-StartsClean : (s : String) → StartsClean s → StartsClean (trim_right s)
unfolding trim_right
trim_right-StartsClean String.[] h = tt
trim_right-StartsClean (String.◌∷◌ c s) h = before_trimmed-StartsClean c (trim_right s) h

trim_right-before_trimmed :
    (c : Char) (t : String)
    → trim_right t ≡ t
    → trim_right (before_trimmed c t) ≡ before_trimmed c t
unfolding trim_right before_trimmed
trim_right-before_trimmed c String.[] h = elim (Bool-cases (is_space c)) [
  | inl space ↦ rw space
  | inr other ↦ rw other (rw other)
]
trim_right-before_trimmed c (String.◌∷◌ d t) h = rw h

trim_right_idem : (s : String) → trim_right (trim_right s) ≡ trim_right s
unfolding trim_right
trim_right_idem String.[] = refl
trim_right_idem (String.◌∷◌ c s) = trim_right-before_trimmed c (trim_right s) (trim_right_idem s)

-- Trimming a trimmed text changes nothing.
pub trim_space_idem : (s : String) → trim_space (trim_space s) ≡ trim_space s
unfolding trim_space
trim_space_idem s =
    rw (trim_left_of_StartsClean _ (trim_right-StartsClean _ (trim_left-StartsClean s)))
      (trim_right_idem (trim_left s))
