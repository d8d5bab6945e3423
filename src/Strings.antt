-- ===== src/Strings.antt =====
-- What the program uses of Go's package strings, over texts as sequences of code points.
pub mod Laws
use Prim.Native.Char.{Char, code}
use text.Mathlib.Text.{starts_with, find?}
use goloom.Prelude.{
  ◌+◌, ℕ, String, Bool, true, false, ◌&&◌, ◌||◌, Option, none, some, [], ◌∷◌, leb, if◌then◌else◌,
  ◌==◌, eq_nat, eq_text,
}

-- unicode.IsSpace.
is_space : Char → Bool
is_space c =
    (leb 9 (code c) && leb (code c) 13)
    || (code c == 32)
    || (code c == 0x85)
    || (code c == 0xa0)
    || (code c == 0x1680)
    || (leb 0x2000 (code c) && leb (code c) 0x200a)
    || (code c == 0x2028)
    || (code c == 0x2029)
    || (code c == 0x202f)
    || (code c == 0x205f)
    || (code c == 0x3000)

trim_left : String → String
trim_left String.[] = String.[]
trim_left (String.◌∷◌ c s) = if is_space c then trim_left s else String.◌∷◌ c s

-- A character before an already trimmed rest.
before_trimmed : Char → String → String
before_trimmed c String.[] = if is_space c then String.[] else String.◌∷◌ c String.[]
before_trimmed c (String.◌∷◌ d t) = String.◌∷◌ c (String.◌∷◌ d t)

trim_right : String → String
unfolding before_trimmed
trim_right String.[] = String.[]
trim_right (String.◌∷◌ c s) = before_trimmed c (trim_right s)

-- strings.TrimSpace.
unfoldable pub trim_space : String → String
unfolding trim_left trim_right is_space
trim_space s = trim_right (trim_left s)

-- `strings.TrimSpace(s) == ""`.
unfoldable pub is_blank : String → Bool
unfolding trim_space
is_blank s = trim_space s == ""

-- strings.HasPrefix.
unfoldable pub has_prefix : String → String → Bool
has_prefix s prefix = starts_with s prefix

-- strings.HasSuffix.
unfoldable pub has_suffix : String → String → Bool
has_suffix String.[] suffix = suffix == ""
has_suffix (String.◌∷◌ c s) suffix = (suffix == String.◌∷◌ c s) || has_suffix s suffix

is_found : Option ℕ → Bool
is_found none = false
is_found (some _) = true

-- strings.Contains.
unfoldable pub contains_text : String → String → Bool
unfolding is_found
contains_text s piece = is_found (find? s piece)

-- The second result of `strings.Cut(s, " ")`.
unfoldable pub cut_space : String → String
cut_space String.[] = String.[]
cut_space (String.◌∷◌ c s) = if code c == 32 then s else cut_space s

-- unicode.ToLower, for comparison with ASCII words: besides the capitals, two characters outside
-- ASCII have their lower case in it (U+0130 and U+212A); all others keep out of it.
lower_code : ℕ → ℕ
lower_code c =
    if leb 65 c && leb c 90
    then c + 32
    else if c == 0x130
    then 105
    else if c == 0x212a
    then 107
    else c

-- `strings.ToLower(s) == word`, for a word of ASCII small letters and signs.
unfoldable pub lower_is : String → String → Bool
unfolding lower_code
lower_is String.[] String.[] = true
lower_is String.[] (String.◌∷◌ _ _) = false
lower_is (String.◌∷◌ _ _) String.[] = false
lower_is (String.◌∷◌ c s) (String.◌∷◌ d word) = lower_code (code c) == code d && lower_is s word
