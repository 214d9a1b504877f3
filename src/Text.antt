-- ===== src/Text.antt =====
-- Python's `str`, as the list of its code points, with the methods that the program calls.
-- `str.isspace` (also `\s` and the default `strip`) and `\d` are those of all of Unicode. Letters
-- change case in the ASCII range: case mapping of other letters is not modelled.
pub mod Laws
use Prim.Native.Char.{code}
use Prim.Native.String.{String}
use mlops_templates.Prelude.{
  ℕ, ◌+◌, ◌-◌, Bool, true, false, not, ◌&&◌, ◌||◌, Option, none, some, List, [], ◌∷◌, leb, ◌==◌,
  if◌then◌else◌, any,
}

abbrev pub Text : Type 0
Text = List ℕ

-- The code points of a literal.
abbrev pub str : String → Text
str String.[] = []
str (String.◌∷◌ c s) = code c ∷ str s

unfoldable pub str_eq : Text → Text → Bool
str_eq [] [] = true
str_eq [] (c ∷ t) = false
str_eq (c ∷ s) [] = false
str_eq (c ∷ s) (d ∷ t) = (c == d) && str_eq s t

abbrev pub is_empty : Text → Bool
is_empty [] = true
is_empty (c ∷ s) = false

-- `s in {t1, t2, ...}`
abbrev pub one_of : Text → List Text → Bool
one_of s ts = any (str_eq s) ts

between : ℕ → ℕ → ℕ → Bool
between lo hi c = leb lo c && leb c hi

unfoldable pub is_lower : ℕ → Bool
unfolding between
is_lower c = between b'a' b'z' c

unfoldable pub is_upper : ℕ → Bool
unfolding between
is_upper c = between b'A' b'Z' c

unfoldable pub is_ascii_digit : ℕ → Bool
unfolding between
is_ascii_digit c = between b'0' b'9' c

-- `[0-9a-f]` with re.IGNORECASE
unfoldable pub is_hex : ℕ → Bool
unfolding is_ascii_digit
is_hex c = is_ascii_digit c || leb b'a' c && leb c b'f' || leb b'A' c && leb c b'F'

unfoldable pub is_space : ℕ → Bool
unfolding between
is_space c =
    between 9 13 c
    || between 28 32 c
    || between 0x2000 0x200a c
    || any (λ d. c == d) (0x85 ∷ 0xa0 ∷ 0x1680 ∷ 0x2028 ∷ 0x2029 ∷ 0x202f ∷ 0x205f ∷ 0x3000 ∷ [])

-- The zeros of the decimal digits of Unicode; each is followed by its nine other digits.
abbrev zeros : List ℕ
zeros =
    0x30 ∷ 0x660 ∷ 0x6f0 ∷ 0x7c0 ∷ 0x966 ∷ 0x9e6 ∷ 0xa66 ∷ 0xae6 ∷ 0xb66 ∷ 0xbe6 ∷ 0xc66 ∷ 0xce6
    ∷ 0xd66 ∷ 0xde6 ∷ 0xe50 ∷ 0xed0 ∷ 0xf20 ∷ 0x1040 ∷ 0x1090 ∷ 0x17e0 ∷ 0x1810 ∷ 0x1946 ∷ 0x19d0
    ∷ 0x1a80 ∷ 0x1a90 ∷ 0x1b50 ∷ 0x1bb0 ∷ 0x1c40 ∷ 0x1c50 ∷ 0xa620 ∷ 0xa8d0 ∷ 0xa900 ∷ 0xa9d0
    ∷ 0xa9f0 ∷ 0xaa50 ∷ 0xabf0 ∷ 0xff10 ∷ 0x104a0 ∷ 0x10d30 ∷ 0x11066 ∷ 0x110f0 ∷ 0x11136 ∷ 0x111d0
    ∷ 0x112f0 ∷ 0x11450 ∷ 0x114d0 ∷ 0x11650 ∷ 0x116c0 ∷ 0x11730 ∷ 0x118e0 ∷ 0x11950 ∷ 0x11c50
    ∷ 0x11d50 ∷ 0x11da0 ∷ 0x16a60 ∷ 0x16ac0 ∷ 0x16b50 ∷ 0x1d7ce ∷ 0x1d7d8 ∷ 0x1d7e2 ∷ 0x1d7ec
    ∷ 0x1d7f6 ∷ 0x1e140 ∷ 0x1e2f0 ∷ 0x1e950 ∷ 0x1fbf0 ∷ []

digit_from : List ℕ → ℕ → Option ℕ
digit_from [] c = none
digit_from (z ∷ zs) c = if between z (z + 9) c then some (c - z) else digit_from zs c

-- The value of a decimal digit.
unfoldable pub digit_value : ℕ → Option ℕ
unfolding between digit_from
digit_value c = digit_from zeros c

-- `\d`
unfoldable pub is_digit : ℕ → Bool
unfolding digit_value
is_digit c = elim (digit_value c) [ none ↦ false | some v ↦ true ]

unfoldable pub lower_char : ℕ → ℕ
unfolding is_upper
lower_char c = if is_upper c then c + 32 else c

unfoldable pub lower : Text → Text
unfolding lower_char
lower [] = []
lower (c ∷ s) = lower_char c ∷ lower s

-- `lstrip` and `rstrip` of the characters that satisfy `p`.
unfoldable pub drop_while : (ℕ → Bool) → Text → Text
drop_while p [] = []
drop_while p (c ∷ s) = if p c then drop_while p s else c ∷ s

unfoldable pub drop_end_while : (ℕ → Bool) → Text → Text
drop_end_while p [] = []
drop_end_while p (c ∷ s) =
    let rest = drop_end_while p s in if p c && is_empty rest then [] else c ∷ rest

unfoldable pub strip_of : (ℕ → Bool) → Text → Text
unfolding drop_while drop_end_while
strip_of p s = drop_end_while p (drop_while p s)

-- `s.strip()`
unfoldable pub strip : Text → Text
unfolding strip_of is_space
strip s = strip_of is_space s

-- `s[len(prefix):]` if `s.startswith(prefix)`
unfoldable pub strip_prefix : Text → Text → Option Text
strip_prefix [] s = some s
strip_prefix (p ∷ prefix) [] = none
strip_prefix (p ∷ prefix) (c ∷ s) =
    let rest = strip_prefix prefix s in if p == c then rest else none

unfoldable pub ends_with : Text → Text → Bool
unfolding str_eq
ends_with suffix [] = str_eq [] suffix
ends_with suffix (c ∷ s) = str_eq (c ∷ s) suffix || ends_with suffix s

-- `str(x or "")`, for an attribute that is a text, absent or None
abbrev pub or_empty : Option Text → Text
or_empty none = []
or_empty (some s) = s

-- `str(x)`
abbrev pub or_none : Option Text → Text
or_none none = str "None"
or_none (some s) = s

-- the truth value of such an attribute
abbrev pub truthy : Option Text → Bool
truthy none = false
truthy (some s) = not (is_empty s)
