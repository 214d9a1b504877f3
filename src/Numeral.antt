-- ===== src/Numeral.antt =====
-- Python's `int(text)` in base ten: space around, a sign, and digits, between which single
-- underscores may stand. (The interpreter's limit on the number of digits is not modelled.)
use mlops_templates.Prelude.{
  ℕ, zero, suc, ◌+◌, ◌*◌, Bool, true, false, ◌&&◌, Option, none, some, [], ◌∷◌, ◌==◌, if◌then◌else◌,
}
use mlops_templates.Text.{Text, strip, digit_value}

-- `negsuc n` is -(n + 1).
pub data ℤ : Type 0 where
  pos : ℕ → ℤ
  negsuc : ℕ → ℤ

-- `after_digit` says that the character before is a digit.
unfoldable pub digits_value : Bool → ℕ → Text → Option ℕ
digits_value after_digit value [] = if after_digit then some value else none
digits_value after_digit value (c ∷ s) = elim (digit_value c) [
  | some v ↦ digits_value true (value * 10 + v) s
  | none ↦ elim (c == b'_' && after_digit) [ true ↦ digits_value false value s | false ↦ none ]
]

abbrev positive : Option ℕ → Option ℤ
positive none = none
positive (some n) = some (pos n)

abbrev negative : Option ℕ → Option ℤ
negative none = none
negative (some zero) = some (pos zero)
negative (some (suc n)) = some (negsuc n)

abbrev signed : Text → Option ℤ
signed [] = none
signed (c ∷ s) =
    if c == b'-'
    then negative (digits_value false 0 s)
    else if c == b'+'
    then positive (digits_value false 0 s)
    else positive (digits_value false 0 (c ∷ s))

-- `int(s)`; none where it raises ValueError
unfoldable pub int_of : Text → Option ℤ
unfolding digits_value
int_of s = signed (strip s)
