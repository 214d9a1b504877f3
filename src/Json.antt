-- ===== src/Json.antt =====
-- `json.dumps`, of texts and of numbers that are not negative, with its `ensure_ascii`.
mod Tests
use Prim.Native.Nat.{◌/◌, ◌%◌}
use mlops_templates.Prelude.{
  ℕ, zero, suc, ◌+◌, ◌-◌, Bool, true, false, ◌&&◌, List, [], ◌∷◌, ◌++◌, ltb, leb, ◌==◌,
  if◌then◌else◌,
}
use mlops_templates.Text.{Text, str}

-- The decimal digits of a number: `n` steps are enough for `n`.
unfoldable pub digits_within : ℕ → ℕ → Text
digits_within zero n = (b'0' + n) ∷ []
digits_within (suc fuel) n =
    let longer = digits_within fuel (n / 10) ++ ((b'0' + n % 10) ∷ []) in
    if ltb n 10 then (b'0' + n) ∷ [] else longer

-- `str(n)`
unfoldable pub decimal : ℕ → Text
unfolding digits_within
decimal n = digits_within n n

abbrev hex_digit : ℕ → ℕ
hex_digit n = if ltb n 10 then b'0' + n else b'a' + (n - 10)

-- `\uXXXX`
unfoldable pub escaped_unit : ℕ → Text
escaped_unit n =
    b'\\'
    ∷ b'u'
    ∷ hex_digit (n / 4096 % 16)
    ∷ hex_digit (n / 256 % 16)
    ∷ hex_digit (n / 16 % 16)
    ∷ hex_digit (n % 16)
    ∷ []

-- A character beyond the first plane is two units.
unfoldable pub escaped : ℕ → Text
unfolding escaped_unit
escaped c =
    if c == 10
    then str "\\n"
    else if c == 13
    then str "\\r"
    else if c == 9
    then str "\\t"
    else if c == 12
    then str "\\f"
    else if c == 8
    then str "\\b"
    else if ltb c 65536
    then escaped_unit c
    else escaped_unit (55296 + (c - 65536) / 1024) ++ escaped_unit (56320 + (c - 65536) % 1024)

unfoldable pub json_char : ℕ → Text
unfolding escaped
json_char c =
    if c == b'"'
    then str "\\\""
    else if c == b'\\'
    then str "\\\\"
    else if leb 32 c && leb c 126
    then c ∷ []
    else escaped c

unfoldable pub json_chars : Text → Text
unfolding json_char
json_chars [] = []
json_chars (c ∷ s) = json_char c ++ json_chars s

-- `json.dumps(s)`
unfoldable pub json_text : Text → Text
unfolding json_chars
json_text s = b'"' ∷ (json_chars s ++ (b'"' ∷ []))
