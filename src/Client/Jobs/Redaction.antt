-- ===== src/Client/Jobs/Redaction.antt =====
-- `_bounded_redacted_text` of src/python-sdk-v2/aml_client.py, and the patterns that it replaces.
pub mod Keys
pub mod Taken
pub mod Secrets
mod Tests
use mlops_templates.Prelude.{
  ℕ, Bool, not, ◌||◌, ◌&&◌, List, [], ◌∷◌, ◌++◌, ◌==◌, leb, if◌then◌else◌, length, take, any, map,
}
use mlops_templates.Text.{Text, str, is_space, is_lower, is_upper, is_ascii_digit}
use mlops_templates.Regex.{Item, Row, one, optional, many, boundary, word, exactly, sub}

-- `c in characters`
abbrev pub is_of : Text → ℕ → Bool
is_of characters c = any (λ d. c == d) characters

-- `[A-Za-z0-9…]`
abbrev pub alphanumeric_or : Text → ℕ → Bool
alphanumeric_or characters c = is_lower c || is_upper c || is_ascii_digit c || is_of characters c

-- `[_-]?`, between two words
abbrev pair : Text → Text → Row
pair first second = word first ++ (optional (is_of (str "_-")) ∷ word second)

-- `[^\r\n,;]`
abbrev pub is_value : ℕ → Bool
is_value c = not (is_of (13 ∷ 10 ∷ b',' ∷ b';' ∷ []) c)

abbrev assignment : Row → Row
assignment key =
    boundary
    ∷ (key ++ (many 0 is_space ∷ one (is_of (str ":=")) ∷ many 0 is_space ∷ many 1 is_value ∷ []))

abbrev pub sensitive_assignment_pattern : List Row
sensitive_assignment_pattern = map assignment (
    pair (str "access") (str "token")
    ∷ pair (str "api") (str "key")
    ∷ word (str "authorization")
    ∷ pair (str "client") (str "secret")
    ∷ word (str "credential")
    ∷ word (str "password")
    ∷ pair (str "private") (str "key")
    ∷ word (str "secret")
    ∷ word (str "token")
    ∷ [])

abbrev pub bearer_token_pattern : List Row
bearer_token_pattern =
    (boundary
      ∷ (word (str "bearer") ++ (many 1 is_space ∷ many 1 (alphanumeric_or (str "._~+/=-")) ∷ [])))
    ∷ []

abbrev segment : Item
segment = many 8 (alphanumeric_or (str "_-"))

abbrev pub jwt_pattern : List Row
jwt_pattern =
    (boundary
      ∷ (exactly (str "eyJ")
          ++ (segment
              ∷ one (is_of (str "."))
              ∷ segment
              ∷ one (is_of (str "."))
              ∷ segment
              ∷ boundary
              ∷ [])))
    ∷ []

abbrev parameter : Text → Row
parameter name =
    one (is_of (str "?&"))
    ∷ (word name
        ++ (one (is_of (str "=")) ∷ many 1 (λ c. not (is_of (str "&") c || is_space c)) ∷ []))

abbrev pub sas_parameter_pattern : List Row
sas_parameter_pattern =
    map parameter
      (str "sig" ∷ str "se" ∷ str "sp" ∷ str "spr" ∷ str "sr" ∷ str "sv" ∷ str "st" ∷ [])

-- The pieces but the last one, which the replacement does not refer to.
abbrev pub kept : List Text → Text
kept [] = []
kept (piece ∷ []) = []
kept (piece ∷ next ∷ pieces) = piece ++ kept (next ∷ pieces)

abbrev pub truncated : Text
truncated = 10 ∷ str "... [diagnostic output truncated]"

abbrev pub max_diagnostic_line_chars : ℕ
max_diagnostic_line_chars = 2000

-- `\w` is a letter or a digit of Unicode, or an underscore.
module _ (is_alphanumeric : ℕ → Bool) where
  abbrev is_word : ℕ → Bool
  is_word c = is_alphanumeric c || c == b'_'

  unfoldable pub redacted_assignments : Text → Text
  redacted_assignments value =
      sub is_word sensitive_assignment_pattern (λ pieces. kept pieces ++ str "[REDACTED]") value

  unfoldable pub redacted : Text → Text
  redacted value =
      let assigned = redacted_assignments value in
      let bearer = sub is_word bearer_token_pattern (λ pieces. str "Bearer [REDACTED]") assigned in
      let jwt = sub is_word jwt_pattern (λ pieces. str "[REDACTED JWT]") bearer in
      sub is_word sas_parameter_pattern (λ pieces. kept pieces ++ str "[REDACTED]") jwt

  unfoldable pub bounded : ℕ → Text → Text
  bounded max_chars text =
      if leb (length text) max_chars then text else take max_chars text ++ truncated

  unfoldable pub bounded_redacted_text : Text → ℕ → Text
  bounded_redacted_text value max_chars = bounded max_chars (redacted value)
