-- ===== src/Client/Jobs/Redaction/Tests.antt =====
-- Secrets in log lines.
use mlops_templates.Prelude.{◌≡◌, refl, ℕ, Bool, true, ◌||◌, arith}
use mlops_templates.Client.Jobs.Redaction.Secrets.{bounded_redacted_text-IsHidden}
use mlops_templates.Client.Jobs.Redaction.Keys.{IsKey, api_key, IsAssigned}
use mlops_templates.Text.{
  Text, lower, str, is_lower, is_upper, is_ascii_digit, is_space, lower_char,
}
use mlops_templates.Regex.{many_at, match_row, match_first, sub_from, sub}
use mlops_templates.Client.Jobs.Redaction.{
  redacted_assignments, redacted, bounded, bounded_redacted_text,
}

abbrev is_alphanumeric : ℕ → Bool
is_alphanumeric c = is_lower c || is_upper c || is_ascii_digit c

assignment :
    redacted_assignments is_alphanumeric (str "my Client-Secret : a b; x")
    ≡ str "my Client-Secret : [REDACTED]; x"
unfolding redacted_assignments sub sub_from match_first match_row many_at is_lower is_upper
    is_ascii_digit is_space lower_char
assignment = refl

no_value :
    redacted_assignments is_alphanumeric (str "tokens: 3 token: ,")
    ≡ str "tokens: 3 token:[REDACTED],"
unfolding redacted_assignments sub sub_from match_first match_row many_at is_lower is_upper
    is_ascii_digit is_space lower_char
no_value = refl

signed :
    bounded_redacted_text is_alphanumeric (str "GET /b?sig=ab%2F&sv=1") 12
    ≡ str "GET /b?sig=[\n... [diagnostic output truncated]"
unfolding bounded_redacted_text bounded redacted redacted_assignments sub sub_from match_first
    match_row many_at is_lower is_upper is_ascii_digit is_space lower_char
signed = refl

bearer :
    redacted is_alphanumeric (str "x bearer  abc.def end eyJabcdefgh.abcdefgh.abcdefghi")
    ≡ str "x Bearer [REDACTED] end [REDACTED JWT]"
unfolding redacted redacted_assignments sub sub_from match_first match_row many_at is_lower is_upper
    is_ascii_digit is_space lower_char
bearer = refl

letters : (c : ℕ) → is_lower (lower_char c) ≡ true → is_alphanumeric c ≡ true
unfolding lower_char is_lower is_upper
letters c h = ground arith

abbrev key : Text
key = str "Api-KEY"

api-IsKey : IsKey key
unfolding lower
api-IsKey = api_key (str "Api") (str "-") (str "KEY") refl refl refl

line-IsAssigned : IsAssigned (str " ") b':' (str " ") b'h' (str "unter 2") (str ", token=x")
unfolding is_space
line-IsAssigned = record {
  spaces = refl;
  is_sign = refl;
  more_spaces = refl;
  no_space = refl;
  value = refl;
  ended = refl;
}

bounded_redacted_text-IsHidden_example :
    bounded_redacted_text is_alphanumeric (str "Api-KEY : hunter 2, token=x") 2000
    ≡ bounded_redacted_text is_alphanumeric (str "Api-KEY : [REDACTED], token=x") 2000
bounded_redacted_text-IsHidden_example =
    bounded_redacted_text-IsHidden is_alphanumeric letters key (str " ") b':' (str " ")
      (str ", token=x") api-IsKey b'h' (str "unter 2") 2000 line-IsAssigned
