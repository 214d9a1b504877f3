-- ===== src/Pattern.antt =====
-- `re.fullmatch` for the patterns of src/python-sdk-v2: a row of literals and of captured runs
-- `([...]+)` of a character class. A run takes all the characters of its class that follow, which is
-- what the backtracking matcher of `re` finds where no character that may follow the run is of its
-- class; Pattern/Decides.antt states when.
pub mod Decides
use mlops_templates.Prelude.{
  ℕ, Bool, true, false, ◌&&◌, Option, none, some, List, [], ◌∷◌, ◌==◌, if◌then◌else◌,
}
use mlops_templates.Text.{Text, is_empty, lower_char}

pub data Piece : Type 0 where
  lit : Text → Piece
  run : (ℕ → Bool) → Piece

-- When a character of the text stands for one of a literal: without and with `re.IGNORECASE`.
abbrev pub exact : ℕ → ℕ → Bool
exact c d = c == d

unfoldable pub ignoring_case : ℕ → ℕ → Bool
unfolding lower_char
ignoring_case c d = lower_char c == lower_char d

-- The longest run at the head of a text, and what follows it.
unfoldable pub span : (ℕ → Bool) → Text → Text × Text
span p [] = ([], [])
span p (c ∷ s) = let (taken, rest) = span p s in if p c then (c ∷ taken, rest) else ([], c ∷ s)

abbrev pub then_match : Option Text → (Text → Option (List Text)) → Option (List Text)
then_match none k = none
then_match (some rest) k = k rest

abbrev pub then_capture : Text → Option (List Text) → Option (List Text)
then_capture [] groups = none
then_capture (c ∷ s) none = none
then_capture (c ∷ s) (some groups) = some ((c ∷ s) ∷ groups)

module _ (same : ℕ → ℕ → Bool) where
  -- What follows a literal at the head of a text.
  unfoldable pub after_literal : Text → Text → Option Text
  after_literal [] s = some s
  after_literal (c ∷ t) [] = none
  after_literal (c ∷ t) (d ∷ s) = let rest = after_literal t s in if same c d then rest else none

  -- The groups of the match of the whole text, if it matches.
  unfoldable pub fullmatch : List Piece → Text → Option (List Text)
  fullmatch [] [] = some []
  fullmatch [] (c ∷ s) = none
  fullmatch (lit t ∷ ps) s = then_match (after_literal t s) (fullmatch ps)
  fullmatch (run p ∷ ps) s = let (taken, rest) = span p s in then_capture taken (fullmatch ps rest)
