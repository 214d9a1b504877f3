-- ===== src/Regex.antt =====
-- `re.sub` with patterns that are rows of classes, matched by backtracking as `re` does it.
pub mod Reads
use mlops_templates.Prelude.{
  ℕ, zero, suc, ◌-◌, Bool, true, false, not, ◌&&◌, Option, none, some, List, [], ◌∷◌, ◌++◌, ◌==◌,
  if◌then◌else◌, length, map,
}
use mlops_templates.Text.{Text, lower_char}

-- One character of a class; an optional one; at least so many of them, as many as the rest of the
-- row allows; and `\b`.
pub data Item : Type 0 where
  one optional : (ℕ → Bool) → Item
  many : ℕ → (ℕ → Bool) → Item
  boundary : Item

abbrev pub Row : Type 0
Row = List Item

-- a literal, ignoring the case of ASCII letters
abbrev pub word : Text → Row
word s = map (λ c. one (λ d. lower_char d == c)) s

-- the literal as it is written
abbrev pub exactly : Text → Row
exactly s = map (λ c. one (λ d. d == c)) s

abbrev pub prepend : Text → Option (List Text) → Option (List Text)
prepend piece none = none
prepend piece (some pieces) = some (piece ∷ pieces)

abbrev pub grow : ℕ → Option (List Text) → Option (List Text)
grow c none = none
grow c (some []) = none
grow c (some (piece ∷ pieces)) = some ((c ∷ piece) ∷ pieces)

abbrev pub or_else : Option (List Text) → Option (List Text) → Option (List Text)
or_else none second = second
or_else (some pieces) second = some pieces

-- `next` matches the rest of the row; the longest run is tried first.
unfoldable pub many_at :
    (Option ℕ → Text → Option (List Text)) → ℕ → (ℕ → Bool) → Option ℕ → Text → Option (List Text)
many_at next least class previous [] = if least == 0 then prepend [] (next previous []) else none
many_at next least class previous (c ∷ s) =
    let longer = grow c (many_at next (least - 1) class (some c) s) in
    let here = if least == 0 then prepend [] (next previous (c ∷ s)) else none in
    if class c then or_else longer here else here

abbrev holds_of : (ℕ → Bool) → Option ℕ → Bool
holds_of class none = false
holds_of class (some c) = class c

abbrev first : Text → Option ℕ
first [] = none
first (c ∷ s) = some c

abbrev differ : Bool → Bool → Bool
differ true b = not b
differ false b = b

-- `is_word` is `\w`.
module _ (is_word : ℕ → Bool) where
  -- What each item matches of a text that follows `previous`, where the row matches a prefix of it.
  unfoldable pub match_row : Row → Option ℕ → Text → Option (List Text)
  unfolding many_at
  match_row [] previous s = some []
  match_row (one class ∷ row) previous [] = none
  match_row (one class ∷ row) previous (c ∷ s) =
      let rest = match_row row (some c) s in if class c then prepend (c ∷ []) rest else none
  match_row (optional class ∷ row) previous [] = prepend [] (match_row row previous [])
  match_row (optional class ∷ row) previous (c ∷ s) =
      let taken = match_row row (some c) s in
      let left = match_row row previous (c ∷ s) in
      if class c then or_else (prepend (c ∷ []) taken) (prepend [] left) else prepend [] left
  match_row (many least class ∷ row) previous s = many_at (match_row row) least class previous s
  match_row (boundary ∷ row) previous s =
      let rest = match_row row previous s in
      if differ (holds_of is_word previous) (holds_of is_word (first s))
      then prepend [] rest
      else none

  -- The alternatives, in order.
  unfoldable pub match_first : List Row → Option ℕ → Text → Option (List Text)
  unfolding match_row
  match_first [] previous s = none
  match_first (row ∷ rows) previous s =
      or_else (match_row row previous s) (match_first rows previous s)

  abbrev pub joined : List Text → Text
  joined [] = []
  joined (piece ∷ pieces) = piece ++ joined pieces

  -- `pattern.sub(replacement, s)`; `skip` characters belong to the match before. The patterns match
  -- no empty text.
  unfoldable pub sub_from : List Row → (List Text → Text) → ℕ → Option ℕ → Text → Text
  unfolding match_first
  sub_from rows replacement skip previous [] = []
  sub_from rows replacement (suc skip) previous (c ∷ s) = sub_from rows replacement skip (some c) s
  sub_from rows replacement zero previous (c ∷ s) = elim (match_first rows previous (c ∷ s)) [
    | none ↦ c ∷ sub_from rows replacement zero (some c) s
    | some pieces ↦
        replacement pieces ++ sub_from rows replacement (length (joined pieces) - 1) (some c) s
  ]

  unfoldable pub sub : List Row → (List Text → Text) → Text → Text
  unfolding sub_from
  sub rows replacement s = sub_from rows replacement zero none s
