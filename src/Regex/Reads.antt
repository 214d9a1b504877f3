-- ===== src/Regex/Reads.antt =====
-- What the items of a row read of a text that is put together for them.
use mlops_templates.Prelude.{
  ◌≤◌, ℕ, zero, suc, ◌-◌, ◌≡◌, refl, ap, ◌∙◌, Bool, true, false, Option, none, some, List, [], ◌∷◌,
  ◌++◌, arith, all, length, map, ◌==◌, Bool-cases, inl, inr, if◌then◌else◌,
}
use mlops_templates.Text.{Text, lower, lower_char}
use mlops_templates.Regex.{
  Row, one, optional, many, boundary, word, many_at, match_row, match_first, joined, sub_from,
}

-- The last character of a text that follows another.
abbrev pub last : Option ℕ → Text → Option ℕ
last previous [] = previous
last previous (c ∷ s) = last (some c) s

abbrev pub singles : Text → List Text
singles u = map (λ d. d ∷ []) u

-- A text that is empty or begins outside the class.
abbrev pub Stops : (ℕ → Bool) → Text → Type 0
Stops class [] = Unit
Stops class (c ∷ s) = class c ≡ false

-- A word that differs from the beginning of a text in lower case.
abbrev pub clashes : Text → Text → Bool
clashes [] l = false
clashes (c ∷ w) [] = true
clashes (c ∷ w) (d ∷ l) = if d == c then clashes w l else true

one_less : (c : ℕ) (u : Text) → length (c ∷ u) - 1 ≡ length u
one_less c u = omega arith

module _ (is_word : ℕ → Bool) where
  pub match-one :
      (class : ℕ → Bool) (row : Row) (previous : Option ℕ) (c : ℕ) (s : Text) (ps : List Text)
      → class c ≡ true
      → match_row is_word row (some c) s ≡ some ps
      → match_row is_word (one class ∷ row) previous (c ∷ s) ≡ some ((c ∷ []) ∷ ps)
  unfolding match_row
  match-one class row previous c s ps h e = rw (h, e) refl

  pub match-word :
      (w : Text) (row : Row) (previous : Option ℕ) (u s : Text) (ps : List Text)
      → lower u ≡ w
      → match_row is_word row (last previous u) s ≡ some ps
      → match_row is_word (word w ++ row) previous (u ++ s) ≡ some (singles u ++ ps)
  unfolding lower
  match-word [] row previous [] s ps l e = e
  match-word [] row previous (c ∷ u) s ps l e = absurd (ground arith)
  match-word (d ∷ w) row previous [] s ps l e = absurd (ground arith)
  match-word (d ∷ w) row previous (c ∷ u) s ps l e =
      match-one (λ x. lower_char x == d) (word w ++ row) previous c (u ++ s) (singles u ++ ps)
        (ground (arith, l)) (match-word w row (some c) u s ps (ground (arith, l)) e)

  pub match-word-none :
      (w : Text) (row : Row) (previous : Option ℕ) (s : Text)
      → clashes w (lower s) ≡ true
      → match_row is_word (word w ++ row) previous s ≡ none
  unfolding lower match_row
  match-word-none [] row previous s h = absurd (ground arith)
  match-word-none (c ∷ w) row previous [] h = refl
  match-word-none (c ∷ w) row previous (d ∷ s) h = elim (Bool-cases (lower_char d == c)) [
    | inl same ↦ rw (same, match-word-none w row (some d) s (rw same at h)) refl
    | inr differ ↦ rw differ refl
  ]

  pub match-boundary :
      (row : Row) (c : ℕ) (s : Text) (ps : List Text)
      → is_word c ≡ true
      → match_row is_word row none (c ∷ s) ≡ some ps
      → match_row is_word (boundary ∷ row) none (c ∷ s) ≡ some ([] ∷ ps)
  unfolding match_row
  match-boundary row c s ps h e = rw (h, e) refl

  pub match-boundary-none :
      (row : Row) (previous : Option ℕ) (s : Text)
      → match_row is_word row previous s ≡ none
      → match_row is_word (boundary ∷ row) previous s ≡ none
  unfolding match_row
  match-boundary-none row previous s e = ground (arith, e)

  pub match-optional :
      (class : ℕ → Bool) (row : Row) (previous : Option ℕ) (c : ℕ) (s : Text) (ps : List Text)
      → class c ≡ true
      → match_row is_word row (some c) s ≡ some ps
      → match_row is_word (optional class ∷ row) previous (c ∷ s) ≡ some ((c ∷ []) ∷ ps)
  unfolding match_row
  match-optional class row previous c s ps h e = rw (h, e) refl

  pub match-optional-skipped :
      (class : ℕ → Bool) (row : Row) (previous : Option ℕ) (c : ℕ) (s : Text) (ps : List Text)
      → class c ≡ false
      → match_row is_word row previous (c ∷ s) ≡ some ps
      → match_row is_word (optional class ∷ row) previous (c ∷ s) ≡ some ([] ∷ ps)
  unfolding match_row
  match-optional-skipped class row previous c s ps h e = rw (h, e) refl

  -- A run is read as far as its class goes, where the rest of the row reads on from there.
  many_at-run :
      (next : Option ℕ → Text → Option (List Text)) (least : ℕ) (class : ℕ → Bool)
      (previous : Option ℕ) (u s : Text) (ps : List Text)
      → all class u ≡ true
      → Stops class s
      → least ≤ length u
      → next (last previous u) s ≡ some ps
      → many_at next least class previous (u ++ s) ≡ some (u ∷ ps)
  unfolding many_at
  many_at-run next zero class previous [] [] ps h stops enough e = rw e refl
  many_at-run next zero class previous [] (c ∷ s) ps h stops enough e = rw (stops, e) refl
  many_at-run next (suc least) class previous [] s ps h stops enough e = absurd (omega arith)
  many_at-run next least class previous (c ∷ u) s ps h stops enough e =
      let here : class c ≡ true = ground arith in
      rw
        (
          here,
          many_at-run next (least - 1) class (some c) u s ps (ground arith) stops (omega arith) e,
        )
        refl

  pub match-many :
      (least : ℕ) (class : ℕ → Bool) (row : Row) (previous : Option ℕ) (u s : Text) (ps : List Text)
      → all class u ≡ true
      → Stops class s
      → least ≤ length u
      → match_row is_word row (last previous u) s ≡ some ps
      → match_row is_word (many least class ∷ row) previous (u ++ s) ≡ some (u ∷ ps)
  unfolding match_row
  match-many least class row previous u s ps h stops enough e =
      many_at-run (match_row is_word row) least class previous u s ps h stops enough e

  pub match_first-hit :
      (row : Row) (rows : List Row) (previous : Option ℕ) (s : Text) (ps : List Text)
      → match_row is_word row previous s ≡ some ps
      → match_first is_word (row ∷ rows) previous s ≡ some ps
  unfolding match_first
  match_first-hit row rows previous s ps e = rw e refl

  pub match_first-miss :
      (row : Row) (rows : List Row) (previous : Option ℕ) (s : Text) (r : Option (List Text))
      → match_row is_word row previous s ≡ none
      → match_first is_word rows previous s ≡ r
      → match_first is_word (row ∷ rows) previous s ≡ r
  unfolding match_first
  match_first-miss row rows previous s r e h = rw e h

  module _ (rows : List Row) (replacement : List Text → Text) where
    sub_from-passed :
        (previous : Option ℕ) (u s : Text)
        → sub_from is_word rows replacement (length u) previous (u ++ s)
          ≡ sub_from is_word rows replacement zero (last previous u) s
    unfolding sub_from
    sub_from-passed previous [] s = refl
    sub_from-passed previous (c ∷ u) s = sub_from-passed (some c) u s

    -- A match at the beginning is replaced, and the substitution goes on behind it.
    pub sub_from-match :
        (c : ℕ) (u s : Text) (pieces : List Text)
        → match_first is_word rows none (c ∷ (u ++ s)) ≡ some pieces
        → joined is_word pieces ≡ c ∷ u
        → sub_from is_word rows replacement zero none (c ∷ (u ++ s))
          ≡ replacement pieces ++ sub_from is_word rows replacement zero (last (some c) u) s
    unfolding sub_from
    sub_from-match c u s pieces found whole =
        rw (sub_from, found, whole)
          (ap (λ x. replacement pieces ++ x)
            (ap (λ n. sub_from is_word rows replacement n (some c) (u ++ s)) (one_less c u)
              ∙ sub_from-passed (some c) u s))

    -- Where no match begins at a character, what stood before it does not matter.
    pub sub_from-forgets :
        (previous : Option ℕ) (c : ℕ) (s : Text)
        → ((p : Option ℕ) → match_first is_word rows p (c ∷ s) ≡ none)
        → sub_from is_word rows replacement zero previous (c ∷ s)
          ≡ sub_from is_word rows replacement zero none (c ∷ s)
    unfolding sub_from
    sub_from-forgets previous c s h = rw (sub_from, h previous, h none) refl
