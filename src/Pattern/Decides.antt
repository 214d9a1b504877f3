-- ===== src/Pattern/Decides.antt =====
-- `fullmatch` decides what a pattern means.
use mlops_templates.Prelude.{
  ℕ, ◌≡◌, refl, sym, ap, ◌∙◌, subst, Bool, true, false, Option, none, some, List, [], ◌∷◌, ◌++◌,
  arith, inl, inr, all, Bool-cases,
}
use mlops_templates.Text.{Text}
use mlops_templates.Pattern.{
  Piece, lit, run, span, after_literal, then_match, then_capture, fullmatch,
}

module _ (same : ℕ → ℕ → Bool) where
  -- `Stands t u`: the text `u` stands for the literal `t`.
  abbrev pub Stands : Text → Text → Type 0
  Stands [] [] = Unit
  Stands [] (d ∷ u) = ⊥
  Stands (c ∷ t) [] = ⊥
  Stands (c ∷ t) (d ∷ u) = (same c d ≡ true) × Stands t u

  -- What the pattern means: the text is cut into a part for each piece, and the groups are the
  -- parts of the runs.
  pub data Matches : List Piece → Text → List Text → Type 0 where
    end : Matches [] [] []
    literal :
        {t s : Text} {ps : List Piece} {gs : List Text} (u rest : Text)
        → s ≡ u ++ rest
        → Stands t u
        → Matches ps rest gs
        → Matches (lit t ∷ ps) s gs
    captured :
        {p : ℕ → Bool} {s : Text} {ps : List Piece} {gs : List Text} (c : ℕ) (g rest : Text)
        → s ≡ (c ∷ g) ++ rest
        → all p (c ∷ g) ≡ true
        → Matches ps rest gs
        → Matches (run p ∷ ps) s ((c ∷ g) ∷ gs)

  -- No character that may follow a run is of its class.
  abbrev pub Delimited : List Piece → Type 0
  Delimited [] = Unit
  Delimited (lit t ∷ ps) = Delimited ps
  Delimited (run p ∷ []) = Unit
  Delimited (run p ∷ lit (c ∷ t) ∷ ps) =
      ((d : ℕ) → same c d ≡ true → p d ≡ false) × Delimited (lit (c ∷ t) ∷ ps)
  Delimited (run p ∷ lit [] ∷ ps) = ⊥
  Delimited (run p ∷ run q ∷ ps) = ⊥

  after_literal-append :
      (t u rest : Text) → Stands t u → after_literal same t (u ++ rest) ≡ some rest
  unfolding after_literal
  after_literal-append [] [] rest h = refl
  after_literal-append [] (d ∷ u) rest h = absurd h
  after_literal-append (c ∷ t) [] rest h = absurd h
  after_literal-append (c ∷ t) (d ∷ u) rest h = rw (h.0) (after_literal-append t u rest h.1)

  after_literal-eq-some :
      (t s rest : Text)
      → after_literal same t s ≡ some rest
      → (u : Text) × (s ≡ u ++ rest) × Stands t u
  unfolding after_literal
  after_literal-eq-some [] s rest e = ([], ground arith, tt)
  after_literal-eq-some (c ∷ t) [] rest e = cc
  after_literal-eq-some (c ∷ t) (d ∷ s) rest e = elim (Bool-cases (same c d)) [
    | inl h ↦
        let (u, split, stands) = after_literal-eq-some t s rest (rw h at e) in
        (d ∷ u, ap (λ x. d ∷ x) split, (h, stands))
    | inr h ↦ absurd (ground arith)
  ]

  -- A text that is empty or begins with a character outside the class.
  abbrev Stops : (ℕ → Bool) → Text → Type 0
  Stops p [] = Unit
  Stops p (d ∷ s) = p d ≡ false

  span-append :
      (p : ℕ → Bool) (g rest : Text)
      → all p g ≡ true
      → Stops p rest
      → span p (g ++ rest) ≡ (g, rest)
  unfolding span
  span-append p [] [] h stops = refl
  span-append p [] (d ∷ rest) h stops = rw stops
  span-append p (c ∷ g) rest h stops = ground (arith, span-append p g rest)

  span-eq :
      (p : ℕ → Bool) (s : Text) → (s ≡ (span p s).0 ++ (span p s).1) × (all p (span p s).0 ≡ true)
  unfolding span
  span-eq p [] = (refl, refl)
  span-eq p (c ∷ s) =
      let (split, holds) = span-eq p s in
      elim (Bool-cases (p c)) [
        | inl h ↦ rw h (ap (λ x. c ∷ x) split, rw h holds)
        | inr h ↦ rw h (refl, refl)
      ]

  sound-literal :
      (t s : Text) (ps : List Piece) (gs : List Text) (r : Option Text)
      → ((s : Text) → fullmatch same ps s ≡ some gs → Matches ps s gs)
      → after_literal same t s ≡ r
      → then_match r (fullmatch same ps) ≡ some gs
      → Matches (lit t ∷ ps) s gs
  sound-literal t s ps gs none rec split e = absurd (ground arith)
  sound-literal t s ps gs (some rest) rec split e =
      let (u, eq, stands) = after_literal-eq-some t s rest split in
      literal u rest eq stands (rec rest e)

  sound-run :
      (p : ℕ → Bool) (s : Text) (ps : List Piece) (gs : List Text) (taken rest : Text)
      (inner : Option (List Text))
      → ((gs : List Text) → fullmatch same ps rest ≡ some gs → Matches ps rest gs)
      → s ≡ taken ++ rest
      → all p taken ≡ true
      → fullmatch same ps rest ≡ inner
      → then_capture taken inner ≡ some gs
      → Matches (run p ∷ ps) s gs
  sound-run p s ps gs [] rest inner rec eq holds i e = absurd (ground arith)
  sound-run p s ps gs (c ∷ g) rest none rec eq holds i e = absurd (ground arith)
  sound-run p s ps gs (c ∷ g) rest (some inner) rec eq holds i e =
      subst (λ x. Matches (run p ∷ ps) s x) (ground arith)
        (captured c g rest eq holds (rec inner i))

  complete-run :
      (p : ℕ → Bool) (ps : List Piece) (s : Text) (c : ℕ) (g rest : Text) (gs : List Text)
      → s ≡ (c ∷ g) ++ rest
      → all p (c ∷ g) ≡ true
      → Stops p rest
      → fullmatch same ps rest ≡ some gs
      → fullmatch same (run p ∷ ps) s ≡ some ((c ∷ g) ∷ gs)
  unfolding fullmatch
  complete-run p ps s c g rest gs eq holds stops inner =
      let taken : span p s ≡ (c ∷ g, rest) =
        ap (span p) eq ∙ span-append p (c ∷ g) rest holds stops in
      rw (taken, inner)

  Matches-Stops :
      (p : ℕ → Bool) (x : ℕ) (t : Text) (ps : List Piece) {s : Text} {gs : List Text}
      → ((d : ℕ) → same x d ≡ true → p d ≡ false)
      → Matches (lit (x ∷ t) ∷ ps) s gs
      → Stops p s
  Matches-Stops p x t ps apart (literal [] rest e st m) = absurd st
  Matches-Stops p x t ps apart (literal (y ∷ u) rest e st m) =
      subst (λ z. Stops p z) (sym e) (apart y st.0)

  -- Every match that the matcher reports is one.
  pub fullmatch_sound :
      (ps : List Piece) (s : Text) (gs : List Text)
      → fullmatch same ps s ≡ some gs
      → Matches ps s gs
  unfolding fullmatch
  fullmatch_sound [] [] gs e = subst (λ g. Matches [] [] g) (ground arith) end
  fullmatch_sound [] (c ∷ s) gs e = absurd (ground arith)
  fullmatch_sound (lit t ∷ ps) s gs e =
      sound-literal t s ps gs (after_literal same t s) (λ rest. fullmatch_sound ps rest gs) refl e
  fullmatch_sound (run p ∷ ps) s gs e =
      sound-run p s ps gs (span p s).0 (span p s).1 (fullmatch same ps (span p s).1)
        (λ inner. fullmatch_sound ps (span p s).1 inner) (span-eq p s).0 (span-eq p s).1 refl e

  -- Every match is found, where no character that may follow a run is of its class.
  pub fullmatch_complete :
      (ps : List Piece) {s : Text} {gs : List Text}
      → Delimited ps
      → Matches ps s gs
      → fullmatch same ps s ≡ some gs
  unfolding fullmatch
  fullmatch_complete [] d end = refl
  fullmatch_complete (lit t ∷ ps) d (literal u rest e st m) =
      rw (e, after_literal-append t u rest st) (fullmatch_complete ps d m)
  fullmatch_complete (run p ∷ []) d (captured c g rest e a end) =
      complete-run p [] _ c g rest _ e a tt refl
  fullmatch_complete (run p ∷ lit (x ∷ t) ∷ ps) d (captured c g rest e a m) =
      complete-run p (lit (x ∷ t) ∷ ps) _ c g rest _ e a (Matches-Stops p x t ps d.0 m)
        (fullmatch_complete (lit (x ∷ t) ∷ ps) d.1 m)
  fullmatch_complete (run p ∷ lit [] ∷ ps) d m = absurd d
  fullmatch_complete (run p ∷ run q ∷ ps) d m = absurd d
