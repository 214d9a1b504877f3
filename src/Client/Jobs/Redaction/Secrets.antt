-- ===== src/Client/Jobs/Redaction/Secrets.antt =====
-- Redacted text says nothing about a secret.
use mathlib.Core.List.{append-nil, append_assoc}
use mlops_templates.Prelude.{
  ℕ, ◌≡◌, ◌∙◌, ap, refl, sym, subst, Bool, true, false, ◌||◌, ◌==◌, none, some, List, [], ◌∷◌, ◌++◌,
  arith,
}
use mlops_templates.Text.{Text, str, is_empty, is_space, is_lower, lower, lower_char}
use mlops_templates.Regex.{match_first, joined, sub_from, sub}
use mlops_templates.Regex.Reads.{last, Stops, sub_from-match, sub_from-forgets}
use mlops_templates.Client.Jobs.Redaction.{
  is_value, sensitive_assignment_pattern, kept, redacted_assignments, redacted,
  bounded_redacted_text,
}
use mlops_templates.Client.Jobs.Redaction.Keys.{
  IsKey, access_token, api_key, authorization, client_secret, credential, password, private_key,
  secret, token, IsAssigned,
}
use mlops_templates.Client.Jobs.Redaction.Taken.{
  joined-append, kept-append, match_first-ended, IsKey-Taken,
}

-- A text that assigns a value to a key, and goes on.
abbrev pub assignment_of : Text → Text → ℕ → Text → Text → Text → Text
assignment_of key before sign after value rest =
    key ++ (before ++ (sign ∷ (after ++ (value ++ rest))))

-- No key is empty.
IsKey-filled : (key : Text) → IsKey key → is_empty key ≡ false
unfolding lower
IsKey-filled _ (access_token [] j b l joint l') = absurd (ground arith)
IsKey-filled _ (access_token (x ∷ a) j b l joint l') = refl
IsKey-filled _ (api_key [] j b l joint l') = absurd (ground arith)
IsKey-filled _ (api_key (x ∷ a) j b l joint l') = refl
IsKey-filled _ (authorization [] l) = absurd (ground arith)
IsKey-filled _ (authorization (x ∷ a) l) = refl
IsKey-filled _ (client_secret [] j b l joint l') = absurd (ground arith)
IsKey-filled _ (client_secret (x ∷ a) j b l joint l') = refl
IsKey-filled _ (credential [] l) = absurd (ground arith)
IsKey-filled _ (credential (x ∷ a) l) = refl
IsKey-filled _ (password [] l) = absurd (ground arith)
IsKey-filled _ (password (x ∷ a) l) = refl
IsKey-filled _ (private_key [] j b l joint l') = absurd (ground arith)
IsKey-filled _ (private_key (x ∷ a) j b l joint l') = refl
IsKey-filled _ (secret [] l) = absurd (ground arith)
IsKey-filled _ (secret (x ∷ a) l) = refl
IsKey-filled _ (token [] l) = absurd (ground arith)
IsKey-filled _ (token (x ∷ a) l) = refl

module _ (is_alphanumeric : ℕ → Bool)
    (letters : (c : ℕ) → is_lower (lower_char c) ≡ true → is_alphanumeric c ≡ true) where
  abbrev is_word : ℕ → Bool
  is_word c = is_alphanumeric c || c == b'_'

  abbrev mark : List Text → Text
  mark pieces = kept pieces ++ str "[REDACTED]"

  -- What the assignments behind the value become.
  abbrev behind : Text → Text
  behind rest = sub_from is_word sensitive_assignment_pattern mark 0 none rest

  goes_on :
      (u rest : Text)
      → Stops is_value rest
      → sub_from is_word sensitive_assignment_pattern mark 0 (last none u) rest ≡ behind rest
  unfolding sub_from
  goes_on u [] ended = refl
  goes_on u (d ∷ rest) ended =
      sub_from-forgets is_word sensitive_assignment_pattern mark (last none u) d rest
        (λ p. match_first-ended is_alphanumeric letters d rest p ended)

  -- A match at the beginning of a text that is not empty.
  replaced :
      (u rest : Text) (pieces : List Text)
      → is_empty u ≡ false
      → Stops is_value rest
      → match_first is_word sensitive_assignment_pattern none (u ++ rest) ≡ some pieces
      → joined is_word pieces ≡ u
      → redacted_assignments is_alphanumeric (u ++ rest) ≡ mark pieces ++ behind rest
  unfolding redacted_assignments sub
  replaced [] rest pieces filled ended found all = absurd (ground arith)
  replaced (x ∷ u) rest pieces filled ended found all =
      sub_from-match is_word sensitive_assignment_pattern mark x u rest pieces found all
      ∙ ap (λ t. mark pieces ++ t) (goes_on (x ∷ u) rest ended)

  is_empty-append : (s t : Text) → is_empty s ≡ false → is_empty (s ++ t) ≡ false
  is_empty-append [] t h = absurd (ground arith)
  is_empty-append (c ∷ s) t h = refl

  module _ (key before : Text) (sign : ℕ) (after rest : Text) (is_key : IsKey key) where
    -- The value is replaced, whatever it is.
    redacted_assignment :
        (c : ℕ) (s : Text)
        → IsAssigned before sign after c s rest
        → redacted_assignments is_alphanumeric (assignment_of key before sign after (c ∷ s) rest)
          ≡ (key ++ (before ++ (sign ∷ (after ++ [])))) ++ (str "[REDACTED]" ++ behind rest)
    redacted_assignment c s assigned =
        let u = key ++ (before ++ (sign ∷ (after ++ (c ∷ s)))) in
        let taken =
          IsKey-Taken is_alphanumeric letters before sign after c s rest assigned key is_key in
        let pieces = taken.front ++ (before ∷ (sign ∷ []) ∷ after ∷ (c ∷ s) ∷ []) in
        let cut : assignment_of key before sign after (c ∷ s) rest ≡ u ++ rest =
          ap (λ t. key ++ (before ++ (sign ∷ t))) (sym (append_assoc after (c ∷ s) rest))
          ∙ ap (λ t. key ++ t) (sym (append_assoc before (sign ∷ (after ++ (c ∷ s))) rest))
          ∙ sym (append_assoc key (before ++ (sign ∷ (after ++ (c ∷ s)))) rest) in
        let all : joined is_word pieces ≡ u =
          joined-append is_alphanumeric letters taken.front
            (before ∷ (sign ∷ []) ∷ after ∷ (c ∷ s) ∷ [])
          ∙ ap (λ t. t ++ (before ++ (sign ∷ (after ++ ((c ∷ s) ++ []))))) taken.is_key
          ∙ ap (λ t. key ++ (before ++ (sign ∷ (after ++ t)))) (append-nil (c ∷ s)) in
        let keeps : kept pieces ≡ key ++ (before ++ (sign ∷ (after ++ []))) =
          kept-append is_alphanumeric letters taken.front before
            ((sign ∷ []) ∷ after ∷ (c ∷ s) ∷ [])
          ∙ ap (λ t. t ++ (before ++ (sign ∷ (after ++ [])))) taken.is_key in
        ap (redacted_assignments is_alphanumeric) cut
        ∙ replaced u rest pieces
            (is_empty-append key (before ++ (sign ∷ (after ++ (c ∷ s)))) (IsKey-filled key is_key))
            assigned.ended
            (subst (λ t. match_first is_word sensitive_assignment_pattern none t ≡ some pieces) cut
              taken.found)
            all
        ∙ ap (λ t. (t ++ str "[REDACTED]") ++ behind rest) keeps
        ∙ append_assoc (key ++ (before ++ (sign ∷ (after ++ [])))) (str "[REDACTED]") (behind rest)

    bracket : is_space b'[' ≡ false
    unfolding is_space
    bracket = refl

    -- A text may begin with an assignment to a sensitive key: in any case of the ASCII letters, with
    -- nothing, an underscore or a dash between two words, and with white space around the colon or
    -- equals sign. The value begins with no white space, holds no line break, comma or semicolon,
    -- and ends at the first of these, whatever text comes behind, or at the end. Then what is
    -- printed of the text is what is printed of it with `[REDACTED]` in place of the value: it does
    -- not depend on the value. Any classification of characters will do that takes the ASCII letters
    -- for alphanumeric.
    pub bounded_redacted_text-IsHidden :
        (c : ℕ) (s : Text) (n : ℕ)
        → IsAssigned before sign after c s rest
        → bounded_redacted_text is_alphanumeric (assignment_of key before sign after (c ∷ s) rest) n
          ≡ bounded_redacted_text is_alphanumeric
              (assignment_of key before sign after (str "[REDACTED]") rest)
              n
    unfolding bounded_redacted_text redacted
    bounded_redacted_text-IsHidden c s n assigned =
        rw
          (
            redacted_assignment c s assigned,
            redacted_assignment b'[' (str "REDACTED]") (record {
              spaces = assigned.spaces;
              is_sign = assigned.is_sign;
              more_spaces = assigned.more_spaces;
              no_space = bracket;
              value = refl;
              ended = assigned.ended;
            }),
          )
          refl
