-- ===== src/Client/Jobs/Redaction/Taken.antt =====
-- The pattern of sensitive assignments takes an assignment of every key as one match.
use mathlib.Core.List.{append_assoc, append-nil}
use mlops_templates.Prelude.{
  ℕ, ◌≡◌, refl, ap, sym, subst, ◌∙◌, Bool, true, false, ◌||◌, ◌==◌, inl, inr, ◌⊎◌, Option, none,
  some, List, [], ◌∷◌, ◌++◌, arith, map,
}
use mlops_templates.Text.{Text, str, is_lower, lower, lower_char}
use mlops_templates.Text.Laws.{lower-append}
use mlops_templates.Regex.{Row, match_first, joined}
use mlops_templates.Regex.Reads.{singles, match_first-hit}
use mlops_templates.Client.Jobs.Redaction.{is_value, sensitive_assignment_pattern, kept}
use mlops_templates.Client.Jobs.Redaction.Keys.{
  IsJoint, IsKey, access_token, api_key, authorization, client_secret, credential, password,
  private_key, secret, token, Form, forms, row_of, alone, paired, all_clash, IsAssigned,
  assignment_text, tail_pieces, match-alone, match-paired, match_first-clashing,
}

-- The forms that are tried before the key.
abbrev before_credential : List Form
before_credential =
    paired (str "access") (str "token")
    ∷ paired (str "api") (str "key")
    ∷ alone (str "authorization")
    ∷ paired (str "client") (str "secret")
    ∷ []

abbrev before_secret : List Form
before_secret =
    before_credential
    ++ (alone (str "credential") ∷ alone (str "password") ∷ paired (str "private") (str "key") ∷ [])

module _ (is_alphanumeric : ℕ → Bool)
    (letters : (c : ℕ) → is_lower (lower_char c) ≡ true → is_alphanumeric c ≡ true) where
  abbrev is_word : ℕ → Bool
  is_word c = is_alphanumeric c || c == b'_'

  pub joined-append :
      (xs ys : List Text) → joined is_word (xs ++ ys) ≡ joined is_word xs ++ joined is_word ys
  joined-append [] ys = refl
  joined-append (x ∷ xs) ys =
      ap (λ t. x ++ t) (joined-append xs ys)
      ∙ sym (append_assoc x (joined is_word xs) (joined is_word ys))

  joined-singles : (u : Text) → joined is_word (singles u) ≡ u
  joined-singles [] = refl
  joined-singles (c ∷ u) = ap (λ t. c ∷ t) (joined-singles u)

  -- The replacement keeps all pieces but the last one.
  pub kept-append :
      (xs : List Text) (y : Text) (ys : List Text)
      → kept (xs ++ (y ∷ ys)) ≡ joined is_word xs ++ kept (y ∷ ys)
  kept-append [] y ys = refl
  kept-append (x ∷ []) y ys = ap (λ t. t ++ kept (y ∷ ys)) (sym (append-nil x))
  kept-append (x ∷ z ∷ xs) y ys =
      ap (λ t. x ++ t) (kept-append (z ∷ xs) y ys)
      ∙ sym (append_assoc x (joined is_word (z ∷ xs)) (kept (y ∷ ys)))

  -- A character that ends a value begins no key.
  ender : (d : ℕ) → is_value d ≡ false → (d ≡ 13) ⊎ (d ≡ 10) ⊎ (d ≡ b',') ⊎ (d ≡ b';')
  ender d h = ground arith

  pub match_first-ended :
      (d : ℕ) (s : Text) (previous : Option ℕ)
      → is_value d ≡ false
      → match_first is_word sensitive_assignment_pattern previous (d ∷ s) ≡ none
  unfolding lower lower_char match_first
  match_first-ended d s previous h =
      match_first-clashing is_alphanumeric letters forms [] previous (d ∷ s) none
        (clash (ender d h)) refl
    where
      clash : (d ≡ 13) ⊎ (d ≡ 10) ⊎ (d ≡ b',') ⊎ (d ≡ b';') → all_clash forms (lower (d ∷ s)) ≡ true
      clash (inl e) = subst (λ x. all_clash forms (lower (x ∷ s)) ≡ true) (sym e) refl
      clash (inr (inl e)) = subst (λ x. all_clash forms (lower (x ∷ s)) ≡ true) (sym e) refl
      clash (inr (inr (inl e))) = subst (λ x. all_clash forms (lower (x ∷ s)) ≡ true) (sym e) refl
      clash (inr (inr (inr e))) = subst (λ x. all_clash forms (lower (x ∷ s)) ≡ true) (sym e) refl

  module _ (before : Text) (sign : ℕ) (after : Text) (c : ℕ) (s rest : Text)
      (assigned : IsAssigned before sign after c s rest) where
    abbrev whole : Text → Text
    whole = assignment_text is_alphanumeric letters before sign after c s rest assigned

    abbrev pieces : List Text
    pieces = tail_pieces is_alphanumeric letters before sign after c s rest assigned

    -- The match of an assignment: pieces that make the key, then those behind it.
    pub record Taken (rows : List Row) (key : Text) : Type 0 where
      pub front : List Text
      pub is_key : joined is_word front ≡ key
      pub found :
          match_first is_word rows none (whole key)
          ≡ some (front ++ (before ∷ (sign ∷ []) ∷ after ∷ (c ∷ s) ∷ []))

    abbrev ClashWith : List Form → Text → Type 0
    ClashWith fs w = (x : Text) → all_clash fs (w ++ x) ≡ true

    all_clash-lower :
        (fs : List Form) (w a x : Text)
        → ClashWith fs w
        → lower a ≡ w
        → all_clash fs (lower (a ++ x)) ≡ true
    all_clash-lower fs w a x clash l =
        ap (all_clash fs) (lower-append a x ∙ ap (λ t. t ++ lower x) l) ∙ clash (lower x)

    alone-Taken :
        (fs : List Form) (rows : List Row) (k : ℕ) (w a : Text)
        → ClashWith fs (k ∷ w)
        → is_lower k ≡ true
        → lower a ≡ k ∷ w
        → Taken (map row_of fs ++ (row_of (alone (k ∷ w)) ∷ rows)) a
    alone-Taken fs rows k w a clash letter l = record {
      front = [] ∷ singles a;
      is_key = joined-singles a;
      found =
          match_first-clashing is_alphanumeric letters fs _ none (whole a) _
            (all_clash-lower fs (k ∷ w) a _ clash l)
            (match_first-hit is_word (row_of (alone (k ∷ w))) rows none (whole a) _ (
              match-alone is_alphanumeric letters before sign after c s rest assigned k w a letter
                l));
    }

    paired-Taken :
        (fs : List Form) (rows : List Row) (k : ℕ) (w : Text) (k' : ℕ) (w' a j b : Text)
        → ClashWith fs (k ∷ w)
        → is_lower k ≡ true
        → is_lower k' ≡ true
        → lower a ≡ k ∷ w
        → IsJoint j
        → lower b ≡ k' ∷ w'
        → Taken (map row_of fs ++ (row_of (paired (k ∷ w) (k' ∷ w')) ∷ rows)) (a ++ (j ++ b))
    paired-Taken fs rows k w k' w' a j b clash letter letter' l joint l' =
        let end = before ++ (sign ∷ (after ++ ((c ∷ s) ++ rest))) in
        let form = paired (k ∷ w) (k' ∷ w') in
        let ps : List Text = ([] ∷ (singles a ++ (j ∷ singles b))) ++ pieces in
        let regrouped : a ++ (j ++ (b ++ end)) ≡ whole (a ++ (j ++ b)) =
          ap (λ t. a ++ t) (sym (append_assoc j b end)) ∙ sym (append_assoc a (j ++ b) end) in
        record {
          front = [] ∷ (singles a ++ (j ∷ singles b));
          is_key =
              joined-append (singles a) (j ∷ singles b)
              ∙ ap (λ t. t ++ joined is_word (j ∷ singles b)) (joined-singles a)
              ∙ ap (λ t. a ++ (j ++ t)) (joined-singles b);
          found =
              subst
                (λ t. match_first is_word (map row_of fs ++ (row_of form ∷ rows)) none t ≡ some ps)
                regrouped
                (match_first-clashing is_alphanumeric letters fs (row_of form ∷ rows) none _ _
                  (all_clash-lower fs (k ∷ w) a _ clash l)
                  (match_first-hit is_word (row_of form) rows none _ _ (
                    match-paired is_alphanumeric letters before sign after c s rest assigned k w k'
                      w' a j b letter letter' l joint l'
                    ∙ ap (λ x. some ([] ∷ x))
                        (sym (append_assoc (singles a) (j ∷ singles b) pieces)))));
        }

    pub IsKey-Taken : (key : Text) → IsKey key → Taken sensitive_assignment_pattern key
    unfolding is_lower
    IsKey-Taken _ (access_token a j b l joint l') =
        paired-Taken [] _ b'a' (str "ccess") b't' (str "oken") a j b (λ x. refl) refl refl l joint
          l'
    IsKey-Taken _ (api_key a j b l joint l') =
        paired-Taken (paired (str "access") (str "token") ∷ []) _ b'a' (str "pi") b'k' (str "ey") a
          j b (λ x. refl) refl refl l joint l'
    IsKey-Taken _ (authorization a l) =
        alone-Taken (paired (str "access") (str "token") ∷ paired (str "api") (str "key") ∷ []) _
          b'a' (str "uthorization") a (λ x. refl) refl l
    IsKey-Taken _ (client_secret a j b l joint l') =
        paired-Taken
          (paired (str "access") (str "token")
            ∷ paired (str "api") (str "key")
            ∷ alone (str "authorization")
            ∷ [])
          _ b'c' (str "lient") b's' (str "ecret") a j b (λ x. refl) refl refl l joint l'
    IsKey-Taken _ (credential a l) =
        alone-Taken before_credential _ b'c' (str "redential") a (λ x. refl) refl l
    IsKey-Taken _ (password a l) =
        alone-Taken (before_credential ++ (alone (str "credential") ∷ [])) _ b'p' (str "assword") a
          (λ x. refl) refl l
    IsKey-Taken _ (private_key a j b l joint l') =
        paired-Taken (before_credential ++ (alone (str "credential") ∷ alone (str "password") ∷ []))
          _ b'p' (str "rivate") b'k' (str "ey") a j b (λ x. refl) refl refl l joint l'
    IsKey-Taken _ (secret a l) = alone-Taken before_secret _ b's' (str "ecret") a (λ x. refl) refl l
    IsKey-Taken _ (token a l) =
        alone-Taken (before_secret ++ (alone (str "secret") ∷ [])) _ b't' (str "oken") a (λ x. refl)
          refl l
