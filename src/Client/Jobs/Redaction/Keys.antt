-- ===== src/Client/Jobs/Redaction/Keys.antt =====
-- The pattern of sensitive assignments of src/python-sdk-v2/aml_client.py takes an assignment of each
-- of its keys as one match.
use mlops_templates.Prelude.{
  ℕ, ◌≡◌, refl, ap, ◌∙◌, Bool, true, false, ◌||◌, ◌==◌, Option, none, some, List, [], ◌∷◌, ◌++◌,
  arith, all, map,
}
use mlops_templates.Text.{Text, str, is_space, is_lower, is_upper, lower, lower_char}
use mlops_templates.Regex.{Row, one, optional, many, boundary, word, match_row, match_first}
use mlops_templates.Regex.Reads.{
  last, singles, Stops, clashes, match-one, match-word, match-word-none, match-boundary,
  match-boundary-none, match-optional, match-optional-skipped, match-many, match_first-miss,
}
use mlops_templates.Client.Jobs.Redaction.{is_of, is_value, sensitive_assignment_pattern}

-- What may stand between the two words of a key: nothing, an underscore or a dash.
abbrev pub IsJoint : Text → Type 0
IsJoint [] = Unit
IsJoint (c ∷ []) = is_of (str "_-") c ≡ true
IsJoint (c ∷ d ∷ s) = ⊥

-- The keys of the pattern, in any case of letters.
pub data IsKey : Text → Type 0 where
  access_token :
      (a j b : Text)
      → lower a ≡ str "access"
      → IsJoint j
      → lower b ≡ str "token"
      → IsKey (a ++ (j ++ b))
  api_key :
      (a j b : Text) → lower a ≡ str "api" → IsJoint j → lower b ≡ str "key" → IsKey (a ++ (j ++ b))
  authorization : (a : Text) → lower a ≡ str "authorization" → IsKey a
  client_secret :
      (a j b : Text)
      → lower a ≡ str "client"
      → IsJoint j
      → lower b ≡ str "secret"
      → IsKey (a ++ (j ++ b))
  credential : (a : Text) → lower a ≡ str "credential" → IsKey a
  password : (a : Text) → lower a ≡ str "password" → IsKey a
  private_key :
      (a j b : Text)
      → lower a ≡ str "private"
      → IsJoint j
      → lower b ≡ str "key"
      → IsKey (a ++ (j ++ b))
  secret : (a : Text) → lower a ≡ str "secret" → IsKey a
  token : (a : Text) → lower a ≡ str "token" → IsKey a

-- The row of an alternative, by its first word and what follows the word.
abbrev pub Form : Type 0
Form = Text × Row

abbrev pub row_of : Form → Row
row_of form = boundary ∷ (word form.0 ++ form.1)

abbrev pub tail : Row
tail = many 0 is_space ∷ one (is_of (str ":=")) ∷ many 0 is_space ∷ many 1 is_value ∷ []

abbrev pub paired : Text → Text → Form
paired first second = (first, optional (is_of (str "_-")) ∷ (word second ++ tail))

abbrev pub alone : Text → Form
alone w = (w, tail)

abbrev pub forms : List Form
forms =
    paired (str "access") (str "token")
    ∷ paired (str "api") (str "key")
    ∷ alone (str "authorization")
    ∷ paired (str "client") (str "secret")
    ∷ alone (str "credential")
    ∷ alone (str "password")
    ∷ paired (str "private") (str "key")
    ∷ alone (str "secret")
    ∷ alone (str "token")
    ∷ []

pub pattern-forms : map row_of forms ≡ sensitive_assignment_pattern
pattern-forms = refl

-- The first words of the forms all differ from the beginning of a text in lower case.
abbrev pub all_clash : List Form → Text → Bool
all_clash fs l = all (λ f. clashes f.0 l) fs

-- What stands between the key and the value, and the value: it begins with no space, holds no line
-- break, comma or semicolon, and ends at one of these or at the end of the text.
pub record IsAssigned (before : Text) (sign : ℕ) (after : Text) (c : ℕ) (s rest : Text)
    : Type 0 where
  pub spaces : all is_space before ≡ true
  pub is_sign : is_of (str ":=") sign ≡ true
  pub more_spaces : all is_space after ≡ true
  pub no_space : is_space c ≡ false
  pub value : all is_value (c ∷ s) ≡ true
  pub ended : Stops is_value rest

sign_no_space : (sign : ℕ) → is_of (str ":=") sign ≡ true → is_space sign ≡ false
unfolding is_space
sign_no_space sign h = ground arith

letter_no_joint : (c k : ℕ) → lower_char c ≡ k → is_lower k ≡ true → is_of (str "_-") c ≡ false
unfolding lower_char is_lower is_upper
letter_no_joint c k e h = ground (arith, e)

module _ (is_alphanumeric : ℕ → Bool)
    (letters : (c : ℕ) → is_lower (lower_char c) ≡ true → is_alphanumeric c ≡ true) where
  abbrev pub is_word : ℕ → Bool
  is_word c = is_alphanumeric c || c == b'_'

  module _ (before : Text) (sign : ℕ) (after : Text) (c : ℕ) (s rest : Text)
      (assigned : IsAssigned before sign after c s rest) where
    abbrev pub assignment_text : Text → Text
    assignment_text key = key ++ (before ++ (sign ∷ (after ++ ((c ∷ s) ++ rest))))

    abbrev pub tail_pieces : List Text
    tail_pieces = before ∷ (sign ∷ []) ∷ after ∷ (c ∷ s) ∷ []

    match-tail :
        (previous : Option ℕ)
        → match_row is_word tail previous (before ++ (sign ∷ (after ++ ((c ∷ s) ++ rest))))
          ≡ some tail_pieces
    unfolding match_row
    match-tail previous =
        match-many is_word 0 is_space
          (one (is_of (str ":=")) ∷ many 0 is_space ∷ many 1 is_value ∷ []) previous before _ _
          assigned.spaces (sign_no_space sign assigned.is_sign) (omega arith)
          (match-one is_word (is_of (str ":=")) (many 0 is_space ∷ many 1 is_value ∷ [])
            (last previous before) sign (after ++ ((c ∷ s) ++ rest)) _ assigned.is_sign
            (match-many is_word 0 is_space (many 1 is_value ∷ []) (some sign) after
              ((c ∷ s) ++ rest) _ assigned.more_spaces assigned.no_space (omega arith)
              (match-many is_word 1 is_value [] (last (some sign) after) (c ∷ s) rest []
                assigned.value assigned.ended (omega arith) refl)))

    -- The second half of a key of two words.
    match-second :
        (k : ℕ) (w : Text) (previous : Option ℕ) (j b : Text)
        → is_lower k ≡ true
        → IsJoint j
        → lower b ≡ k ∷ w
        → match_row is_word
            (optional (is_of (str "_-")) ∷ (word (k ∷ w) ++ tail))
            previous
            (j ++ (b ++ (before ++ (sign ∷ (after ++ ((c ∷ s) ++ rest))))))
          ≡ some (j ∷ (singles b ++ tail_pieces))
    unfolding lower
    match-second k w previous [] [] letter joint l = absurd (ground arith)
    match-second k w previous [] (d ∷ b) letter joint l =
        match-optional-skipped is_word (is_of (str "_-")) (word (k ∷ w) ++ tail) previous d _ _
          (letter_no_joint d k (ground (arith, l)) letter)
          (match-word is_word (k ∷ w) tail previous (d ∷ b) _ _ l (match-tail _))
    match-second k w previous (x ∷ []) b letter joint l =
        match-optional is_word (is_of (str "_-")) (word (k ∷ w) ++ tail) previous x _ _ joint
          (match-word is_word (k ∷ w) tail (some x) b _ _ l (match-tail _))
    match-second k w previous (x ∷ y ∷ j) b letter joint l = absurd joint

    is_word_of : (x k : ℕ) → lower_char x ≡ k → is_lower k ≡ true → is_word x ≡ true
    is_word_of x k e h = ground (arith, letters x (ap is_lower e ∙ h))

    -- The row of a key of one word.
    pub match-alone :
        (k : ℕ) (w a : Text)
        → is_lower k ≡ true
        → lower a ≡ k ∷ w
        → match_row is_word
            (row_of (alone (k ∷ w)))
            none
            (a ++ (before ++ (sign ∷ (after ++ ((c ∷ s) ++ rest)))))
          ≡ some ([] ∷ (singles a ++ tail_pieces))
    unfolding lower
    match-alone k w [] letter l = absurd (ground arith)
    match-alone k w (x ∷ a) letter l =
        match-boundary is_word (word (k ∷ w) ++ tail) x _ _
          (is_word_of x k (ground (arith, l)) letter)
          (match-word is_word (k ∷ w) tail none (x ∷ a) _ _ l (match-tail _))

    -- The row of a key of two words.
    pub match-paired :
        (k : ℕ) (w : Text) (k' : ℕ) (w' a j b : Text)
        → is_lower k ≡ true
        → is_lower k' ≡ true
        → lower a ≡ k ∷ w
        → IsJoint j
        → lower b ≡ k' ∷ w'
        → match_row is_word
            (row_of (paired (k ∷ w) (k' ∷ w')))
            none
            (a ++ (j ++ (b ++ (before ++ (sign ∷ (after ++ ((c ∷ s) ++ rest)))))))
          ≡ some ([] ∷ (singles a ++ (j ∷ (singles b ++ tail_pieces))))
    unfolding lower
    match-paired k w k' w' [] j b letter letter' l joint l' = absurd (ground arith)
    match-paired k w k' w' (x ∷ a) j b letter letter' l joint l' =
        match-boundary is_word
          (word (k ∷ w) ++ (optional (is_of (str "_-")) ∷ (word (k' ∷ w') ++ tail))) x _ _
          (is_word_of x k (ground (arith, l)) letter)
          (match-word is_word (k ∷ w) (optional (is_of (str "_-")) ∷ (word (k' ∷ w') ++ tail)) none
            (x ∷ a) _ _ l (match-second k' w' _ j b letter' joint l'))

  -- Alternatives whose first words clash with the text match nothing of it.
  pub match_first-clashing :
      (fs : List Form) (rows : List Row) (previous : Option ℕ) (t : Text) (r : Option (List Text))
      → all_clash fs (lower t) ≡ true
      → match_first is_word rows previous t ≡ r
      → match_first is_word (map row_of fs ++ rows) previous t ≡ r
  match_first-clashing [] rows previous t r h e = e
  match_first-clashing (f ∷ fs) rows previous t r h e =
      match_first-miss is_word (row_of f) (map row_of fs ++ rows) previous t r
        (match-boundary-none is_word (word f.0 ++ f.1) previous t
          (match-word-none is_word f.0 f.1 previous t (ground arith)))
        (match_first-clashing fs rows previous t r (ground arith) e)
