-- ===== src/Batch/BlobPath/Containment.antt =====
-- Where a blob may be written: below the build context, never outside of it.
use mlops_templates.Prelude.{
  ℕ, ◌≡◌, refl, Bool, true, false, not, ◌&&◌, ◌||◌, Option, none, some, List, [], ◌∷◌, ◌++◌, arith,
  ◌==◌, ltb, any, all, All, Bool-cases, inl, inr, sym, ◌∙◌, subst,
}
use mlops_templates.Text.{Text, str_eq, is_empty, strip_prefix}
use mlops_templates.Text.Laws.{str_eq→eq, strip_prefix-eq-some}
use mlops_templates.Outcome.{ok}
use mlops_templates.Posix.{parts, is_absolute, dot, dot_dot, split_slash, keep_names, grow}
use mlops_templates.Batch.BlobPath.{RelativePath, is_unsafe, relative_path, safe_blob_relative_path}

-- No slash, no backslash, no control character.
abbrev pub is_plain : ℕ → Bool
is_plain c = not (c == b'/') && not (c == b'\\') && not (ltb c 32)

-- A name of a file or directory that stays where it is put.
pub record IsPlainPart (part : Text) : Type 0 where
  pub filled : is_empty part ≡ false
  pub no_dot : str_eq part dot ≡ false
  pub no_dot_dot : str_eq part dot_dot ≡ false
  pub plain : all is_plain part ≡ true

grow-all :
    (c : ℕ) (pieces : List Text)
    → is_plain c ≡ true
    → All (λ t. all is_plain t ≡ true) pieces
    → All (λ t. all is_plain t ≡ true) (grow c pieces)
grow-all c [] h hs = (ground arith, tt)
grow-all c (piece ∷ pieces) h hs = (ground (arith, hs.0), hs.1)

-- The pieces between slashes have the plain characters of the text.
split_slash-all :
    (s : Text)
    → any (λ c. c == b'\\') s ≡ false
    → any (λ c. ltb c 32) s ≡ false
    → All (λ t. all is_plain t ≡ true) (split_slash s)
unfolding split_slash
split_slash-all [] b l = (refl, tt)
split_slash-all (c ∷ s) b l =
    let rest = split_slash-all s (ground arith) (ground arith) in
    elim (Bool-cases (c == b'/')) [
      | inl slash ↦ rw slash (refl, rest)
      | inr other ↦ rw other (grow-all c (split_slash s) (ground arith) rest)
    ]

keep_names-all :
    (pieces : List Text)
    → All (λ t. all is_plain t ≡ true) pieces
    → All (λ t. all is_plain t ≡ true) (keep_names pieces)
unfolding keep_names
keep_names-all [] h = tt
keep_names-all (piece ∷ pieces) h = elim (Bool-cases (is_empty piece || str_eq piece dot)) [
  | inl dropped ↦ rw dropped (keep_names-all pieces h.1)
  | inr kept ↦ rw kept (h.0, keep_names-all pieces h.1)
]

plain_parts :
    (ps : List Text)
    → All (λ t. all is_plain t ≡ true) ps
    → any (λ part. is_empty part || str_eq part dot || str_eq part dot_dot) ps ≡ false
    → All IsPlainPart ps
plain_parts [] h e = tt
plain_parts (p ∷ ps) h e = (
  record { filled = ground arith; no_dot = ground arith; no_dot_dot = ground arith; plain = h.0 },
  plain_parts ps h.1 (ground arith),
)

parts-relative : (s : Text) → is_absolute s ≡ false → parts s ≡ keep_names (split_slash s)
unfolding parts
parts-relative s h = rw h

accepted-IsPlainPart : (name : Text) → is_unsafe name ≡ false → All IsPlainPart (parts name)
unfolding is_unsafe
accepted-IsPlainPart name e = rw (parts-relative name (ground arith)) (
    plain_parts (keep_names (split_slash name))
      (keep_names-all (split_slash name) (split_slash-all name (ground arith) (ground arith)))
      (rw (parts-relative name (ground arith)) at (last_test name e)))
  where
    last_test :
        (name : Text)
        → is_unsafe name ≡ false
        → any (λ part. is_empty part || str_eq part dot || str_eq part dot_dot) (parts name) ≡ false
    last_test name e = ground arith

relative_path-eq-ok :
    (o : Option Text) {path : RelativePath}
    → relative_path o ≡ ok path
    → (name : Text) × (o ≡ some name) × (is_unsafe name ≡ false) × (path ≡ parts name)
relative_path-eq-ok none e = absurd (ground arith)
relative_path-eq-ok (some name) e = (name, refl, ground arith, ground arith)

decoded-eq :
    (unquote : Text → Text) (blob_name prefix : Text) {path : RelativePath}
    → safe_blob_relative_path unquote blob_name prefix ≡ ok path
    → (unquote blob_name ≡ blob_name)
      × (relative_path (strip_prefix prefix (unquote blob_name)) ≡ ok path)
unfolding safe_blob_relative_path
decoded-eq unquote blob_name prefix e =
    (str_eq→eq (unquote blob_name) blob_name (ground arith), ground arith)

-- A relative path that is returned for a blob is that of its name behind the prefix, a name that
-- `unquote` leaves alone, and each of its parts is a plain name: neither empty nor a dot nor two
-- dots, without slash, backslash or control character. So it leads out of no directory.
pub safe_blob_relative_path-IsPlainPart :
    (unquote : Text → Text) (blob_name prefix : Text) {path : RelativePath}
    → safe_blob_relative_path unquote blob_name prefix ≡ ok path
    → (name : Text) × (blob_name ≡ prefix ++ name)
      × (unquote blob_name ≡ blob_name)
      × (path ≡ parts name)
      × All IsPlainPart path
safe_blob_relative_path-IsPlainPart unquote blob_name prefix {path} e =
    let (same, relative) = decoded-eq unquote blob_name prefix e in
    let (name, split, safe, is) =
      relative_path-eq-ok (strip_prefix prefix (unquote blob_name)) relative in
    (
      name,
      sym same ∙ strip_prefix-eq-some prefix (unquote blob_name) name split,
      same,
      is,
      subst (λ ps. All IsPlainPart ps) (sym is) (accepted-IsPlainPart name safe),
    )
