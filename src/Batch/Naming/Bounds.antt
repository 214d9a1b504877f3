-- ===== src/Batch/Naming/Bounds.antt =====
-- The names that `_workspace_environment_name` makes are names that Azure ML accepts.
use mlops_templates.Prelude.{
  ℕ, ◌≤◌, ◌≡◌, refl, Bool, true, false, not, ◌&&◌, ◌||◌, some, [], ◌∷◌, ◌++◌, arith, leb, length,
  take, all, all-append, all-take, length-append, length-take, Bool-cases, inl, inr, ◌∙◌, subst,
  sym, leb→le,
}
use mlops_templates.Text.{
  Text, str, is_empty, lower_char, is_ascii_digit, strip_of, drop_while, drop_end_while,
  strip_prefix,
}
use mlops_templates.Text.Laws.{all-drop_while, all-drop_end_while}
use mlops_templates.Outcome.{ok}
use mlops_templates.Batch.Naming.{
  is_dash, is_safe_char, dash_runs, raw_name, safe_name, workspace_environment_name,
}
use mlops_templates.Batch.Naming.Dashes.{
  no_double_dash, ends_in_dash, dash-safe, safe-dash_runs, all-dash_runs, no_double-dash_runs,
  ends-dash_runs, ends-drop_end_while, no_double-drop_end_while, no_double-take,
  length-drop_end_while, no_double-append,
}

-- What a name of an Azure ML environment has to be.
pub record IsName (s : Text) : Type 0 where
  pub short : length s ≤ 255
  pub begins : (rest : Text) × (strip_prefix (str "registry") s ≡ some rest)
  pub safe : all is_safe_char s ≡ true
  pub no_double : no_double_dash false s ≡ true
  pub no_end : ends_in_dash s ≡ false

module _ (raw : Text) where
  all-safe_name : all is_safe_char (safe_name raw) ≡ true
  unfolding safe_name strip_of
  all-safe_name =
      let runs = dash_runs (λ c. not (is_safe_char c)) false raw in
      all-dash_runs false (drop_end_while is_dash (drop_while is_dash runs)) (
        all-drop_end_while is_safe_char is_dash (drop_while is_dash runs)
          (all-drop_while is_safe_char is_dash runs (safe-dash_runs false raw)))

  no_double-safe_name : no_double_dash false (safe_name raw) ≡ true
  unfolding safe_name
  no_double-safe_name =
      no_double-dash_runs false (strip_of is_dash (dash_runs (λ c. not (is_safe_char c)) false raw))

  ends-safe_name : ends_in_dash (safe_name raw) ≡ false
  unfolding safe_name strip_of
  ends-safe_name =
      ends-dash_runs false
        (drop_end_while is_dash
          (drop_while is_dash (dash_runs (λ c. not (is_safe_char c)) false raw)))
        (ends-drop_end_while (drop_while is_dash (dash_runs (λ c. not (is_safe_char c)) false raw)))

-- Whatever the two names are, the name begins with "registry".
safe_name-begins :
    (r e : Text) → (rest : Text) × (safe_name (raw_name r e) ≡ str "registry" ++ rest)
unfolding raw_name safe_name strip_of drop_while drop_end_while dash_runs is_safe_char lower_char
safe_name-begins r e = (_, refl)

-- `hexdigest()` of SHA-256: 64 digits, `0` to `9` and `a` to `f`.
pub record IsHexDigest (s : Text) : Type 0 where
  pub count : length s ≡ 64
  pub digits : all (λ c. is_ascii_digit c || (leb b'a' c && leb c b'f')) s ≡ true

hex-safe :
    (c : ℕ)
    → is_ascii_digit c || (leb b'a' c && leb c b'f') ≡ true
    → is_safe_char c && not (is_dash c) ≡ true
unfolding is_safe_char
hex-safe c h = ground arith

hex_tail :
    (b : Bool) (s : Text)
    → all (λ c. is_ascii_digit c || (leb b'a' c && leb c b'f')) s ≡ true
    → (all is_safe_char s ≡ true) × (no_double_dash b s ≡ true) × (ends_in_dash s ≡ false)
hex_tail b [] h = (refl, refl, refl)
hex_tail b (c ∷ s) h =
    let (safe, single, ends) = hex_tail (is_dash c) s (ground arith) in
    let first = hex-safe c (ground arith) in (ground arith, ground arith, ground arith)

ends-append :
    (s : Text) (d : ℕ) (t : Text)
    → is_empty t ≡ false
    → ends_in_dash (s ++ (d ∷ t)) ≡ ends_in_dash t
ends-append [] d t h = rw h
ends-append (c ∷ []) d t h = rw h
ends-append (c ∷ e ∷ s) d t h = ends-append (e ∷ s) d t h

-- The length that the digest leaves room for.
long_name : Text → Text → Text
long_name safe digest = drop_end_while is_dash (take 242 safe) ++ (b'-' ∷ take 12 digest)

hex_head :
    (digest : Text)
    → IsHexDigest digest
    → all (λ c. is_ascii_digit c || (leb b'a' c && leb c b'f')) (take 12 digest) ≡ true
hex_head digest hex = all-take _ 12 digest hex.digits

hex_filled : (digest : Text) → IsHexDigest digest → is_empty (take 12 digest) ≡ false
hex_filled [] hex = absurd (omega (arith, hex.count))
hex_filled (c ∷ s) hex = refl

long_name-begins :
    (safe digest rest : Text)
    → safe ≡ str "registry" ++ rest
    → (after : Text) × (strip_prefix (str "registry") (long_name safe digest) ≡ some after)
unfolding long_name strip_prefix drop_end_while
long_name-begins safe digest rest e =
    subst (λ s. (after : Text) × (strip_prefix (str "registry") (long_name s digest) ≡ some after))
      (sym e) (_, refl)

long_name-IsName :
    (safe digest rest : Text)
    → safe ≡ str "registry" ++ rest
    → all is_safe_char safe ≡ true
    → no_double_dash false safe ≡ true
    → IsHexDigest digest
    → IsName (long_name safe digest)
unfolding long_name
long_name-IsName safe digest rest e all_safe single hex = record {
  short = omega (
    arith,
    length-append (drop_end_while is_dash (take 242 safe)) (b'-' ∷ take 12 digest),
    length-drop_end_while is_dash (take 242 safe),
    length-take 242 safe,
    length-take 12 digest,
  );
  begins = long_name-begins safe digest rest e;
  safe =
      all-append is_safe_char (drop_end_while is_dash (take 242 safe)) (b'-' ∷ take 12 digest)
        (all-drop_end_while is_safe_char is_dash (take 242 safe)
          (all-take is_safe_char 242 safe all_safe))
        (ground (arith, dash-safe, (hex_tail true (take 12 digest) (hex_head digest hex)).0));
  no_double =
      no_double-append false (drop_end_while is_dash (take 242 safe)) (take 12 digest)
        (no_double-drop_end_while false (take 242 safe) (no_double-take false 242 safe single))
        (λ h. refl) (ends-drop_end_while (take 242 safe))
        (hex_tail true (take 12 digest) (hex_head digest hex)).1;
  no_end =
      ends-append (drop_end_while is_dash (take 242 safe)) b'-' (take 12 digest)
        (hex_filled digest hex)
      ∙ (hex_tail true (take 12 digest) (hex_head digest hex)).2;
}

registry-begins :
    (s rest : Text)
    → s ≡ str "registry" ++ rest
    → (is_empty s ≡ false) × ((after : Text) × (strip_prefix (str "registry") s ≡ some after))
unfolding strip_prefix
registry-begins s rest e = (rw e, (rest, rw e))

module _ (sha256_hex : Text → Text) (registry environment : Text) where
  name_if_short :
      is_empty (safe_name (raw_name registry environment)) ≡ false
      → leb (length (safe_name (raw_name registry environment))) 255 ≡ true
      → workspace_environment_name sha256_hex registry environment
        ≡ ok (safe_name (raw_name registry environment))
  unfolding workspace_environment_name
  name_if_short filled short = rw (filled, short)

  name_if_long :
      is_empty (safe_name (raw_name registry environment)) ≡ false
      → leb (length (safe_name (raw_name registry environment))) 255 ≡ false
      → workspace_environment_name sha256_hex registry environment
        ≡ ok (
            long_name
              (safe_name (raw_name registry environment))
              (sha256_hex (raw_name registry environment)))
  unfolding workspace_environment_name long_name
  name_if_long filled long = rw (filled, long)

-- For every registry and environment the function returns a name, and raises nothing: it has at
-- most 255 characters, all of them lower-case letters, digits and dashes, begins with "registry",
-- has no two dashes in a row and does not end in one.
pub workspace_environment_name-IsName :
    (sha256_hex : Text → Text) (registry environment : Text)
    → ((s : Text) → IsHexDigest (sha256_hex s))
    → (name : Text) × (workspace_environment_name sha256_hex registry environment ≡ ok name)
      × IsName name
workspace_environment_name-IsName sha256_hex registry environment hex =
    let raw = raw_name registry environment in
    let safe = safe_name raw in
    let (rest, start) = safe_name-begins registry environment in
    let (filled, begins) = registry-begins safe rest start in
    elim (Bool-cases (leb (length safe) 255)) [
      | inl short ↦ (
        safe,
        name_if_short sha256_hex registry environment filled short,
        record {
          short = leb→le (length safe) 255 short;
          begins = begins;
          safe = all-safe_name raw;
          no_double = no_double-safe_name raw;
          no_end = ends-safe_name raw;
        },
      )
      | inr long ↦ (
        long_name safe (sha256_hex raw),
        name_if_long sha256_hex registry environment filled long,
        long_name-IsName safe (sha256_hex raw) rest start (all-safe_name raw)
            (no_double-safe_name raw) (hex raw),
      )
    ]
