-- ===== src/Batch/Reference/Patterns.antt =====
-- The regular expressions at the top of src/python-sdk-v2/create_batch_deployment.py. A choice
-- `(?:workspaces|registries)` is two rows of pieces. Groups that `re` does not capture are read and
-- left unused.
pub mod Segments
use mlops_templates.Prelude.{
  ℕ, zero, suc, Bool, true, false, not, ◌&&◌, ◌||◌, Option, some, List, [], ◌∷◌, ◌++◌, ◌==◌, leb,
  any, all, length,
}
use mlops_templates.Text.{
  Text, str, is_empty, is_space, is_digit, is_lower, is_upper, is_ascii_digit, is_hex,
}
use mlops_templates.Pattern.{Piece, lit, run, ignoring_case, fullmatch}

-- `[^/\s]`
unfoldable pub is_segment_char : ℕ → Bool
unfolding is_space
is_segment_char c = not (c == b'/') && not (is_space c)

-- `[^:\s]`
unfoldable pub is_name_char : ℕ → Bool
unfolding is_space
is_name_char c = not (c == b':') && not (is_space c)

abbrev segment : Piece
segment = run is_segment_char

abbrev digits : Piece
digits = run is_digit

-- the first of IMMUTABLE_ENVIRONMENT_PATTERNS, and REGISTRY_ENVIRONMENT_PATTERN
abbrev pub registry_uri : List Piece
registry_uri =
    lit (str "azureml://registries/")
    ∷ segment
    ∷ lit (str "/environments/")
    ∷ segment
    ∷ lit (str "/versions/")
    ∷ digits
    ∷ []

-- the second of IMMUTABLE_ENVIRONMENT_PATTERNS
abbrev pub workspace_reference : List Piece
workspace_reference = lit (str "azureml:") ∷ run is_name_char ∷ lit (str ":") ∷ digits ∷ []

abbrev full_id : Text → List Piece
full_id scope =
    lit (str "/subscriptions/")
    ∷ segment
    ∷ lit (str "/resourceGroups/")
    ∷ segment
    ∷ lit (str "/providers/Microsoft.MachineLearningServices/" ++ scope)
    ∷ segment
    ∷ lit (str "/environments/")
    ∷ segment
    ∷ lit (str "/versions/")
    ∷ digits
    ∷ []

-- FULL_ENVIRONMENT_ID_PATTERN, and the third of IMMUTABLE_ENVIRONMENT_PATTERNS
abbrev pub full_workspace_id : List Piece
full_workspace_id = full_id (str "workspaces/")

abbrev pub full_registry_id : List Piece
full_registry_id = full_id (str "registries/")

-- FULL_REGISTRY_ENVIRONMENT_PATTERN
abbrev pub full_registry_parts : List Piece
full_registry_parts = full_registry_id

-- A row of single characters, each of its class.
abbrev row : List (ℕ → Bool) → Text → Bool
row [] [] = true
row [] (c ∷ s) = false
row (p ∷ ps) [] = false
row (p ∷ ps) (c ∷ s) = p c && row ps s

abbrev times : ℕ → (ℕ → Bool) → List (ℕ → Bool) → List (ℕ → Bool)
times zero p ps = ps
times (suc n) p ps = p ∷ times n p ps

abbrev dash : ℕ → Bool
dash c = c == b'-'

-- `SUBSCRIPTION_ID_PATTERN.fullmatch(s)`
unfoldable pub is_subscription_id : Text → Bool
unfolding is_hex
is_subscription_id s =
    row
      (times 8 is_hex (
        dash
        ∷ times 4 is_hex
            (dash ∷ times 4 is_hex (dash ∷ times 4 is_hex (dash ∷ times 12 is_hex [])))))
      s

is_arm_char : ℕ → Bool
is_arm_char c =
    is_lower c
    || is_upper c
    || is_ascii_digit c
    || any (λ d. c == d) (b'.' ∷ b'_' ∷ b'(' ∷ b')' ∷ b'-' ∷ [])

-- `ARM_RESOURCE_NAME_PATTERN.fullmatch(s)`
unfoldable pub is_arm_name : Text → Bool
unfolding is_arm_char is_lower is_upper is_ascii_digit
is_arm_name s = not (is_empty s) && all is_arm_char s

abbrev is_alnum : ℕ → Bool
is_alnum c = is_lower c || is_ascii_digit c

abbrev ends_alnum : Text → Bool
ends_alnum [] = false
ends_alnum (c ∷ []) = is_alnum c
ends_alnum (c ∷ d ∷ s) = ends_alnum (d ∷ s)

-- `STORAGE_CONTAINER_PATTERN.fullmatch(s)`: one letter or digit, or 3 to 63 letters, digits and
-- dashes with a letter or digit at both ends
unfoldable pub is_container_name : Text → Bool
unfolding is_lower is_ascii_digit
is_container_name [] = false
is_container_name (c ∷ []) = is_alnum c
is_container_name (c ∷ d ∷ s) =
    is_alnum c
    && leb 1 (length s)
    && leb (length s) 61
    && all (λ x. is_alnum x || dash x) (d ∷ s)
    && ends_alnum (d ∷ s)

-- `[^@\s]`
unfoldable pub is_image_char : ℕ → Bool
unfolding is_space
is_image_char c = not (c == b'@') && not (is_space c)

abbrev digest_groups : Option (List Text) → Bool
digest_groups (some (image ∷ digest ∷ [])) = length digest == 64
digest_groups _ = false

-- `IMMUTABLE_IMAGE_PATTERN.fullmatch(s)`
unfoldable pub is_immutable_image : Text → Bool
unfolding fullmatch is_image_char is_hex ignoring_case
is_immutable_image s =
    digest_groups
      (fullmatch ignoring_case (run is_image_char ∷ lit (str "@sha256:") ∷ run is_hex ∷ []) s)
