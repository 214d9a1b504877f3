-- ===== src/Batch/Reference/Patterns/Segments.antt =====
-- The names that the patterns of src/python-sdk-v2/create_batch_deployment.py take for Azure
-- resources and subscriptions fit between two slashes of a resource ID.
use mlops_templates.Prelude.{
  ℕ, zero, suc, ◌≡◌, refl, Bool, true, false, List, [], ◌∷◌, arith, all, All,
}
use mlops_templates.Text.{Text, is_empty, is_space, is_hex, is_lower, is_upper, is_ascii_digit}
use mlops_templates.Batch.Reference.Patterns.{
  is_subscription_id, is_arm_name, is_arm_char, is_segment_char, dash, row, times,
}

-- Every character of the class is one of the other.
abbrev Within : (ℕ → Bool) → (ℕ → Bool) → Type 0
Within q p = (c : ℕ) → p c ≡ true → q c ≡ true

arm-Within : Within is_segment_char is_arm_char
unfolding is_arm_char is_segment_char is_lower is_upper is_ascii_digit is_space
arm-Within c h = ground arith

hex-Within : Within is_segment_char is_hex
unfolding is_hex is_segment_char is_space
hex-Within c h = ground arith

dash-Within : Within is_segment_char dash
unfolding is_segment_char is_space
dash-Within c h = ground arith

all-Within : (p q : ℕ → Bool) (s : Text) → Within q p → all p s ≡ true → all q s ≡ true
all-Within p q [] f h = refl
all-Within p q (c ∷ s) f h = ground (arith, f c, all-Within p q s f)

all-row :
    (q : ℕ → Bool) (ps : List (ℕ → Bool)) (s : Text)
    → All (Within q) ps
    → row ps s ≡ true
    → all q s ≡ true
all-row q [] [] f h = refl
all-row q [] (c ∷ s) f h = absurd (ground arith)
all-row q (p ∷ ps) [] f h = refl
all-row q (p ∷ ps) (c ∷ s) f h = ground (arith, f.0 c, all-row q ps s f.1)

All-times :
    (q p : ℕ → Bool) (n : ℕ) (ps : List (ℕ → Bool))
    → Within q p
    → All (Within q) ps
    → All (Within q) (times n p ps)
All-times q p zero ps f g = g
All-times q p (suc n) ps f g = (f, All-times q p n ps f g)

pub is_arm_name-all :
    (s : Text) → is_arm_name s ≡ true → (is_empty s ≡ false) × (all is_segment_char s ≡ true)
unfolding is_arm_name
is_arm_name-all s h =
    (ground arith, all-Within is_arm_char is_segment_char s arm-Within (ground arith))

-- The last groups of a subscription ID: `n` of four digits, then one of twelve.
abbrev groups : ℕ → List (ℕ → Bool)
groups zero = dash ∷ times 12 is_hex []
groups (suc n) = dash ∷ times 4 is_hex (groups n)

groups-Within : (n : ℕ) → All (Within is_segment_char) (groups n)
groups-Within zero = (dash-Within, All-times is_segment_char is_hex 12 [] hex-Within tt)
groups-Within (suc n) =
    (dash-Within, All-times is_segment_char is_hex 4 (groups n) hex-Within (groups-Within n))

pub is_subscription_id-all :
    (s : Text) → is_subscription_id s ≡ true → (is_empty s ≡ false) × (all is_segment_char s ≡ true)
unfolding is_subscription_id
is_subscription_id-all [] h = absurd (ground arith)
is_subscription_id-all (c ∷ s) h = (
  refl,
  all-row is_segment_char (times 8 is_hex (groups 3)) (c ∷ s)
      (All-times is_segment_char is_hex 8 (groups 3) hex-Within (groups-Within 3)) h,
)
