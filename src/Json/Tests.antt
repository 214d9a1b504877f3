-- ===== src/Json/Tests.antt =====
-- Texts and numbers as JSON.
use mlops_templates.Prelude.{◌≡◌, refl, [], ◌∷◌}
use mlops_templates.Text.{str}
use mlops_templates.Json.{decimal, json_text}

large : decimal 33554432 ≡ str "33554432"
unfolding decimal
large = refl

quoted : json_text (str "a\"b\\c") ≡ str "\"a\\\"b\\\\c\""
unfolding json_text
quoted = refl

beyond : json_text (0x1f600 ∷ 0xe9 ∷ 10 ∷ []) ≡ str "\"\\ud83d\\ude00\\u00e9\\n\""
unfolding json_text
beyond = refl
