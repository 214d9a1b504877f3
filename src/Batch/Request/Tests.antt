-- ===== src/Batch/Request/Tests.antt =====
-- Answers within their bounds, and some that are not.
use mlops_templates.Prelude.{ℕ, ◌≤◌, ◌≡◌, refl, Option, none, some, [], ◌∷◌, length}
use mlops_templates.Text.{Text, str, strip, digit_value}
use mlops_templates.Numeral.{int_of}
use mlops_templates.Outcome.{
  ok, err, runtime_error, exceeds_size_bound, content_length_differs, request_failed, os_error,
}
use mlops_templates.Batch.Request.{
  Bytes, Http, declared_length, check_body, read_bounded, request_bytes,
}
use mlops_templates.Batch.Request.Bounds.{IsDeclared, request_bytes-IsDeclared}

abbrev three : Bytes
three = 1 ∷ 2 ∷ 3 ∷ []

-- A server that sends three bytes under some header. The world counts the requests.
abbrev server : Option Text → Http ℕ (Option Text)
server header = record {
  open_url = λ url w. (ok header, w);
  content_length = λ h. h;
  content_md5 = λ h. none;
  read = λ h n w. (ok three, w);
}

abbrev broken : Http ℕ (Option Text)
broken = record (server none) { read = λ h n w. (err os_error, w) }

answered : request_bytes (server (some (str " 3"))) (str "u") 4 0 ≡ (ok (three, some (str " 3")), 0)
unfolding request_bytes read_bounded declared_length check_body int_of strip digit_value
answered = refl

too_long : request_bytes (server none) (str "u") 2 0 ≡ (err (runtime_error exceeds_size_bound), 0)
unfolding request_bytes read_bounded declared_length check_body
too_long = refl

shorter :
    request_bytes (server (some (str "4"))) (str "u") 4 0
    ≡ (err (runtime_error content_length_differs), 0)
unfolding request_bytes read_bounded declared_length check_body int_of strip digit_value
shorter = refl

negative :
    request_bytes (server (some (str "-1"))) (str "u") 4 0
    ≡ (err (runtime_error exceeds_size_bound), 0)
unfolding request_bytes read_bounded declared_length int_of strip digit_value
negative = refl

breaks : request_bytes broken (str "u") 4 0 ≡ (err (runtime_error request_failed), 0)
unfolding request_bytes read_bounded declared_length
breaks = refl

request_bytes-IsDeclared_example : (length three ≤ 4) × IsDeclared (some (str " 3")) (length three)
request_bytes-IsDeclared_example =
    request_bytes-IsDeclared (server (some (str " 3"))) (str "u") 4 0 0 three (some (str " 3"))
      answered
