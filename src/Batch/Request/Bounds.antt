-- ===== src/Batch/Request/Bounds.antt =====
-- What is known of an answer that `_request_bytes` returns.
use mlops_templates.Prelude.{
  ℕ, ◌+◌, ◌≤◌, ◌≡◌, ◌⊎◌, inl, inr, refl, subst, Option, none, some, arith, length,
}
use mlops_templates.Text.{Text}
use mlops_templates.Numeral.{ℤ, pos, negsuc, int_of}
use mlops_templates.Outcome.{Exn, Result, ok, err, handle}
use mlops_templates.Outcome.Laws.{lift-continue, continue-eq-ok}
use mlops_templates.Batch.Request.{
  Bytes, Http, within_bound, declared_length, check_body, on_request_error, read_bounded,
  request_bytes,
}

-- The number of bytes is the one that the header declares, if there is a header.
abbrev pub IsDeclared : Option Text → ℕ → Type 0
IsDeclared none n = Unit
IsDeclared (some header) n = int_of header ≡ some (pos n)

body_in_bounds :
    (maximum : ℕ) (declared : Option ℕ) (body : Bytes)
    → check_body maximum declared body ≡ ok tt
    → (length body ≤ maximum) × ((declared ≡ none) ⊎ (declared ≡ some (length body)))
unfolding check_body
body_in_bounds maximum none body h = (ground arith, inl refl)
body_in_bounds maximum (some n) body h = (ground arith, inr (ground arith))

within_bound-eq-ok :
    (maximum n : ℕ) (o : Option ℤ) {declared : Option ℕ}
    → within_bound maximum o ≡ ok declared
    → (declared ≡ none) ⊎ (declared ≡ some n)
    → o ≡ some (pos n)
within_bound-eq-ok maximum n none h way = absurd (ground arith)
within_bound-eq-ok maximum n (some (negsuc k)) h way = absurd (ground arith)
within_bound-eq-ok maximum n (some (pos k)) h way = ground arith

declared_length-IsDeclared :
    (maximum : ℕ) (header : Option Text) (n : ℕ) {declared : Option ℕ}
    → declared_length maximum header ≡ ok declared
    → (declared ≡ none) ⊎ (declared ≡ some n)
    → IsDeclared header n
unfolding declared_length
declared_length-IsDeclared maximum none n h way = tt
declared_length-IsDeclared maximum (some header) n h way =
    within_bound-eq-ok maximum n (int_of header) h way

on_request_error_raises :
    {W P : Type 0} (exn : Exn) (w u : W) (p : P) → on_request_error exn w ≡ (ok p, u) → ⊥
on_request_error_raises exn w u p e = ground arith

handle-on_request_error :
    {W P : Type 0} (o : Result P × W) (u : W) (p : P)
    → handle on_request_error o ≡ (ok p, u)
    → o ≡ (ok p, u)
handle-on_request_error (ok q, w) u p e = e
handle-on_request_error (err exn, w) u p e = absurd (on_request_error_raises exn w u p e)

module _ {W P : Type 0} (http : Http W P) where
  -- An answer that `_request_bytes` returns has at most the allowed number of bytes, and as many as
  -- its Content-Length says, if it has one, whatever the server sends and the header reads.
  pub request_bytes-IsDeclared :
      (url : Text) (maximum_bytes : ℕ) (w u : W) (body : Bytes) (response : P)
      → request_bytes http url maximum_bytes w ≡ (ok (body, response), u)
      → (length body ≤ maximum_bytes) × IsDeclared (http.content_length response) (length body)
  unfolding request_bytes read_bounded
  request_bytes-IsDeclared url maximum_bytes w u body response e =
      let ran =
        handle-on_request_error (read_bounded http url maximum_bytes w) u (body, response) e in
      let (opened, v, e1, r1) = continue-eq-ok _ (http.open_url url w) ran in
      let (declared, e2, r2) =
        lift-continue _ (declared_length maximum_bytes (http.content_length opened)) v r1 in
      let (got, x, e3, r3) = continue-eq-ok _ (http.read opened (maximum_bytes + 1) v) r2 in
      let (_, e4, r4) = lift-continue _ (check_body maximum_bytes declared got) x r3 in
      let same_body : got ≡ body = ground (arith, r4) in
      let same : opened ≡ response = ground (arith, r4) in
      let (few, declared_or_not) = body_in_bounds maximum_bytes declared got e4 in
      let is_declared =
        declared_length-IsDeclared maximum_bytes (http.content_length opened) (length got) e2
          declared_or_not in
      (
        subst (λ b. length b ≤ maximum_bytes) same_body few,
        subst (λ b. IsDeclared (http.content_length response) (length b)) same_body
            (subst (λ r. IsDeclared (http.content_length r) (length got)) same is_declared),
      )
