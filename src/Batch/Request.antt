-- ===== src/Batch/Request.antt =====
-- `_request_bytes` of src/python-sdk-v2/create_batch_deployment.py.
pub mod Bounds
pub mod Kept
mod Tests
use mlops_templates.Prelude.{
  ℕ, suc, ◌+◌, Bool, true, false, not, Option, none, some, List, ltb, ◌==◌, if◌then◌else◌, length,
  take,
}
use mlops_templates.Text.{Text}
use mlops_templates.Outcome.{
  Exn, Result, ok, err, raise_if, Exec, lift, rescue, ◌>>=◌, ◌>>◌, pure, raise, os_error,
  runtime_error, invalid_content_length, exceeds_size_bound, content_length_differs, request_failed,
}
use mlops_templates.Numeral.{ℤ, pos, negsuc, int_of}

abbrev pub Bytes : Type 0
Bytes = List ℕ

-- `_open_url` with its request, whose response is closed on the way out, and what is read of the
-- response. `os_error` stands for HTTPError, URLError and TimeoutError.
pub record Http (W P : Type 0) : Type 0 where
  pub open_url : Text → Exec W P
  -- response.headers.get("Content-Length")
  pub content_length : P → Option Text
  -- response.headers.get("Content-MD5")
  pub content_md5 : P → Option Text
  -- response.read(n)
  pub read : P → ℕ → Exec W Bytes

-- `int(content_length)`, none where it raises ValueError, and its bounds
abbrev pub within_bound : ℕ → Option ℤ → Result (Option ℕ)
within_bound maximum none = err (runtime_error invalid_content_length)
within_bound maximum (some (negsuc n)) = err (runtime_error exceeds_size_bound)
within_bound maximum (some (pos n)) =
    if ltb maximum n then err (runtime_error exceeds_size_bound) else ok (some n)

unfoldable pub declared_length : ℕ → Option Text → Result (Option ℕ)
declared_length maximum none = ok none
declared_length maximum (some header) = within_bound maximum (int_of header)

unfoldable pub check_body : ℕ → Option ℕ → Bytes → Result (Unit {0})
check_body maximum declared body =
    if ltb maximum (length body) then err (runtime_error exceeds_size_bound) else elim declared [
      | none ↦ ok tt
      | some n ↦ raise_if (not (length body == n)) (runtime_error content_length_differs)
    ]

abbrev is_os_error : Exn → Bool
is_os_error os_error = true
is_os_error exn = false

-- `except (HTTPError, URLError, TimeoutError)`
abbrev pub on_request_error : {W P : Type 0} → Exn → Exec W P
on_request_error exn = if is_os_error exn then raise (runtime_error request_failed) else raise exn

module _ {W P : Type 0} (http : Http W P) where
  -- The block under `try`.
  unfoldable pub read_bounded : Text → ℕ → Exec W (Bytes × P)
  read_bounded url maximum_bytes = do
    response ← http.open_url url
    declared ← lift (declared_length maximum_bytes (http.content_length response))
    body ← http.read response (maximum_bytes + 1)
    lift (check_body maximum_bytes declared body)
    pure (body, response)

  -- The headers are those of the response that is returned.
  unfoldable pub request_bytes : Text → ℕ → Exec W (Bytes × P)
  request_bytes url maximum_bytes = rescue (read_bounded url maximum_bytes) on_request_error
