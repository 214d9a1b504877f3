-- ===== src/Batch/Request/Kept.antt =====
-- A request changes no more of the world than the connection does.
use mlops_templates.Prelude.{ℕ, ◌+◌}
use mlops_templates.Text.{Text}
use mlops_templates.Outcome.Keeps.{
  Keeps, Keeps-pure, Keeps-raise, Keeps-lift, Keeps-if, Keeps-rescue, Keeps-bind, Keeps-then,
}
use mlops_templates.Batch.Request.{Http, read_bounded, request_bytes}

module _ {W P : Type 0} {Q : W → Type 0} (http : Http W P)
    (open_url : (url : Text) → Keeps Q (http.open_url url))
    (read : (response : P) (n : ℕ) → Keeps Q (http.read response n)) where
  pub Keeps-request_bytes : (url : Text) (n : ℕ) → Keeps Q (request_bytes http url n)
  unfolding request_bytes read_bounded
  Keeps-request_bytes url n =
      Keeps-rescue _ _
        (Keeps-bind _ _ (open_url url) (λ response. Keeps-bind _ _ (Keeps-lift _) (λ declared.
          Keeps-bind _ _ (read response (n + 1))
            (λ body. Keeps-then _ _ (Keeps-lift _) (Keeps-pure _)))))
        (λ exn. Keeps-if _ _ _ (Keeps-raise _) (Keeps-raise _))
