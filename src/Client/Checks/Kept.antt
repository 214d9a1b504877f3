-- ===== src/Client/Checks/Kept.antt =====
-- What the check of a model keeps of the world.
use mlops_templates.Prelude.{Bool}
use mlops_templates.Text.{Text}
use mlops_templates.Outcome.{Exec}
use mlops_templates.Outcome.Keeps.{
  Keeps, Keeps-pure, Keeps-raise, Keeps-lift, Keeps-rescue, Keeps-bind, Keeps-then,
}
use mlops_templates.Azure.{Model}
use mlops_templates.Client.Checks.{check_model, get_registered_model}

module _ {W : Type 0} {Q : W → Type 0} (get_model : Text → Text → Exec W Model)
    (kept : (name version : Text) → Keeps Q (get_model name version)) where
  pub Keeps-get_registered_model :
      (name version : Text) (require_mlflow : Bool)
      → Keeps Q (get_registered_model get_model name version require_mlflow)
  unfolding get_registered_model
  Keeps-get_registered_model name version require_mlflow =
      Keeps-bind _ _ (Keeps-rescue _ _ (kept name version) (λ exn. Keeps-raise _))
        (λ model. Keeps-then _ _ (Keeps-lift (check_model require_mlflow model)) (Keeps-pure model))
