-- ===== src/Client/CaBundle/Restores.antt =====
-- What the body sees of the environment, and what is left of it afterwards.
use mlops_templates.Prelude.{◌≡◌, refl, Option, some, List, [], ◌∷◌, arith, if◌then◌else◌, ◌∙◌}
use mlops_templates.Text.{Text, one_of}
use mlops_templates.Text.Laws.{str_eq→eq}
use mlops_templates.Outcome.{Exn, Result, ok, err}
use mlops_templates.Client.Environ.{Environ, assign}
use mlops_templates.Client.CaBundle.{
  Files, Process, set_all, restore, save, check_bundle, with_bundle, use_private_ca_bundle,
  ca_bundle_environment_variables,
}

-- What is assigned to each of the variables, and to no other.
environ-set_all :
    (variables : List Text) (value : Option Text) (environ : Environ) (v : Text)
    → set_all variables value environ v ≡ (if one_of v variables then value else environ v)
unfolding set_all
environ-set_all [] value environ v = refl
environ-set_all (x ∷ xs) value environ v =
    environ-set_all xs value (assign x value environ) v ∙ ground arith

environ-restore :
    (variables : List Text) (old new : Environ) (v : Text)
    → restore (save variables old) new v ≡ (if one_of v variables then old v else new v)
unfolding restore save
environ-restore [] old new v = refl
environ-restore (x ∷ xs) old new v =
    environ-restore xs old (assign x (old x) new) v ∙ ground (arith, str_eq→eq v x)

module _ (files : Files) {W A : Type 0} (body : Text → Process W → Result A × Process W) where
  -- The environment and the state in which the body ran.
  abbrev pub entered : Text → Process W → Process W
  entered path process = record process {
    environ = set_all ca_bundle_environment_variables (some path) process.environ;
  }

  -- A bundle that is turned down raises an exception and touches nothing: the body does not run.
  pub use_private_ca_bundle-rejected :
      (ca_bundle : Text) (process : Process W) (exn : Exn)
      → check_bundle files ca_bundle ≡ err exn
      → use_private_ca_bundle files body ca_bundle process ≡ (err exn, process)
  unfolding use_private_ca_bundle with_bundle
  use_private_ca_bundle-rejected ca_bundle process exn e = rw e

  -- With a bundle that is accepted the body runs with both variables set to the resolved path, and
  -- its result is passed on. Afterwards, also where the body raised, both variables are what they
  -- were before, and every other variable and the rest of the state are as the body left them.
  pub use_private_ca_bundle-restores :
      (ca_bundle path : Text) (process : Process W) (variable : Text)
      → check_bundle files ca_bundle ≡ ok path
      → let before = entered path process in
        let after = body path before in
        let run = use_private_ca_bundle files body ca_bundle process in
        (before.environ variable ≡ (
          if one_of variable ca_bundle_environment_variables
          then some path
          else process.environ variable))
        × (run.0 ≡ after.0)
        × (run.1.environ variable ≡ (
            if one_of variable ca_bundle_environment_variables
            then process.environ variable
            else after.1.environ variable))
        × (run.1.rest ≡ after.1.rest)
  unfolding use_private_ca_bundle
  use_private_ca_bundle-restores ca_bundle path process variable e = rw e (
      unfold with_bundle in
      (
        environ-set_all ca_bundle_environment_variables (some path) process.environ variable,
        refl,
        environ-restore ca_bundle_environment_variables process.environ
            (body path (entered path process)).1.environ variable,
        refl,
      ))
