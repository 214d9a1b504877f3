-- ===== src/Batch/Provenance/Collision.antt =====
-- What `_validate_workspace_environment` accepts.
use mlops_templates.Prelude.{◌≡◌, ◌↔◌, refl, true, false, Option, none, some, [], ◌∷◌, arith, ap}
use mlops_templates.Text.{Text, is_empty, or_empty}
use mlops_templates.Text.Laws.{str_eq→eq, str_eq_iff}
use mlops_templates.Outcome.{ok}
use mlops_templates.Azure.{Environment, Dict}
use mlops_templates.Batch.Reference.{environment_matches}
use mlops_templates.Batch.Provenance.{
  lookup, environment_provenance, or_no_provenance, same_value, differs, workspace_uri,
  validate_workspace_environment,
}

-- The dict has all the items that are expected.
abbrev pub Holds : Dict → Dict → Type 0
Holds actual [] = Unit
Holds actual ((key, value) ∷ expected) = (lookup key actual ≡ some value) × Holds actual expected

same_value_iff : (value : Text) (o : Option Text) → (same_value value o ≡ true) ↔ (o ≡ some value)
same_value_iff value none = (λ h. absurd (ground arith), λ h. absurd (ground arith))
same_value_iff value (some v) =
    (λ h. ap some (str_eq→eq v value h), λ h. (str_eq_iff v value).1 (ground arith))

pub differs→Holds :
    (actual expected : Dict) → differs actual expected ≡ false → Holds actual expected
unfolding differs
differs→Holds actual [] h = tt
differs→Holds actual ((key, value) ∷ expected) h = (
  (same_value_iff value (lookup key actual)).0 (ground arith),
  differs→Holds actual expected (ground arith),
)

pub Holds→differs :
    (actual expected : Dict) → Holds actual expected → differs actual expected ≡ false
unfolding differs
Holds→differs actual [] h = refl
Holds→differs actual ((key, value) ∷ expected) h =
    rw ((same_value_iff value (lookup key actual)).1 h.0, Holds→differs actual expected h.1)

-- What an environment of the workspace has to be to be taken for the import of `expected`.
pub record IsImport (environment : Environment) (name version : Text) (expected : Dict)
    : Type 0 where
  pub named : or_empty environment.name ≡ name
  pub versioned : or_empty environment.version ≡ version
  pub provenance : Holds (or_no_provenance (environment_provenance environment)) expected
  pub identified : is_empty (or_empty environment.id) ≡ false
  pub matched : environment_matches (workspace_uri name version) (or_empty environment.id) ≡ true

-- `_validate_workspace_environment` returns the environment that it was given, exactly where its
-- name and version are the expected ones, its provenance, if it is free of conflicts, has all the
-- expected items, and its ID is one of that name and version. Otherwise it raises.
pub validate_workspace_environment_iff :
    (environment x : Environment) (name version : Text) (expected : Dict)
    → (validate_workspace_environment environment name version expected ≡ ok x)
      ↔ ((x ≡ environment) × IsImport environment name version expected)
unfolding validate_workspace_environment
validate_workspace_environment_iff environment x name version expected = (
  λ h. (
    ground arith,
    record {
      named = str_eq→eq (or_empty environment.name) name (ground arith);
      versioned = str_eq→eq (or_empty environment.version) version (ground arith);
      provenance =
          differs→Holds (or_no_provenance (environment_provenance environment)) expected
            (ground arith);
      identified = ground arith;
      matched = ground arith;
    },
  ),
  λ h. rw (
    (str_eq_iff (or_empty environment.name) name).1 h.1.named,
    (str_eq_iff (or_empty environment.version) version).1 h.1.versioned,
    Holds→differs (or_no_provenance (environment_provenance environment)) expected h.1.provenance,
    h.1.identified,
    h.1.matched,
    h.0,
  ),
)
