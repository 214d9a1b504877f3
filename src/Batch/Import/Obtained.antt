-- ===== src/Batch/Import/Obtained.antt =====
-- Where an environment that is imported comes from.
use mlops_templates.Prelude.{◌≡◌, ◌↔◌, ◌⊎◌, inl, inr, refl, Option, none, some, arith}
use mlops_templates.Text.{Text}
use mlops_templates.Outcome.{
  Exn, Result, ok, err, runtime_error, value_error, timeout_error, argument_type_error,
  assertion_error, resource_exists, os_error, other, resource_not_found,
}
use mlops_templates.Outcome.Laws.{continue-eq-ok, lift-eq-ok}
use mlops_templates.Azure.{Environment}
use mlops_templates.Batch.Import.{
  Environments, or_not_found, existing_workspace_environment, reuse_or_create, find_or_create,
}

-- The three ways in which a lookup ends.
data LookupEnds {W : Type 0} (o : Result Environment × W) : Type 0 where
  found :
      (x : Environment) (w : W) → o ≡ (ok x, w) → or_not_found o ≡ (ok (some x), w) → LookupEnds o
  missing : (w : W) → o ≡ (err resource_not_found, w) → or_not_found o ≡ (ok none, w) → LookupEnds o
  failed : (exn : Exn) (w : W) → or_not_found o ≡ (err exn, w) → LookupEnds o

lookup_ends : {W : Type 0} (o : Result Environment × W) → LookupEnds o
lookup_ends (ok x, w) = found x w refl refl
lookup_ends (err resource_not_found, w) = missing w refl refl
lookup_ends (err (runtime_error r), w) = failed (runtime_error r) w refl
lookup_ends (err (value_error r), w) = failed (value_error r) w refl
lookup_ends (err (timeout_error r), w) = failed (timeout_error r) w refl
lookup_ends (err (argument_type_error r), w) = failed (argument_type_error r) w refl
lookup_ends (err assertion_error, w) = failed assertion_error w refl
lookup_ends (err resource_exists, w) = failed resource_exists w refl
lookup_ends (err os_error, w) = failed os_error w refl
lookup_ends (err other, w) = failed other w refl

module _ {W : Type 0} (environments : Environments W) (name version : Text)
    (new : Environment) where
  -- It was in the workspace, and nothing was created, or the workspace had none, and it is what the
  -- service returned for the new one.
  abbrev pub Obtained : W → Environment → W → Type 0
  Obtained w environment u =
      (environments.get name version w ≡ (ok environment, u))
      ⊎ ((v : W) × (environments.get name version w ≡ (err resource_not_found, v))
          × (environments.create_or_update new v ≡ (ok environment, u)))

  -- What the lookup found decides between the two ways.
  ended :
      (w : W) {o : Option Environment} {v : W} {x : Environment} {u : W}
      → LookupEnds (environments.get name version w)
      → or_not_found (environments.get name version w) ≡ (ok o, v)
      → (o ≡ some x) × (v ≡ u) ⊎ (o ≡ none) × (environments.create_or_update new v ≡ (ok x, u))
      → Obtained w x u
  ended w {o} {v} {x} {u} (found y w1 got seen) looked (inl (a, b)) =
      inl (ground (arith, got, seen, looked, a, b))
  ended w {o} {v} {x} {u} (found y w1 got seen) looked (inr (a, b)) = absurd (ground arith)
  ended w {o} {v} {x} {u} (missing w1 got seen) looked (inl (a, b)) = absurd (ground arith)
  ended w {o} {v} {x} {u} (missing w1 got seen) looked (inr (a, b)) = inr (w1, got, ground arith)
  ended w {o} {v} {x} {u} (failed exn w1 seen) looked way = absurd (ground arith)

  -- Two checks that hand on the environments that are good, and no others.
  module _ (Good : Environment → Type 0)
      (check_existing check_created : Environment → Result Environment)
      (existing_iff : (y x : Environment) → (check_existing y ≡ ok x) ↔ ((x ≡ y) × Good x))
      (created_iff : (y x : Environment) → (check_created y ≡ ok x) ↔ ((x ≡ y) × Good x)) where
    -- The end of the run, by what the lookup found.
    reuse_or_create-eq-ok :
        (o : Option Environment) (v : W) {x : Environment} {u : W}
        → reuse_or_create environments new check_existing check_created o v ≡ (ok x, u)
        → ((o ≡ some x) × (v ≡ u) ⊎ (o ≡ none) × (environments.create_or_update new v ≡ (ok x, u)))
          × Good x
    reuse_or_create-eq-ok (some y) v {x} {u} e =
        let (checked, last) = lift-eq-ok (check_existing y) v e in
        let (same, good) = (existing_iff y x).0 checked in (inl (ground arith, last), good)
    reuse_or_create-eq-ok none v {x} {u} e =
        let (created, w, made, e1) = continue-eq-ok _ (environments.create_or_update new v) e in
        let (checked, last) = lift-eq-ok (check_created created) w e1 in
        let (same, good) = (created_iff created x).0 checked in
        (inr (refl, ground (arith, made, same, last)), good)

    found-Obtained :
        (w u : W) (x : Environment)
        → find_or_create environments new check_existing check_created name version w ≡ (ok x, u)
        → Obtained w x u × Good x
    unfolding find_or_create existing_workspace_environment
    found-Obtained w u x e =
        let (existing, v, looked, e1) =
          continue-eq-ok _ (or_not_found (environments.get name version w)) e in
        let (ways, good) = reuse_or_create-eq-ok existing v e1 in
        (ended w (lookup_ends (environments.get name version w)) looked ways, good)

    Obtained-found :
        (w u : W) (x : Environment)
        → Obtained w x u
        → Good x
        → find_or_create environments new check_existing check_created name version w ≡ (ok x, u)
    unfolding find_or_create existing_workspace_environment
    Obtained-found w u x (inl got) good = rw (got, (existing_iff x x).1 (refl, good))
    Obtained-found w u x (inr (v, missed, made)) good =
        rw (missed, made, (created_iff x x).1 (refl, good))

    pub find_or_create_iff :
        (w u : W) (x : Environment)
        → (find_or_create environments new check_existing check_created name version w ≡ (ok x, u))
          ↔ (Obtained w x u × Good x)
    find_or_create_iff w u x = (found-Obtained w u x, λ h. Obtained-found w u x h.0 h.1)
