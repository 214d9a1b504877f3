-- ===== src/Batch/RegistryEnvironment/Located.antt =====
-- What `_get_registry_environment` has checked when it returns.
use mlops_templates.Prelude.{
  ◌≡◌, ◌⊎◌, refl, subst, true, false, Option, none, some, arith, Bool-cases, inl, inr,
}
use mlops_templates.Text.{Text, is_empty, lower, or_empty, or_none, is_digit}
use mlops_templates.Text.Laws.{str_eq→eq}
use mlops_templates.Outcome.{ok}
use mlops_templates.Outcome.Laws.{lift-continue, rescue-continue}
use mlops_templates.Azure.{Environment}
use mlops_templates.Client.Credential.{Sdk, create_registry_ml_client}
use mlops_templates.Batch.Reference.{
  RegistryReference, parse_registry_environment_reference, is_full_environment_id,
  environment_matches, rstrip_slash,
}
use mlops_templates.Batch.Reference.Patterns.{is_segment_char}
use mlops_templates.Batch.Reference.Patterns.Segments.{is_arm_name-all, is_subscription_id-all}
use mlops_templates.Batch.Reference.Parsing.{
  IsRun, IsWellFormed, parse-IsWellFormed, parse-full_id_text,
}
use mlops_templates.Batch.RegistryEnvironment.{
  Scope, Registry, Found, check_names, check_scope, check_ids, resolved_id, agrees, same,
  get_parsed, get_if_parsed, get_registry_environment,
}

-- What is returned for a reference that was parsed, with the scope of the registry client.
pub record IsLocated {M : Type 0} (requested : Text) (reference : RegistryReference) (scope : Scope)
    (found : Found M) : Type 0 where
  pub registry_name : found.registry_name ≡ reference.registry_name
  pub environment_name : found.environment_name ≡ reference.environment_name
  pub version : found.version ≡ reference.version
  -- The resolved ID names the parts of the scope and of the reference.
  pub parsed :
      parse_registry_environment_reference found.resolved_id
      ≡ some (record {
        subscription_id = some (or_empty scope.subscription_id);
        resource_group = some (or_empty scope.resource_group_name);
        registry_name = or_empty scope.registry_name;
        environment_name = reference.environment_name;
        version = reference.version;
      })
  pub matched : environment_matches requested found.resolved_id ≡ true
  pub same_registry : lower (or_empty scope.registry_name) ≡ lower reference.registry_name
  pub same_scope :
      (is_empty (or_empty reference.subscription_id) ≡ true)
      ⊎ (lower (or_empty scope.subscription_id) ≡ lower (or_empty reference.subscription_id))
        × (lower (or_empty scope.resource_group_name) ≡ lower (or_none reference.resource_group))
  -- The ID that the service returned is of the same environment.
  pub returned :
      (x : RegistryReference) × (parse_registry_environment_reference
          (rstrip_slash (or_empty found.environment.id))
        ≡ some x)
      × (lower x.registry_name ≡ lower reference.registry_name)
      × (lower x.environment_name ≡ lower reference.environment_name)
      × (x.version ≡ reference.version)
  pub same_id :
      (is_full_environment_id (rstrip_slash (or_empty found.environment.id)) ≡ false)
      ⊎ (lower (rstrip_slash (or_empty found.environment.id)) ≡ lower found.resolved_id)

same→eq : (a b : Text) → same a b ≡ true → lower a ≡ lower b
same→eq a b h = str_eq→eq (lower a) (lower b) h

agrees→returned :
    (reference : RegistryReference) (o : Option RegistryReference)
    → agrees reference o ≡ true
    → (x : RegistryReference) × (o ≡ some x)
      × (lower x.registry_name ≡ lower reference.registry_name)
      × (lower x.environment_name ≡ lower reference.environment_name)
      × (x.version ≡ reference.version)
agrees→returned reference none h = absurd (ground arith)
agrees→returned reference (some x) h = (
  x,
  refl,
  same→eq x.registry_name reference.registry_name (ground arith),
  same→eq x.environment_name reference.environment_name (ground arith),
  str_eq→eq x.version reference.version (ground arith),
)

module _ (reference : RegistryReference) (scope : Scope)
    (scoped : check_scope reference scope ≡ ok tt) where
  pub parse-resolved_id :
      IsRun is_segment_char reference.environment_name
      → IsRun is_digit reference.version
      → parse_registry_environment_reference (resolved_id reference scope)
        ≡ some (record {
          subscription_id = some (or_empty scope.subscription_id);
          resource_group = some (or_empty scope.resource_group_name);
          registry_name = or_empty scope.registry_name;
          environment_name = reference.environment_name;
          version = reference.version;
        })
  unfolding check_scope resolved_id
  parse-resolved_id he hv =
      parse-full_id_text (or_empty scope.registry_name) reference.environment_name reference.version
        (is_arm_name-all (or_empty scope.registry_name) (ground arith)) he hv
        (or_empty scope.subscription_id) (or_empty scope.resource_group_name)
        (is_subscription_id-all (or_empty scope.subscription_id) (ground arith))
        (is_arm_name-all (or_empty scope.resource_group_name) (ground arith))

  pub registry-same : lower (or_empty scope.registry_name) ≡ lower reference.registry_name
  unfolding check_scope
  registry-same = same→eq (or_empty scope.registry_name) reference.registry_name (ground arith)

  pub scope-same :
      (is_empty (or_empty reference.subscription_id) ≡ true)
      ⊎ (lower (or_empty scope.subscription_id) ≡ lower (or_empty reference.subscription_id))
        × (lower (or_empty scope.resource_group_name) ≡ lower (or_none reference.resource_group))
  unfolding check_scope
  scope-same = elim (Bool-cases (is_empty (or_empty reference.subscription_id))) [
    | inl e ↦ inl e
    | inr e ↦ inr (
      same→eq (or_empty scope.subscription_id) (or_empty reference.subscription_id) (ground arith),
      same→eq (or_empty scope.resource_group_name) (or_none reference.resource_group)
          (ground arith),
    )
  ]

module _ (requested : Text) (reference : RegistryReference) (resolved id : Text)
    (checked : check_ids requested reference resolved id ≡ ok tt) where
  matches-resolved : environment_matches requested resolved ≡ true
  unfolding check_ids
  matches-resolved = ground arith

  returned-same :
      (x : RegistryReference) × (parse_registry_environment_reference id ≡ some x)
      × (lower x.registry_name ≡ lower reference.registry_name)
      × (lower x.environment_name ≡ lower reference.environment_name)
      × (x.version ≡ reference.version)
  unfolding check_ids
  returned-same = agrees→returned reference (parse_registry_environment_reference id) (ground arith)

  id-same : (is_full_environment_id id ≡ false) ⊎ (lower id ≡ lower resolved)
  unfolding check_ids
  id-same = elim (Bool-cases (is_full_environment_id id)) [
    | inl e ↦ inr (same→eq id resolved (ground arith))
    | inr e ↦ inl e
  ]

-- The tuple for a reference, with the client and the environment that were found.
abbrev found_of : {M : Type 0} → RegistryReference → Scope → M → Environment → Found M
found_of reference scope client environment = record {
  registry_client = client;
  environment = environment;
  registry_name = reference.registry_name;
  environment_name = reference.environment_name;
  version = reference.version;
  resolved_id = resolved_id reference scope;
}

found_of-IsLocated :
    {M : Type 0} (requested : Text) (reference : RegistryReference) (scope : Scope) (client : M)
    (environment : Environment)
    → IsWellFormed reference
    → check_scope reference scope ≡ ok tt
    → check_ids requested reference
        (resolved_id reference scope)
        (rstrip_slash (or_empty environment.id))
      ≡ ok tt
    → IsLocated requested reference scope (found_of reference scope client environment)
found_of-IsLocated requested reference scope client environment formed scoped checked =
    let resolved = resolved_id reference scope in
    let id = rstrip_slash (or_empty environment.id) in
    record {
      registry_name = refl;
      environment_name = refl;
      version = refl;
      parsed = parse-resolved_id reference scope scoped formed.1 formed.2;
      matched = matches-resolved requested reference resolved id checked;
      same_registry = registry-same reference scope scoped;
      same_scope = scope-same reference scope scoped;
      returned = returned-same requested reference resolved id checked;
      same_id = id-same requested reference resolved id checked;
    }

module _ {W C M : Type 0} (sdk : Sdk W C M) (registry : Registry W M) where
  -- The run itself: the registry client that it made and the environment that it read.
  abbrev pub Ran : M → Text → W → Found M → W → Type 0
  Ran ml_client requested w found u =
      (reference : RegistryReference) × (parse_registry_environment_reference requested
        ≡ some reference)
      × (create_registry_ml_client sdk ml_client reference.registry_name ≡ ok found.registry_client)
      × (registry.get found.registry_client reference.environment_name reference.version w
          ≡ (ok found.environment, u))
      × IsLocated requested reference (registry.scope found.registry_client) found

  get_if_parsed-Ran :
      (ml_client : M) (requested : Text) (w : W) (o : Option RegistryReference) {found : Found M}
      {u : W}
      → parse_registry_environment_reference requested ≡ o
      → get_if_parsed sdk registry ml_client requested o w ≡ (ok found, u)
      → Ran ml_client requested w found u
  unfolding get_parsed
  get_if_parsed-Ran ml_client requested w none h e = absurd (ground arith)
  get_if_parsed-Ran ml_client requested w (some reference) {found} {u} h e =
      let (_, names, e1) = lift-continue _ (check_names reference) w e in
      let (client, made, e2) =
        lift-continue _ (create_registry_ml_client sdk ml_client reference.registry_name) w e1 in
      let (environment, v, got, e3) =
        rescue-continue _ _ (registry.get client reference.environment_name reference.version w)
          e2 in
      let scope = registry.scope client in
      let (_, scoped, e4) = lift-continue _ (check_scope reference scope) v e3 in
      let (_, checked, e5) =
        lift-continue _
          (check_ids requested reference (resolved_id reference scope)
            (rstrip_slash (or_empty environment.id)))
          v e4 in
      let is_found : found_of reference scope client environment ≡ found = ground arith in
      let is_last : v ≡ u = ground arith in
      subst (λ x. Ran ml_client requested w x u) is_found
        (
          reference,
          h,
          made,
          rw is_last at got,
          found_of-IsLocated requested reference scope client environment
              (parse-IsWellFormed requested h) scoped checked,
        )

  -- `_get_registry_environment` returns only for a registry reference, with the registry client of
  -- its registry name and the environment that the lookup gave. The resolved ID is parsed into the
  -- subscription, resource group and registry of the client's scope with the environment name and
  -- version of the reference, and matches the reference. The scope is that of the reference, as
  -- far as the reference names one, and the ID that the service returned is of the same registry,
  -- environment and version, and equal to the resolved ID if it is a full one.
  pub get_registry_environment-IsLocated :
      (ml_client : M) (requested : Text) (w : W) {found : Found M} {u : W}
      → get_registry_environment sdk registry ml_client requested w ≡ (ok found, u)
      → Ran ml_client requested w found u
  unfolding get_registry_environment
  get_registry_environment-IsLocated ml_client requested w e =
      get_if_parsed-Ran ml_client requested w (parse_registry_environment_reference requested) refl
        e
