-- ===== src/Batch/RegistryEnvironment/Usable.antt =====
-- The resolved ID that `_get_registry_environment` puts together always passes its own check.
use mlops_templates.Prelude.{◌≡◌, refl, ap, sym, subst, ◌∙◌, true, some, arith, inl, inr}
use mlops_templates.Text.{Text, str, lower, or_empty, ends_with}
use mlops_templates.Outcome.{ok}
use mlops_templates.Batch.Reference.{
  RegistryReference, parse_registry_environment_reference, is_full_environment_id,
  environment_matches, registry_suffix, suffix_of_uri,
}
use mlops_templates.Batch.Reference.Patterns.Segments.{is_arm_name-all, is_subscription_id-all}
use mlops_templates.Batch.Reference.Parsing.{
  IsWellFormed, full_id_text, parse-IsWellFormed, fullmatch-full,
}
use mlops_templates.Batch.Reference.Matching.{
  matches_by_suffix, matches_by_equality, full-IsKept, suffix-ends,
}
use mlops_templates.Batch.Reference.Shapes.{IsUriForm, IsFullForm, lower-cong, parse-shape}
use mlops_templates.Batch.RegistryEnvironment.{Scope, check_scope, resolved_id}
use mlops_templates.Batch.RegistryEnvironment.Located.{registry-same, scope-same}

-- Case apart, full IDs of the same parts are the same.
full_id-lower :
    (s g r s' g' r' e v : Text)
    → lower s ≡ lower s'
    → lower g ≡ lower g'
    → lower r ≡ lower r'
    → lower (full_id_text s g r e v) ≡ lower (full_id_text s' g' r' e v)
full_id-lower s g r s' g' r' e v hs hg hr = lower-cong (str "/subscriptions/") _ _ _ refl (
    lower-cong s s' _ _ hs (
      lower-cong (str "/resourceGroups/") _ _ _ refl (
        lower-cong g g' _ _ hg (
          lower-cong (str "/providers/Microsoft.MachineLearningServices/registries/") _ _ _ refl
            (lower-cong r r' _ _ hr refl)))))

-- What the function asks of the ID that it puts together: it is a full one, and the reference that
-- was requested matches it.
abbrev pub IsUsable : Text → Text → Type 0
IsUsable requested resolved =
    (is_full_environment_id resolved ≡ true) × (environment_matches requested resolved ≡ true)

module _ (requested : Text) (reference : RegistryReference) (scope : Scope)
    (scoped : check_scope reference scope ≡ ok tt) where
  uri-matches :
      IsUriForm requested reference
      → environment_matches requested (resolved_id reference scope) ≡ true
  unfolding resolved_id
  uri-matches uri =
      let s = or_empty scope.subscription_id in
      let g = or_empty scope.resource_group_name in
      let r = reference.registry_name in
      let e = reference.environment_name in
      let v = reference.version in
      matches_by_suffix requested (resolved_id reference scope) (registry_suffix r e v)
        uri.kept.kept (full-IsKept s g (or_empty scope.registry_name) e v uri.formed.2).kept
        (ap suffix_of_uri uri.groups)
        (subst (λ x. ends_with (lower (registry_suffix r e v)) x ≡ true)
          (full_id-lower s g r s g (or_empty scope.registry_name) e v refl refl
            (sym (registry-same reference scope scoped)))
          (suffix-ends s g r e v))

  full-matches :
      IsFullForm requested reference
      → environment_matches requested (resolved_id reference scope) ≡ true
  unfolding resolved_id
  full-matches full =
      let e = reference.environment_name in
      let v = reference.version in
      let (same_subscription, same_group) = scope_of full in
      matches_by_equality requested (resolved_id reference scope) full.kept.kept
        (full-IsKept (or_empty scope.subscription_id) (or_empty scope.resource_group_name)
          (or_empty scope.registry_name) e v full.formed.2).kept
        (full.spelled
          ∙ full_id-lower full.subscription full.group reference.registry_name
              (or_empty scope.subscription_id) (or_empty scope.resource_group_name)
              (or_empty scope.registry_name) e v (sym same_subscription) (sym same_group)
              (sym (registry-same reference scope scoped)))
    where
      scope_of :
          (full : IsFullForm requested reference)
          → (lower (or_empty scope.subscription_id) ≡ lower full.subscription)
            × (lower (or_empty scope.resource_group_name) ≡ lower full.group)
      scope_of full = elim (scope-same reference scope scoped) [
        | inl empty ↦
            absurd (ground (arith, full.some_subscription.0, rw full.subscription_is at empty))
        | inr (a, b) ↦ (rw full.subscription_is at a, rw full.group_is at b)
      ]

  resolved_id-is_full :
      IsWellFormed reference → is_full_environment_id (resolved_id reference scope) ≡ true
  unfolding resolved_id is_full_environment_id check_scope
  resolved_id-is_full formed =
      let matched =
        fullmatch-full (or_empty scope.registry_name) reference.environment_name reference.version
          (is_arm_name-all (or_empty scope.registry_name) (ground arith)) formed.1 formed.2
          (or_empty scope.subscription_id) (or_empty scope.resource_group_name)
          (is_subscription_id-all (or_empty scope.subscription_id) (ground arith))
          (is_arm_name-all (or_empty scope.resource_group_name) (ground arith)) in
      ground (arith, matched)

  -- Where the scope of the registry client has passed its checks against a reference that was
  -- parsed, a registry URI or a full resource ID in any case of letters, the resolved ID that is put
  -- together from both is a full environment ID and the requested reference matches it. So
  -- the check that `_get_registry_environment` makes on this ID never fails.
  pub resolved_id-IsUsable :
      parse_registry_environment_reference requested ≡ some reference
      → IsUsable requested (resolved_id reference scope)
  resolved_id-IsUsable parsed = (
    resolved_id-is_full (parse-IsWellFormed requested parsed),
    elim (parse-shape requested parsed) [
      | inl uri ↦ uri-matches uri
      | inr full ↦ full-matches full
    ],
  )
