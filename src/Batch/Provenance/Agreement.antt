-- ===== src/Batch/Provenance/Agreement.antt =====
-- When an environment of the workspace is taken for the import of a registry environment.
use mlops_templates.Prelude.{
  ◌≡◌, refl, Bool, true, false, Option, none, some, List, [], ◌∷◌, ◌++◌, arith, if◌then◌else◌, any,
  ap, inl, inr, Bool-cases, sym,
}
use mlops_templates.Text.{Text, str_eq}
use mlops_templates.Text.Laws.{str_eq→eq, str_eq_refl}
use mlops_templates.Outcome.{ok}
use mlops_templates.Outcome.Pure.{◌>>=◌}
use mlops_templates.Outcome.Laws.{bind-eq-ok, ok-injective}
use mlops_templates.Azure.{Environment, Dict}
use mlops_templates.Batch.Provenance.{
  lookup, registry_provenance, dict_of, environment_properties, found, values_of, agree,
  collect_keys, environment_provenance, source_provenance_properties,
}

-- An environment that the program creates carries its provenance twice, as tags and as
-- properties: it is read back unchanged.
pub environment_provenance-registry_provenance :
    (r e v ref manifest : Text) (environment : Environment)
    → environment.properties ≡ some (registry_provenance r e v ref manifest)
    → environment.tags ≡ some (registry_provenance r e v ref manifest)
    → environment_provenance environment ≡ ok (registry_provenance r e v ref manifest)
unfolding environment_provenance environment_properties collect_keys
environment_provenance-registry_provenance r e v ref manifest environment hp ht =
    rw (hp, ht) (unfold registry_provenance lookup str_eq in simp str_eq_refl)

abbrev pub or_else : Option Text → Option Text → Option Text
or_else none other = other
or_else (some v) other = some v

-- Two records that both hold a value hold the same.
abbrev pub Agree : Option Text → Option Text → Type 0
Agree (some u) (some v) = u ≡ v
Agree x y = Unit

lookup-append : (j : Text) (d e : Dict) → lookup j (d ++ e) ≡ or_else (lookup j d) (lookup j e)
unfolding lookup
lookup-append j [] e = refl
lookup-append j ((k, v) ∷ d) e = ground (arith, lookup-append j d e)

agree_values :
    (j key : Text) (x y : Option Text) (here : Dict)
    → agree key (found x (found y [])) ≡ ok here
    → (lookup j here ≡ (if str_eq j key then or_else x y else none)) × Agree x y
unfolding agree lookup
agree_values j key none none here e = (ground arith, tt)
agree_values j key (some u) none here e = (ground arith, tt)
agree_values j key none (some v) here e = (ground arith, tt)
agree_values j key (some u) (some v) here e = (ground arith, ground (arith, str_eq→eq v u))

-- The two parts of what is collected for a first key and for the others.
cons_parts :
    (key : Text) (keys : List Text) (properties tags p : Dict)
    → collect_keys (key ∷ keys) properties tags ≡ ok p
    → (here : Dict) × (rest : Dict) × (agree key (values_of key properties tags) ≡ ok here)
      × (collect_keys keys properties tags ≡ ok rest)
      × (p ≡ here ++ rest)
unfolding collect_keys
cons_parts key keys properties tags p e =
    let (here, he, e') =
      bind-eq-ok (agree key (values_of key properties tags))
        (λ here. collect_keys keys properties tags >>= λ rest. ok (here ++ rest)) e in
    let (rest, hr, e'') =
      bind-eq-ok (collect_keys keys properties tags) (λ (rest : Dict). ok (here ++ rest)) e' in
    (here, rest, he, hr, ground (arith, e''))

or_else-twice :
    (x y : Option Text) (b : Bool)
    → or_else (or_else x y) (if b then or_else x y else none) ≡ or_else x y
or_else-twice none none true = refl
or_else-twice none none false = refl
or_else-twice none (some v) b = refl
or_else-twice (some u) y b = refl

lookup-collect_keys :
    (keys : List Text) (properties tags p : Dict) (j : Text)
    → collect_keys keys properties tags ≡ ok p
    → lookup j p
      ≡ (if any (str_eq j) keys then or_else (lookup j properties) (lookup j tags) else none)
lookup-collect_keys [] properties tags p j e =
    unfold collect_keys lookup in ap (lookup j) (sym (ok-injective e))
lookup-collect_keys (key ∷ keys) properties tags p j e =
    let (here, rest, he, hr, split) = cons_parts key keys properties tags p e in
    let first = (agree_values j key (lookup key properties) (lookup key tags) here he).0 in
    let later = lookup-collect_keys keys properties tags rest j hr in
    rw (split, lookup-append j here rest, first, later)
      (elim (Bool-cases (str_eq j key)) [
        | inl same ↦
            rw (same, ← str_eq→eq j key same)
              (or_else-twice (lookup j properties) (lookup j tags) (any (str_eq j) keys))
        | inr other ↦ rw other
      ])

collect_keys-Agree :
    (keys : List Text) (properties tags p : Dict) (j : Text)
    → collect_keys keys properties tags ≡ ok p
    → any (str_eq j) keys ≡ true
    → Agree (lookup j properties) (lookup j tags)
collect_keys-Agree [] properties tags p j e h = absurd (ground arith)
collect_keys-Agree (key ∷ keys) properties tags p j e h =
    let (here, rest, he, hr, split) = cons_parts key keys properties tags p e in
    elim (Bool-cases (str_eq j key)) [
      | inl same ↦
          rw (str_eq→eq j key same)
            (agree_values j key (lookup key properties) (lookup key tags) here he).1
      | inr other ↦ collect_keys-Agree keys properties tags rest j hr (rw other at h)
    ]

-- Where `_environment_provenance` returns, each of the five keys has the value of the properties,
-- or of the tags if the properties have none, and where both have one the two are equal.
pub lookup-environment_provenance :
    (environment : Environment) (p : Dict) (key : Text)
    → environment_provenance environment ≡ ok p
    → any (str_eq key) source_provenance_properties ≡ true
    → (lookup key p
        ≡ or_else
            (lookup key (dict_of environment.properties))
            (lookup key (dict_of environment.tags)))
      × Agree (lookup key (dict_of environment.properties)) (lookup key (dict_of environment.tags))
unfolding environment_provenance environment_properties
lookup-environment_provenance environment p key e h = (
  rw h at (
      lookup-collect_keys source_provenance_properties (dict_of environment.properties)
        (dict_of environment.tags) p key e),
  collect_keys-Agree source_provenance_properties (dict_of environment.properties)
      (dict_of environment.tags) p key e h,
)
