-- ===== src/Client/Checks/Found.antt =====
-- What the tests on texts of `get_kubernetes_online_compute` and of its identity mean.
use mlops_templates.Prelude.{
  ◌≡◌, ◌≢◌, ◌↔◌, refl, ap, sym, ◌⊎◌, inl, inr, true, false, Option, none, some, List, [], ◌∷◌, ◌++◌,
  arith, Bool-cases, Option-cases, subst,
}
use mlops_templates.Text.{Text, str, str_eq, strip, lower, or_empty, strip_prefix, ends_with}
use mlops_templates.Text.Laws.{
  str_eq→eq, str_eq_iff, is_empty_iff, ends_with-append, strip_prefix-eq-some,
}
use mlops_templates.Azure.{Attribute, absent, null, text, ComputeIdentity, text_of}
use mlops_templates.Client.Checks.{
  contains, without_underscores, is_user_assigned, is_supported_cluster, is_default_namespace,
}

-- `part` stands somewhere in the text.
pub record IsPartOf (part s : Text) : Type 0 where
  pub before : Text
  pub after : Text
  pub split : s ≡ before ++ (part ++ after)

pub record IsEndOf (suffix s : Text) : Type 0 where
  pub before : Text
  pub split : s ≡ before ++ suffix

strip_prefix-append : (part rest : Text) → strip_prefix part (part ++ rest) ≡ some rest
unfolding strip_prefix
strip_prefix-append [] rest = refl
strip_prefix-append (c ∷ part) rest = ground (arith, strip_prefix-append part rest)

contains_first : (part rest : Text) → contains part (part ++ rest) ≡ true
unfolding contains
contains_first [] [] = refl
contains_first [] (c ∷ s) = refl
contains_first (c ∷ part) rest = rw (strip_prefix-append (c ∷ part) rest) refl

contains_later :
    (part before s : Text) → contains part s ≡ true → contains part (before ++ s) ≡ true
unfolding contains
contains_later part [] s h = h
contains_later part (c ∷ before) s h = ground (arith, contains_later part before s h)

contains-IsPartOf : (part s : Text) → contains part s ≡ true → IsPartOf part s
unfolding contains
contains-IsPartOf part [] h = record {
  before = [];
  after = [];
  split = ground (arith, (is_empty_iff part).0 h);
}
contains-IsPartOf part (c ∷ s) h = elim (Option-cases (strip_prefix part (c ∷ s))) [
  | inl lacks ↦
      let later = contains-IsPartOf part s (rw lacks at h) in
      record { before = c ∷ later.before; after = later.after; split = ap (λ x. c ∷ x) later.split }
  | inr (rest, starts) ↦ record {
    before = [];
    after = rest;
    split = strip_prefix-eq-some part (c ∷ s) rest starts;
  }
]

pub contains_iff : (part s : Text) → (contains part s ≡ true) ↔ IsPartOf part s
contains_iff part s = (
  contains-IsPartOf part s,
  λ h.
      subst (λ x. contains part x ≡ true) (sym h.split)
        (contains_later part h.before (part ++ h.after) (contains_first part h.after)),
)

ends_with-IsEndOf : (suffix s : Text) → ends_with suffix s ≡ true → IsEndOf suffix s
unfolding ends_with
ends_with-IsEndOf suffix [] h = record { before = []; split = str_eq→eq [] suffix h }
ends_with-IsEndOf suffix (c ∷ s) h = elim (Bool-cases (str_eq (c ∷ s) suffix)) [
  | inl same ↦ record { before = []; split = str_eq→eq (c ∷ s) suffix same }
  | inr differ ↦
      let later = ends_with-IsEndOf suffix s (rw differ at h) in
      record { before = c ∷ later.before; split = ap (λ x. c ∷ x) later.split }
]

ends_with_iff : (suffix s : Text) → (ends_with suffix s ≡ true) ↔ IsEndOf suffix s
ends_with_iff suffix s = (
  ends_with-IsEndOf suffix s,
  λ h. subst (λ x. ends_with suffix x ≡ true) (sym h.split) (ends_with-append h.before suffix),
)

-- An AKS cluster, or one that Azure Arc connects.
abbrev pub IsCluster : Text → Type 0
IsCluster resource_id =
    IsPartOf (str "/providers/microsoft.containerservice/managedclusters/") (lower resource_id)
    ⊎ IsPartOf (str "/providers/microsoft.kubernetes/connectedclusters/") (lower resource_id)

pub is_supported_cluster_iff :
    (resource_id : Option Text)
    → (is_supported_cluster resource_id ≡ true) ↔ IsCluster (or_empty resource_id)
unfolding is_supported_cluster
is_supported_cluster_iff resource_id =
    let s = lower (or_empty resource_id) in
    let a = contains_iff (str "/providers/microsoft.containerservice/managedclusters/") s in
    let b = contains_iff (str "/providers/microsoft.kubernetes/connectedclusters/") s in
    (
      λ h.
          elim (Bool-cases
            (contains (str "/providers/microsoft.containerservice/managedclusters/") s)) [
              | inl managed ↦ inl (a.0 managed)
              | inr other ↦ inr (b.0 (ground (arith, other)))
            ],
      λ h. elim h [ inl x ↦ ground (arith, a.1 x) | inr x ↦ ground (arith, b.1 x) ],
    )

-- What the guard makes of a namespace: it lets through a text that is neither blank nor `default`
-- between its outer spaces, and an attribute that is None, which is read as the text `None`.
abbrev pub IsAcceptedNamespace : Attribute → Type 0
IsAcceptedNamespace absent = ⊥
IsAcceptedNamespace null = Unit
IsAcceptedNamespace (text s) = (strip s ≢ []) × (strip s ≢ str "default")

is_default_namespace_iff :
    (s : Text) → (is_default_namespace s ≡ false) ↔ ((s ≢ []) × (s ≢ str "default"))
unfolding is_default_namespace
is_default_namespace_iff s = ground (arith, is_empty_iff s, str_eq_iff s (str "default"))

pub namespace_guard_iff :
    (namespace : Attribute)
    → (is_default_namespace (strip (text_of namespace)) ≡ false) ↔ IsAcceptedNamespace namespace
unfolding is_default_namespace strip str_eq
namespace_guard_iff absent = (λ h. absurd (ground arith), λ h. absurd h)
namespace_guard_iff null = (λ h. tt, λ h. refl)
namespace_guard_iff (text s) = is_default_namespace_iff (strip s)

-- An identity of a type that ends in `userassigned`, case and underscores apart, with at least one
-- user-assigned identity.
pub record IsUserAssigned (identity : ComputeIdentity) : Type 0 where
  pub type : IsEndOf (str "userassigned") (without_underscores (lower (text_of identity.type)))
  pub filled : identity.user_assigned_identities ≢ []

abbrev pub HasUserAssigned : Option ComputeIdentity → Type 0
HasUserAssigned none = ⊥
HasUserAssigned (some identity) = IsUserAssigned identity

filled_iff : (ids : List Text) → ((elim ids [ [] ↦ false | ◌∷◌ i is ↦ true ]) ≡ true) ↔ (ids ≢ [])
filled_iff [] = (λ h. absurd (ground arith), λ h. absurd (h refl))
filled_iff (i ∷ is) = (λ h e. absurd (ground arith), λ h. refl)

pub is_user_assigned_iff :
    (identity : Option ComputeIdentity)
    → (is_user_assigned identity ≡ true) ↔ HasUserAssigned identity
unfolding is_user_assigned
is_user_assigned_iff none = (λ h. absurd (ground arith), λ h. absurd h)
is_user_assigned_iff (some identity) =
    let t =
      ends_with_iff (str "userassigned") (without_underscores (lower (text_of identity.type))) in
    let f = filled_iff identity.user_assigned_identities in
    (
      λ h. record { type = t.0 (ground arith); filled = f.0 (ground arith) },
      λ h. rw (t.1 h.type, f.1 h.filled),
    )
