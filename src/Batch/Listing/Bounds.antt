-- ===== src/Batch/Listing/Bounds.antt =====
-- What a listing that is accepted guarantees of the build context.
use mathlib.Core.List.{Perm, append-nil, append_assoc}
use mlops_templates.Prelude.{
  ℕ, ◌+◌, ◌≤◌, ◌≡◌, refl, false, not, some, List, [], ◌∷◌, ◌++◌, arith, ltb, length, All,
  All-append, any, inl, inr, ap, ◌∙◌, sym, subst, not-ltb→le, Option-cases,
}
use mlops_templates.Text.{Text, is_empty, strip, or_empty}
use mlops_templates.Outcome.{
  ok, raise_if, runtime_error, total_too_large, too_many_files, listing_paginated,
}
use mlops_templates.Outcome.Laws.{bind-eq-ok, raise_if-eq-ok, ok-injective}
use mlops_templates.Batch.BlobPath.{RelativePath}
use mlops_templates.Batch.Listing.Entries.{IsContained, AreEntriesOf, read_blob-IsEntryOf}
use mlops_templates.Text.Laws.{is_empty_iff}
use mlops_templates.Batch.Listing.{
  Entry, Blob, Document, Bytes, Decoders, path_eq, read_blob, listing_loop, listing_entries,
  entries_of, sorted_if_any, max_registry_build_files, max_registry_build_total_bytes,
}
use mlops_templates.Batch.Listing.Order.{
  total_size, Sorted, Distinct, All-sort_entries, sort_entries-Sorted, sort_entries-Distinct,
  length-sort_entries, total_size-sort_entries, perm-sort_entries, path_eq_comm,
}

-- What the loop knows of its variables.
record IsGood (entries : List Entry) (seen : List RelativePath) (total : ℕ) : Type 0 where
  count : length entries ≤ max_registry_build_files
  sum : total_size entries ≡ total
  bound : total ≤ max_registry_build_total_bytes
  contained : All IsContained entries
  distinct : Distinct entries
  recorded :
      (p : RelativePath)
      → any (path_eq p) seen ≡ false
      → All (λ f. path_eq p f.path ≡ false) entries

IsGood-nil : IsGood [] [] 0
unfolding total_size
IsGood-nil = record {
  count = omega arith;
  sum = refl;
  bound = omega arith;
  contained = tt;
  distinct = tt;
  recorded = λ p h. tt;
}

total_size-append :
    (es : List Entry) (e : Entry) → total_size (es ++ (e ∷ [])) ≡ total_size es + e.size
unfolding total_size
total_size-append [] e = omega arith
total_size-append (f ∷ fs) e = omega (arith, total_size-append fs e)

Distinct-append :
    (es : List Entry) (e : Entry)
    → Distinct es
    → All (λ f. path_eq e.path f.path ≡ false) es
    → Distinct (es ++ (e ∷ []))
Distinct-append [] e d h = (tt, tt)
Distinct-append (f ∷ fs) e d h = (
  All-append (λ g. path_eq f.path g.path ≡ false) fs (e ∷ []) d.0
      (path_eq_comm f.path e.path ∙ h.0, tt),
  Distinct-append fs e d.1 h.1,
)

IsGood-append :
    (entries : List Entry) (seen : List RelativePath) (total : ℕ) (e : Entry)
    → IsGood entries seen total
    → IsContained e
    → any (path_eq e.path) seen ≡ false
    → total + e.size ≤ max_registry_build_total_bytes
    → length (entries ++ (e ∷ [])) ≤ max_registry_build_files
    → IsGood (entries ++ (e ∷ [])) (e.path ∷ seen) (total + e.size)
IsGood-append entries seen total e good contained fresh bound count = record {
  count = count;
  sum = omega (arith, total_size-append entries e, good.sum);
  bound = bound;
  contained = All-append IsContained entries (e ∷ []) good.contained (contained, tt);
  distinct = Distinct-append entries e good.distinct (good.recorded e.path fresh);
  recorded = λ p h.
      All-append (λ f. path_eq p f.path ≡ false) entries (e ∷ []) (good.recorded p (ground arith))
        (ground arith, tt);
}

module _ (decoders : Decoders) (prefix : Text) where
  listing_loop-IsGood :
      (blobs : List Blob) (entries : List Entry) (seen : List RelativePath) (total : ℕ)
      (es : List Entry)
      → IsGood entries seen total
      → listing_loop decoders prefix blobs entries seen total ≡ ok es
      → ((seen' : List RelativePath) × (total' : ℕ) × IsGood es seen' total')
        × (made : List Entry) × (es ≡ entries ++ made)
        × AreEntriesOf decoders prefix blobs made
  unfolding listing_loop
  listing_loop-IsGood [] entries seen total es good h =
      let e = ok-injective h in
      (
        (seen, total, subst (λ x. IsGood x seen total) e good),
        [],
        sym e ∙ sym (append-nil entries),
        tt,
      )
  listing_loop-IsGood (blob ∷ blobs) entries seen total es good h =
      let (e, he, h1) = bind-eq-ok (read_blob decoders prefix seen blob) _ h in
      let (u, small, h2) =
        bind-eq-ok
          (raise_if (ltb max_registry_build_total_bytes (total + e.size))
            (runtime_error total_too_large))
          _ h1 in
      let (v, few, h3) =
        bind-eq-ok
          (raise_if (ltb max_registry_build_files (length (entries ++ (e ∷ []))))
            (runtime_error too_many_files))
          _ h2 in
      let (contained, fresh, entry) = read_blob-IsEntryOf decoders prefix seen blob e he in
      let (good', made, split, rest) =
        listing_loop-IsGood blobs (entries ++ (e ∷ [])) (e.path ∷ seen) (total + e.size) es
          (IsGood-append entries seen total e good contained fresh
            (not-ltb→le _ _ (raise_if-eq-ok _ _ u small))
            (not-ltb→le _ _ (raise_if-eq-ok _ _ v few)))
          h3 in
      (good', e ∷ made, split ∙ append_assoc entries (e ∷ []) made, (entry, rest))

  -- What an accepted listing guarantees: it has no next page; there are between one and a hundred
  -- files, of a bounded size each and together, all at different paths that lead out of no
  -- directory, in the order of their names; and they are, in another order, the entries of the
  -- blobs of the listing, one for each, with the size, the MD5 and the path that the blob has.
  pub record IsBuildContext (document : Document) (entries : List Entry) : Type 0 where
    pub one_page : strip (or_empty document.next_marker) ≡ []
    pub some_file : 1 ≤ length entries
    pub few : length entries ≤ max_registry_build_files
    pub bound : total_size entries ≤ max_registry_build_total_bytes
    pub contained : All IsContained entries
    pub distinct : Distinct entries
    pub sorted : Sorted entries
    pub listed : List Entry
    pub of_blobs : AreEntriesOf decoders prefix document.blobs listed
    pub complete : Perm entries listed

  sorted-IsBuildContext :
      (document : Document) (entries es : List Entry) (seen : List RelativePath) (total : ℕ)
      → strip (or_empty document.next_marker) ≡ []
      → IsGood entries seen total
      → AreEntriesOf decoders prefix document.blobs entries
      → sorted_if_any decoders prefix entries ≡ ok es
      → IsBuildContext document es
  sorted-IsBuildContext document [] es seen total page good blobs h = absurd (ground arith)
  sorted-IsBuildContext document (e ∷ rest) es seen total page good blobs h =
      let entries = e ∷ rest in
      subst (IsBuildContext document) (ok-injective h) (record {
        one_page = page;
        some_file = omega (arith, length-sort_entries entries);
        few = omega (arith, length-sort_entries entries, good.count);
        bound = omega (arith, total_size-sort_entries entries, good.sum, good.bound);
        contained = All-sort_entries IsContained entries good.contained;
        distinct = sort_entries-Distinct entries good.distinct;
        sorted = sort_entries-Sorted entries;
        listed = entries;
        of_blobs = blobs;
        complete = perm-sort_entries entries;
      })

  entries_of-IsBuildContext :
      (document : Document) (es : List Entry)
      → entries_of decoders prefix (some document) ≡ ok es
      → IsBuildContext document es
  entries_of-IsBuildContext document es h =
      let (u, one_page, h1) =
        bind-eq-ok
          (raise_if (not (is_empty (strip (or_empty document.next_marker))))
            (runtime_error listing_paginated))
          _ h in
      let (entries, loop, h2) =
        bind-eq-ok (listing_loop decoders prefix document.blobs [] [] 0) _ h1 in
      let ((seen, total, good), made, same, blobs) =
        listing_loop-IsGood document.blobs [] [] 0 entries IsGood-nil loop in
      sorted-IsBuildContext document entries es seen total
        ((is_empty_iff (strip (or_empty document.next_marker))).0
          (ground (arith, raise_if-eq-ok _ _ u one_page)))
        good (subst (AreEntriesOf decoders prefix document.blobs) (sym same) blobs) h2

  -- A listing that is accepted is well-formed XML on one page, and gives the files of a bounded
  -- build context: at different relative paths, sorted by name, one for each blob of the listing,
  -- with the blob's name, the path that the name behind the prefix makes, the size that its
  -- Content-Length says, and its Content-MD5, the Base64 text of 16 bytes.
  pub listing_entries-IsBuildContext :
      (listing : Bytes) (es : List Entry)
      → listing_entries decoders prefix listing ≡ ok es
      → (document : Document) × (decoders.parse_xml listing ≡ some document)
        × IsBuildContext document es
  unfolding listing_entries
  listing_entries-IsBuildContext listing es h = elim (Option-cases (decoders.parse_xml listing)) [
    | inl bad ↦ absurd (ground (arith, bad))
    | inr (document, parsed) ↦ (
      document,
      parsed,
      entries_of-IsBuildContext document es (rw (ap (entries_of decoders prefix) parsed) at h),
    )
  ]
