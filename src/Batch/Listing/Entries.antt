-- ===== src/Batch/Listing/Entries.antt =====
-- What the body of the loop of `_listing_entries` makes of a blob.
use mlops_templates.Prelude.{
  ℕ, ◌≤◌, ◌≡◌, false, not, Option, none, some, List, [], ◌∷◌, ◌++◌, arith, ◌==◌, ==_iff, length,
  All, any, ap, subst, refl, ◌∙◌,
}
use mlops_templates.Text.{Text, or_empty}
use mlops_templates.Outcome.{ok, raise_if, runtime_error, listing_duplicate, bad_md5_length}
use mlops_templates.Outcome.Laws.{bind-eq-ok, raise_if-eq-ok, ok-injective}
use mlops_templates.Posix.{parts}
use mlops_templates.Numeral.{ℤ, pos, negsuc, int_of}
use mlops_templates.Batch.BlobPath.{RelativePath, safe_blob_relative_path}
use mlops_templates.Batch.BlobPath.Containment.{IsPlainPart, safe_blob_relative_path-IsPlainPart}
use mlops_templates.Batch.Listing.{
  Entry, Blob, Bytes, Decoders, path_eq, read_blob, metadata, sized, max_registry_build_file_bytes,
}

-- An entry of its own: a file of a bounded size at a path that leads out of no directory.
pub record IsContained (e : Entry) : Type 0 where
  pub size : e.size ≤ max_registry_build_file_bytes
  pub path : All IsPlainPart e.path

sized-eq-ok : (n : ℤ) (size : ℕ) → sized n ≡ ok size → n ≡ pos size
sized-eq-ok (pos n) size e = ground arith
sized-eq-ok (negsuc n) size e = absurd (ground arith)

sized-le : (n : ℤ) (size : ℕ) → sized n ≡ ok size → size ≤ max_registry_build_file_bytes
sized-le (pos n) size e = ground arith
sized-le (negsuc n) size e = absurd (ground arith)

metadata-eq-ok :
    (n : Option ℤ) (md5 : Option Bytes) {read : ℤ × Bytes}
    → metadata n md5 ≡ ok read
    → (n ≡ some read.0) × (md5 ≡ some read.1)
metadata-eq-ok none md5 e = absurd (ground arith)
metadata-eq-ok (some n) none e = absurd (ground arith)
metadata-eq-ok (some n) (some md5) e =
    (ap (λ x. some x.0) (ok-injective e), ap (λ x. some x.1) (ok-injective e))

module _ (decoders : Decoders) (prefix : Text) where
  -- The entry of a blob: its name, the number that its Content-Length says, its Content-MD5, which is
  -- the Base64 text of 16 bytes, and the path that its name behind the prefix makes.
  pub record IsEntryOf (blob : Blob) (e : Entry) : Type 0 where
    pub name : e.name ≡ or_empty blob.name
    pub size : int_of (or_empty blob.content_length) ≡ some (pos e.size)
    pub md5_text : e.md5_text ≡ or_empty blob.content_md5
    pub md5 : Bytes
    pub decoded : decoders.decode_base64 (or_empty blob.content_md5) ≡ some md5
    pub sixteen : length md5 ≡ 16
    pub relative : Text
    pub below : e.name ≡ prefix ++ relative
    pub path : e.path ≡ parts relative

  -- One entry for each blob, in the same order.
  abbrev pub AreEntriesOf : List Blob → List Entry → Type 0
  AreEntriesOf [] [] = Unit
  AreEntriesOf [] (e ∷ es) = ⊥
  AreEntriesOf (blob ∷ blobs) [] = ⊥
  AreEntriesOf (blob ∷ blobs) (e ∷ es) = IsEntryOf blob e × AreEntriesOf blobs es

  pub read_blob-IsEntryOf :
      (seen : List RelativePath) (blob : Blob) (e : Entry)
      → read_blob decoders prefix seen blob ≡ ok e
      → IsContained e × (any (path_eq e.path) seen ≡ false) × IsEntryOf blob e
  unfolding read_blob
  read_blob-IsEntryOf seen blob e h =
      let (path, hp, h1) =
        bind-eq-ok (safe_blob_relative_path decoders.unquote (or_empty blob.name) prefix) _ h in
      let (u, fresh, h2) =
        bind-eq-ok (raise_if (any (path_eq path) seen) (runtime_error listing_duplicate)) _ h1 in
      let (declared, hm, h3) =
        bind-eq-ok
          (metadata (int_of (or_empty blob.content_length))
            (decoders.decode_base64 (or_empty blob.content_md5)))
          _ h2 in
      let (size, hs, h4) = bind-eq-ok (sized declared.0) _ h3 in
      let (v, full, h5) =
        bind-eq-ok (raise_if (not (length declared.1 == 16)) (runtime_error bad_md5_length)) _ h4 in
      let (has_length, has_md5) =
        metadata-eq-ok (int_of (or_empty blob.content_length))
          (decoders.decode_base64 (or_empty blob.content_md5)) hm in
      let (relative, below, plain, is_path, all_plain) =
        safe_blob_relative_path-IsPlainPart decoders.unquote (or_empty blob.name) prefix hp in
      let made : Entry = record {
        name = or_empty blob.name;
        path = path;
        size = size;
        md5_text = or_empty blob.content_md5;
      } in
      let contained : IsContained made = record {
        size = sized-le declared.0 size hs;
        path = all_plain;
      } in
      let entry : IsEntryOf blob made = record {
        name = refl;
        size = has_length ∙ ap some (sized-eq-ok declared.0 size hs);
        md5_text = refl;
        md5 = declared.1;
        decoded = has_md5;
        sixteen = (==_iff (length declared.1) 16).0 (ground (arith, raise_if-eq-ok _ _ v full));
        relative = relative;
        below = below;
        path = is_path;
      } in
      subst (λ (x : Entry). IsContained x × (any (path_eq x.path) seen ≡ false) × IsEntryOf blob x)
        (ok-injective h5) (contained, raise_if-eq-ok _ _ u fresh, entry)
