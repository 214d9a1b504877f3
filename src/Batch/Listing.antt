-- ===== src/Batch/Listing.antt =====
-- `_listing_entries` of src/python-sdk-v2/create_batch_deployment.py.
pub mod Order
pub mod Entries
pub mod Bounds
mod Tests
use mlops_templates.Prelude.{
  ℕ, ◌+◌, Bool, true, false, not, ◌&&◌, ◌||◌, Option, none, some, List, [], ◌∷◌, ◌++◌, ltb, ◌==◌,
  if◌then◌else◌, length, any,
}
use mlops_templates.Text.{Text, str_eq, is_empty, strip, or_empty}
use mlops_templates.Outcome.{
  Exn, Result, ok, err, raise_if, runtime_error, listing_not_xml, listing_paginated,
  listing_duplicate, listing_bad_metadata, file_too_large, bad_md5_length, total_too_large,
  too_many_files, no_files,
}
use mlops_templates.Outcome.Pure.{◌>>=◌, ◌>>◌}
use mlops_templates.Numeral.{ℤ, pos, negsuc, int_of}
use mlops_templates.Batch.BlobPath.{RelativePath, safe_blob_relative_path}

abbrev pub max_registry_build_files : ℕ
max_registry_build_files = 100

abbrev pub max_registry_build_file_bytes : ℕ
max_registry_build_file_bytes = 33554432

abbrev pub max_registry_build_total_bytes : ℕ
max_registry_build_total_bytes = 134217728

abbrev pub Bytes : Type 0
Bytes = List ℕ

-- A `Blob` element: its `Name`, `Properties/Content-Length` and `Properties/Content-MD5`.
pub record Blob : Type 0 where
  pub name : Option Text
  pub content_length : Option Text
  pub content_md5 : Option Text

-- The listing, by what `findtext` and `findall` read of it.
pub record Document : Type 0 where
  pub next_marker : Option Text
  pub blobs : List Blob

pub record Entry : Type 0 where
  pub name : Text
  pub path : RelativePath
  pub size : ℕ
  pub md5_text : Text

-- What the function calls of the Python library.
pub record Decoders : Type 0 where
  -- urllib.parse.unquote
  pub unquote : Text → Text
  -- ET.fromstring; none where it raises ParseError
  pub parse_xml : Bytes → Option Document
  -- base64.b64decode(…, validate=True); none where it raises ValueError
  pub decode_base64 : Text → Option Bytes

-- Two paths are equal if their parts are.
unfoldable pub path_eq : RelativePath → RelativePath → Bool
path_eq [] [] = true
path_eq [] (q ∷ qs) = false
path_eq (p ∷ ps) [] = false
path_eq (p ∷ ps) (q ∷ qs) = str_eq p q && path_eq ps qs

-- The order of Python on texts.
unfoldable pub text_leb : Text → Text → Bool
text_leb [] t = true
text_leb (c ∷ s) [] = false
text_leb (c ∷ s) (d ∷ t) = ltb c d || ((c == d) && text_leb s t)

-- `entries.sort(key=lambda item: item[0])`, which is stable
unfoldable pub insert_entry : Entry → List Entry → List Entry
insert_entry e [] = e ∷ []
insert_entry e (f ∷ fs) =
    let rest = insert_entry e fs in if text_leb e.name f.name then e ∷ f ∷ fs else f ∷ rest

unfoldable pub sort_entries : List Entry → List Entry
unfolding insert_entry
sort_entries [] = []
sort_entries (e ∷ es) = insert_entry e (sort_entries es)

abbrev sized : ℤ → Result ℕ
sized (negsuc n) = err (runtime_error file_too_large)
sized (pos n) =
    if ltb max_registry_build_file_bytes n then err (runtime_error file_too_large) else ok n

-- `int(length_text or "")` and `base64.b64decode(md5_text or "", validate=True)`
abbrev metadata : Option ℤ → Option Bytes → Result (ℤ × Bytes)
metadata none md5 = err (runtime_error listing_bad_metadata)
metadata (some n) none = err (runtime_error listing_bad_metadata)
metadata (some n) (some md5) = ok (n, md5)

module _ (decoders : Decoders) (prefix : Text) where
  -- The body of the loop, up to the sum of the sizes.
  unfoldable pub read_blob : List RelativePath → Blob → Result Entry
  read_blob seen blob = do
    let name = or_empty blob.name
    path ← safe_blob_relative_path decoders.unquote name prefix
    raise_if (any (path_eq path) seen) (runtime_error listing_duplicate)
    (declared, md5) ←
        metadata (int_of (or_empty blob.content_length))
          (decoders.decode_base64 (or_empty blob.content_md5))
    size ← sized declared
    raise_if (not (length md5 == 16)) (runtime_error bad_md5_length)
    ok (record { name = name; path = path; size = size; md5_text = or_empty blob.content_md5 })

  -- The loop over the blobs, with `entries`, `seen_paths` and `total_size`.
  unfoldable pub listing_loop : List Blob → List Entry → List RelativePath → ℕ → Result (List Entry)
  listing_loop [] entries seen total = ok entries
  listing_loop (blob ∷ blobs) entries seen total = do
    entry ← read_blob seen blob
    raise_if (ltb max_registry_build_total_bytes (total + entry.size))
        (runtime_error total_too_large)
    raise_if (ltb max_registry_build_files (length (entries ++ (entry ∷ []))))
        (runtime_error too_many_files)
    listing_loop blobs (entries ++ (entry ∷ [])) (entry.path ∷ seen) (total + entry.size)

  abbrev sorted_if_any : List Entry → Result (List Entry)
  sorted_if_any [] = err (runtime_error no_files)
  sorted_if_any (e ∷ es) = ok (sort_entries (e ∷ es))

  abbrev entries_of : Option Document → Result (List Entry)
  entries_of none = err (runtime_error listing_not_xml)
  entries_of (some document) = do
    raise_if (not (is_empty (strip (or_empty document.next_marker))))
        (runtime_error listing_paginated)
    entries ← listing_loop document.blobs [] [] 0
    sorted_if_any entries

  unfoldable pub listing_entries : Bytes → Result (List Entry)
  listing_entries listing = entries_of (decoders.parse_xml listing)
