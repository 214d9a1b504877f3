-- ===== src/Batch/Listing/Tests.antt =====
-- A listing of two files, and listings that are turned down.
use mlops_templates.Prelude.{ℕ, zero, suc, ◌≡◌, refl, [], ◌∷◌, none, some}
use mlops_templates.Text.{Text, str, str_eq, strip, strip_prefix, digit_value}
use mlops_templates.Outcome.{ok, err, runtime_error, listing_duplicate, listing_paginated, no_files}
use mlops_templates.Numeral.{int_of}
use mlops_templates.Posix.{parts, is_absolute}
use mlops_templates.Batch.BlobPath.{is_unsafe, safe_blob_relative_path}
use mlops_templates.Batch.Listing.{
  Blob, Document, Entry, Decoders, Bytes, path_eq, text_leb, sort_entries, read_blob, listing_loop,
  listing_entries,
}
use mlops_templates.Batch.Listing.Bounds.{IsBuildContext, listing_entries-IsBuildContext}

abbrev blob : Text → Blob
blob name = record {
  name = some name;
  content_length = some (str " 1_2 ");
  content_md5 = some (str "m");
}

abbrev document : Document
document = record { next_marker = none; blobs = blob (str "c/b") ∷ blob (str "c/a") ∷ [] }

abbrev zeros : ℕ → Bytes
zeros zero = []
zeros (suc n) = 0 ∷ zeros n

abbrev reading : Document → Decoders
reading d = record {
  unquote = λ s. s;
  parse_xml = λ b. some d;
  decode_base64 = λ s. some (zeros 16);
}

abbrev entry : Text → Text → Entry
entry name part = record { name = name; path = part ∷ []; size = 12; md5_text = str "m" }

listed :
    listing_entries (reading document) (str "c/") []
    ≡ ok (entry (str "c/a") (str "a") ∷ entry (str "c/b") (str "b") ∷ [])
unfolding listing_entries listing_loop read_blob safe_blob_relative_path str_eq strip_prefix
    is_unsafe is_absolute parts path_eq int_of strip digit_value sort_entries text_leb
listed = refl

duplicate :
    listing_entries
      (reading (record document { blobs = blob (str "c/a") ∷ blob (str "c/./a") ∷ [] }))
      (str "c/")
      []
    ≡ err (runtime_error listing_duplicate)
unfolding listing_entries listing_loop read_blob safe_blob_relative_path str_eq strip_prefix
    is_unsafe is_absolute parts path_eq int_of strip digit_value sort_entries text_leb
duplicate = refl

second_page :
    listing_entries (reading (record document { next_marker = some (str "2") })) (str "c/") []
    ≡ err (runtime_error listing_paginated)
unfolding listing_entries strip
second_page = refl

empty :
    listing_entries (reading (record document { blobs = [] })) (str "c/") []
    ≡ err (runtime_error no_files)
unfolding listing_entries listing_loop strip
empty = refl

listing_entries-IsBuildContext_example :
    (d : Document) × ((reading document).parse_xml [] ≡ some d)
    × IsBuildContext
        (reading document)
        (str "c/")
        d
        (entry (str "c/a") (str "a") ∷ entry (str "c/b") (str "b") ∷ [])
listing_entries-IsBuildContext_example =
    listing_entries-IsBuildContext (reading document) (str "c/") [] _ listed
