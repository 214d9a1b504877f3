-- ===== src/Batch/Download/Tests.antt =====
-- A build context of two files from a server that counts its requests, onto a disk that keeps the
-- paths that were written.
use mathlib.Core.Option.{some-injective}
use mlops_templates.Prelude.{subst, ◌≡◌, refl, Bool, true, false, List, [], ◌∷◌, All}
use mlops_templates.Text.{Text, str, str_eq, strip, strip_prefix, digit_value, lower}
use mlops_templates.Outcome.{Result, ok, err, runtime_error, md5_differs}
use mlops_templates.Outcome.Keeps.{Keeps}
use mlops_templates.Numeral.{int_of}
use mlops_templates.Posix.{parts, is_absolute, as_posix}
use mlops_templates.Batch.BlobPath.{is_unsafe, safe_blob_relative_path}
use mlops_templates.Batch.Listing.{
  path_eq, text_leb, sort_entries, read_blob, listing_loop, listing_entries,
}
use mlops_templates.Batch.Reference.{rstrip_slash}
use mlops_templates.Batch.Reference.Patterns.{is_container_name}
use mlops_templates.Batch.Request.{declared_length, check_body, read_bounded, request_bytes}
use mlops_templates.Batch.ScoringCode.{PathNames}
use mlops_templates.Batch.Source.{
  joined, is_unsafe_prefix, path_parts, safe_source_prefix, dict_insert, dict_update,
  url_with_query, trusted_url,
}
use mlops_templates.Batch.Source.Access.{
  Helper, validate_sdk_registry_helper, authenticated_container_url,
}
use mlops_templates.Batch.Download.{
  parent, check_blob, blob_url, manifest_entry, download_blob, download_blobs,
  download_registry_build_context,
}
use mlops_templates.Batch.Fixture.{
  World, start, copies, decoders, urls, disk, http, storage, digests,
}
use mlops_templates.Batch.Download.Confined.{IsElsewhere, download_registry_build_context-Keeps}
use mlops_templates.Batch.Download.Fetched.{
  IsDownloaded, download_registry_build_context-IsDownloaded,
}

abbrev destination : PathNames
destination = str "tmp" ∷ []

abbrev download : Text → World → Result (Text × List Text) × World
download md5 w =
    download_registry_build_context urls (digests md5) disk http decoders storage (str "client")
      (str "r") (str "e") (str "7") (str "source") destination w

abbrev written : World
written = record start {
  written = (str "tmp" ∷ str "x" ∷ str "a" ∷ []) ∷ (str "tmp" ∷ str "b" ∷ []) ∷ [];
}

downloaded : download (str "m") start ≡ (ok (copies b'0' 64, str "b" ∷ str "x/a" ∷ []), written)
unfolding download_registry_build_context authenticated_container_url validate_sdk_registry_helper
    trusted_url safe_source_prefix path_parts joined is_unsafe_prefix is_container_name parts
    is_absolute as_posix rstrip_slash lower url_with_query dict_insert dict_update request_bytes
    read_bounded declared_length check_body listing_entries listing_loop read_blob
    safe_blob_relative_path str_eq strip_prefix is_unsafe path_eq int_of strip digit_value
    sort_entries text_leb download_blobs download_blob check_blob blob_url manifest_entry parent
downloaded = refl

altered : download (str "n") start ≡ (err (runtime_error md5_differs), start)
unfolding download_registry_build_context authenticated_container_url validate_sdk_registry_helper
    trusted_url safe_source_prefix path_parts joined is_unsafe_prefix is_container_name parts
    is_absolute as_posix rstrip_slash lower url_with_query dict_insert dict_update request_bytes
    read_bounded declared_length check_body listing_entries listing_loop read_blob
    safe_blob_relative_path str_eq strip_prefix is_unsafe path_eq int_of strip digit_value
    sort_entries text_leb download_blobs download_blob check_blob blob_url manifest_entry
altered = refl

abbrev is_below : PathNames → Bool
is_below [] = false
is_below (name ∷ names) = str_eq name (str "tmp")

abbrev IsBelow : World → Type 0
IsBelow w = All (λ path. is_below path ≡ true) w.written

elsewhere : IsElsewhere disk http storage destination IsBelow
unfolding str_eq
elsewhere = record {
  open_url = λ u. record { at = λ w q. q };
  read = λ r n. record { at = λ w q. q };
  helper = λ h client name version group registry uri e.
      subst (λ (g : Helper World Text). Keeps IsBelow (g client name version group registry uri))
        (some-injective _ _ e) (record { at = λ w q. q });
  mkdir = λ names plain. record { at = λ w q. q };
  write_bytes = λ names body plain. record { at = λ w q. (refl, q) };
}

download_registry_build_context-Keeps_example : Keeps IsBelow (
    download_registry_build_context urls
      (digests (str "m"))
      disk
      http
      decoders
      storage
      (str "client")
      (str "r")
      (str "e")
      (str "7")
      (str "source")
      destination)
download_registry_build_context-Keeps_example =
    download_registry_build_context-Keeps urls (digests (str "m")) disk http storage destination
      elsewhere decoders (str "client") (str "r") (str "e") (str "7") (str "source")

download_registry_build_context-IsDownloaded_example :
    IsDownloaded urls
      (digests (str "m"))
      disk
      http
      decoders
      storage
      (str "client")
      (str "r")
      (str "e")
      (str "7")
      (str "source")
      destination
      start
      written
      (copies b'0' 64)
      (str "b" ∷ str "x/a" ∷ [])
download_registry_build_context-IsDownloaded_example =
    download_registry_build_context-IsDownloaded urls (digests (str "m")) disk http decoders storage
      (str "client") (str "r") (str "e") (str "7") (str "source") destination start written
      (copies b'0' 64) (str "b" ∷ str "x/a" ∷ []) downloaded
