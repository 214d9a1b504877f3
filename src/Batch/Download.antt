-- ===== src/Batch/Download.antt =====
-- `_download_registry_build_context` of src/python-sdk-v2/create_batch_deployment.py.
pub mod Confined
pub mod Fetched
mod Tests
use mlops_templates.Prelude.{
  ℕ, Bool, true, false, not, Option, none, some, List, [], ◌∷◌, ◌++◌, ◌==◌, if◌then◌else◌, length,
  map,
}
use mlops_templates.Text.{Text, str, str_eq}
use mlops_templates.Outcome.{
  Exn, Result, ok, err, Exec, pure, lift, ◌>>=◌, ◌>>◌, runtime_error, blob_length_differs,
  response_md5_differs, md5_differs,
}
use mlops_templates.Json.{json_text, decimal}
use mlops_templates.Batch.Reference.{rstrip_slash}
use mlops_templates.Batch.Request.{Bytes, Http, request_bytes}
use mlops_templates.Batch.Listing.{Entry, Decoders, listing_entries, max_registry_build_file_bytes}
use mlops_templates.Batch.ScoringCode.{PathNames, relative_posix}
use mlops_templates.Batch.Source.{Url, Urls, url_with_query}
use mlops_templates.Batch.Source.Access.{Storage, authenticated_container_url}

abbrev pub max_registry_listing_bytes : ℕ
max_registry_listing_bytes = 2097152

-- hashlib and base64: `sha256_hex` is as in Naming, `sha256_hex_bytes` the same of bytes, and
-- `md5_base64` the base64 text of the MD5 digest
pub record Digests : Type 0 where
  pub sha256_hex : Text → Text
  pub sha256_hex_bytes : Bytes → Text
  pub md5_base64 : Bytes → Text

-- path.mkdir(parents=True, exist_ok=True) and path.write_bytes(body)
pub record Disk (W : Type 0) : Type 0 where
  pub mkdir : PathNames → Exec W (Unit {0})
  pub write_bytes : PathNames → Bytes → Exec W (Unit {0})

pub record ManifestEntry : Type 0 where
  pub path : Text
  pub sha256 : Text
  pub size : ℕ

-- An item of `manifest_entries`, its keys in order.
unfoldable pub entry_json : ManifestEntry → Text
entry_json e =
    str "{\"path\":"
    ++ (json_text e.path
        ++ (str ",\"sha256\":"
            ++ (json_text e.sha256 ++ (str ",\"size\":" ++ (decimal e.size ++ str "}")))))

unfoldable pub entries_json : List ManifestEntry → Text
unfolding entry_json
entries_json [] = []
entries_json (e ∷ []) = entry_json e
entries_json (e ∷ f ∷ es) = entry_json e ++ (b',' ∷ entries_json (f ∷ es))

-- `json.dumps(manifest_entries, sort_keys=True, separators=(",", ":"))`
unfoldable pub manifest_text : List ManifestEntry → Text
unfolding entries_json
manifest_text es = b'[' ∷ (entries_json es ++ (b']' ∷ []))

-- `path.parent`
unfoldable pub parent : PathNames → PathNames
parent [] = []
parent (name ∷ []) = []
parent (name ∷ next ∷ names) = name ∷ parent (next ∷ names)

abbrev same_md5 : Option Text → Text → Bool
same_md5 none expected = false
same_md5 (some md5) expected = str_eq md5 expected

-- The three tests on a body.
unfoldable pub check_blob : Digests → Entry → Bytes → Option Text → Result (Unit {0})
check_blob digests entry body response_md5 =
    if not (length body == entry.size)
    then err (runtime_error blob_length_differs)
    else if not (same_md5 response_md5 entry.md5_text)
    then err (runtime_error response_md5_differs)
    else if not (str_eq (digests.md5_base64 body) entry.md5_text)
    then err (runtime_error md5_differs)
    else ok tt

unfoldable pub blob_url : Urls → Url → Text → Text
blob_url urls container name = urls.urlunsplit (record {
  scheme = container.scheme;
  netloc = container.netloc;
  path = rstrip_slash container.path ++ (b'/' ∷ urls.quote name);
  query = container.query;
  fragment = [];
})

unfoldable pub manifest_entry : Digests → Entry → Bytes → ManifestEntry
manifest_entry digests entry body = record {
  path = relative_posix entry.path;
  sha256 = digests.sha256_hex_bytes body;
  size = length body;
}

module _ {W P : Type 0} (urls : Urls) (digests : Digests) (disk : Disk W) (http : Http W P) where
  -- The body of the loop over `entries`.
  unfoldable pub download_blob : Url → PathNames → Entry → Exec W ManifestEntry
  download_blob container destination entry = do
    (body, response) ←
        request_bytes http (blob_url urls container entry.name) max_registry_build_file_bytes
    lift (check_blob digests entry body (http.content_md5 response))
    let output_path = destination ++ entry.path
    disk.mkdir (parent output_path)
    disk.write_bytes output_path body
    pure (manifest_entry digests entry body)

  unfoldable pub download_blobs : Url → PathNames → List Entry → Exec W (List ManifestEntry)
  unfolding download_blob
  download_blobs container destination [] = pure []
  download_blobs container destination (entry ∷ entries) = do
    here ← download_blob container destination entry
    rest ← download_blobs container destination entries
    pure (here ∷ rest)

  module _ {M : Type 0} (decoders : Decoders) (storage : Storage W M) where
    -- The manifest and the paths.
    unfoldable pub download_registry_build_context :
        M → Text → Text → Text → Text → PathNames → Exec W (Text × List Text)
    download_registry_build_context registry_client registry_name environment_name version
          source_uri destination =
        do
          (container_sas_url, prefix) ←
              authenticated_container_url urls storage registry_client registry_name
                environment_name version source_uri
          listing_url ← lift (
              url_with_query urls container_sas_url (
                (str "restype", str "container")
                ∷ (str "comp", str "list")
                ∷ (str "prefix", prefix)
                ∷ []))
          (listing, _) ← request_bytes http listing_url max_registry_listing_bytes
          entries ← lift (listing_entries decoders prefix listing)
          container ← lift (urls.urlsplit container_sas_url)
          manifest_entries ← download_blobs container destination entries
          pure (
            digests.sha256_hex (manifest_text manifest_entries),
            map (λ e. e.path) manifest_entries,
          )
