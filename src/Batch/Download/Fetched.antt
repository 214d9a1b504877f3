-- ===== src/Batch/Download/Fetched.antt =====
-- What a download that succeeds has fetched.
use mlops_templates.Prelude.{
  ◌≡◌, true, List, [], ◌∷◌, ◌++◌, arith, Option, none, some, length, map, ==_iff, subst, sym,
}
use mlops_templates.Text.{Text, str}
use mlops_templates.Text.Laws.{str_eq→eq}
use mlops_templates.Outcome.{ok}
use mlops_templates.Outcome.Laws.{lift-continue, continue-eq-ok, pure-eq-ok, ok-injective}
use mlops_templates.Batch.Listing.{
  Entry, Document, Decoders, listing_entries, max_registry_build_file_bytes,
}
use mlops_templates.Batch.Listing.Bounds.{IsBuildContext, listing_entries-IsBuildContext}
use mlops_templates.Batch.Request.{Bytes, Http, request_bytes}
use mlops_templates.Batch.ScoringCode.{PathNames, relative_posix}
use mlops_templates.Batch.Source.{Url, Urls, dict_update, url_with_query}
use mlops_templates.Azure.{Dict}
use mlops_templates.Batch.Reference.{rstrip_slash}
use mlops_templates.Batch.Source.Access.{Storage, authenticated_container_url}
use mlops_templates.Batch.Download.{
  Digests, Disk, ManifestEntry, manifest_text, manifest_entry, same_md5, check_blob, blob_url,
  parent, download_blob, download_blobs, download_registry_build_context,
  max_registry_listing_bytes,
}

module _ {W P : Type 0} (urls : Urls) (digests : Digests) (disk : Disk W) (http : Http W P)
    (container : Url) (destination : PathNames) where
  -- `Fetched entries manifest w u`: from `w` on, for one entry after the other, a body was read of
  -- the entry's blob, has the size and the MD5 that the listing declares (as the response says
  -- too), and was written below the destination; the manifest has its path, digest and size, and
  -- `u` is the world at the end.
  pub data Fetched : List Entry → List ManifestEntry → W → W → Type 0 where
    done : {w : W} → Fetched [] [] w w
    fetch_next :
        {entry : Entry} {entries : List Entry} {manifest : List ManifestEntry} {w u : W}
        (body : Bytes) (response : P) (v1 v2 v3 : W)
        → request_bytes http
            (urls.urlunsplit (record container {
              path = rstrip_slash container.path ++ (b'/' ∷ urls.quote entry.name);
              fragment = [];
            }))
            max_registry_build_file_bytes
            w
          ≡ (ok (body, response), v1)
        → length body ≡ entry.size
        → http.content_md5 response ≡ some entry.md5_text
        → digests.md5_base64 body ≡ entry.md5_text
        → disk.mkdir (parent (destination ++ entry.path)) v1 ≡ (ok tt, v2)
        → disk.write_bytes (destination ++ entry.path) body v2 ≡ (ok tt, v3)
        → Fetched entries manifest v3 u
        → Fetched
            (entry ∷ entries)
            (record {
              path = relative_posix entry.path;
              sha256 = digests.sha256_hex_bytes body;
              size = length body;
            }
              ∷ manifest)
            w
            u

  same_md5→eq : (o : Option Text) (expected : Text) → same_md5 o expected ≡ true → o ≡ some expected
  same_md5→eq none expected h = absurd (ground arith)
  same_md5→eq (some md5) expected h = rw (str_eq→eq md5 expected h)

  check_blob-eq-ok :
      (entry : Entry) (body : Bytes) (md5 : Option Text)
      → check_blob digests entry body md5 ≡ ok tt
      → (length body ≡ entry.size)
        × (md5 ≡ some entry.md5_text)
        × (digests.md5_base64 body ≡ entry.md5_text)
  unfolding check_blob
  check_blob-eq-ok entry body md5 h = (
    (==_iff (length body) entry.size).0 (ground arith),
    same_md5→eq md5 entry.md5_text (ground arith),
    str_eq→eq (digests.md5_base64 body) entry.md5_text (ground arith),
  )

  one_more :
      (entry : Entry) (entries : List Entry) (w v u : W) (here : ManifestEntry)
      (rest : List ManifestEntry)
      → download_blob urls digests disk http container destination entry w ≡ (ok here, v)
      → Fetched entries rest v u
      → Fetched (entry ∷ entries) (here ∷ rest) w u
  unfolding download_blob blob_url manifest_entry
  one_more entry entries w v u here rest h fetched =
      let (answer, v1, e1, h1) =
        continue-eq-ok _
          (request_bytes http (blob_url urls container entry.name) max_registry_build_file_bytes w)
          h in
      let (_, e2, h2) =
        lift-continue _ (check_blob digests entry answer.0 (http.content_md5 answer.1)) v1 h1 in
      let (_, v2, e3, h3) =
        continue-eq-ok _ (disk.mkdir (parent (destination ++ entry.path)) v1) h2 in
      let (_, v3, e4, h4) =
        continue-eq-ok _ (disk.write_bytes (destination ++ entry.path) answer.0 v2) h3 in
      let (e, same) = pure-eq-ok (manifest_entry digests entry answer.0) v3 h4 in
      let (size, md5, actual) = check_blob-eq-ok entry answer.0 (http.content_md5 answer.1) e2 in
      subst (λ m. Fetched (entry ∷ entries) (m ∷ rest) w u) e
        (fetch_next answer.0 answer.1 v1 v2 v3 e1 size md5 actual e3 e4
          (subst (λ x. Fetched entries rest x u) (sym same) fetched))

  download_blobs-Fetched :
      (entries : List Entry) (w u : W) {manifest : List ManifestEntry}
      → download_blobs urls digests disk http container destination entries w ≡ (ok manifest, u)
      → Fetched entries manifest w u
  unfolding download_blobs download_blob
  download_blobs-Fetched [] w u h =
      let (e, same) = pure-eq-ok [] w h in
      subst (λ m. Fetched [] m w u) e (subst (Fetched [] [] w) same done)
  download_blobs-Fetched (entry ∷ entries) w u h =
      let (here, v, h1, h2) =
        continue-eq-ok _ (download_blob urls digests disk http container destination entry w) h in
      let (rest, x, h3, h4) =
        continue-eq-ok _ (download_blobs urls digests disk http container destination entries v)
          h2 in
      let (e, same) = pure-eq-ok (here ∷ rest) x h4 in
      subst (λ m. Fetched (entry ∷ entries) m w u) e
        (one_more entry entries w v u here rest h1
          (subst (Fetched entries rest v) same (download_blobs-Fetched entries v x h3)))

url_with_query-eq-ok :
    (urls : Urls) (url : Text) (additions : Dict) {parsed : Url} {made : Text}
    → urls.urlsplit url ≡ ok parsed
    → url_with_query urls url additions ≡ ok made
    → made
      ≡ urls.urlunsplit (record parsed {
        query =
            urls.urlencode (dict_update (dict_update [] (urls.parse_qsl parsed.query)) additions);
        fragment = [];
      })
unfolding url_with_query
url_with_query-eq-ok urls url additions split made = sym (ok-injective (rw split at made))

module _ {W P M : Type 0} (urls : Urls) (digests : Digests) (disk : Disk W) (http : Http W P)
    (decoders : Decoders) (storage : Storage W M) where
  -- The run: the listing that was read, and the blobs that were fetched after it.
  pub record IsDownloaded (client : M) (registry_name environment_name version source_uri : Text)
      (destination : PathNames) (w u : W) (digest : Text) (paths : List Text) : Type 0 where
    pub url : Text
    pub prefix : Text
    pub container : Url
    pub listing_url : Text
    pub listing : Bytes
    pub response : P
    pub document : Document
    pub entries : List Entry
    pub manifest : List ManifestEntry
    pub v1 : W
    pub v2 : W
    pub access :
        authenticated_container_url urls storage client registry_name environment_name version
          source_uri w
        ≡ (ok (url, prefix), v1)
    pub listed :
        request_bytes http listing_url max_registry_listing_bytes v1 ≡ (ok (listing, response), v2)
    pub parsed : decoders.parse_xml listing ≡ some document
    pub context : IsBuildContext decoders prefix document entries
    pub split : urls.urlsplit url ≡ ok container
    pub listing_url_is :
        listing_url
        ≡ urls.urlunsplit (record container {
          query = urls.urlencode (
              dict_update (dict_update [] (urls.parse_qsl container.query)) (
                (str "restype", str "container")
                ∷ (str "comp", str "list")
                ∷ (str "prefix", prefix)
                ∷ []));
          fragment = [];
        })
    pub fetched : Fetched urls digests disk http container destination entries manifest v2 u
    pub digest_is : digest ≡ digests.sha256_hex (manifest_text manifest)
    pub paths_are : paths ≡ map (λ e. e.path) manifest

  -- A download that succeeds has read a listing at the URL that it was granted, with the items of
  -- the listing added to the URL's query. The listing is one page and makes a bounded build context,
  -- with a file for each of its blobs. The files were fetched one after the other, by the blob's
  -- name below the path of the same URL and with its query: each body has the size and the MD5 that
  -- the blob is listed with, and was written below the destination at the blob's name behind the
  -- prefix. The digest that is returned is that of the manifest of these files, and the paths are
  -- theirs.
  pub download_registry_build_context-IsDownloaded :
      (client : M) (registry_name environment_name version source_uri : Text)
      (destination : PathNames) (w u : W) (digest : Text) (paths : List Text)
      → download_registry_build_context urls digests disk http decoders storage client registry_name
          environment_name version source_uri destination w
        ≡ (ok (digest, paths), u)
      → IsDownloaded client registry_name environment_name version source_uri destination w u digest
          paths
  unfolding download_registry_build_context
  download_registry_build_context-IsDownloaded client registry_name environment_name version
        source_uri destination w u digest paths h =
      let (access, v1, e1, h1) =
        continue-eq-ok _
          (authenticated_container_url urls storage client registry_name environment_name version
            source_uri w)
          h in
      let (listing_url, e2, h2) = lift-continue _ (url_with_query urls access.0 _) v1 h1 in
      let (answer, v2, e3, h3) =
        continue-eq-ok _ (request_bytes http listing_url max_registry_listing_bytes v1) h2 in
      let (entries, e4, h4) = lift-continue _ (listing_entries decoders access.1 answer.0) v2 h3 in
      let (container, e5, h5) = lift-continue _ (urls.urlsplit access.0) v2 h4 in
      let (manifest, v3, e6, h6) =
        continue-eq-ok _ (download_blobs urls digests disk http container destination entries v2)
          h5 in
      let (e, same) =
        pure-eq-ok (digests.sha256_hex (manifest_text manifest), map (λ e. e.path) manifest) v3
          h6 in
      let (document, parsed, context) =
        listing_entries-IsBuildContext decoders access.1 answer.0 entries e4 in
      record {
        url = access.0;
        prefix = access.1;
        container = container;
        listing_url = listing_url;
        listing = answer.0;
        response = answer.1;
        document = document;
        entries = entries;
        manifest = manifest;
        v1 = v1;
        v2 = v2;
        access = e1;
        listed = e3;
        parsed = parsed;
        context = context;
        split = e5;
        listing_url_is = url_with_query-eq-ok urls access.0 _ e5 e2;
        fetched =
            subst (Fetched urls digests disk http container destination entries manifest v2) same (
              download_blobs-Fetched urls digests disk http container destination entries v2 v3 e6);
        digest_is = ground (arith, e);
        paths_are = ground (arith, e);
      }
