-- ===== src/Batch/Download/Confined.antt =====
-- The download touches the file system below its destination alone.
use mlops_templates.Prelude.{◌≡◌, List, [], ◌∷◌, ◌++◌, All, some, ℕ}
use mlops_templates.Text.{Text}
use mlops_templates.Outcome.Keeps.{
  Keeps, Keeps-pure, Keeps-lift, Keeps-bind, Keeps-then, Keeps-bind_lift,
}
use mlops_templates.Batch.BlobPath.Containment.{IsPlainPart}
use mlops_templates.Batch.Listing.{Entry, Decoders, listing_entries}
use mlops_templates.Batch.Listing.Entries.{IsContained}
use mlops_templates.Batch.Listing.Bounds.{listing_entries-IsBuildContext}
use mlops_templates.Batch.Request.{Http}
use mlops_templates.Batch.Request.Kept.{Keeps-request_bytes}
use mlops_templates.Batch.Source.Access.Kept.{Keeps-authenticated_container_url}
use mlops_templates.Batch.ScoringCode.{PathNames}
use mlops_templates.Batch.Source.{Url, Urls}
use mlops_templates.Batch.Source.Access.{Storage, Helper}
use mlops_templates.Batch.Download.{
  Digests, Disk, parent, download_blob, download_blobs, download_registry_build_context,
}

-- A fact of the world that requests keep, and writes at plain paths below the destination.
pub record IsElsewhere {W P M : Type 0} (disk : Disk W) (http : Http W P) (storage : Storage W M)
    (destination : PathNames) (Q : W → Type 0) : Type 0 where
  pub open_url : (url : Text) → Keeps Q (http.open_url url)
  pub read : (response : P) (n : ℕ) → Keeps Q (http.read response n)
  pub helper :
      (helper : Helper W M) (client : M) (name version group registry uri : Text)
      → storage.helper ≡ some helper
      → Keeps Q (helper client name version group registry uri)
  pub mkdir :
      (names : PathNames)
      → All IsPlainPart names
      → Keeps Q (disk.mkdir (parent (destination ++ names)))
  pub write_bytes :
      (names : PathNames) (body : List ℕ)
      → All IsPlainPart names
      → Keeps Q (disk.write_bytes (destination ++ names) body)

module _ {W P M : Type 0} {Q : W → Type 0} (urls : Urls) (digests : Digests) (disk : Disk W)
    (http : Http W P) (storage : Storage W M) (destination : PathNames)
    (elsewhere : IsElsewhere disk http storage destination Q) where
  download_blob-Keeps :
      (container : Url) (entry : Entry)
      → IsContained entry
      → Keeps Q (download_blob urls digests disk http container destination entry)
  unfolding download_blob
  download_blob-Keeps container entry contained =
      Keeps-bind _ _ (Keeps-request_bytes http elsewhere.open_url elsewhere.read _ _) (λ answer.
        Keeps-then _ _ (Keeps-lift _) (
          Keeps-then _ _ (elsewhere.mkdir entry.path contained.path) (
            Keeps-then _ _ (elsewhere.write_bytes entry.path answer.0 contained.path)
              (Keeps-pure _))))

  download_blobs-Keeps :
      (container : Url) (entries : List Entry)
      → All IsContained entries
      → Keeps Q (download_blobs urls digests disk http container destination entries)
  unfolding download_blobs
  download_blobs-Keeps container [] contained = Keeps-pure _
  download_blobs-Keeps container (entry ∷ entries) contained =
      Keeps-bind _ _ (download_blob-Keeps container entry contained.0) (λ here.
        Keeps-bind _ _ (download_blobs-Keeps container entries contained.1) (λ rest. Keeps-pure _))

  -- Whatever the server lists and sends, and however the download ends, it makes directories and
  -- writes files only at paths that are made of the destination and of plain names below it (and it
  -- makes the parents of such paths): what requests and such writes keep, the download keeps.
  pub download_registry_build_context-Keeps :
      (decoders : Decoders) (client : M) (registry_name environment_name version source_uri : Text)
      → Keeps Q (
          download_registry_build_context urls digests disk http decoders storage client
            registry_name environment_name version source_uri destination)
  unfolding download_registry_build_context
  download_registry_build_context-Keeps decoders client registry_name environment_name version
        source_uri =
      Keeps-bind _ _
        (Keeps-authenticated_container_url urls storage elsewhere.helper client registry_name
          environment_name version source_uri)
        (λ access. Keeps-bind _ _ (Keeps-lift _) (λ listing_url.
          Keeps-bind _ _ (Keeps-request_bytes http elsewhere.open_url elsewhere.read _ _) (λ answer.
            Keeps-bind_lift (listing_entries decoders access.1 answer.0) _ (λ entries listed.
              Keeps-bind _ _ (Keeps-lift _) (λ container.
                Keeps-bind _ _
                  (download_blobs-Keeps container entries
                    (listing_entries-IsBuildContext decoders access.1 answer.0 entries
                      listed).2.contained)
                  (λ manifest. Keeps-pure _))))))
