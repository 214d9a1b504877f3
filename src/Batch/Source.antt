-- ===== src/Batch/Source.antt =====
-- Where a build context is downloaded from, in src/python-sdk-v2/create_batch_deployment.py:
-- `_safe_source_prefix` and `_url_with_query`; the child
-- Access has `_validate_sdk_registry_helper` and `_authenticated_container_url`.
pub mod Safe
pub mod Access
mod Tests
use mlops_templates.Prelude.{
  ℕ, Bool, true, false, not, ◌&&◌, ◌||◌, Option, none, some, List, [], ◌∷◌, ◌++◌, ◌==◌,
  if◌then◌else◌, any, map,
}
use mlops_templates.Text.{Text, str, str_eq, is_empty, lower, one_of, ends_with}
use mlops_templates.Outcome.{
  Exn, Result, ok, err, raise_if, runtime_error, source_uri_invalid, source_container_unsafe,
  source_prefix_unsafe, not_container_sas, sas_invalid, sas_container_differs,
}
use mlops_templates.Outcome.Pure.{◌>>=◌, ◌>>◌}
use mlops_templates.Azure.{Dict}
use mlops_templates.Posix.{
  split_slash, starts_with_slash, parts, is_absolute, dot, dot_dot, as_posix,
}
use mlops_templates.Batch.Reference.{rstrip_slash}
use mlops_templates.Batch.Reference.Patterns.{is_container_name}

-- The result of `urlsplit`.
pub record Url : Type 0 where
  pub scheme : Text
  pub netloc : Text
  pub path : Text
  pub query : Text
  pub fragment : Text

-- urllib.parse; `urlsplit` may raise ValueError
pub record Urls : Type 0 where
  pub urlsplit : Text → Result Url
  pub urlunsplit : Url → Text
  pub unquote : Text → Text
  -- quote(s, safe="/")
  pub quote : Text → Text
  -- parse_qsl(query, keep_blank_values=True)
  pub parse_qsl : Text → List (Text × Text)
  pub urlencode : Dict → Text

abbrev pub non_empty : List Text → List Text
non_empty [] = []
non_empty (part ∷ parts) = if is_empty part then non_empty parts else part ∷ non_empty parts

-- `PurePosixPath(path, *parts)`, as a text: an absolute part replaces what stands before it.
unfoldable pub joined : Text → List Text → Text
unfolding ends_with
joined path [] = path
joined path (part ∷ parts) =
    let below = if is_empty path || ends_with (str "/") path then path else path ++ str "/" in
    joined (if starts_with_slash part then part else below ++ part) parts

-- The tests on `prefix_path`, any of which turns it down.
unfoldable pub is_unsafe_prefix : Text → Bool
is_unsafe_prefix path =
    is_absolute path
    || one_of dot_dot (parts path)
    || any (λ part. is_empty part || str_eq part dot || str_eq part dot_dot) (parts path)

abbrev is_https : Url → Bool
is_https url = str_eq (lower url.scheme) (str "https")

-- the container's URL, the prefix of the blobs and the host
pub record Location : Type 0 where
  pub container_url : Text
  pub prefix : Text
  pub host : Text

-- `dict.update`, an item at a time
unfoldable pub dict_insert : Text → Text → Dict → Dict
dict_insert key value [] = (key, value) ∷ []
dict_insert key value ((k, v) ∷ d) =
    let rest = dict_insert key value d in if str_eq key k then (k, value) ∷ d else (k, v) ∷ rest

unfoldable pub dict_update : Dict → Dict → Dict
unfolding dict_insert
dict_update d [] = d
dict_update d ((key, value) ∷ additions) = dict_update (dict_insert key value d) additions

module _ (urls : Urls) where
  -- `path_parts`
  unfoldable pub path_parts : Text → List Text
  unfolding split_slash
  path_parts path = map urls.unquote (non_empty (split_slash path))

  -- What follows the first test, by the container and the parts behind it.
  abbrev pub located : Url → Text → List Text → Result Location
  located parsed container prefix_parts =
      let prefix_path = joined [] prefix_parts in
      if not (is_container_name container)
      then err (runtime_error source_container_unsafe)
      else if is_unsafe_prefix prefix_path
      then err (runtime_error source_prefix_unsafe)
      else ok (record {
        container_url = urls.urlunsplit (record {
          scheme = parsed.scheme;
          netloc = parsed.netloc;
          path = b'/' ∷ container;
          query = [];
          fragment = [];
        });
        prefix = rstrip_slash (as_posix prefix_path) ++ str "/";
        host = parsed.netloc;
      })

  abbrev pub has_parts : Url → List Text → Result Location
  has_parts parsed [] = err (runtime_error source_uri_invalid)
  has_parts parsed (container ∷ []) = err (runtime_error source_uri_invalid)
  has_parts parsed (container ∷ part ∷ parts) =
      if not (is_https parsed)
        || is_empty parsed.netloc
        || not (is_empty parsed.query)
        || not (is_empty parsed.fragment)
      then err (runtime_error source_uri_invalid)
      else located parsed container (part ∷ parts)

  unfoldable pub safe_source_prefix : Text → Result Location
  safe_source_prefix source_uri = do
    parsed ← urls.urlsplit source_uri
    has_parts parsed (path_parts parsed.path)

  unfoldable pub url_with_query : Text → Dict → Result Text
  url_with_query url additions = do
    parsed ← urls.urlsplit url
    ok (
        urls.urlunsplit (record parsed {
          query =
              urls.urlencode (dict_update (dict_update [] (urls.parse_qsl parsed.query)) additions);
          fragment = [];
        }))

  -- What `_authenticated_container_url` does with the answer of the helper: it gives the URL of the
  -- container and the prefix.
  unfoldable pub trusted_url : Text → Text → Text → Result (Text × Text)
  trusted_url source_uri storage_uri credential_type = do
    raise_if (not (str_eq credential_type (str "SAS"))) (runtime_error not_container_sas)
    source ← safe_source_prefix source_uri
    sas ← urls.urlsplit storage_uri
    raise_if
        (not (is_https sas)
          || not (str_eq (lower sas.netloc) (lower source.host))
          || is_empty sas.query
          || not (is_empty sas.fragment))
        (runtime_error sas_invalid)
    container ← urls.urlsplit source.container_url
    raise_if (not (str_eq (rstrip_slash sas.path) (rstrip_slash container.path)))
        (runtime_error sas_container_differs)
    ok (urls.urlunsplit sas, source.prefix)
