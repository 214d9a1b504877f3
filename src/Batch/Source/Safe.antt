-- ===== src/Batch/Source/Safe.antt =====
-- The blob container that a build context is read from is the one that its source names.
use mlops_templates.Prelude.{◌≡◌, true, false, not, ◌||◌, List, [], ◌∷◌, ◌++◌, arith, map, refl}
use mlops_templates.Text.{Text, str, str_eq, is_empty, lower, one_of}
use mlops_templates.Text.Laws.{str_eq→eq}
use mlops_templates.Outcome.{
  ok, raise_if, runtime_error, not_container_sas, sas_invalid, sas_container_differs,
}
use mlops_templates.Outcome.Laws.{bind-eq-ok, raise_if-eq-ok}
use mlops_templates.Posix.{split_slash, as_posix, parts, is_absolute, dot_dot}
use mlops_templates.Batch.Reference.{rstrip_slash}
use mlops_templates.Batch.Reference.Patterns.{is_container_name}
use mlops_templates.Batch.Source.{
  Url, Urls, Location, is_https, joined, non_empty, is_unsafe_prefix, path_parts, has_parts,
  safe_source_prefix, trusted_url,
}

module _ (urls : Urls) where
  -- What the URL of a source is: HTTPS, with a host, without query and fragment. The non-empty parts
  -- of its path, unquoted, are a container and at least one part more; the parts behind the container
  -- are joined to a prefix that leads out of nothing.
  pub record IsSource (source_uri : Text) (source : Location) : Type 0 where
    pub parsed : Url
    pub container : Text
    pub part : Text
    pub rest : List Text
    pub prefix_path : Text
    pub split : urls.urlsplit source_uri ≡ ok parsed
    pub https : lower parsed.scheme ≡ str "https"
    pub hosted : is_empty parsed.netloc ≡ false
    pub plain : (is_empty parsed.query ≡ true) × (is_empty parsed.fragment ≡ true)
    pub parts_are : map urls.unquote (non_empty (split_slash parsed.path)) ≡ container ∷ part ∷ rest
    pub prefix_path_is : prefix_path ≡ joined [] (part ∷ rest)
    pub named : is_container_name container ≡ true
    pub forward : (is_absolute prefix_path ≡ false) × (one_of dot_dot (parts prefix_path) ≡ false)
    pub source_is : source ≡ record {
      container_url = urls.urlunsplit (record {
        scheme = parsed.scheme;
        netloc = parsed.netloc;
        path = b'/' ∷ container;
        query = [];
        fragment = [];
      });
      prefix = rstrip_slash (as_posix prefix_path) ++ str "/";
      host = parsed.netloc;
    }

  located-IsSource :
      (source_uri : Text) (parsed : Url) (parts : List Text) (source : Location)
      → urls.urlsplit source_uri ≡ ok parsed
      → path_parts urls parsed.path ≡ parts
      → has_parts urls parsed parts ≡ ok source
      → IsSource source_uri source
  unfolding is_unsafe_prefix path_parts
  located-IsSource source_uri parsed [] source split cut e = absurd (ground arith)
  located-IsSource source_uri parsed (c ∷ []) source split cut e = absurd (ground arith)
  located-IsSource source_uri parsed (c ∷ p ∷ ps) source split cut e = record {
    parsed = parsed;
    container = c;
    part = p;
    rest = ps;
    prefix_path = joined [] (p ∷ ps);
    parts_are = cut;
    prefix_path_is = refl;
    split = split;
    https = str_eq→eq (lower parsed.scheme) (str "https") (ground arith);
    hosted = ground arith;
    plain = (ground arith, ground arith);
    named = ground arith;
    forward = (ground arith, ground arith);
    source_is = ground arith;
  }

  safe_source_prefix-IsSource :
      (source_uri : Text) (source : Location)
      → safe_source_prefix urls source_uri ≡ ok source
      → IsSource source_uri source
  unfolding safe_source_prefix
  safe_source_prefix-IsSource source_uri source e =
      let (parsed, split, rest) = bind-eq-ok (urls.urlsplit source_uri) _ e in
      located-IsSource source_uri parsed (path_parts urls parsed.path) source split refl rest

  -- What the URL and the prefix are that the blobs are read by.
  pub record IsTrusted (source_uri storage_uri credential_type url prefix : Text) : Type 0 where
    pub source : Location
    pub sas : Url
    pub container : Url
    pub from : IsSource source_uri source
    pub sas_split : urls.urlsplit storage_uri ≡ ok sas
    pub container_split : urls.urlsplit source.container_url ≡ ok container
    pub scoped : credential_type ≡ str "SAS"
    pub https : lower sas.scheme ≡ str "https"
    pub same_host : lower sas.netloc ≡ lower source.host
    pub signed : (is_empty sas.query ≡ false) × (is_empty sas.fragment ≡ true)
    pub same_container : rstrip_slash sas.path ≡ rstrip_slash container.path
    pub url_is : url ≡ urls.urlunsplit sas
    pub prefix_is : prefix ≡ source.prefix

  -- A URL that `_authenticated_container_url` makes of the helper's answer is that answer: an HTTPS
  -- URL with a query of its own, on the host of the build context's source and for its container,
  -- given with SAS access. The source is itself an HTTPS URL whose path, unquoted, is a container and
  -- a prefix in it that is relative and has no two dots, and this prefix is returned.
  pub trusted_url-IsTrusted :
      (source_uri storage_uri credential_type url prefix : Text)
      → trusted_url urls source_uri storage_uri credential_type ≡ ok (url, prefix)
      → IsTrusted source_uri storage_uri credential_type url prefix
  unfolding trusted_url
  trusted_url-IsTrusted source_uri storage_uri credential_type url prefix e =
      let (_, e0, h0) =
        bind-eq-ok
          (raise_if (not (str_eq credential_type (str "SAS"))) (runtime_error not_container_sas)) _
          e in
      let (source, e1, h1) = bind-eq-ok (safe_source_prefix urls source_uri) _ h0 in
      let (sas, e2, h2) = bind-eq-ok (urls.urlsplit storage_uri) _ h1 in
      let (_, e3, h3) =
        bind-eq-ok
          (raise_if
            (not (is_https sas)
              || not (str_eq (lower sas.netloc) (lower source.host))
              || is_empty sas.query
              || not (is_empty sas.fragment))
            (runtime_error sas_invalid))
          _ h2 in
      let (container, e4, h4) = bind-eq-ok (urls.urlsplit source.container_url) _ h3 in
      let (_, e5, h5) =
        bind-eq-ok
          (raise_if (not (str_eq (rstrip_slash sas.path) (rstrip_slash container.path)))
            (runtime_error sas_container_differs))
          _ h4 in
      let passed = raise_if-eq-ok _ _ tt e3 in
      record {
        source = source;
        sas = sas;
        container = container;
        from = safe_source_prefix-IsSource source_uri source e1;
        sas_split = e2;
        container_split = e4;
        scoped = str_eq→eq credential_type (str "SAS") (ground (arith, raise_if-eq-ok _ _ tt e0));
        https = str_eq→eq (lower sas.scheme) (str "https") (ground (arith, passed));
        same_host = str_eq→eq (lower sas.netloc) (lower source.host) (ground (arith, passed));
        signed = (ground (arith, passed), ground (arith, passed));
        same_container =
            str_eq→eq (rstrip_slash sas.path) (rstrip_slash container.path)
              (ground (arith, raise_if-eq-ok _ _ tt e5));
        url_is = ground (arith, h5);
        prefix_is = ground (arith, h5);
      }
