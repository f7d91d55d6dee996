-- ===== src/Config/DatabaseUrl.antt =====
-- Which connection strings `validate_database_url` of crates/app/src/config.rs accepts.
use wiki_next.Base.{
  String, ◌≡◌, refl, ◌≢◌, ◌↔◌, ◌⊎◌, inl, inr, true, false, Option, none, some, List, [], ◌∷◌, arith,
  eq_iff, ◌==◌, Bool-cases, Option-cases, is_some, all, ok, Result-cases,
}
use wiki_next.Base.Trim.{is_empty-trim_matches}
use wiki_next.Base.Text.{codes}
use wiki_next.Net.Loopback.{IsLoopback, url_host_is_loopback_iff}
use wiki_next.Net.{UrlApi, url_host_is_loopback}
use wiki_next.Config.Validate.{
  is_override, query_ssl_mode, check_database_url, validate_database_url,
}

module _ {T : Type 0} (field : String) where
  query_ssl_mode-some :
      (pairs : List (String × String)) (v : String) {m : Option String}
      → query_ssl_mode {T = T} field pairs (some v) ≡ ok m
      → (pairs ≡ []) × (m ≡ some v)
  unfolding query_ssl_mode
  query_ssl_mode-some [] v h = ground arith
  query_ssl_mode-some ((key, value) ∷ pairs) v h = ground arith

  -- The parameters are none, or `sslmode` alone.
  pub query_ssl_mode-none :
      (pairs : List (String × String)) {m : Option String}
      → query_ssl_mode {T = T} field pairs none ≡ ok m
      → ((pairs ≡ []) × (m ≡ none)) ⊎ ((v : String) × (pairs ≡ ("sslmode", v) ∷ []) × (m ≡ some v))
  unfolding query_ssl_mode
  query_ssl_mode-none [] h = inl (ground arith)
  query_ssl_mode-none ((key, value) ∷ pairs) {m} h =
      let key_is : (key ≡ "sslmode") × (query_ssl_mode {T = T} field pairs (some value) ≡ ok m) =
        ground (arith, eq_iff key "sslmode") in
      let e = query_ssl_mode-some pairs value key_is.1 in inr (value, cc (key_is.0, e.0), e.1)

-- A connection string that names the server, the database and a password, and reaches a remote
-- server only with `sslmode=verify-full`. No other parameter is given.
pub record IsSafeDatabaseUrl (U : UrlApi) (url : U.Url) : Type 0 where
  pub scheme : (U.scheme url ≡ "postgres") ⊎ (U.scheme url ≡ "postgresql")
  pub host : is_some (U.host url) ≡ true
  pub password : (p : String) × (U.password url ≡ some p) × (p ≢ "")
  pub database : all (λ c. c == b'/') (codes (U.path url)) ≡ false
  pub fragment : U.fragment url ≡ none
  pub query :
      ((U.query_pairs url ≡ []) × IsLoopback U (U.host url))
      ⊎ ((v : String) × (U.query_pairs url ≡ ("sslmode", v) ∷ [])
          × (IsLoopback U (U.host url) ⊎ (v ≡ "verify-full")))

query_ssl_mode_alone :
    {T : Type 0} (field v : String)
    → query_ssl_mode {T = T} field (("sslmode", v) ∷ []) none ≡ ok (some v)
unfolding query_ssl_mode is_override
query_ssl_mode_alone field v = refl

module _ (U : UrlApi) (T : Type 0) (field : String) (url : U.Url) where
  password_of_checked :
      check_database_url U {T = T} field url ≡ ok tt
      → (p : String) × (U.password url ≡ some p) × (p ≢ "")
  unfolding check_database_url
  password_of_checked h = elim (Option-cases (U.password url)) [
    | inl missing ↦ ground arith
    | inr (p, found) ↦ (p, found, ground (arith, eq_iff p ""))
  ]

  query_of_checked :
      check_database_url U {T = T} field url ≡ ok tt
      → {m : Option String} → query_ssl_mode {T = T} field (U.query_pairs url) none ≡ ok m
      → ((U.query_pairs url ≡ []) × IsLoopback U (U.host url))
        ⊎ ((v : String) × (U.query_pairs url ≡ ("sslmode", v) ∷ [])
            × (IsLoopback U (U.host url) ⊎ (v ≡ "verify-full")))
  unfolding check_database_url
  query_of_checked h {m} found = elim (query_ssl_mode-none field (U.query_pairs url) found) [
    | inl (none_given, e) ↦
        let near : url_host_is_loopback U url ≡ true = ground arith in
        inl (none_given, (url_host_is_loopback_iff U url).0 near)
    | inr (v, alone, e) ↦ elim (Bool-cases (url_host_is_loopback U url)) [
      | inl near ↦ inr (v, alone, inl ((url_host_is_loopback_iff U url).0 near))
      | inr far ↦ inr (v, alone, inr (ground (arith, eq_iff v "verify-full")))
    ]
  ]

  check_database_url_sound :
      check_database_url U {T = T} field url ≡ ok tt → IsSafeDatabaseUrl U url
  unfolding check_database_url
  check_database_url_sound h =
      elim (Result-cases (query_ssl_mode {T = T} field (U.query_pairs url) none)) [
        | inl (m, found) ↦ record {
          scheme =
              ground (arith, eq_iff (U.scheme url) "postgres", eq_iff (U.scheme url) "postgresql");
          host = ground arith;
          password = password_of_checked h;
          database = ground (arith, is_empty-trim_matches (λ c. c == b'/') (codes (U.path url)));
          fragment = ground arith;
          query = query_of_checked h found;
        }
        | inr (e, failed) ↦ ground arith
      ]

  check_database_url_complete :
      IsSafeDatabaseUrl U url → check_database_url U {T = T} field url ≡ ok tt
  unfolding check_database_url
  check_database_url_complete safe =
      let (p, given, filled) = safe.password in
      let slash = is_empty-trim_matches (λ c. c == b'/') (codes (U.path url)) in
      elim safe.query [
        | inl (bare, loopback) ↦
            let near = (url_host_is_loopback_iff U url).1 loopback in
            let mode : query_ssl_mode {T = T} field (U.query_pairs url) none ≡ ok none =
              rw bare (unfold query_ssl_mode in refl) in
            ground (
              arith,
              eq_iff (U.scheme url) "postgres",
              eq_iff (U.scheme url) "postgresql",
              eq_iff p "",
              safe,
            )
        | inr (v, alone, secure) ↦
            let mode : query_ssl_mode {T = T} field (U.query_pairs url) none ≡ ok (some v) =
              rw alone (query_ssl_mode_alone field v) in
            let near = λ (loopback : IsLoopback U (U.host url)).
              (url_host_is_loopback_iff U url).1 loopback in
            ground (
              arith,
              eq_iff (U.scheme url) "postgres",
              eq_iff (U.scheme url) "postgresql",
              eq_iff p "",
              eq_iff v "verify-full",
              safe,
            )
      ]

module _ (U : UrlApi) (T : Type 0) (field value : String) where
  -- `validate_database_url` accepts exactly the texts that parse to a safe connection string: a
  -- PostgreSQL scheme, a host, a password and a database name that are not empty, no fragment, no
  -- parameter but one `sslmode`, and `verify-full` for it unless the host is a loopback address.
  pub validate_database_url_iff :
      (validate_database_url U {T = T} field value ≡ ok tt)
      ↔ ((url : U.Url) × (U.parse value ≡ ok url) × IsSafeDatabaseUrl U url)
  unfolding validate_database_url
  validate_database_url_iff = (
    λ h. elim (Result-cases (U.parse value)) [
      | inl (url, parsed) ↦ (url, parsed, check_database_url_sound U T field url (ground arith))
      | inr (e, failed) ↦ ground arith
    ],
    λ (url, parsed, safe). rw parsed (check_database_url_complete U T field url safe),
  )
