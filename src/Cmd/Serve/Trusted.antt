-- ===== src/Cmd/Serve/Trusted.antt =====
-- When the configuration of `serve` is trusted, and the order of its JWKS URIs
-- (cmd/kustomerd/serve.go).
use mathlib.Core.List.{Perm}
use mathlib.Core.List.Perm
use kustomer.Common.{
  ℕ, String, Bool, true, false, Option, none, some, List, [], ◌∷◌, ite, if◌then◌else◌, string_dec,
  ◌≡◌, ◌≢◌, refl, sym, ap, arith, Option-cases, inl, inr, if_neg, ◌∙◌,
}
use kustomer.Cmd.Environment.{Settings, settings}
use kustomer.Cmd.Serve.{
  Services, Flags, ServeConfig, configured, decoded_certs, load_certs, and_url, parse_urls,
  main_first, configured_uris, with_uris, with_certs, serve_config, split_text, on_first,
}

split_text_some : (sep : ℕ) (s : String) → split_text sep s ≢ []
unfolding split_text on_first
split_text_some sep String.[] = λ e. cc
split_text_some sep (String.◌∷◌ c s) = λ e. ground arith

module _ {P U : Type 0} (services : Services P U) where
  -- What a configuration that is made consists of.
  serve_config-parts :
      (flags : Flags) (s : Settings) (c : ServeConfig P U)
      → serve_config services flags s ≡ configured c
      → (certified : Bool) × (pool : P) × (load_certs services flags.license_certs
          ≡ some (certified, pool))
        × (configured_uris services s.license_jwks_uri ≡ some c.jwks_uris)
        × (c.config.trusted
            ≡ ite (string_dec s.license_jwks_uri "") false (if certified then s.trusted else false))
  unfolding serve_config with_certs with_uris
  serve_config-parts flags s c e = elim (Option-cases (load_certs services flags.license_certs)) [
    | inl n ↦ absurd (ground arith)
    | inr ((certified, pool), n) ↦
        elim (Option-cases (configured_uris services s.license_jwks_uri)) [
          | inl m ↦ absurd (ground arith)
          | inr (uris, m) ↦ (certified, pool, n, ground arith, ground arith)
        ]
  ]

  kept_certs :
      (certs : String) (pool : P)
      → load_certs services certs ≡ some (true, pool)
      → (certs ≢ "")
        × ((bytes : List ℕ) × (services.decode_base64 certs ≡ some bytes)
            × (services.append_certs bytes ≡ (true, pool)))
  unfolding load_certs decoded_certs
  kept_certs certs pool e = elim (string_dec certs "") [
    | yes z ↦ absurd (ground arith)
    | no z ↦ elim (Option-cases (services.decode_base64 certs)) [
      | inl n ↦ absurd (ground arith)
      | inr (bytes, n) ↦ (z, (bytes, n, ground arith))
    ]
  ]

  -- If `serve` makes a configuration that is trusted: it was so by default, the environment sets
  -- neither the survey's URL nor its TLS checks nor the JWKS URIs, there are JWKS URIs and
  -- certificates built in, and the certificates can be decoded and added to the pool.
  pub serve_config-IsTrusted :
      (getenv : String → String) (d : Settings) (flags : Flags) (c : ServeConfig P U)
      → serve_config services flags (settings getenv d) ≡ configured c
      → c.config.trusted ≡ true
      → (d.trusted ≡ true)
        × (getenv "KOPANO_CUSTOMERCLIENT_URL" ≡ "")
        × (getenv "KOPANO_CUSTOMERCLIENT_INSECURE" ≡ "")
        × (getenv "KOPANO_KUSTOMERD_LICENSE_JWKS_URI" ≡ "")
        × (d.license_jwks_uri ≢ "")
        × (flags.license_certs ≢ "")
        × ((bytes : List ℕ) × (services.decode_base64 flags.license_certs ≡ some bytes)
            × ((services.append_certs bytes).0 ≡ true))
  unfolding settings
  serve_config-IsTrusted getenv d flags c e t =
      let (certified, pool, certs, _, trusted) = serve_config-parts flags (settings getenv d) c e in
      let yes_certified : certified ≡ true = ground arith in
      let (set, (bytes, decodes, appends)) =
        kept_certs flags.license_certs pool (rw yes_certified at certs) in
      (
        ground arith,
        ground arith,
        ground arith,
        ground arith,
        ground arith,
        set,
        (bytes, decodes, ap (λ x. x.0) appends),
      )

  parsed_some :
      (ss : List String) (us : List U) → parse_urls services ss ≡ some us → ss ≢ [] → us ≢ []
  unfolding parse_urls and_url
  parsed_some [] us e n = absurd (n refl)
  parsed_some (s ∷ ss) us e n = λ z. ground arith

  main_first-some :
      (parsed : Option (List U)) (uris : List U)
      → main_first services parsed ≡ some uris
      → (us : List U) × (parsed ≡ some us) × (main_first services (some us) ≡ some uris)
  unfolding main_first
  main_first-some none uris e = cc
  main_first-some (some us) uris e = (us, refl, e)

  ordered_uris :
      ((us : List U) → Perm (services.shuffle us) us)
      → (us uris : List U) → main_first services (some us) ≡ some uris
      → us ≢ []
      → (main : U) × (extra shuffled : List U) × (us ≡ main ∷ extra)
        × (uris ≡ main ∷ shuffled)
        × Perm shuffled extra
  unfolding main_first
  ordered_uris perm [] uris e n = absurd (n refl)
  ordered_uris perm (main ∷ []) uris e n = (main, [], [], refl, cc, Perm.rfl)
  ordered_uris perm (main ∷ extra ∷ extras) uris e n =
      (main, extra ∷ extras, services.shuffle (extra ∷ extras), refl, cc, perm (extra ∷ extras))

  -- If a shuffle permutes and `serve` makes a configuration from a setting of JWKS URIs that is not
  -- empty: the first URI of the setting is the first of the configuration, and the others are those
  -- of the setting in some order.
  pub serve_config-uris :
      ((us : List U) → Perm (services.shuffle us) us)
      → (flags : Flags) (s : Settings) (c : ServeConfig P U) → s.license_jwks_uri ≢ ""
      → serve_config services flags s ≡ configured c
      → (main : U) × (extra shuffled : List U) × (parse_urls services
            (split_text 44 s.license_jwks_uri)
          ≡ some (main ∷ extra))
        × (c.jwks_uris ≡ main ∷ shuffled)
        × Perm shuffled extra
  unfolding configured_uris
  serve_config-uris perm flags s c nonempty e =
      let (_, _, _, uris, _) = serve_config-parts flags s c e in
      let (us, parsed, ordered) =
        main_first-some (parse_urls services (split_text 44 s.license_jwks_uri)) c.jwks_uris
          (sym (if_neg (string_dec s.license_jwks_uri "") nonempty _ _) ∙ uris) in
      let (main, extra, shuffled, same, first, order) =
        ordered_uris perm us c.jwks_uris ordered (parsed_some _ us parsed (split_text_some 44 _)) in
      (main, extra, shuffled, parsed ∙ ap some same, first, order)
