-- ===== src/Cmd/Serve.antt =====
-- The command `serve` up to the server that it starts (cmd/kustomerd/serve.go, cmd/kustomerd/log.go).
-- Base64, certificates, URLs, the random order and the log level are parameters.
pub mod Trusted
use Prim.Native.Char.{Char, code}
use kustomer.Common.{
  ℕ, String, Bool, true, false, Option, none, some, List, [], ◌∷◌, ◌==◌, ite, if◌then◌else◌,
  string_dec,
}
use kustomer.Server.New.{Config, PathError, Built, new_server}
use kustomer.Cmd.Environment.{Settings}

on_first : Char → List String → List String
on_first c [] = String.◌∷◌ c "" ∷ []
on_first c (s ∷ ss) = String.◌∷◌ c s ∷ ss

-- `strings.Split`
unfoldable pub split_text : ℕ → String → List String
unfolding on_first
split_text sep String.[] = "" ∷ []
split_text sep (String.◌∷◌ c s) =
    let rest = split_text sep s in if code c == sep then "" ∷ rest else on_first c rest

-- What `serve` calls: `P` is a certificate pool, `U` a URL.
pub record Services (P U : Type 0) : Type 0 where
  pub parse_level : String → Bool
  pub decode_base64 : String → Option (List ℕ)
  pub new_pool : P
  pub append_certs : List ℕ → Bool × P
  pub parse_url : String → Option U
  pub shuffle : List U → List U
  pub hash_sub : String → String
  pub absolute : String → Option String

-- The flags, and the certificates that are built in.
pub record Flags : Type 0 where
  pub log_level : String
  pub licenses_path : String
  pub listen_path : String
  pub insecure : Bool
  pub license_certs : String

pub data ServeError : Type 0 where
  no_logger bad_certificates bad_jwks_uri : ServeError

-- `server.Config`: what `NewServer` reads, with the URIs and the pool.
pub record ServeConfig (P U : Type 0) : Type 0 where
  pub config : Config
  pub jwks_uris : List U
  pub cert_pool : P

pub data Configured (P U : Type 0) : Type 0 where
  configured : ServeConfig P U → Configured P U
  refused : ServeError → Configured P U

module _ {P U : Type 0} (services : Services P U) where
  decoded_certs : Option (List ℕ) → Option (Bool × P)
  decoded_certs none = none
  decoded_certs (some certs) = some (services.append_certs certs)

  -- Whether the certificates keep the trust, and the pool.
  unfoldable pub load_certs : String → Option (Bool × P)
  unfolding decoded_certs
  load_certs certs =
      ite (string_dec certs "") (some (false, services.new_pool))
        (decoded_certs (services.decode_base64 certs))

  and_url : Option U → Option (List U) → Option (List U)
  and_url (some u) (some us) = some (u ∷ us)
  and_url _ _ = none

  unfoldable pub parse_urls : List String → Option (List U)
  unfolding and_url
  parse_urls [] = some []
  parse_urls (s ∷ ss) = and_url (services.parse_url s) (parse_urls ss)

  -- The first URI stays first, and the others are shuffled.
  main_first : Option (List U) → Option (List U)
  main_first none = none
  main_first (some []) = some []
  main_first (some (main ∷ [])) = some (main ∷ [])
  main_first (some (main ∷ extra ∷ extras)) = some (main ∷ services.shuffle (extra ∷ extras))

  unfoldable pub configured_uris : String → Option (List U)
  unfolding main_first
  configured_uris uris =
      ite (string_dec uris "") (some []) (main_first (parse_urls (split_text 44 uris)))

  with_uris : Flags → Settings → Bool × P → Option (List U) → Configured P U
  with_uris flags s certs none = refused bad_jwks_uri
  with_uris flags s (certified, pool) (some uris) = configured (record {
    config = record {
      sub = s.global_sub;
      licenses_path = flags.licenses_path;
      listen_path = flags.listen_path;
      insecure = flags.insecure;
      trusted =
          ite (string_dec s.license_jwks_uri "") false (if certified then s.trusted else false);
    };
    jwks_uris = uris;
    cert_pool = pool;
  })

  with_certs : Flags → Settings → Option (Bool × P) → Configured P U
  with_certs flags s none = refused bad_certificates
  with_certs flags s (some certs) = with_uris flags s certs (configured_uris s.license_jwks_uri)

  -- The configuration that `serve` makes.
  unfoldable pub serve_config : Flags → Settings → Configured P U
  unfolding with_uris with_certs
  serve_config flags s =
      if services.parse_level flags.log_level
      then with_certs flags s (load_certs flags.license_certs)
      else refused no_logger

-- The server that `serve` starts, or what it returns.
pub data Serving (F J : Type 0) : Type 0 where
  serving : Built F J → Serving F J
  not_configured : ServeError → Serving F J

with_config : {F J P U : Type 0} → Services P U → Configured P U → Serving F J
with_config services (refused e) = not_configured e
with_config services (configured c) =
    serving (new_server services.hash_sub services.absolute c.config)

unfoldable pub serve : {F J P U : Type 0} → Services P U → Flags → Settings → Serving F J
unfolding with_config
serve services flags s = with_config services (serve_config services flags s)
