-- ===== src/Cmd/Tests.antt =====
-- Concrete runs of the commands.
use kustomer.Common.{
  ℕ, String, true, false, some, List, [], ◌∷◌, ◌≡◌, ◌≢◌, ◌↔◌, ◌⊎◌, refl, string_dec,
}
use kustomer.Server.ReloadRequest.{unix, taken, closed, Connection, gone, abandoned}
use kustomer.Cmd.Client.{reload_over, successful, reload_over_iff}
use kustomer.Cmd.Environment.{Settings, settings}
use kustomer.Cmd.Serve.{
  Services, Flags, ServeConfig, configured, load_certs, parse_urls, configured_uris, split_text,
  serve_config,
}
use kustomer.Cmd.Serve.Trusted.{serve_config-IsTrusted}

abbrev root : Connection
root = unix (some (record { pid = 7; uid = 0 }))

reload_over_iff_example : (reload_over root taken closed ≡ successful) ↔ (
    (pid : ℕ) × (root ≡ unix (some (record { pid = pid; uid = 0 })))
    × (((taken ≡ taken) × (closed ≡ closed))
        ⊎ ((taken ≡ gone) ⊎ ((taken ≡ taken) × (closed ≡ abandoned)))))
reload_over_iff_example = reload_over_iff root taken closed

-- URLs are texts, and a pool is the number of its certificates. The order stays as it is.
abbrev services : Services ℕ String
services = record {
  parse_level = λ s. true;
  decode_base64 = λ s. some (65 ∷ []);
  new_pool = 0;
  append_certs = λ certs. (true, 1);
  parse_url = some;
  shuffle = λ us. us;
  hash_sub = λ s. s;
  absolute = some;
}

abbrev flags : Flags
flags = record {
  log_level = "info";
  licenses_path = "/a";
  listen_path = "/run/b";
  insecure = false;
  license_certs = "QQ==";
}

abbrev defaults : Settings
defaults = record {
  submit_url = "https://a";
  start_delay = 1;
  error_delay = 2;
  interval = 3;
  survey_insecure = false;
  license_jwks_uri = "a,b";
  global_sub = "";
  trusted = true;
}

abbrev no_environment : String → String
no_environment v = ""

abbrev config : ServeConfig ℕ String
config = record {
  config = record {
    sub = "";
    licenses_path = "/a";
    listen_path = "/run/b";
    insecure = false;
    trusted = true;
  };
  jwks_uris = "a" ∷ "b" ∷ [];
  cert_pool = 1;
}

configures : serve_config services flags (settings no_environment defaults) ≡ configured config
unfolding serve_config settings load_certs parse_urls configured_uris split_text string_dec
configures = refl

configures_defaults : serve_config services flags defaults ≡ configured config
unfolding serve_config load_certs parse_urls configured_uris split_text string_dec
configures_defaults = refl

serve_config-IsTrusted_example :
    (defaults.trusted ≡ true)
    × (no_environment "KOPANO_CUSTOMERCLIENT_URL" ≡ "")
    × (no_environment "KOPANO_CUSTOMERCLIENT_INSECURE" ≡ "")
    × (no_environment "KOPANO_KUSTOMERD_LICENSE_JWKS_URI" ≡ "")
    × (defaults.license_jwks_uri ≢ "")
    × (flags.license_certs ≢ "")
    × ((bytes : List ℕ) × (services.decode_base64 flags.license_certs ≡ some bytes)
        × ((services.append_certs bytes).0 ≡ true))
serve_config-IsTrusted_example =
    serve_config-IsTrusted services no_environment defaults flags config configures refl
