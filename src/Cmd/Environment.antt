-- ===== src/Cmd/Environment.antt =====
-- The settings that `init` takes from the environment (cmd/kustomerd/serve.go).
use Prim.Native.Char.{code}
use kustomer.Common.{
  ℕ, ◌+◌, ◌-◌, ◌*◌, ◌^◌, String, Bool, true, false, ◌&&◌, leb, if◌then◌else◌, ite, string_dec,
}
use kustomer.Loader.Trim.{trim_text}

-- `strconv.ParseUint` in base 10 with 64 bits, where the error is not read: a number that is too
-- large gives the largest one, and a text that is no number gives 0.
uint_digits : ℕ → String → ℕ
uint_digits n String.[] = n
uint_digits n (String.◌∷◌ c s) =
    let next = n * 10 + (code c - 48) in
    let rest = uint_digits next s in
    if leb 48 (code c) && leb (code c) 57 then if leb (2 ^ 64) next then 2 ^ 64 - 1 else rest else 0

unfoldable pub parse_uint : String → ℕ
unfolding uint_digits
parse_uint s = uint_digits 0 s

-- The variables of the package, and the fields of the survey client's configuration, that are set.
pub record Settings : Type 0 where
  pub submit_url : String
  pub start_delay : ℕ
  pub error_delay : ℕ
  pub interval : ℕ
  pub survey_insecure : Bool
  pub license_jwks_uri : String
  pub global_sub : String
  pub trusted : Bool

-- `if v := os.Getenv(…); v != ""`
abbrev pub if_set {ℓ} : {A : Type ℓ} → String → A → A → A
if_set v otherwise set = ite (string_dec v "") otherwise set

-- `init`, with `os.Getenv` and the values from before.
unfoldable pub settings : (String → String) → Settings → Settings
settings getenv d = record {
  submit_url =
      if_set (getenv "KOPANO_CUSTOMERCLIENT_URL") d.submit_url (getenv "KOPANO_CUSTOMERCLIENT_URL");
  start_delay =
      if_set (getenv "KOPANO_CUSTOMERCLIENT_START_DELAY") d.start_delay
        (parse_uint (getenv "KOPANO_CUSTOMERCLIENT_START_DELAY"));
  error_delay =
      if_set (getenv "KOPANO_CUSTOMERCLIENT_ERROR_DELAY") d.error_delay
        (parse_uint (getenv "KOPANO_CUSTOMERCLIENT_ERROR_DELAY"));
  interval =
      if_set (getenv "KOPANO_CUSTOMERCLIENT_INTERVAL") d.interval
        (parse_uint (getenv "KOPANO_CUSTOMERCLIENT_INTERVAL"));
  survey_insecure =
      if_set (getenv "KOPANO_CUSTOMERCLIENT_INSECURE") d.survey_insecure
        (ite (string_dec (getenv "KOPANO_CUSTOMERCLIENT_INSECURE") "yes") true false);
  license_jwks_uri =
      if_set (getenv "KOPANO_KUSTOMERD_LICENSE_JWKS_URI") d.license_jwks_uri
        (getenv "KOPANO_KUSTOMERD_LICENSE_JWKS_URI");
  global_sub =
      if_set (getenv "KOPANO_KUSTOMERD_LICENSE_SUB") d.global_sub
        (trim_text (getenv "KOPANO_KUSTOMERD_LICENSE_SUB"));
  trusted =
      if_set (getenv "KOPANO_CUSTOMERCLIENT_URL")
        (if_set (getenv "KOPANO_CUSTOMERCLIENT_INSECURE")
          (if_set (getenv "KOPANO_KUSTOMERD_LICENSE_JWKS_URI") d.trusted false) false)
        false;
}
