-- ===== src/Loader/File.antt =====
-- One license file: the body of the loop of `scanFolderForLicenseClaims` (licenses.go).
pub mod Genuine
pub mod Unsafe
use kustomer.Common.{
  ℕ, ◌*◌, String, Bool, true, false, not, ◌&&◌, ◌||◌, Option, none, some, List, [], ◌∷◌, ite,
  if◌then◌else◌, string_dec, take,
}
use kustomer.Common.Panic.{Run, ok, panic, ◌>>=◌}
use kustomer.License.{JwtClaims, Claims}
use kustomer.Loader.Jose.{Jose, Decoded}
use kustomer.Loader.Trim.{trim_bytes, trim_text}

-- `DefaultLicenseLeeway`, in seconds
abbrev pub default_license_leeway : ℕ
default_license_leeway = 24 * 3600

abbrev pub license_size_limit_bytes : ℕ
license_size_limit_bytes = 1024 * 1024

-- The four signature algorithms that are accepted, `jose.EdDSA` … `jose.ES512`.
unfoldable pub is_accepted_alg : String → Bool
is_accepted_alg alg = ite (string_dec alg "EdDSA") true (
    ite (string_dec alg "ES256") true
      (ite (string_dec alg "ES384") true (ite (string_dec alg "ES512") true false)))

-- The fields of `LicensesLoader` that decide about a file, with the argument `unsafe`.
pub record Mode {F : Type 0} (j : Jose F) : Type 0 where
  pub cert_pool : Option j.CertPool
  pub jwks : Option j.KeySet
  pub offline : Bool
  pub unsafe : Bool

-- What the code that looks for a key ends with: the license is ignored, or it goes on with a key
-- (`none` is a nil key).
pub data Choice (K : Type 0) : Type 0 where
  ignore : Choice K
  go_on : Option K → Choice K

-- What is known of a file when its block ends: its license id, and the claims that are appended to
-- the result, if any.
pub record Reading (F : Type 0) : Type 0 where
  pub license_id : String
  pub loaded : Option (Claims F)

module _ {F : Type 0} (j : Jose F) (mode : Mode j) where
  -- `key = &keys[0]`: with `unsafe` also where there is no key, which panics.
  online_key : List j.Key → Run (Choice j.Key)
  online_key [] = if mode.unsafe then panic else ok ignore
  online_key (key ∷ _) = ok (go_on (some key))

  first_public_key : List (List j.Cert) → Option j.Key
  first_public_key ((cert ∷ _) ∷ _) = j.public_key cert
  first_public_key _ = none

  -- `if key == nil && !unsafe`
  offline_choice : Option j.Key → Choice j.Key
  offline_choice (some key) = go_on (some key)
  offline_choice none = if mode.unsafe then go_on none else ignore

  -- The search for a key of the certificate pool.
  offline_key : j.Header → Choice j.Key
  offline_key header = if not mode.offline && not mode.unsafe then ignore else elim mode.cert_pool [
    | none ↦ offline_choice none
    | some pool ↦ elim (j.certificates header pool) [
      | none ↦ ignore
      | some chains ↦ offline_choice (first_public_key chains)
    ]
  ]

  unfoldable pub select_key : j.Header → Run (Choice j.Key)
  unfolding online_key first_public_key offline_choice offline_key
  select_key header = elim mode.jwks [
    | some set ↦ online_key (j.keys_of set (j.key_id header))
    | none ↦ ok (offline_key header)
  ]

  pub decode : j.Token → Option j.Key → Decoded F
  decode token none = j.unverified_claims token
  decode token (some key) = j.verified_claims token key

  module _ (expected : j.Expected) (fn : String) (raw : List ℕ) where
    ignored : Reading F
    ignored = record { license_id = fn; loaded = none }

    -- `c`, after a successful decoding
    loaded_claims : JwtClaims → String → Decoded F → Claims F
    loaded_claims claims id d = record {
      claims = claims;
      license_file_name = fn;
      license_id = id;
      raw = raw;
      license_file_id = d.license_file_id;
      display_name = d.display_name;
      support_identification_number = d.support_identification_number;
      kopano = d.kopano;
    }

    -- What stands behind a successful decoding: a nil `*jwt.Claims` panics.
    check_claims : Decoded F → Run (Reading F)
    check_claims d = elim d.claims [
      | none ↦ panic
      | some claims ↦
          let id = ite (string_dec claims.id "") fn claims.id in
          ok (record {
            license_id = id;
            loaded =
                if j.validates claims expected default_license_leeway
                then ite (string_dec (trim_text claims.subject) "") none
                    (some (loaded_claims claims id d))
                else none;
          })
    ]

    with_key : j.Token → Choice j.Key → Run (Reading F)
    with_key token ignore = ok ignored
    with_key token (go_on key) =
        let d = decode token key in if d.failed then ok ignored else check_claims d

    with_headers : j.Token → List j.Header → Run (Reading F)
    with_headers token (header ∷ []) =
        if is_accepted_alg (j.algorithm header)
        then select_key header >>= with_key token
        else ok ignored
    with_headers token _ = ok ignored

    with_raw : Run (Reading F)
    with_raw = elim (j.parse_signed raw) [
      | none ↦ ok ignored
      | some token ↦ with_headers token (j.headers token)
    ]

  -- The block from `io.LimitReader` on; `none` is a file that cannot be read.
  unfoldable pub read_license : j.Expected → String → Option (List ℕ) → Run (Reading F)
  unfolding decode ignored loaded_claims check_claims with_key with_headers with_raw
  read_license expected fn none = ok (ignored expected fn [])
  read_license expected fn (some bytes) =
      with_raw expected fn (trim_bytes (take license_size_limit_bytes bytes))
