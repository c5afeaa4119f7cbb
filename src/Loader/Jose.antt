-- ===== src/Loader/Jose.antt =====
-- What the loader uses of go-jose (JSON web tokens and key sets) and of crypto/x509. Both are not
-- part of this repository: an implementation is a parameter.
use kustomer.Common.{ℕ, String, Bool, Option, List}
use kustomer.License.{JwtClaims, Kopano}

-- What decoding the payload of a token stores: the embedded pointer `*jwt.Claims` (nil if the
-- payload has no registered claim), the other fields of `Claims`, and whether it failed.
pub record Decoded (F : Type 0) : Type 0 where
  pub failed : Bool
  pub claims : Option JwtClaims
  pub license_file_id : String
  pub display_name : String
  pub support_identification_number : String
  pub kopano : Kopano F

pub record Jose (F : Type 0) : Type 1 where
  pub Token : Type 0
  pub Header : Type 0
  pub Key : Type 0
  pub KeySet : Type 0
  pub Cert : Type 0
  pub CertPool : Type 0
  pub Expected : Type 0
  -- `jwt.ParseSigned` of the bytes of a token
  pub parse_signed : List ℕ → Option Token
  pub headers : Token → List Header
  pub algorithm : Header → String
  pub key_id : Header → String
  -- `JSONWebKeySet.Key`
  pub keys_of : KeySet → String → List Key
  -- `Header.Certificates`: the verified chains
  pub certificates : Header → CertPool → Option (List (List Cert))
  -- `Certificate.PublicKey`, which may be nil
  pub public_key : Cert → Option Key
  -- `JSONWebToken.Claims`: fails if the signature is not one of the key
  pub verified_claims : Token → Key → Decoded F
  -- `JSONWebToken.UnsafeClaimsWithoutVerification`
  pub unverified_claims : Token → Decoded F
  -- `Claims.ValidateWithLeeway`, with the leeway in seconds: whether there is no error
  pub validates : JwtClaims → Expected → ℕ → Bool
  -- `NumericDate.Time`, also of a nil pointer: seconds since the earliest time
  pub time : Option ℕ → ℕ
