-- ===== src/License.antt =====
-- The license data model: license/license.go, and the values of Go's `interface{}` that a license
-- can hold.
pub mod Dynamic
pub mod Json
pub mod Generate
use kustomer.Common.{ℕ, String, Option, List}
use kustomer.Common.Map.{Map}
use Dynamic.{Value}

-- `jwt.Claims` of go-jose: the registered claims of RFC 7519. A `*jwt.NumericDate` is a missing
-- value or an int64, which is its bit pattern.
pub record JwtClaims : Type 0 where
  pub issuer : String
  pub subject : String
  pub audience : List String
  pub expiry : Option ℕ
  pub not_before : Option ℕ
  pub issued_at : Option ℕ
  pub id : String

-- `ExclusiveClaim`
abbrev pub exclusive_claim : String
exclusive_claim = "exclusive"

pub record Product (F : Type 0) : Type 0 where
  pub license_id : String
  pub unknown : Map (Value F)

-- `ProductSet`; a nil pointer, JSON's `null`, is `none`.
abbrev pub ProductSet : Type 0 → Type 0
ProductSet F = Map (Option (Product F))

-- A nil product set is `none`.
pub record Kopano (F : Type 0) : Type 0 where
  pub version : ℕ
  pub products : Option (ProductSet F)

-- `raw` holds bytes. The embedded pointer `*jwt.Claims` is not nil in a value of this type: where
-- it is nil, the code that makes the value panics.
pub record Claims (F : Type 0) : Type 0 where
  pub claims : JwtClaims
  pub open claims use *
  pub license_file_name : String
  pub license_id : String
  pub raw : List ℕ
  pub license_file_id : String
  pub display_name : String
  pub support_identification_number : String
  pub kopano : Kopano F
