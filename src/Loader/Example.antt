-- ===== src/Loader/Example.antt =====
-- Concrete licenses, and a concrete instance of the token library, for the tests.
use kustomer.Common.{ℕ, String, true, false, Option, none, some, List, [], ◌∷◌}
use kustomer.License.{JwtClaims, Kopano, Claims}
use kustomer.Loader.Jose.{Jose, Decoded}

abbrev pub claims_of : String → ℕ → JwtClaims
claims_of id time = record {
  issuer = "kopano";
  subject = "acme";
  audience = [];
  expiry = none;
  not_before = none;
  issued_at = some time;
  id = id;
}

abbrev pub no_products : Kopano ℕ
no_products = record { version = 0; products = none }

abbrev pub decoded_token : ℕ → Decoded ℕ
decoded_token n = record {
  failed = false;
  claims = some (claims_of "1" n);
  license_file_id = "u";
  display_name = "";
  support_identification_number = "";
  kopano = no_products;
}

abbrev pub time_of : Option ℕ → ℕ
time_of none = 0
time_of (some n) = n

-- A token is its bytes, a key set the list of its keys.
abbrev pub jose : Jose ℕ
jose = record {
  Token = List ℕ;
  Header = Unit {0};
  Key = ℕ;
  KeySet = List ℕ;
  Cert = Unit {0};
  CertPool = Unit {0};
  Expected = Unit {0};
  parse_signed = some;
  headers = λ t. tt ∷ [];
  algorithm = λ h. "EdDSA";
  key_id = λ h. "key";
  keys_of = λ set id. set;
  certificates = λ h pool. none;
  public_key = λ c. none;
  verified_claims = λ t k. decoded_token 7;
  unverified_claims = λ t. decoded_token 7;
  validates = λ c e l. true;
  time = time_of;
}

abbrev pub license_of : String → String → ℕ → List ℕ → Claims ℕ
license_of file id time raw = record {
  claims = claims_of id time;
  license_file_name = file;
  license_id = id;
  raw = raw;
  license_file_id = "u";
  display_name = "";
  support_identification_number = "";
  kopano = no_products;
}
