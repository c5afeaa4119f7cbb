-- ===== src/Server/State.antt =====
-- `Server` of server/server.go: the fields that the handlers and the loops of `Serve` share.
use kustomer.Common.{ℕ, String, Bool, Option, List}
use kustomer.License.{Claims}

-- A `*jose.JSONWebKeySet`: its address, by which the pointer is compared, and the set.
pub record KeySet (J : Type 0) : Type 0 where
  pub address : ℕ
  pub set : J

-- `ready` says that `readyCh` is closed. A new `updateCh` is a new number: the channels with a
-- smaller number are closed.
pub record Server (F J : Type 0) : Type 0 where
  pub license_path : String
  pub listen_path : String
  pub sub : String
  pub insecure : Bool
  pub trusted : Bool
  pub offline : ℕ
  pub offline_threshold : ℕ
  pub jwks : Option (KeySet J)
  pub ready : Bool
  pub update_ch : ℕ
  pub claims : List (Claims F)
