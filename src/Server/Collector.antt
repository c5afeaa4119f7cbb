-- ===== src/Server/Collector.antt =====
-- `Collector` (server/collector.go): what is reported of the licenses to the survey.
mod Tests
pub mod Reported
pub mod Customers
use kustomer.Common.{
  String, Bool, true, false, Option, none, some, List, [], ◌∷◌, ite, if◌then◌else◌, string_dec,
}
use kustomer.Common.Panic.{Run, ok, panic, ◌>>=◌, each}
use kustomer.License.{Product, Claims}
use kustomer.Loader.Jose.{Jose}
use kustomer.Loader.File.{default_license_leeway}
use kustomer.Products.Entry.{append_if_missing}
use kustomer.Server.Email.{hide_email}

-- The fields that change; the logger is left out.
pub record Collector (F : Type 0) : Type 0 where
  pub claims : List (Claims F)

unfoldable pub new_collector : {F : Type 0} → List (Claims F) → Collector F
new_collector claims = record { claims = claims }

unfoldable pub set_claims : {F : Type 0} → List (Claims F) → Collector F → Collector F
set_claims claims c = record c { claims = claims }

-- The values of the three metrics that `Collect` sends.
pub record Metrics : Type 0 where
  pub license_customer : List String
  pub license_ids : List String
  pub license_products : List String

module _ {F : Type 0} (j : Jose F) (hash_sub : String → String) (expected : j.Expected) where
  -- The body of the loop over the products; a nil product panics.
  unfoldable pub collect_product : Metrics → String × Option (Product F) → Run Metrics
  collect_product m (id, none) = ite (string_dec id "") (ok m) panic
  collect_product m (id, some product) = ite (string_dec id "") (ok m) (
      ok (record m {
        license_ids = append_if_missing m.license_ids product.license_id;
        license_products = append_if_missing m.license_products id;
      }))

  pub collect_customer : Metrics → Claims F → Metrics
  collect_customer m claim = record m {
    license_customer = append_if_missing m.license_customer (hide_email hash_sub claim.subject);
  }

  -- The loop over the products of a valid license; ranging over a nil map does nothing.
  pub collect_products : Metrics → Option (List (String × Option (Product F))) → Run Metrics
  collect_products m none = ok m
  collect_products m (some named) = each collect_product m named

  -- The body of the loop over the claims.
  unfoldable pub collect_claim : Metrics → Claims F → Run Metrics
  unfolding collect_customer collect_products
  collect_claim m claim =
      if j.validates claim.claims expected default_license_leeway
      then collect_products (collect_customer m claim) claim.kopano.products
      else ok (collect_customer m claim)

  -- `Collect`; `expected` holds the time of the call.
  unfoldable pub collect : Collector F → Run Metrics
  collect c =
      each collect_claim (record { license_customer = []; license_ids = []; license_products = [] })
        c.claims
