-- ===== src/Server/Collector/Tests.antt =====
-- What is collected of concrete licenses, and a concrete email.
use kustomer.Common.{
  ◌≢◌, ◌↔◌, ℕ, String, true, false, some, [], ◌∷◌, ◌≡◌, refl, arith, All, Any, string_dec,
}
use kustomer.Common.Panic.{ok, each}
use kustomer.Common.Text.{codes, cut, split}
use kustomer.License.{Claims}
use kustomer.Loader.Example.{jose, license_of}
use kustomer.Products.Entry.{append_if_missing}
use kustomer.Server.Email.{is_valid_email, hide_email}
use kustomer.Server.Email.Accepts.{IsEmail, is_valid_email_iff}
use kustomer.Server.Collector.{Collector, Metrics, collect_claim, collect_product, collect}
use kustomer.Server.Collector.Reported.{Holds, IsValidNow, collect-products}
use kustomer.Products.Answer.Offered.{Offers}
use kustomer.Server.Collector.Customers.{collect-customers}

is_valid_email_iff_example : (is_valid_email "a@b.c" ≡ true) ↔ IsEmail (codes "a@b.c")
is_valid_email_iff_example = is_valid_email_iff "a@b.c"

-- Every hash is `0f`.
abbrev hash : String → String
hash s = "0f"

-- The subject is an email, and there is a product.
abbrev license : Claims ℕ
license =
    let c : Claims ℕ = license_of "/a/l" "1" 7 [] in
    record c {
      claims = record c.claims { subject = "a@b.c" };
      kopano = record {
        version = 0;
        products = some (("groupware", some (record { license_id = "p"; unknown = [] })) ∷ []);
      };
    }

abbrev collector : Collector ℕ
collector = record { claims = license ∷ [] }

abbrev metrics : Metrics
metrics = record {
  license_customer = "0f" ∷ [];
  license_ids = "p" ∷ [];
  license_products = "groupware" ∷ [];
}

collects : collect jose hash tt collector ≡ ok metrics
unfolding collect collect_claim collect_product each append_if_missing hide_email is_valid_email cut
    split string_dec
collects = refl

collect-products_example :
    Holds metrics.license_products "groupware"
    ↔ Any
        (λ claim.
          IsValidNow jose hash tt claim
          × (Offers "groupware" claim × (◌≢◌ {A = String} "groupware" "")))
        collector.claims
collect-products_example = collect-products jose hash tt "groupware" collector metrics collects

collect-customers_example :
    All (λ x. is_valid_email x ≡ false) metrics.license_customer
    × ((x : String)
        → Holds metrics.license_customer x
          ↔ Any (λ claim. hide_email hash claim.subject ≡ x) collector.claims)
collect-customers_example =
    collect-customers jose hash tt (λ s. (λ e. ground (arith, e), (λ e. ground (arith, e), tt)))
      collector metrics collects
