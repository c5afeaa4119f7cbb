-- ===== src/Server/Collector/Customers.antt =====
-- The customers that are reported (server/collector.go).
use kustomer.Common.{
  String, false, Option, none, some, List, ◌≡◌, ◌≢◌, ◌↔◌, ◌⊎◌, inl, inr, refl, sym, arith, All, Any,
  subst, ap,
}
use kustomer.Common.Text.{codes}
use kustomer.Common.Panic.{ok, each_inv, each_adds}
use kustomer.License.{Product, Claims}
use kustomer.Loader.Jose.{Jose}
use kustomer.Products.Entry.{append_if_missing}
use kustomer.Server.Email.{is_valid_email, hide_email}
use kustomer.Server.Email.Accepts.{hide_email_lem}
use kustomer.Server.Collector.{
  Collector, Metrics, collect_product, collect_customer, collect_products, collect_claim, collect,
}
use kustomer.Server.Collector.Reported.{
  Holds, Report, append_if_missing_iff, All-append_if_missing, append_if_missing-Unique,
  collect_product-Report, collect_product-customers, claim_cases,
}

module _ {F : Type 0} (j : Jose F) (hash_sub : String → String) (expected : j.Expected) where
  collect_products-Report :
      (m m' : Metrics) (named : Option (List (String × Option (Product F))))
      → collect_products j hash_sub expected m named ≡ ok m'
      → Report j hash_sub expected m
      → Report j hash_sub expected m'
  unfolding collect_products
  collect_products-Report m m' none e r =
      let same : m ≡ m' = ground arith in subst (Report j hash_sub expected) same r
  collect_products-Report m m' (some named) e r =
      each_inv (Report j hash_sub expected) (collect_product j hash_sub expected)
        (λ s s' p q h. collect_product-Report j hash_sub expected s s' p q h) named m m' e r

  collect_products-customers :
      (m m' : Metrics) (named : Option (List (String × Option (Product F))))
      → collect_products j hash_sub expected m named ≡ ok m'
      → m'.license_customer ≡ m.license_customer
  unfolding collect_products
  collect_products-customers m m' none e = ground arith
  collect_products-customers m m' (some named) e =
      each_inv (λ (n : Metrics). n.license_customer ≡ m.license_customer)
        (collect_product j hash_sub expected)
        (λ s s' p q h. collect_product-customers j hash_sub expected m.license_customer s s' p q h)
        named m m' e refl

  collect_customer-Report :
      (m : Metrics) (claim : Claims F)
      → Report j hash_sub expected m
      → Report j hash_sub expected (collect_customer j hash_sub expected m claim)
  unfolding collect_customer
  collect_customer-Report m claim r = record {
    customers =
        append_if_missing-Unique m.license_customer (hide_email hash_sub claim.subject) r.customers;
    ids = r.ids;
    products = r.products;
  }

  collect_claim-Report :
      (m m' : Metrics) (claim : Claims F)
      → collect_claim j hash_sub expected m claim ≡ ok m'
      → Report j hash_sub expected m
      → Report j hash_sub expected m'
  collect_claim-Report m m' claim e r =
      let r' = collect_customer-Report m claim r in
      elim (claim_cases j hash_sub expected m m' claim e) [
        | inl (v, same) ↦ subst (Report j hash_sub expected) (sym same) r'
        | inr (v, run) ↦
            collect_products-Report (collect_customer j hash_sub expected m claim) m'
              claim.kopano.products run r'
      ]

  -- Every license is reported with its customer.
  collect_claim-customers :
      (m m' : Metrics) (claim : Claims F)
      → collect_claim j hash_sub expected m claim ≡ ok m'
      → m'.license_customer
        ≡ append_if_missing m.license_customer (hide_email hash_sub claim.subject)
  unfolding collect_customer
  collect_claim-customers m m' claim e = elim (claim_cases j hash_sub expected m m' claim e) [
    | inl (v, same) ↦ ap (λ (n : Metrics). n.license_customer) same
    | inr (v, run) ↦
        collect_products-customers (collect_customer j hash_sub expected m claim) m'
          claim.kopano.products run
  ]

  -- No value is reported twice.
  pub collect-Report :
      (c : Collector F) (m : Metrics)
      → collect j hash_sub expected c ≡ ok m
      → Report j hash_sub expected m
  unfolding collect
  collect-Report c m e =
      each_inv (Report j hash_sub expected) (collect_claim j hash_sub expected)
        (λ s s' claim q h. collect_claim-Report s s' claim q h) c.claims _ m e
        (record { customers = tt; ids = tt; products = tt })

  customer_round :
      (x : String) (m m' : Metrics) (claim : Claims F)
      → collect_claim j hash_sub expected m claim ≡ ok m'
      → Holds m'.license_customer x
        ↔ (Holds m.license_customer x ⊎ (hide_email hash_sub claim.subject ≡ x))
  customer_round x m m' claim e =
      rw (collect_claim-customers m m' claim e)
        (append_if_missing_iff m.license_customer (hide_email hash_sub claim.subject) x)

  no_email_round :
      ((s : String) → All (λ c. c ≢ 0x40) (codes (hash_sub s)))
      → (m m' : Metrics) (claim : Claims F) → collect_claim j hash_sub expected m claim ≡ ok m'
      → All (λ x. is_valid_email x ≡ false) m.license_customer
      → All (λ x. is_valid_email x ≡ false) m'.license_customer
  no_email_round no_at m m' claim e h = rw (collect_claim-customers m m' claim e) (
      All-append_if_missing (λ x. is_valid_email x ≡ false) m.license_customer
        (hide_email hash_sub claim.subject) h (hide_email_lem hash_sub no_at claim.subject))

  -- If hashes have no `@` and `Collect` does not panic: no reported customer is an email, and what
  -- is reported are exactly the subjects of the licenses, valid or not, with emails hashed.
  pub collect-customers :
      ((s : String) → All (λ c. c ≢ 0x40) (codes (hash_sub s)))
      → (c : Collector F) (m : Metrics) → collect j hash_sub expected c ≡ ok m
      → All (λ x. is_valid_email x ≡ false) m.license_customer
        × ((x : String)
            → Holds m.license_customer x
              ↔ Any (λ claim. hide_email hash_sub claim.subject ≡ x) c.claims)
  unfolding collect
  collect-customers no_at c m e = (
    each_inv (λ (n : Metrics). All (λ x. is_valid_email x ≡ false) n.license_customer)
        (collect_claim j hash_sub expected) (λ s s' claim q h. no_email_round no_at s s' claim q h)
        c.claims _ m e tt,
    λ x.
        let (there, back) =
          each_adds (λ (n : Metrics). Holds n.license_customer x)
            (λ (claim : Claims F). hide_email hash_sub claim.subject ≡ x)
            (collect_claim j hash_sub expected) (customer_round x) c.claims _ m e in
        (λ h. elim (there h) [ inl l ↦ absurd l | inr r ↦ r ], λ h. back (inr h)),
  )
