-- ===== src/Products/Entry/Outcome.antt =====
-- What one license does to the entry of a product (server/handlers.go).
use kustomer.Common.{
  Bool, true, false, none, some, [], ◌∷◌, ◌++◌, ◌≡◌, inl, inr, arith, Option-cases, Bool-cases,
}
use kustomer.Common.Map.{Map}
use kustomer.Common.Panic.{ok, >>=-eq-ok, each}
use kustomer.License.{Product, Claims}
use kustomer.License.Dynamic.{Value, FloatOps}
use kustomer.Products.Entry.{
  Entry, Check, append_if_set, flagged, pin_claims, check_claim, aggregate_claim, accept, checked,
  add_product,
}

abbrev pub start : {F : Type 0} → Map (Value F) → Check F
start current = record { current = current; aggregate = true }

-- The entry with everything that an accepted license adds.
abbrev pub added : {F : Type 0} → Claims F → Map (Value F) → Map (Value F) → Entry F → Entry F
added claim current claims entry = record entry {
  claims = claims;
  expiry = entry.expiry ++ claim.expiry ∷ [];
  display_name = append_if_set entry.display_name claim.display_name;
  support_identification_number =
      append_if_set entry.support_identification_number claim.support_identification_number;
  exclusive_claims = pin_claims entry.exclusive_claims current;
}

pub data Outcome {F : Type 0} (ops : FloatOps F) (cmp_equal : Value F → Value F → Bool)
    (claim : Claims F) (product : Product F) (e e' : Entry F) : Type 0 where
  skipped : flagged product.unknown ≡ none → e' ≡ e → Outcome ops cmp_equal claim product e e'
  rejected :
      (current : Map (Value F)) (c : Check F)
      → flagged product.unknown ≡ some current
      → each (check_claim ops e.exclusive_claims) (start current) product.unknown ≡ ok c
      → c.aggregate ≡ false
      → e' ≡ e
      → Outcome ops cmp_equal claim product e e'
  accepted :
      (current : Map (Value F)) (c : Check F) (claims : Map (Value F))
      → flagged product.unknown ≡ some current
      → each (check_claim ops e.exclusive_claims) (start current) product.unknown ≡ ok c
      → c.aggregate ≡ true
      → each (aggregate_claim ops cmp_equal) e.claims product.unknown ≡ ok claims
      → e' ≡ added claim c.current claims e
      → Outcome ops cmp_equal claim product e e'

module _ {F : Type 0} (ops : FloatOps F) (cmp_equal : Value F → Value F → Bool) (claim : Claims F)
    (product : Product F) (e e' : Entry F) where
  accept_lem :
      (current : Map (Value F))
      → accept ops cmp_equal claim product current e ≡ ok e'
      → (claims : Map (Value F)) × (each (aggregate_claim ops cmp_equal) e.claims product.unknown
          ≡ ok claims)
        × (e' ≡ added claim current claims e)
  unfolding accept
  accept_lem current h =
      let (claims, looped, done) =
        >>=-eq-ok (each (aggregate_claim ops cmp_equal) e.claims product.unknown) _ h in
      (claims, looped, ground arith)

  pub add_product-Outcome :
      add_product ops cmp_equal claim product e ≡ ok e' → Outcome ops cmp_equal claim product e e'
  unfolding add_product
  add_product-Outcome h = elim (Option-cases (flagged product.unknown)) [
    | inl q ↦ skipped q (ground arith)
    | inr (current, q) ↦
        let (c, looped, done) =
          >>=-eq-ok (each (check_claim ops e.exclusive_claims) (start current) product.unknown)
            (checked ops cmp_equal claim product e) {b = e'} (ground arith) in
        elim (Bool-cases c.aggregate) [
          | inl t ↦
              let (claims, merged, same) = accept_lem c.current (ground arith) in
              accepted current c claims q looped t merged same
          | inr f ↦ rejected current c q looped f (ground arith)
        ]
  ]
