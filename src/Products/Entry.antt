-- ===== src/Products/Entry.antt =====
-- One product entry of the response, and what one license adds to it: the body of the inner loop
-- of `ClaimsKopanoProductsHandler` (server/handlers.go).
pub mod Aggregate
pub mod Aggregated
pub mod Outcome
pub mod Decoded
use kustomer.Common.{
  ℕ, String, Bool, true, false, Option, none, some, List, [], ◌∷◌, ◌++◌, ite, if◌then◌else◌,
  string_dec,
}
use kustomer.Common.Map.{Map, get, put, has}
use kustomer.Common.Panic.{Run, ok, panic, ◌>>=◌, each}
use kustomer.License.{Product, Claims, exclusive_claim}
use kustomer.License.Dynamic.{Value, FloatOps, value_eq}
use kustomer.Products.Merge.{merge_claim}

-- `ClaimsKopanoProductsResponseProduct` of server/api-v1/models.go. Here `ok` is `success`.
pub record Entry (F : Type 0) : Type 0 where
  pub success : Bool
  pub claims : Map (Value F)
  pub expiry : List (Option ℕ)
  pub display_name : List String
  pub support_identification_number : List String
  pub exclusive_claims : Map (Value F)

-- What the first loop over the claims of a product computes.
pub record Check (F : Type 0) : Type 0 where
  pub current : Map (Value F)
  pub aggregate : Bool

unfoldable pub new_entry : {F : Type 0} → Entry F
new_entry = record {
  success = true;
  claims = [];
  expiry = [];
  display_name = [];
  support_identification_number = [];
  exclusive_claims = [];
}

-- `appendIfMissingS` of server/utils.go, and `appendIfMissing` of server/collector.go
unfoldable pub append_if_missing : List String → String → List String
append_if_missing [] s = s ∷ []
append_if_missing (v ∷ vs) s = ite (string_dec v s) (v ∷ vs) (v ∷ append_if_missing vs s)

pub append_if_set : List String → String → List String
unfolding append_if_missing
append_if_set slice s = ite (string_dec s "") slice (append_if_missing slice s)

module _ {F : Type 0} where
  names_to_nil : List String → Map (Value F) → Map (Value F)
  names_to_nil [] m = m
  names_to_nil (n ∷ ns) m = names_to_nil ns (put n Value.nil m)

  -- `exclusive.([]string)`
  exclusive_names : Value F → Option (Map (Value F))
  exclusive_names (Value.texts names) = some (names_to_nil names [])
  exclusive_names _ = none

  -- `currentExclusiveClaims`: the claims that the product flags as exclusive, each with no value
  -- yet. `none`: the flags have an unknown format, and the product is skipped.
  unfoldable pub flagged : Map (Value F) → Option (Map (Value F))
  unfolding names_to_nil exclusive_names
  flagged unknown = elim (get exclusive_claim unknown) [
    | none ↦ some []
    | some exclusive ↦ exclusive_names exclusive
  ]

  -- The last loop: pins a new exclusive claim, unless its value is nil.
  pin_claim : Map (Value F) → String → Value F → Map (Value F)
  pin_claim pinned k Value.nil = pinned
  pin_claim pinned k v = put k v pinned

  unfoldable pub pin_claims : Map (Value F) → Map (Value F) → Map (Value F)
  unfolding pin_claim
  pin_claims pinned [] = pinned
  pin_claims pinned ((k, v) ∷ current) = pin_claims (pin_claim pinned k v) current

  -- `if nextValue != exclusiveValue`
  compare_pinned : Check F → Option Bool → Run (Check F)
  compare_pinned c none = panic
  compare_pinned c (some true) = ok c
  compare_pinned c (some false) = ok (record c { aggregate = false })

module _ {F : Type 0} (ops : FloatOps F) where
  -- One round of the first loop.
  unfoldable pub check_claim : Map (Value F) → Check F → String × Value F → Run (Check F)
  unfolding compare_pinned
  check_claim pinned c (k, next) = ite (string_dec k exclusive_claim) (ok c) (elim (get k pinned) [
    | some value ↦ compare_pinned c (value_eq ops next value)
    | none ↦ ok (if has k c.current then record c { current = put k next c.current } else c)
  ])

  module _ (cmp_equal : Value F → Value F → Bool) where
    -- One round of the second loop.
    unfoldable pub aggregate_claim : Map (Value F) → String × Value F → Run (Map (Value F))
    aggregate_claim claims (k, next) =
        ite (string_dec k exclusive_claim) (ok claims) (elim (get k claims) [
          | none ↦ ok (put k next claims)
          | some have ↦ merge_claim ops cmp_equal have next >>= λ v. ok (put k v claims)
        ])

    -- What stands behind the checks.
    unfoldable pub accept : Claims F → Product F → Map (Value F) → Entry F → Run (Entry F)
    unfolding append_if_set
    accept claim product current entry = do
      claims ← each aggregate_claim entry.claims product.unknown
      ok (record entry {
        claims = claims;
        expiry = entry.expiry ++ claim.expiry ∷ [];
        display_name = append_if_set entry.display_name claim.display_name;
        support_identification_number =
            append_if_set entry.support_identification_number claim.support_identification_number;
        exclusive_claims = pin_claims entry.exclusive_claims current;
      })

    checked : Claims F → Product F → Entry F → Check F → Run (Entry F)
    checked claim product entry c =
        if c.aggregate then accept claim product c.current entry else ok entry

    -- The loop body from the lookup of the `exclusive` claim on.
    unfoldable pub add_product : Claims F → Product F → Entry F → Run (Entry F)
    unfolding checked
    add_product claim product entry = elim (flagged product.unknown) [
      | none ↦ ok entry
      | some current ↦
          each (check_claim entry.exclusive_claims) (record { current = current; aggregate = true })
            product.unknown
          >>= checked claim product entry
    ]
