-- ===== src/Products/Entry/Aggregated.antt =====
-- Each claim after the second loop over the claims of a license (server/handlers.go).
use kustomer.Common.{String, Bool, Option, none, some, ◌≡◌, ◌≢◌, arith}
use kustomer.Common.Map.{Map, get, Distinct}
use kustomer.Common.Panic.{ok, each, >>=-eq-ok}
use kustomer.License.{exclusive_claim}
use kustomer.License.Dynamic.{Value, FloatOps}
use kustomer.Products.Merge.{merge_claim}
use kustomer.Products.Merge.Merged.{Merged, merge_claim-Merged}
use kustomer.Products.Entry.{aggregate_claim}
use kustomer.Products.Entry.Aggregate.{claim_after, get-aggregates}

module _ {F : Type 0} (ops : FloatOps F) (cmp_equal : Value F → Value F → Bool) where
  -- A claim before, what the license says of it, and the claim after.
  abbrev pub Aggregated : Option (Value F) → Option (Value F) → Option (Value F) → Type 0
  Aggregated have none after = after ≡ have
  Aggregated none (some next) after = after ≡ some next
  Aggregated (some have) (some next) after =
      (v : Value F) × (after ≡ some v) × Merged ops cmp_equal have next v

  claim_after-Aggregated :
      (have next after : Option (Value F))
      → claim_after ops cmp_equal have next ≡ ok after
      → Aggregated have next after
  claim_after-Aggregated have none after e = ground arith
  claim_after-Aggregated none (some next) after e = ground arith
  claim_after-Aggregated (some have) (some next) after e =
      let (v, merged, same) = >>=-eq-ok (merge_claim ops cmp_equal have next) _ e in
      (v, ground arith, merge_claim-Merged ops cmp_equal have next v merged)

  -- Where the second loop does not panic over the claims of a license, each claim but `exclusive`
  -- is afterwards as before if the license lacks it, the license's value if it was not there, and
  -- otherwise `Merged` of the two: numbers of one type are added (an int64 wraps around), of two
  -- arrays the newer one gives the elements that equal none of the older, a value that is neither a
  -- number nor a slice is kept if `cmp.Equal` finds no difference, and in all other cases the newer
  -- value wins.
  pub get-Aggregated :
      (unknown claims after : Map (Value F)) (k : String)
      → Distinct unknown
      → each (aggregate_claim ops cmp_equal) claims unknown ≡ ok after
      → k ≢ exclusive_claim
      → Aggregated (get k claims) (get k unknown) (get k after)
  get-Aggregated unknown claims after k d e p =
      claim_after-Aggregated _ _ _ (get-aggregates ops cmp_equal unknown claims after k d e p)
