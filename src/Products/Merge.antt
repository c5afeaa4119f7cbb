-- ===== src/Products/Merge.antt =====
-- How two values of one claim are aggregated: the `switch` of `ClaimsKopanoProductsHandler`
-- (server/handlers.go). `cmp_equal` is `cmp.Equal` of go-cmp.
pub mod Union
pub mod Merged
use kustomer.Common.{ℕ, ◌+◌, ◌%◌, ◌^◌, Bool, true, false, some, List, [], ◌∷◌, ◌++◌, if◌then◌else◌}
use kustomer.Common.Panic.{Run, ok, panic, ◌>>=◌, each}
use kustomer.License.Dynamic.{Value, Values, FloatOps, to_list, of_list, value_eq, hashable}

-- `cache[v] = true`, for each value of the older claim
fill_cache : {F : Type 0} → List (Value F) → Value F → Run (List (Value F))
fill_cache cache v = if hashable v then ok (cache ++ v ∷ []) else panic

module _ {F : Type 0} (ops : FloatOps F) where
  -- `cache[v]`: whether some value of the cache equals `v`
  unfoldable pub cached : List (Value F) → Value F → Bool
  cached [] v = false
  cached (w ∷ ws) v = elim (value_eq ops w v) [ some true ↦ true | _ ↦ cached ws v ]

  -- `if !cache[v]`, for each value of the newer claim. The cache is not extended.
  append_new : List (Value F) → List (Value F) → Value F → Run (List (Value F))
  append_new cache have v =
      if hashable v then ok (if cached cache v then have else have ++ v ∷ []) else panic

  -- The union of two arrays.
  unfoldable pub union : List (Value F) → List (Value F) → Run (List (Value F))
  unfolding fill_cache append_new
  union have next = do cache ← each fill_cache [] have; each (append_new cache) have next

  -- `case reflect.Int8 …`: an int64 wraps around
  unfoldable pub merge_int : Value F → ℕ → Value F
  merge_int (Value.int have) next = Value.int ((have + next) % 2 ^ 64)
  merge_int _ next = Value.int next

  -- `case reflect.Float32, reflect.Float64`
  unfoldable pub merge_float : Value F → F → Value F
  merge_float (Value.float have) next = Value.float (ops.add have next)
  merge_float _ next = Value.float next

  -- `case reflect.Slice`, for a `[]interface{}`
  unfoldable pub merge_arr : Value F → Values F → Run (Value F)
  merge_arr (Value.arr have) next = do
    all ← union (to_list have) (to_list next)
    ok (Value.arr (of_list all))
  merge_arr _ next = ok (Value.arr next)

  module _ (cmp_equal : Value F → Value F → Bool) where
    -- The value after a newer license, `next`, meets an older one, `have`.
    unfoldable pub merge_claim : Value F → Value F → Run (Value F)
    merge_claim have (Value.int next) = ok (merge_int have next)
    merge_claim have (Value.float next) = ok (merge_float have next)
    merge_claim have (Value.arr next) = merge_arr have next
    merge_claim have (Value.texts next) = ok (Value.texts next)
    merge_claim have next = ok (if cmp_equal next have then have else next)
