-- ===== src/Products/Merge/Union.antt =====
-- The union of two array claims (server/handlers.go, `case reflect.Slice`).
use mathlib.Core.List.{append-nil, append_assoc}
use kustomer.Common.{
  true, List, [], ◌∷◌, ◌++◌, ◌≡◌, ◌↔◌, arith, All, All-append, inl, inr, Bool-cases, if◌then◌else◌,
  ◌∙◌,
}
use kustomer.Common.Panic.{IsOk, ok, >>=-eq-ok, each}
use kustomer.License.Dynamic.{Value, FloatOps, hashable}
use kustomer.Products.Merge.{cached, fill_cache, append_new, union}

module _ {F : Type 0} where
  abbrev pub IsHashable : Value F → Type 0
  IsHashable v = hashable v ≡ true

  fill_cache_lem :
      (have cache : List (Value F))
      → All IsHashable have
      → each fill_cache cache have ≡ ok (cache ++ have)
  unfolding each fill_cache
  fill_cache_lem [] cache h = rw (append-nil cache)
  fill_cache_lem (v ∷ have) cache (h, hs) =
      rw h (fill_cache_lem have (cache ++ v ∷ []) hs ∙ rw (append_assoc cache (v ∷ []) have))

  fill_cache-IsHashable :
      (have cache : List (Value F)) → IsOk (each fill_cache cache have) → All IsHashable have
  unfolding each fill_cache
  fill_cache-IsHashable [] cache h = tt
  fill_cache-IsHashable (v ∷ have) cache (r, e) = elim (Bool-cases (hashable v)) [
    | inl h ↦ (h, fill_cache-IsHashable have (cache ++ v ∷ []) (r, ground arith))
    | inr h ↦ ground arith
  ]

module _ {F : Type 0} (ops : FloatOps F) where
  -- The values that are in the list and not in the cache, in order, repetitions included.
  abbrev pub fresh : List (Value F) → List (Value F) → List (Value F)
  fresh cache [] = []
  fresh cache (v ∷ vs) = if cached ops cache v then fresh cache vs else v ∷ fresh cache vs

  append_new_lem :
      (cache next have : List (Value F))
      → All IsHashable next
      → each (append_new ops cache) have next ≡ ok (have ++ fresh cache next)
  unfolding each append_new
  append_new_lem cache [] have h = rw (append-nil have)
  append_new_lem cache (v ∷ next) have (h, hs) = elim (Bool-cases (cached ops cache v)) [
    | inl old ↦ rw (h, old) (append_new_lem cache next have hs)
    | inr new ↦
        rw (h, new)
          (append_new_lem cache next (have ++ v ∷ []) hs
            ∙ rw (append_assoc have (v ∷ []) (fresh cache next)))
  ]

  append_new-IsHashable :
      (cache next have : List (Value F))
      → IsOk (each (append_new ops cache) have next)
      → All IsHashable next
  unfolding each append_new
  append_new-IsHashable cache [] have h = tt
  append_new-IsHashable cache (v ∷ next) have (r, e) = elim (Bool-cases (hashable v)) [
    | inl h ↦ (h, append_new-IsHashable cache next _ (r, rw h at e))
    | inr h ↦ ground arith
  ]

  -- Where every element can be hashed, the union is the older array and then the values of the
  -- newer one that are not in the older.
  pub union_lem :
      (have next : List (Value F))
      → All IsHashable have
      → All IsHashable next
      → union ops have next ≡ ok (have ++ fresh have next)
  unfolding union
  union_lem have next h h' = rw (fill_cache_lem have [] h) (append_new_lem have next have h')

  -- The union panics exactly if some element of either array cannot be hashed.
  pub union-IsOk_iff :
      (have next : List (Value F))
      → IsOk (union ops have next) ↔ (All IsHashable have × All IsHashable next)
  unfolding union
  union-IsOk_iff have next = (
    λ (r, e).
        let (cache, filled, rest) =
          >>=-eq-ok (each fill_cache [] have) (λ cache. each (append_new ops cache) have next) e in
        (
          fill_cache-IsHashable have [] (cache, filled),
          append_new-IsHashable cache next have (r, rest),
        ),
    λ (h, h'). (have ++ fresh have next, union_lem have next h h'),
  )

  fresh-IsHashable :
      (cache next : List (Value F)) → All IsHashable next → All IsHashable (fresh cache next)
  fresh-IsHashable cache [] h = tt
  fresh-IsHashable cache (v ∷ next) (h, hs) = ground (arith, fresh-IsHashable cache next hs)

  -- A union that does not panic has elements that can be hashed.
  pub union-IsHashable :
      (have next : List (Value F))
      → All IsHashable have
      → All IsHashable next
      → All IsHashable (have ++ fresh have next)
  union-IsHashable have next h h' =
      All-append IsHashable have (fresh have next) h (fresh-IsHashable have next h')
