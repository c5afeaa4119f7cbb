-- ===== src/Products/Entry/Decoded.antt =====
-- Licenses that were read from JSON, as all the licenses of the server are, in the loop body of the
-- products handler (server/handlers.go).
use kustomer.Common.{
  String, Bool, none, some, [], ◌∷◌, ◌≡◌, refl, ◌≢◌, ◌⊎◌, inl, inr, string_dec, arith, Option-cases,
  Bool-cases, ◌++◌, All, All-imp,
}
use kustomer.Common.Map.{Map, get, put, All-put, All-at}
use kustomer.Common.Panic.{ok, each, each_total}
use kustomer.License.{Product, Claims, exclusive_claim}
use kustomer.License.Dynamic.{Value, Values, FloatOps, to_list, of_list, to_list-of_list}
use kustomer.License.Json.{IsDecoded}
use kustomer.Products.Merge.{merge_float, merge_arr, merge_claim}
use kustomer.Products.Merge.Union.{IsHashable, fresh, union_lem, union-IsHashable}
use kustomer.Products.Entry.{
  Entry, exclusive_names, flagged, pin_claims, check_claim, aggregate_claim, accept, checked,
  add_product,
}
use kustomer.Products.Entry.Outcome.{
  start, added, Outcome, skipped, rejected, accepted, add_product-Outcome,
}

module _ {F : Type 0} where
  abbrev pub AllDecoded : Map (Value F) → Type 0
  AllDecoded m = All (λ e. IsDecoded e.1) m

  exclusive_names-IsDecoded : (v : Value F) → IsDecoded v → exclusive_names v ≡ none
  unfolding exclusive_names
  exclusive_names-IsDecoded (Value.texts ns) h = absurd h
  exclusive_names-IsDecoded _ h = refl

  -- An `exclusive` claim that was read from JSON always has an unknown format.
  flagged-IsDecoded :
      (unknown : Map (Value F))
      → AllDecoded unknown
      → (flagged unknown ≡ none)
        ⊎ ((get exclusive_claim unknown ≡ none) × (flagged unknown ≡ some []))
  unfolding flagged
  flagged-IsDecoded unknown h = elim (Option-cases (get exclusive_claim unknown)) [
    | inl q ↦ inr (q, ground arith)
    | inr (v, q) ↦
        let n = exclusive_names-IsDecoded v (All-at IsDecoded exclusive_claim v unknown h q) in
        inl (ground arith)
  ]

module _ {F : Type 0} (ops : FloatOps F) where
  check_claim-nothing : (x : String × Value F) → check_claim ops [] (start []) x ≡ ok (start [])
  unfolding check_claim get
  check_claim-nothing (k, v) = ground arith

  -- With nothing pinned and nothing flagged, the first loop does nothing.
  checks-nothing :
      (unknown : Map (Value F)) → each (check_claim ops []) (start []) unknown ≡ ok (start [])
  unfolding each
  checks-nothing [] = refl
  checks-nothing (x ∷ unknown) = rw (check_claim-nothing x) (checks-nothing unknown)

module _ {F : Type 0} where
  -- A decoded value whose elements, if it is an array, can be hashed.
  abbrev pub IsPlain : Value F → Type 0
  IsPlain (Value.int _) = ⊥
  IsPlain (Value.texts _) = ⊥
  IsPlain (Value.arr vs) = All IsHashable (to_list vs)
  IsPlain _ = Unit

  abbrev pub AllPlain : Map (Value F) → Type 0
  AllPlain m = All (λ e. IsPlain e.1) m

  IsPlain-IsDecoded : (v : Value F) → IsPlain v → IsDecoded v
  IsPlain-IsDecoded (Value.int n) h = h
  IsPlain-IsDecoded (Value.texts n) h = h
  IsPlain-IsDecoded _ h = tt

  pub AllPlain-AllDecoded : (m : Map (Value F)) → AllPlain m → AllDecoded m
  AllPlain-AllDecoded m h = All-imp _ _ (λ x p. IsPlain-IsDecoded x.1 p) m h

module _ {F : Type 0} (ops : FloatOps F) (cmp_equal : Value F → Value F → Bool) where
  merge_arr-IsPlain :
      (have : Value F) (next : Values F)
      → IsPlain have
      → All IsHashable (to_list next)
      → (v : Value F) × (merge_arr ops have next ≡ ok v) × IsPlain v
  unfolding merge_arr
  merge_arr-IsPlain (Value.arr have) next h h' =
      let all = to_list have ++ fresh ops (to_list have) (to_list next) in
      (
        Value.arr (of_list all),
        rw (union_lem ops (to_list have) (to_list next) h h') refl,
        rw (to_list-of_list all) (union-IsHashable ops (to_list have) (to_list next) h h'),
      )
  merge_arr-IsPlain _ next h h' = (Value.arr next, refl, h')

  merge_claim-IsPlain :
      (have next : Value F)
      → IsPlain have
      → IsPlain next
      → (v : Value F) × (merge_claim ops cmp_equal have next ≡ ok v) × IsPlain v
  unfolding merge_claim merge_float
  merge_claim-IsPlain have (Value.int n) h h' = absurd h'
  merge_claim-IsPlain have (Value.texts n) h h' = absurd h'
  merge_claim-IsPlain have (Value.arr n) h h' = merge_arr-IsPlain have n h h'
  merge_claim-IsPlain (Value.float a) (Value.float n) h h' = (Value.float (ops.add a n), refl, tt)
  merge_claim-IsPlain _ (Value.float n) h h' = (Value.float n, refl, tt)
  merge_claim-IsPlain have next h h' = elim (Bool-cases (cmp_equal next have)) [
    | inl b ↦ (have, rw b refl, h)
    | inr b ↦ (next, rw b refl, h')
  ]

  aggregate_claim-IsPlain :
      (claims : Map (Value F)) (x : String × Value F)
      → AllPlain claims
      → IsPlain x.1
      → (claims' : Map (Value F)) × (aggregate_claim ops cmp_equal claims x ≡ ok claims')
        × AllPlain claims'
  unfolding aggregate_claim
  aggregate_claim-IsPlain claims (k, next) h q = elim (string_dec k exclusive_claim) [
    | yes p ↦ (claims, ground arith, h)
    | no p ↦ elim (Option-cases (get k claims)) [
      | inl e ↦ (put k next claims, ground arith, All-put (λ e. IsPlain e.1) k next claims q h)
      | inr (have, e) ↦
          let (v, merged, plain) =
            merge_claim-IsPlain have next (All-at IsPlain k have claims h e) q in
          (put k v claims, ground arith, All-put (λ e. IsPlain e.1) k v claims plain h)
    ]
  ]

  module _ (claim : Claims F) (product : Product F) (e : Entry F)
      (none_pinned : e.exclusive_claims ≡ []) where
    -- If the entry has no pinned claim, the license was read from JSON and the handler does not
    -- panic at it: a license that flags exclusive claims adds nothing to the entry, whatever the
    -- flags say, and no claim is pinned afterwards.
    pub add_product-IsDecoded :
        (e' : Entry F)
        → AllDecoded product.unknown
        → add_product ops cmp_equal claim product e ≡ ok e'
        → (get exclusive_claim product.unknown ≢ none → e' ≡ e) × (e'.exclusive_claims ≡ [])
    unfolding pin_claims
    add_product-IsDecoded e' d run =
        go (flagged-IsDecoded product.unknown d)
          (add_product-Outcome ops cmp_equal claim product e e' run)
      where
        go :
            (flagged product.unknown ≡ none)
              ⊎ ((get exclusive_claim product.unknown ≡ none) × (flagged product.unknown ≡ some []))
            → Outcome ops cmp_equal claim product e e'
            → (get exclusive_claim product.unknown ≢ none → e' ≡ e) × (e'.exclusive_claims ≡ [])
        go _ (skipped _ s) = (λ _. s, rw s none_pinned)
        go _ (rejected _ _ _ _ _ s) = (λ _. s, rw s none_pinned)
        go (inl q) (accepted _ _ _ f _ _ _ _) = cc
        go (inr (absent, q)) (accepted current c claims f looped t _ s) =
            let nothing : current ≡ [] = ground arith in
            let looped' = rw (nothing, none_pinned) at looped in
            let same : c ≡ start [] = ground (arith, checks-nothing ops product.unknown) in
            (λ h. absurd (h absent), rw (s, same, none_pinned) refl)

    -- A decoded license without nested arrays or objects in its arrays never makes the handler
    -- panic.
    pub add_product-IsPlain :
        AllPlain product.unknown
        → AllPlain e.claims
        → (e' : Entry F) × (add_product ops cmp_equal claim product e ≡ ok e') × AllPlain e'.claims
    unfolding add_product checked accept
    add_product-IsPlain d h =
        elim (flagged-IsDecoded product.unknown (AllPlain-AllDecoded product.unknown d)) [
          | inl q ↦ (e, ground arith, h)
          | inr (_, q) ↦
              let (claims, merged, plain) =
                each_total AllPlain (λ x. IsPlain x.1) (aggregate_claim ops cmp_equal)
                  (λ s x p r. aggregate_claim-IsPlain s x p r) product.unknown e.claims d h in
              (added claim [] claims e, ground (arith, checks-nothing ops product.unknown), plain)
        ]
