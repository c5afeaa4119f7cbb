-- ===== src/Products/Entry/Aggregate.antt =====
-- The second loop over the claims of a license in the products handler (server/handlers.go).
use kustomer.Common.{
  String, Bool, Option, none, some, [], ◌∷◌, ◌≡◌, refl, ◌≢◌, string_dec, arith, subst, refl, ◌⊎◌,
  inl, inr, Option-cases,
}
use kustomer.Common.Map.{Map, get, put, get-put_self, get-put_ne, get-cons_self, Distinct}
use kustomer.Common.Panic.{Run, IsOk, ok, ◌>>=◌, >>=-eq-ok, each}
use kustomer.License.{exclusive_claim}
use kustomer.License.Dynamic.{Value, FloatOps}
use kustomer.Products.Merge.{merge_claim}
use kustomer.Products.Entry.{aggregate_claim}

module _ {F : Type 0} (ops : FloatOps F) (cmp_equal : Value F → Value F → Bool) where
  -- The specification: a claim before, and what the license says of it.
  abbrev pub claim_after : Option (Value F) → Option (Value F) → Run (Option (Value F))
  claim_after have none = ok have
  claim_after none (some next) = ok (some next)
  claim_after (some have) (some next) = merge_claim ops cmp_equal have next >>= λ v. ok (some v)

  abbrev aggregates : Map (Value F) → Map (Value F) → Run (Map (Value F))
  aggregates = each (aggregate_claim ops cmp_equal)

  -- One round writes the claim that the specification gives, and nothing else.
  aggregate_claim_cases :
      (claims after : Map (Value F)) (j : String) (next : Value F)
      → aggregate_claim ops cmp_equal claims (j, next) ≡ ok after
      → ((j ≡ exclusive_claim) × (after ≡ claims))
        ⊎ ((v : Value F) × (j ≢ exclusive_claim)
            × (after ≡ put j v claims)
            × (claim_after (get j claims) (some next) ≡ ok (some v)))
  unfolding aggregate_claim
  aggregate_claim_cases claims after j next step = elim (string_dec j exclusive_claim) [
    | yes p ↦ inl (p, ground arith)
    | no p ↦ elim (Option-cases (get j claims)) [
      | inl e ↦ inr (next, p, ground arith, ground arith)
      | inr (have, e) ↦
          let (v, merged, done) =
            >>=-eq-ok (merge_claim ops cmp_equal have next) (λ v. ok (put j v claims)) {b = after}
              (ground arith) in
          inr (v, p, ground arith, rw (e, merged))
    ]
  ]

  aggregate_claim_total :
      (claims : Map (Value F)) (j : String) (next : Value F)
      → (j ≢ exclusive_claim → IsOk (claim_after (get j claims) (some next)))
      → IsOk (aggregate_claim ops cmp_equal claims (j, next))
  unfolding aggregate_claim
  aggregate_claim_total claims j next h = elim (string_dec j exclusive_claim) [
    | yes p ↦ (claims, ground arith)
    | no p ↦ elim (Option-cases (get j claims)) [
      | inl e ↦ (put j next claims, ground arith)
      | inr (have, e) ↦
          let (o, spec) = h p in
          let (v, merged, done) =
            >>=-eq-ok (merge_claim ops cmp_equal have next) (λ v. ok (some v)) {b = o}
              (ground arith) in
          (put j v claims, ground arith)
    ]
  ]

  -- Where the second loop does not panic, each claim but `exclusive` is afterwards what the
  -- specification makes of it before and of the license's claim.
  pub get-aggregates :
      (unknown claims after : Map (Value F)) (k : String)
      → Distinct unknown
      → each (aggregate_claim ops cmp_equal) claims unknown ≡ ok after
      → k ≢ exclusive_claim
      → claim_after (get k claims) (get k unknown) ≡ ok (get k after)
  unfolding each get
  get-aggregates [] claims after k d e h = ground arith
  get-aggregates ((j, next) ∷ unknown) claims after k (fresh, d) e h =
      let (mid, first, rest) = >>=-eq-ok (aggregate_claim ops cmp_equal claims (j, next)) _ e in
      let ih = get-aggregates unknown mid after k d rest h in
      elim (aggregate_claim_cases claims mid j next first) [
        | inl (p, same) ↦ ground arith
        | inr (v, p, same, spec) ↦ elim (string_dec j k) [
          | yes here ↦ ground (arith, get-put_self k v claims)
          | no there ↦ ground (arith, get-put_ne k j v claims there)
        ]
      ]

  -- The second loop does not panic if no single claim does.
  pub aggregates_total :
      (unknown claims : Map (Value F))
      → Distinct unknown
      → ((k : String) → k ≢ exclusive_claim → IsOk (claim_after (get k claims) (get k unknown)))
      → IsOk (each (aggregate_claim ops cmp_equal) claims unknown)
  unfolding each get
  aggregates_total [] claims d h = (claims, refl)
  aggregates_total ((j, next) ∷ unknown) claims (fresh, d) h =
      let (mid, first) = aggregate_claim_total claims j next (λ p.
        subst (λ o. IsOk (claim_after (get j claims) o)) (get-cons_self j next unknown) (h j p)) in
      let (after, rest) = aggregates_total unknown mid d (λ k p. step mid first k p (h k p)) in
      (after, rw first rest)
    where
      step :
          (mid : Map (Value F))
          → aggregate_claim ops cmp_equal claims (j, next) ≡ ok mid
          → (k : String) → k ≢ exclusive_claim
          → IsOk (claim_after (get k claims) (get k ((j, next) ∷ unknown)))
          → IsOk (claim_after (get k mid) (get k unknown))
      step mid first k p (o, e) = elim (aggregate_claim_cases claims mid j next first) [
        | inl (q, same) ↦ (o, ground arith)
        | inr (v, q, same, spec) ↦ elim (string_dec j k) [
          | yes here ↦ (some v, ground (arith, get-put_self k v claims))
          | no there ↦ (o, ground (arith, get-put_ne k j v claims there))
        ]
      ]

  -- Where the second loop does not panic over the claims of a license in one order, it does not
  -- panic in any other, and each claim but `exclusive` is the same afterwards.
  pub aggregates_order :
      (unknown unknown' claims after : Map (Value F))
      → Distinct unknown
      → Distinct unknown'
      → ((k : String) → get k unknown ≡ get k unknown')
      → each (aggregate_claim ops cmp_equal) claims unknown ≡ ok after
      → (after' : Map (Value F)) × (each (aggregate_claim ops cmp_equal) claims unknown'
          ≡ ok after')
        × ((k : String) → k ≢ exclusive_claim → get k after ≡ get k after')
  aggregates_order unknown unknown' claims after d d' same e =
      let spec =
        λ (k : String) (p : k ≢ exclusive_claim). get-aggregates unknown claims after k d e p in
      let (after', e') =
        aggregates_total unknown' claims d' (λ k p. (get k after, rw (← same k) (spec k p))) in
      (
        after',
        e',
        λ k p. ground (arith, spec k p, same k, get-aggregates unknown' claims after' k d' e' p),
      )
