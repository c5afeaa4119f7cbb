-- ===== src/Products/Answer/Entries.antt =====
-- From one product entry to all entries of a response (server/handlers.go).
use kustomer.Common.{
  String, Bool, true, false, Option, none, some, List, [], ◌≡◌, refl, ◌⊎◌, inl, inr, string_dec,
  arith, Option-cases, Bool-cases, All, subst,
}
use kustomer.Common.Map.{Map, get, put, get-put_self, get-put_ne}
use kustomer.Common.Panic.{ok, >>=-eq-ok, each_inv_all}
use kustomer.License.{Product, ProductSet, Claims}
use kustomer.License.Dynamic.{Value, FloatOps}
use kustomer.Products.Entry.{Entry, new_entry, add_product}
use kustomer.Products.Answer.{
  is_requested, entry_of, add_named, add_if_requested, add_claim, products_of,
}

module _ {F : Type 0} where
  -- Every entry satisfies `P`.
  abbrev pub AllEntries : (Entry F → Type 0) → Map (Entry F) → Type 0
  AllEntries P products = (name : String) (e : Entry F) → get name products ≡ some e → P e

  -- Every product of the license satisfies `Q`.
  abbrev pub AllProducts : (Option (Product F) → Type 0) → Claims F → Type 0
  AllProducts Q claim =
      (named : ProductSet F) → claim.kopano.products ≡ some named → All (λ x. Q x.1) named

module _ {F : Type 0} (ops : FloatOps F) (cmp_equal : Value F → Value F → Bool)
    (filter : Option (List String)) where
  -- One round of the inner loop: the product is filtered out, or its entry is replaced.
  pub add_if_requested_cases :
      (claim : Claims F) (products products' : Map (Entry F)) (name : String)
      (product : Option (Product F))
      → add_if_requested ops cmp_equal filter claim products (name, product) ≡ ok products'
      → ((is_requested filter name ≡ false) × (products' ≡ products))
        ⊎ ((is_requested filter name ≡ true)
            × ((p : Product F) × (e : Entry F) × (product ≡ some p)
                × (add_product ops cmp_equal claim p (entry_of name products) ≡ ok e)
                × (products' ≡ put name e products)))
  unfolding add_if_requested
  add_if_requested_cases claim products products' name product run =
      elim (Bool-cases (is_requested filter name)) [
        | inr no_match ↦ inl (no_match, ground arith)
        | inl match ↦ inr (match, go product (ground arith))
      ]
    where
      go :
          (product : Option (Product F))
          → add_named ops cmp_equal filter claim products name product ≡ ok products'
          → (p : Product F) × (e : Entry F) × (product ≡ some p)
            × (add_product ops cmp_equal claim p (entry_of name products) ≡ ok e)
            × (products' ≡ put name e products)
      go none h = cc
      go (some p) h =
          let (e, added, done) =
            >>=-eq-ok (add_product ops cmp_equal claim p (entry_of name products)) _ h in
          (p, e, refl, added, ground arith)

  module _ (P : Entry F → Type 0) (Q : Option (Product F) → Type 0) (base : P new_entry)
      (keep : (claim : Claims F) (p : Product F) (e e' : Entry F)
        → Q (some p)
        → add_product ops cmp_equal claim p e ≡ ok e'
        → P e
        → P e') where
    entry_of-inv :
        (name : String) (products : Map (Entry F))
        → AllEntries P products
        → P (entry_of name products)
    unfolding entry_of
    entry_of-inv name products h = elim (Option-cases (get name products)) [
      | inl q ↦ rw (q, entry_of) base
      | inr (e, q) ↦ rw (q, entry_of) (h name e q)
    ]

    add_if_requested-inv :
        (claim : Claims F) (products products' : Map (Entry F)) (x : String × Option (Product F))
        → Q x.1
        → add_if_requested ops cmp_equal filter claim products x ≡ ok products'
        → AllEntries P products
        → AllEntries P products'
    add_if_requested-inv claim products products' (name, product) q run h =
        elim (add_if_requested_cases claim products products' name product run) [
          | inl (_, same) ↦ rw same h
          | inr (_, (p, e, given, added, same)) ↦ λ k e' found.
              let kept =
                keep claim p (entry_of name products) e (subst Q given q) added
                  (entry_of-inv name products h) in
              elim (string_dec name k) [
                | yes here ↦ subst P (ground (arith, get-put_self name e products)) kept
                | no there ↦ h k e' (ground (arith, get-put_ne k name e products there))
              ]
        ]

    add_claim-inv :
        (products products' : Map (Entry F)) (claim : Claims F)
        → AllProducts Q claim
        → add_claim ops cmp_equal filter products claim ≡ ok products'
        → AllEntries P products
        → AllEntries P products'
    unfolding add_claim
    add_claim-inv products products' claim q run h = elim (Option-cases claim.kopano.products) [
      | inl e ↦ subst (AllEntries P) (ground arith) h
      | inr (named, e) ↦
          each_inv_all (AllEntries P) (λ x. Q x.1) (add_if_requested ops cmp_equal filter claim)
            (λ s s' x qx step hs. add_if_requested-inv claim s s' x qx step hs) named products
            products' (q named e) (ground arith) h
    ]

    -- What every license keeps of an entry holds of every entry of the response.
    pub products_of-inv :
        (claims : List (Claims F)) (products : Map (Entry F))
        → All (AllProducts Q) claims
        → products_of ops cmp_equal filter claims ≡ ok products
        → AllEntries P products
    unfolding products_of get
    products_of-inv claims products q run =
        each_inv_all (AllEntries P) (AllProducts Q) (add_claim ops cmp_equal filter)
          (λ s s' c qc step hs. add_claim-inv s s' c qc step hs) claims [] products q run
          (λ name e found. cc)
