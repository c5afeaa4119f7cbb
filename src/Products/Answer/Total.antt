-- ===== src/Products/Answer/Total.antt =====
-- The products endpoint for licenses that were read from JSON (server/handlers.go).
use kustomer.Common.{
  ◌≢◌, String, Bool, true, Option, none, some, List, [], ◌≡◌, refl, inl, inr, string_dec, arith,
  Option-cases, Bool-cases, All, subst, leb,
}
use kustomer.Common.Map.{Map, get, put, get-put_self, get-put_ne}
use kustomer.Common.Panic.{ok, each_total}
use kustomer.License.{Product, Claims}
use kustomer.License.Dynamic.{Value, FloatOps}
use kustomer.Products.Entry.{Entry, new_entry}
use kustomer.Products.Entry.Decoded.{
  AllPlain, AllPlain-AllDecoded, add_product-IsDecoded, add_product-IsPlain,
}
use kustomer.Products.Answer.{
  reply_with, log_request, logged, is_requested, entry_of, add_named, add_if_requested, add_claim,
  products_of, Request, Wait, Reply, claims_kopano_products_handler,
}
use kustomer.Products.Answer.Entries.{AllEntries, AllProducts}
use kustomer.Server.State.{Server}
use kustomer.Server.ReloadRequest.{Ucred, get_ucred_context_value}

-- A product that is there and was read from JSON, whose arrays hold no arrays and no objects.
abbrev pub IsPlainProduct : {F : Type 0} → Option (Product F) → Type 0
IsPlainProduct none = ⊥
IsPlainProduct (some p) = AllPlain p.unknown

-- An entry in which no claim is exclusive, whose arrays hold no arrays and no objects.
pub record IsPlainEntry {F : Type 0} (e : Entry F) : Type 0 where
  pub nothing_pinned : e.exclusive_claims ≡ []
  pub plain : AllPlain e.claims

module _ {F : Type 0} (ops : FloatOps F) (cmp_equal : Value F → Value F → Bool)
    (filter : Option (List String)) where
  entry_of-IsPlainEntry :
      (name : String) (products : Map (Entry F))
      → AllEntries IsPlainEntry products
      → IsPlainEntry (entry_of name products)
  unfolding entry_of new_entry
  entry_of-IsPlainEntry name products h = elim (Option-cases (get name products)) [
    | inl q ↦ rw (q, entry_of) (record { nothing_pinned = refl; plain = tt })
    | inr (e, q) ↦ rw (q, entry_of) (h name e q)
  ]

  add_named_total :
      (claim : Claims F) (products : Map (Entry F)) (name : String) (product : Option (Product F))
      → AllEntries IsPlainEntry products
      → IsPlainProduct product
      → (products' : Map (Entry F)) × (add_named ops cmp_equal filter claim products name product
          ≡ ok products')
        × AllEntries IsPlainEntry products'
  unfolding add_named
  add_named_total claim products name none h q = absurd q
  add_named_total claim products name (some p) h q =
      let old = entry_of-IsPlainEntry name products h in
      let (e, added, plain) =
        add_product-IsPlain ops cmp_equal claim p (entry_of name products) old.nothing_pinned q
          old.plain in
      let none_pinned =
        (add_product-IsDecoded ops cmp_equal claim p (entry_of name products) old.nothing_pinned e
          (AllPlain-AllDecoded p.unknown q) added).1 in
      (
        put name e products,
        ground arith,
        λ k e' found. elim (string_dec name k) [
          | yes here ↦
              subst IsPlainEntry {x = e} (ground (arith, get-put_self name e products))
                (record { nothing_pinned = none_pinned; plain = plain })
          | no there ↦ h k e' (ground (arith, get-put_ne k name e products there))
        ],
      )

  add_if_requested_total :
      (claim : Claims F) (products : Map (Entry F)) (x : String × Option (Product F))
      → AllEntries IsPlainEntry products
      → IsPlainProduct x.1
      → (products' : Map (Entry F)) × (add_if_requested ops cmp_equal filter claim products x
          ≡ ok products')
        × AllEntries IsPlainEntry products'
  unfolding add_if_requested
  add_if_requested_total claim products (name, product) h q =
      elim (Bool-cases (is_requested filter name)) [
        | inl on ↦ rw on (add_named_total claim products name product h q)
        | inr off ↦ (products, rw off refl, h)
      ]

  add_claim_total :
      (products : Map (Entry F)) (claim : Claims F)
      → AllEntries IsPlainEntry products
      → AllProducts IsPlainProduct claim
      → (products' : Map (Entry F)) × (add_claim ops cmp_equal filter products claim ≡ ok products')
        × AllEntries IsPlainEntry products'
  unfolding add_claim
  add_claim_total products claim h q = elim (Option-cases claim.kopano.products) [
    | inl e ↦ (products, ground arith, h)
    | inr (named, e) ↦
        let (products', run, h') =
          each_total (AllEntries IsPlainEntry) (λ x. IsPlainProduct x.1)
            (add_if_requested ops cmp_equal filter claim)
            (λ s x hs qx. add_if_requested_total claim s x hs qx) named products (q named e) h in
        (products', ground arith, h')
  ]

  products_of_total :
      (claims : List (Claims F))
      → All (AllProducts IsPlainProduct) claims
      → (products : Map (Entry F)) × (products_of ops cmp_equal filter claims ≡ ok products)
        × AllEntries IsPlainEntry products
  unfolding products_of get
  products_of_total claims q =
      each_total (AllEntries IsPlainEntry) (AllProducts IsPlainProduct)
        (add_claim ops cmp_equal filter) (λ s c hs qc. add_claim_total s c hs qc) claims [] q
        (λ name e found. cc)

log_request-ok :
    (o : Option (Option Ucred)) → o ≢ some none → log_request (get_ucred_context_value o) ≡ ok tt
unfolding log_request get_ucred_context_value
log_request-ok none h = refl
log_request-ok (some (some u)) h = refl
log_request-ok (some none) h = elim (h refl) [ ]

-- If every active license was read from JSON, has no product that is null and no arrays that hold
-- arrays or objects, a request that can be parsed and whose context holds no nil credentials is
-- answered once the server is ready, with the trust of the server and whether its offline counter
-- has reached the threshold; and no claim of any product is exclusive in the answer.
pub claims_kopano_products_handler_total :
    {F J : Type 0} (ops : FloatOps F) (cmp_equal : Value F → Value F → Bool) (s : Server F J)
    (req : Request)
    → All (AllProducts IsPlainProduct) s.claims
    → req.parses ≡ true
    → req.credentials ≢ some none
    → (products : Map (Entry F)) × (claims_kopano_products_handler ops cmp_equal s req Wait.ready
        ≡ Reply.answered (record {
          trusted = s.trusted;
          offline = leb s.offline_threshold s.offline;
          products = products;
        }))
      × AllEntries (λ e. e.exclusive_claims ≡ []) products
unfolding claims_kopano_products_handler logged reply_with
claims_kopano_products_handler_total ops cmp_equal s req q parses known =
    let (products, run, h) = products_of_total ops cmp_equal req.product s.claims q in
    (
      products,
      rw (parses, log_request-ok req.credentials known, run) refl,
      λ name e found. (h name e found).nothing_pinned,
    )
