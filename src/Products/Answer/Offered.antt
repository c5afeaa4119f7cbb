-- ===== src/Products/Answer/Offered.antt =====
-- Which products a response has an entry for (server/handlers.go).
use kustomer.Common.{
  String, Bool, true, false, Option, none, some, List, [], ◌∷◌, ◌≡◌, refl, ◌≢◌, ◌⊎◌, inl, inr, ◌↔◌,
  string_dec, arith, Option-cases, Any, Any-imp, subst, ap, leb, Bool-cases,
}
use kustomer.Common.Map.{Map, get, get-put_self, get-put_ne}
use kustomer.Common.Panic.{Run, ok, panic, each_adds}
use kustomer.License.{Product, ProductSet, Claims}
use kustomer.License.Dynamic.{Value, FloatOps}
use kustomer.Products.Entry.{Entry}
use kustomer.Server.State.{Server}
use kustomer.Server.ReloadRequest.{get_ucred_context_value}
use kustomer.Products.Answer.{
  Request, Wait, Response, Reply, log_request, logged, reply_with, claims_kopano_products_handler,
  is_requested, add_if_requested, add_claim, products_of,
}
use kustomer.Products.Answer.Entries.{add_if_requested_cases}

-- The license has a product of that name.
abbrev pub Offers : {F : Type 0} → String → Claims F → Type 0
Offers {F} name claim =
    (named : ProductSet F) × (claim.kopano.products ≡ some named) × Any (λ x. x.0 ≡ name) named

module _ {F : Type 0} (ops : FloatOps F) (cmp_equal : Value F → Value F → Bool)
    (filter : Option (List String)) (name : String) where
  abbrev Listed : Map (Entry F) → Type 0
  Listed products = get name products ≢ none

  -- One round adds the entry of its own name, and only if the filter lets it pass.
  round_iff :
      (claim : Claims F) (products products' : Map (Entry F)) (k : String)
      (product : Option (Product F))
      → add_if_requested ops cmp_equal filter claim products (k, product) ≡ ok products'
      → Listed products' ↔ (Listed products ⊎ ((is_requested filter name ≡ true) × (k ≡ name)))
  round_iff claim products products' k product run =
      elim (add_if_requested_cases ops cmp_equal filter claim products products' k product run) [
        | inl (off, same) ↦ (λ h. inl (rw same at h), go off same)
        | inr (on, (p, e, given, added, same)) ↦ elim (string_dec k name) [
          | yes here ↦
              (λ h. inr (rw here at on, here), λ _ n. ground (arith, get-put_self k e products))
          | no there ↦
              let same_get = get-put_ne name k e products there in
              (
                λ h. inl (λ n. h (ground arith)),
                elim [ inl h ↦ λ n. h (ground arith) | inr (_, here) ↦ absurd (there here) ],
              )
        ]
      ]
    where
      go :
          is_requested filter k ≡ false
          → products' ≡ products
          → Listed products ⊎ ((is_requested filter name ≡ true) × (k ≡ name))
          → Listed products'
      go off same (inl h) = rw same h
      go off same (inr (on, here)) = ground arith

  -- The product with that name is one that the filter lets pass.
  abbrev IsHit : String × Option (Product F) → Type 0
  IsHit x = (is_requested filter name ≡ true) × (x.0 ≡ name)

  hits :
      (named : ProductSet F)
      → Any IsHit named
      → (is_requested filter name ≡ true) × Any (λ x. x.0 ≡ name) named
  hits (x ∷ named) (inl (on, h)) = (on, inl h)
  hits (x ∷ named) (inr h) = let (on, rest) = hits named h in (on, inr rest)
  hits [] h = absurd h

  license_iff :
      (products products' : Map (Entry F)) (claim : Claims F)
      → add_claim ops cmp_equal filter products claim ≡ ok products'
      → Listed products'
        ↔ (Listed products ⊎ ((is_requested filter name ≡ true) × Offers name claim))
  unfolding add_claim
  license_iff products products' claim run = elim (Option-cases claim.kopano.products) [
    | inl e ↦ (
      λ h. inl (subst Listed (ground arith) h),
      elim [ inl h ↦ subst Listed (ground arith) h | inr (_, (named, some_set, _)) ↦ cc ],
    )
    | inr (named, e) ↦
        let (a, b) =
          each_adds Listed IsHit (add_if_requested ops cmp_equal filter claim)
            (λ s s' x step. round_iff claim s s' x.0 x.1 step) named products products'
            (ground arith) in
        (
          λ h. elim (a h) [
            | inl l ↦ inl l
            | inr r ↦ let (on, rest) = hits named r in inr (on, (named, e, rest))
          ],
          elim [
            | inl l ↦ b (inl l)
            | inr (on, (named', e', rest)) ↦ b (
                inr (
                  Any-imp (λ x. x.0 ≡ name) IsHit (λ x h. (on, h)) named
                    (subst (Any (λ x. x.0 ≡ name)) (ground arith) rest)))
          ],
        )
  ]

  -- Where the handler does not panic, the response has an entry for a product exactly if the
  -- request asks for the product, by name or by having no filter, and some active license has it.
  pub products_of_iff :
      (claims : List (Claims F)) (products : Map (Entry F))
      → products_of ops cmp_equal filter claims ≡ ok products
      → (get name products ≢ none)
        ↔ Any (λ claim. (is_requested filter name ≡ true) × Offers name claim) claims
  unfolding products_of get
  products_of_iff claims products run =
      let (a, b) =
        each_adds Listed (λ claim. (is_requested filter name ≡ true) × Offers name claim)
          (add_claim ops cmp_equal filter) (λ s s' c step. license_iff s s' c step) claims []
          products run in
      (λ h. elim (a h) [ inl l ↦ absurd (l refl) | inr r ↦ r ], λ h. b (inr h))

products_in : {F : Type 0} → Reply F → Map (Entry F)
products_in (Reply.answered r) = r.products
products_in _ = []

reply_with-answered :
    {F : Type 0} (trusted offline : Bool) (run : Run (Map (Entry F))) (r : Response F)
    → reply_with trusted offline run ≡ Reply.answered r
    → run ≡ ok r.products
unfolding reply_with products_in
reply_with-answered trusted offline panic r e = absurd (ground arith)
reply_with-answered trusted offline (ok products) r e =
    ap ok (ap products_in {y = Reply.answered r} e)

logged-answered :
    {F : Type 0} (log : Run (Unit {0})) (reply : Reply F) (r : Response F)
    → logged log reply ≡ Reply.answered r
    → reply ≡ Reply.answered r
unfolding logged
logged-answered panic reply r e = absurd (ground arith)
logged-answered (ok _) reply r e = e

-- An answer has the products that are computed from the active licenses.
pub answered-products_of :
    {F J : Type 0} (ops : FloatOps F) (cmp_equal : Value F → Value F → Bool) (s : Server F J)
    (req : Request) (r : Response F)
    → claims_kopano_products_handler ops cmp_equal s req Wait.ready ≡ Reply.answered r
    → products_of ops cmp_equal req.product s.claims ≡ ok r.products
unfolding claims_kopano_products_handler
answered-products_of ops cmp_equal s req r e = elim (Bool-cases req.parses) [
  | inr p ↦ absurd (ground arith)
  | inl p ↦ reply_with-answered s.trusted (leb s.offline_threshold s.offline) _ r (
      logged-answered (log_request (get_ucred_context_value req.credentials)) _ r
        (rw (claims_kopano_products_handler, p) at e))
]
