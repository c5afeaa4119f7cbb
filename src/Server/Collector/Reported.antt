-- ===== src/Server/Collector/Reported.antt =====
-- What the three metrics hold (server/collector.go).
use kustomer.Common.{
  String, true, false, Option, none, some, List, [], ◌∷◌, ◌≡◌, ◌≢◌, ◌↔◌, ◌⊎◌, inl, inr, sym, arith,
  string_dec, All, Any, Any-imp, AllPairs, Option-cases, Bool-cases, subst, if_pos, if_neg, ap, ◌∙◌,
}
use kustomer.Common.Panic.{ok, each, each_adds}
use kustomer.License.{Product, Claims}
use kustomer.Loader.Jose.{Jose}
use kustomer.Loader.File.{default_license_leeway}
use kustomer.Products.Entry.{append_if_missing}
use kustomer.Products.Answer.Offered.{Offers}
use kustomer.Server.Collector.{
  Collector, Metrics, collect_product, collect_customer, collect_products, collect_claim, collect,
}

abbrev pub Holds : List String → String → Type 0
Holds xs x = Any (λ y. y ≡ x) xs

pub append_if_missing_iff :
    (xs : List String) (s x : String) → Holds (append_if_missing xs s) x ↔ (Holds xs x ⊎ (s ≡ x))
unfolding append_if_missing
append_if_missing_iff [] s x =
    (elim [ inl e ↦ inr e | inr h ↦ absurd h ], elim [ inl h ↦ absurd h | inr e ↦ inl e ])
append_if_missing_iff (v ∷ vs) s x = elim (string_dec v s) [
  | yes e ↦ rw (if_pos _ e) (inl, elim [ inl h ↦ h | inr q ↦ inl (e ∙ q) ])
  | no n ↦
      let (there, back) = append_if_missing_iff vs s x in
      rw (if_neg _ n) (
        elim [
          | inl q ↦ inl (inl q)
          | inr h ↦ elim (there h) [ inl r ↦ inl (inr r) | inr q ↦ inr q ]
        ],
        elim [
          | inl (inl q) ↦ inl q
          | inl (inr r) ↦ inr (back (inl r))
          | inr q ↦ inr (back (inr q))
        ],
      )
]

-- No value stands twice.
abbrev pub Unique : List String → Type 0
Unique = AllPairs (λ x y. x ≢ y)

pub All-append_if_missing :
    (P : String → Type 0) (xs : List String) (s : String)
    → All P xs
    → P s
    → All P (append_if_missing xs s)
unfolding append_if_missing
All-append_if_missing P [] s h p = (p, tt)
All-append_if_missing P (v ∷ vs) s h p = elim (string_dec v s) [
  | yes e ↦ rw (if_pos _ e) h
  | no n ↦ rw (if_neg _ n) (h.0, All-append_if_missing P vs s h.1 p)
]

pub append_if_missing-Unique :
    (xs : List String) (s : String) → Unique xs → Unique (append_if_missing xs s)
unfolding append_if_missing
append_if_missing-Unique [] s h = (tt, tt)
append_if_missing-Unique (v ∷ vs) s h = elim (string_dec v s) [
  | yes e ↦ rw (if_pos _ e) h
  | no n ↦
      rw (if_neg _ n)
        (All-append_if_missing (λ y. v ≢ y) vs s h.0 n, append_if_missing-Unique vs s h.1)
]

-- What some element has beside a fixed condition, the condition has.
some_condition :
    {A : Type 0} (P : A → Type 0) (Q : Type 0) (xs : List A) → Any (λ a. P a × Q) xs → Q
some_condition P Q (x ∷ xs) (inl h) = h.1
some_condition P Q (x ∷ xs) (inr h) = some_condition P Q xs h
some_condition P Q [] h = absurd h

module _ {F : Type 0} (j : Jose F) (hash_sub : String → String) (expected : j.Expected) where
  -- The license is valid at the time of the report.
  abbrev pub IsValidNow : Claims F → Type 0
  IsValidNow claim = j.validates claim.claims expected default_license_leeway ≡ true

  -- A round skips a product without a name, and adds any other.
  product_cases :
      (m m' : Metrics) (p : String × Option (Product F))
      → collect_product j hash_sub expected m p ≡ ok m'
      → ((p.0 ≡ "") × (m' ≡ m))
        ⊎ ((p.0 ≢ "")
            × (product : Product F) × (m' ≡ record m {
              license_ids = append_if_missing m.license_ids product.license_id;
              license_products = append_if_missing m.license_products p.0;
            }))
  unfolding collect_product
  product_cases m m' (id, none) e = elim (string_dec id "") [
    | yes q ↦ inl (q, ground arith)
    | no n ↦ absurd (ground arith)
  ]
  product_cases m m' (id, some product) e = elim (string_dec id "") [
    | yes q ↦ inl (q, ground arith)
    | no n ↦ inr (n, product, ground arith)
  ]

  -- What a round adds to the products.
  product_round :
      (x : String) (m m' : Metrics) (p : String × Option (Product F))
      → collect_product j hash_sub expected m p ≡ ok m'
      → Holds m'.license_products x ↔ (Holds m.license_products x ⊎ ((p.0 ≡ x) × (x ≢ "")))
  product_round x m m' p e = elim (product_cases m m' p e) [
    | inl (empty, same) ↦
        rw same (inl, elim [ inl h ↦ h | inr (q, n) ↦ absurd (n (sym q ∙ empty)) ])
    | inr (named, product, added) ↦
        let (there, back) = append_if_missing_iff m.license_products p.0 x in
        rw added (
          λ h. elim (there h) [ inl r ↦ inl r | inr q ↦ inr (q, λ n. named (q ∙ n)) ],
          elim [ inl h ↦ back (inl h) | inr (q, n) ↦ back (inr q) ],
        )
  ]

  -- What holds of the metrics at all times.
  pub record Report (m : Metrics) : Type 0 where
    pub customers : Unique m.license_customer
    pub ids : Unique m.license_ids
    pub products : Unique m.license_products

  pub collect_product-Report :
      (m m' : Metrics) (p : String × Option (Product F))
      → collect_product j hash_sub expected m p ≡ ok m'
      → Report m
      → Report m'
  collect_product-Report m m' p e r = elim (product_cases m m' p e) [
    | inl (empty, same) ↦ subst Report (sym same) r
    | inr (named, product, added) ↦ subst Report (sym added) (record {
      customers = r.customers;
      ids = append_if_missing-Unique m.license_ids product.license_id r.ids;
      products = append_if_missing-Unique m.license_products p.0 r.products;
    })
  ]

  pub collect_product-customers :
      (c : List String) (m m' : Metrics) (p : String × Option (Product F))
      → collect_product j hash_sub expected m p ≡ ok m'
      → m.license_customer ≡ c
      → m'.license_customer ≡ c
  collect_product-customers c m m' p e h = elim (product_cases m m' p e) [
    | inl (empty, same) ↦ ap (λ (n : Metrics). n.license_customer) same ∙ h
    | inr (named, product, added) ↦ ap (λ (n : Metrics). n.license_customer) added ∙ h
  ]

  -- A round of the outer loop stops after the customer where the license is not valid.
  pub claim_cases :
      (m m' : Metrics) (claim : Claims F)
      → collect_claim j hash_sub expected m claim ≡ ok m'
      → ((j.validates claim.claims expected default_license_leeway ≡ false)
          × (m' ≡ collect_customer j hash_sub expected m claim))
        ⊎ (IsValidNow claim
            × (collect_products j hash_sub expected
                  (collect_customer j hash_sub expected m claim)
                  claim.kopano.products
                ≡ ok m'))
  unfolding collect_claim
  claim_cases m m' claim e =
      elim (Bool-cases (j.validates claim.claims expected default_license_leeway)) [
        | inl v ↦ inr (v, ground arith)
        | inr v ↦ inl (v, ground arith)
      ]

  -- The products of one license, with those before.
  products_round :
      (x : String) (m m' : Metrics) (claim : Claims F)
      → collect_products j hash_sub expected m claim.kopano.products ≡ ok m'
      → Holds m'.license_products x ↔ (Holds m.license_products x ⊎ (Offers x claim × (x ≢ "")))
  unfolding collect_products
  products_round x m m' claim e = elim (Option-cases claim.kopano.products) [
    | inl q ↦
        let same : m' ≡ m = ground arith in
        rw same (inl, elim [ inl h ↦ h | inr ((_, some_set, _), _) ↦ cc ])
    | inr (named, q) ↦
        let run : each (collect_product j hash_sub expected) m named ≡ ok m' = ground arith in
        let (there, back) =
          each_adds (λ (n : Metrics). Holds n.license_products x)
            (λ (p : String × Option (Product F)). (p.0 ≡ x) × (x ≢ ""))
            (collect_product j hash_sub expected) (product_round x) named m m' run in
        (
          λ h. elim (there h) [
            | inl l ↦ inl l
            | inr a ↦
                inr
                  ((named, q, Any-imp _ _ (λ p b. b.0) named a), some_condition _ (x ≢ "") named a)
          ],
          elim [
            | inl l ↦ back (inl l)
            | inr ((other, some_other, a), n) ↦
                let same : other ≡ named = ground arith in
                back (inr (Any-imp _ _ (λ p b. (b, n)) named (subst (Any (λ p. p.0 ≡ x)) same a)))
          ],
        )
  ]

  claim_round :
      (x : String) (m m' : Metrics) (claim : Claims F)
      → collect_claim j hash_sub expected m claim ≡ ok m'
      → Holds m'.license_products x
        ↔ (Holds m.license_products x ⊎ (IsValidNow claim × (Offers x claim × (x ≢ ""))))
  unfolding collect_customer
  claim_round x m m' claim e = elim (claim_cases m m' claim e) [
    | inl (v, same) ↦ rw same (inl, elim [ inl h ↦ h | inr (w, _) ↦ cc ])
    | inr (v, run) ↦
        let (there, back) =
          products_round x (collect_customer j hash_sub expected m claim) m' claim run in
        (
          λ h. elim (there h) [ inl l ↦ inl l | inr o ↦ inr (v, o) ],
          elim [ inl l ↦ back (inl l) | inr (w, o) ↦ back (inr o) ],
        )
  ]

  -- If `Collect` does not panic, a product is reported exactly if it has a name and a license that
  -- is valid now has it.
  pub collect-products :
      (x : String) (c : Collector F) (m : Metrics)
      → collect j hash_sub expected c ≡ ok m
      → Holds m.license_products x
        ↔ Any (λ claim. IsValidNow claim × (Offers x claim × (x ≢ ""))) c.claims
  unfolding collect
  collect-products x c m e =
      let (there, back) =
        each_adds (λ (n : Metrics). Holds n.license_products x)
          (λ (claim : Claims F). IsValidNow claim × (Offers x claim × (x ≢ "")))
          (collect_claim j hash_sub expected) (claim_round x) c.claims _ m e in
      (λ h. elim (there h) [ inl l ↦ absurd l | inr r ↦ r ], λ h. back (inr h))
