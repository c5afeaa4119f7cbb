-- ===== src/License/Generate/Step.antt =====
-- What one round of the loop of `GenerateClaims` does (license/claims-gen.go).
use kustomer.Common.{
  ℕ, String, Bool, true, false, Option, none, some, List, [], ◌∷◌, ◌≡◌, refl, subst, arith, inl,
  inr, ◌⊎◌, if_pos, if_neg, string_dec, Option-cases, ap, if◌then◌else◌, ◌≢◌, ite, ltb, length, not,
  ◌&&◌,
}
use kustomer.Common.Map.{get, put}
use kustomer.License.{Product}
use kustomer.License.Dynamic.{Value}
use kustomer.License.Generate.Parse.{cut_text}
use kustomer.License.Generate.{
  GenerateResult, GenerateError, value, error, crash, ◌>>=◌, Generated, wrong_exclusive,
  typed_value, set_claim, product_of, product_key, claim_and_type, set_param, check_multiple, param,
}

-- A sequence that gives a value has a first part that does.
pub >>=-eq-value :
    {A B : Type 0} (m : GenerateResult A) (f : A → GenerateResult B) {b : B}
    → (m >>= f) ≡ value b
    → (a : A) × (m ≡ value a) × (f a ≡ value b)
>>=-eq-value (value a) f e = (a, refl, e)
>>=-eq-value (error x) f e = cc
>>=-eq-value crash f e = cc

-- What a key does to the claims of its product.
pub data SetClaim {F : Type 0} (parse_float : String → Option F) (p : Product F)
    (claim t v : String) (values : List String) (q : Product F) (multi : Bool) : Type 0 where
  kept :
      (claim ≡ "lid") ⊎ (claim ≡ "")
      → q.unknown ≡ p.unknown
      → multi ≡ false
      → SetClaim parse_float p claim t v values q multi
  stored :
      (tv : Value F)
      → claim ≢ "lid"
      → claim ≢ ""
      → typed_value parse_float t (get claim p.unknown) v values ≡ value tv
      → q.unknown ≡ put claim tv p.unknown
      → multi ≡ ite (string_dec t "[]string") true false
      → SetClaim parse_float p claim t v values q multi

module _ {F : Type 0} (parse_float : String → Option F) where
  pub set_claim-cases :
      (p : Product F) (claim t v : String) (values : List String) (pm : Product F × Bool)
      → set_claim parse_float p claim t v values ≡ value pm
      → SetClaim parse_float p claim t v values pm.0 pm.1
  unfolding set_claim
  set_claim-cases p claim t v values pm e = elim (string_dec claim "lid") [
    | yes c ↦
        let e' = rw (if_pos (string_dec claim "lid") c _ _) at e in
        SetClaim.kept (inl c) (ground (arith, e')) (ground (arith, e'))
    | no c ↦
        let e' = rw (if_neg (string_dec claim "lid") c _ _) at e in
        elim (string_dec claim "") [
          | yes d ↦
              let e'' = rw (if_pos (string_dec claim "") d _ _) at e' in
              SetClaim.kept (inr d) (ground (arith, e'')) (ground (arith, e''))
          | no d ↦
              let (tv, first, rest) =
                >>=-eq-value (typed_value parse_float t (get claim p.unknown) v values) _
                  (rw (if_neg (string_dec claim "") d _ _) at e') in
              SetClaim.stored tv c d first (ground (arith, rest)) (ground (arith, rest))
        ]
  ]

-- What the claims hold of a product before a key sets one of its claims: a new product has none.
pub data Before {F : Type 0} (g : Generated F) (name : String) (p : Product F) : Type 0 where
  known : get name g.products ≡ some (some p) → Before g name p
  new : get name g.products ≡ none → p.unknown ≡ [] → Before g name p

-- A round whose key names a product.
pub record KeyStep {F : Type 0} (parse_float : String → Option F) (g : Generated F) (k v : String)
    (values : List String) (g' : Generated F) (multi : Bool) : Type 0 where
  pub name : String
  pub rest : String
  pub key : cut_text 46 k ≡ some (name, rest)
  pub not_field : (k ≢ "uid") × (k ≢ "dn") × (k ≢ "sin")
  pub old : Product F
  pub new : Product F
  pub before : Before g name old
  pub right : wrong_exclusive (claim_and_type rest).0 (claim_and_type rest).1 ≡ false
  pub claim :
      SetClaim parse_float old (claim_and_type rest).0 (claim_and_type rest).1 v values new multi
  pub products : g'.products ≡ put name (some new) g.products
  pub fields :
      (g'.license_file_id ≡ g.license_file_id)
      × (g'.display_name ≡ g.display_name)
      × (g'.support_identification_number ≡ g.support_identification_number)

check_exclusive :
    {A : Type 0} (b : Bool) (e : GenerateError) (m : GenerateResult A) {a : A}
    → (if b then error e else m) ≡ value a
    → (b ≡ false) × (m ≡ value a)
check_exclusive true e m h = cc
check_exclusive false e m h = (refl, h)

single_value :
    (multi : Bool) (rest : List String)
    → (not multi && ltb 0 (length rest)) ≡ false
    → (multi ≡ true) ⊎ (rest ≡ [])
single_value true rest h = inl refl
single_value false [] h = inr refl
single_value false (v ∷ rest) h = absurd (ground arith)

module _ {F : Type 0} (parse_float : String → Option F) (uuids : ℕ → Option String) where
  pub product_of-Before :
      (g : Generated F) (name : String) (gp : Generated F × Product F)
      → product_of parse_float uuids g name ≡ value gp
      → Before g name gp.1
        × (gp.0.products ≡ g.products)
        × (gp.0.license_file_id ≡ g.license_file_id)
        × (gp.0.display_name ≡ g.display_name)
        × (gp.0.support_identification_number ≡ g.support_identification_number)
  unfolding product_of
  product_of-Before g name gp e = elim (Option-cases (get name g.products)) [
    | inl n ↦ elim (Option-cases (uuids g.drawn)) [
      | inl m ↦ absurd (ground arith)
      | inr (lid, m) ↦
          (Before.new n (ground arith), ground arith, ground arith, ground arith, ground arith)
    ]
    | inr (none, n) ↦ absurd (ground arith)
    | inr (some p, n) ↦
        let same : p ≡ gp.1 = ground arith in
        (
          Before.known (rw n (ap (λ x. some (some x)) same)),
          ground arith,
          ground arith,
          ground arith,
          ground arith,
        )
  ]

  product_key-KeyStep :
      (g : Generated F) (k v : String) (values : List String) (gm : Generated F × Bool)
      → (k ≢ "uid") × (k ≢ "dn") × (k ≢ "sin")
      → product_key parse_float uuids g (cut_text 46 k) v values ≡ value gm
      → KeyStep parse_float g k v values gm.0 gm.1
  unfolding product_key
  product_key-KeyStep g k v values gm other e = elim (Option-cases (cut_text 46 k)) [
    | inl n ↦ absurd (ground arith)
    | inr ((name, rest), n) ↦
        let (gp, first, e1) = >>=-eq-value (product_of parse_float uuids g name) _ (rw n at e) in
        let (before, same, f1, f2, f3) = product_of-Before g name gp first in
        let (right, e2) = check_exclusive _ _ _ e1 in
        let (pm, claimed, e3) =
          >>=-eq-value
            (set_claim parse_float gp.1 (claim_and_type rest).0 (claim_and_type rest).1 v values) _
            e2 in
        record {
          name = name;
          rest = rest;
          key = n;
          not_field = other;
          old = gp.1;
          new = pm.0;
          before = before;
          right = right;
          claim =
              subst
                (SetClaim parse_float gp.1 (claim_and_type rest).0 (claim_and_type rest).1 v values
                  pm.0)
                {x = pm.1} (ground (arith, e3))
                (set_claim-cases parse_float gp.1 _ _ v values pm claimed);
          products = ground (arith, e3, same);
          fields = (ground (arith, e3, f1), ground (arith, e3, f2), ground (arith, e3, f3));
        }
  ]

  pub data Round (g : Generated F) (k v : String) (values : List String) (g' : Generated F)
      (multi : Bool) : Type 0 where
    uid :
        k ≡ "uid"
        → g' ≡ record g { license_file_id = v }
        → multi ≡ false
        → Round g k v values g' multi
    dn : k ≡ "dn" → g' ≡ record g { display_name = v } → multi ≡ false → Round g k v values g' multi
    sin :
        k ≡ "sin"
        → g' ≡ record g { support_identification_number = v }
        → multi ≡ false
        → Round g k v values g' multi
    key : KeyStep parse_float g k v values g' multi → Round g k v values g' multi

  set_param-Round :
      (g : Generated F) (k v : String) (values : List String) (gm : Generated F × Bool)
      → set_param parse_float uuids g k v values ≡ value gm
      → Round g k v values gm.0 gm.1
  unfolding set_param
  set_param-Round g k v values gm e = elim (string_dec k "uid") [
    | yes c ↦ Round.uid c (ground arith) (ground arith)
    | no a ↦ elim (string_dec k "dn") [
      | yes c ↦ Round.dn c (ground arith) (ground arith)
      | no b ↦ elim (string_dec k "sin") [
        | yes c ↦ Round.sin c (ground arith) (ground arith)
        | no d ↦ Round.key (product_key-KeyStep g k v values gm (a, b, d) (ground arith))
      ]
    ]
  ]

  -- A round that goes well: the parameter has a value, and one value if the claim takes one.
  pub param-Round :
      (g g' : Generated F) (k : String) (values : List String)
      → param parse_float uuids g (k, values) ≡ value g'
      → (v : String) × (rest : List String) × (multi : Bool) × (values ≡ v ∷ rest)
        × ((multi ≡ true) ⊎ (rest ≡ []))
        × Round g k v values g' multi
  unfolding param check_multiple
  param-Round g g' k [] e = cc
  param-Round g g' k (v ∷ rest) e =
      let (gm, first, e1) = >>=-eq-value (set_param parse_float uuids g k v (v ∷ rest)) _ e in
      let (single, e2) = check_exclusive (not gm.1 && ltb 0 (length rest)) _ _ e1 in
      (
        v,
        rest,
        gm.1,
        refl,
        single_value gm.1 rest single,
        subst (λ x. Round g k v (v ∷ rest) x gm.1) {x = gm.0} (ground (arith, e2))
            (set_param-Round g k v (v ∷ rest) gm first),
      )
