-- ===== src/License/Generate/Stored.antt =====
-- What the parameters of `GenerateClaims` (license/claims-gen.go) become.
use kustomer.Common.{
  ℕ, String, Bool, true, false, Option, none, some, List, [], ◌∷◌, ◌≡◌, refl, sym, subst, arith,
  All, inl, inr, if_neg, string_dec, Option-cases, ◌∙◌, ap, ◌++◌, ◌≢◌, ite,
}
use kustomer.Common.Map.{get, put, get-put, get-put_self, get-put_ne}
use kustomer.License.{Product, ProductSet}
use kustomer.License.Dynamic.{Value}
use kustomer.License.Generate.Parse.{cut_text}
use kustomer.License.Generate.{
  value, ◌>>=◌, Generated, typed_value, claim_and_type, param, all_params, from_uid,
  generate_claims,
}
use kustomer.License.Generate.Step.{>>=-eq-value, SetClaim, Before, KeyStep, Round, param-Round}

abbrev pub claim_in : {F : Type 0} → String → Option (Option (Product F)) → Option (Value F)
claim_in claim (some (some p)) = get claim p.unknown
claim_in claim (some none) = none
claim_in claim none = none

-- The claim of a product, if it is set.
abbrev pub claim_of : {F : Type 0} → String → String → ProductSet F → Option (Value F)
claim_of name claim products = claim_in claim (get name products)

-- A parameter sets this claim of this product.
abbrev pub Sets : String → String → String × List String → Type 0
Sets name claim p =
    (rest : String) × (cut_text 46 p.0 ≡ some (name, rest)) × ((claim_and_type rest).0 ≡ claim)

module _ {F : Type 0} where
  before_claim :
      (g : Generated F) (name claim : String) (p : Product F)
      → Before g name p
      → claim_of name claim g.products ≡ get claim p.unknown
  unfolding get
  before_claim g name claim p (Before.known e) = ap (claim_in claim) e
  before_claim g name claim p (Before.new e nothing) =
      ap (claim_in claim) e ∙ sym (ap (get claim) nothing)

  claim_of-put :
      (name claim : String) (p : Product F) (products : ProductSet F)
      → claim_of name claim (put name (some p) products) ≡ get claim p.unknown
  claim_of-put name claim p products = ap (claim_in claim) (get-put_self name (some p) products)

module _ {F : Type 0} (parse_float : String → Option F) (uuids : ℕ → Option String) where
  kept_claim :
      (p q : Product F) (claim t v : String) (values : List String) (multi : Bool) (other : String)
      → SetClaim parse_float p claim t v values q multi
      → claim ≢ other
      → get other q.unknown ≡ get other p.unknown
  kept_claim p q claim t v values multi other (SetClaim.kept _ same _) n = rw same refl
  kept_claim p q claim t v values multi other (SetClaim.stored tv _ _ _ same _) n =
      rw (same, get-put other claim tv p.unknown) (if_neg (string_dec claim other) n _ _)

  key_claim_other :
      (g g' : Generated F) (k v : String) (values : List String) (multi : Bool)
      (name claim : String)
      → KeyStep parse_float g k v values g' multi
      → ¬ Sets name claim (k, values)
      → claim_of name claim g'.products ≡ claim_of name claim g.products
  key_claim_other g g' k v values multi name claim s other = elim (string_dec s.name name) [
    | no n ↦
        ap (claim_in claim)
          (ap (get name) s.products ∙ get-put_ne name s.name (some s.new) g.products n)
    | yes same ↦
        let after : claim_of name claim g'.products ≡ get claim s.new.unknown =
          ap (claim_of name claim) s.products
          ∙ rw (sym same) (claim_of-put s.name claim s.new g.products) in
        let before : claim_of name claim g.products ≡ get claim s.old.unknown =
          rw (sym same) (before_claim g s.name claim s.old s.before) in
        after
        ∙ kept_claim s.old s.new _ _ v values multi claim s.claim
            (λ e. other (s.rest, rw same at s.key, e))
        ∙ sym before
  ]

  Round-claim_other :
      (g g' : Generated F) (k v : String) (values : List String) (multi : Bool)
      (name claim : String)
      → Round parse_float uuids g k v values g' multi
      → ¬ Sets name claim (k, values)
      → claim_of name claim g'.products ≡ claim_of name claim g.products
  Round-claim_other g g' k v values multi name claim (Round.uid _ e _) other = rw e refl
  Round-claim_other g g' k v values multi name claim (Round.dn _ e _) other = rw e refl
  Round-claim_other g g' k v values multi name claim (Round.sin _ e _) other = rw e refl
  Round-claim_other g g' k v values multi name claim (Round.key s) other =
      key_claim_other g g' k v values multi name claim s other

  all_params_claim_other :
      (g g' : Generated F) (ps : List (String × List String)) (name claim : String)
      → all_params parse_float uuids g ps ≡ value g'
      → All (λ p. ¬ Sets name claim p) ps
      → claim_of name claim g'.products ≡ claim_of name claim g.products
  unfolding all_params
  all_params_claim_other g g' [] name claim e h = ground arith
  all_params_claim_other g g' ((k, values) ∷ ps) name claim e h =
      let (g1, first, e1) = >>=-eq-value (param parse_float uuids g (k, values)) _ e in
      let (v, rest, multi, _, _, step) = param-Round parse_float uuids g g1 k values first in
      all_params_claim_other g1 g' ps name claim e1 h.1
      ∙ Round-claim_other g g1 k v values multi name claim step h.0

  -- A claim that is not yet set is set to the value of its type.
  abbrev NewClaim :
      Generated F → Generated F → String → List String → Bool → String → String → Type 0
  NewClaim g g' v values multi name rest =
      (claim_and_type rest).0 ≢ "lid"
      → (claim_and_type rest).0 ≢ ""
      → claim_of name (claim_and_type rest).0 g.products ≡ none
      → (tv : Value F) × (typed_value parse_float (claim_and_type rest).1 none v values ≡ value tv)
        × (claim_of name (claim_and_type rest).0 g'.products ≡ some tv)
        × (multi ≡ ite (string_dec (claim_and_type rest).1 "[]string") true false)

  stored_claim :
      (g g' : Generated F) (name claim t v : String) (values : List String) (p q : Product F)
      (multi : Bool)
      → Before g name p
      → g'.products ≡ put name (some q) g.products
      → SetClaim parse_float p claim t v values q multi
      → claim ≢ "lid"
      → claim ≢ ""
      → claim_of name claim g.products ≡ none
      → (tv : Value F) × (typed_value parse_float t none v values ≡ value tv)
        × (claim_of name claim g'.products ≡ some tv)
        × (multi ≡ ite (string_dec t "[]string") true false)
  stored_claim g g' name claim t v values p q multi before products (SetClaim.kept (inl c) _ _) a b
        unset =
      absurd (a c)
  stored_claim g g' name claim t v values p q multi before products (SetClaim.kept (inr c) _ _) a b
        unset =
      absurd (b c)
  stored_claim g g' name claim t v values p q multi before products
        (SetClaim.stored tv _ _ typed same list) a b unset =
      let old : get claim p.unknown ≡ none = sym (before_claim g name claim p before) ∙ unset in
      (
        tv,
        rw old at typed,
        ap (claim_of name claim) products
            ∙ claim_of-put name claim q g.products
            ∙ ap (get claim) same
            ∙ get-put_self claim tv p.unknown,
        list,
      )

  key_claim_self :
      (g g' : Generated F) (k v : String) (values : List String) (multi : Bool)
      → (s : KeyStep parse_float g k v values g' multi) → NewClaim g g' v values multi s.name s.rest
  key_claim_self g g' k v values multi s =
      stored_claim g g' s.name _ _ v values s.old s.new multi s.before s.products s.claim

  -- A parameter that sets a claim that is not yet set.
  Round-claim_self :
      (g g' : Generated F) (k v : String) (values : List String) (multi : Bool) (name rest : String)
      → Round parse_float uuids g k v values g' multi
      → cut_text 46 k ≡ some (name, rest)
      → NewClaim g g' v values multi name rest
  unfolding cut_text
  Round-claim_self g g' k v values multi name rest (Round.uid c _ _) key _ _ _ =
      absurd (ground (arith, rw c at key))
  Round-claim_self g g' k v values multi name rest (Round.dn c _ _) key _ _ _ =
      absurd (ground (arith, rw c at key))
  Round-claim_self g g' k v values multi name rest (Round.sin c _ _) key _ _ _ =
      absurd (ground (arith, rw c at key))
  Round-claim_self g g' k v values multi name rest (Round.key s) key not_lid not_empty unset =
      let same : rest ≡ s.rest = cc in
      let named : name ≡ s.name = cc in
      subst (λ r. NewClaim g g' v values multi name r) {x = s.rest} (sym same)
        (subst (λ n. NewClaim g g' v values multi n s.rest) {x = s.name} (sym named)
          (key_claim_self g g' k v values multi s))
        not_lid not_empty unset

  all_params-split :
      (g g' : Generated F) (ps qs : List (String × List String))
      → all_params parse_float uuids g (ps ++ qs) ≡ value g'
      → (g1 : Generated F) × (all_params parse_float uuids g ps ≡ value g1)
        × (all_params parse_float uuids g1 qs ≡ value g')
  unfolding all_params
  all_params-split g g' [] qs e = (g, refl, e)
  all_params-split g g' (p ∷ ps) qs e =
      let (g1, first, e1) = >>=-eq-value (param parse_float uuids g p) _ e in
      let (g2, second, e2) = all_params-split g1 g' ps qs e1 in
      (g2, ap (λ m. m >>= λ x. all_params parse_float uuids x ps) first ∙ second, e2)

  -- If `GenerateClaims` succeeds and one parameter alone sets a claim of a product, whose name is
  -- neither `lid` nor empty, then the parameter has a value, and no second one unless its type is
  -- `[]string`; and the claim holds what its type makes of the values.
  pub generate_claims-stores :
      (before after : List (String × List String)) (k : String) (values : List String)
      (name rest : String) (g : Generated F)
      → generate_claims parse_float uuids (before ++ (k, values) ∷ after) ≡ value g
      → cut_text 46 k ≡ some (name, rest)
      → (claim_and_type rest).0 ≢ "lid"
      → (claim_and_type rest).0 ≢ ""
      → All (λ p. ¬ Sets name (claim_and_type rest).0 p) before
      → All (λ p. ¬ Sets name (claim_and_type rest).0 p) after
      → (v : String) × (others : List String) × (tv : Value F) × (values ≡ v ∷ others)
        × ((claim_and_type rest).1 ≢ "[]string" → others ≡ [])
        × (typed_value parse_float (claim_and_type rest).1 none v values ≡ value tv)
        × (claim_of name (claim_and_type rest).0 g.products ≡ some tv)
  unfolding generate_claims from_uid all_params get
  generate_claims-stores before after k values name rest g e key not_lid not_empty hb ha =
      elim (Option-cases (uuids 0)) [
        | inl n ↦ absurd (ground arith)
        | inr (uid, n) ↦
            let (g1, e1, e2) = all_params-split _ g before ((k, values) ∷ after) (rw n at e) in
            let (g2, first, e3) = >>=-eq-value (param parse_float uuids g1 (k, values)) _ e2 in
            let (v, others, multi, shape, single, step) =
              param-Round parse_float uuids g1 g2 k values first in
            let unset = all_params_claim_other _ g1 before name (claim_and_type rest).0 e1 hb in
            let (tv, typed, now, list) =
              Round-claim_self g1 g2 k v values multi name rest step key not_lid not_empty unset in
            (
              v,
              others,
              tv,
              shape,
              λ t. elim single [ inl m ↦ absurd (ground (arith, m, list, t)) | inr o ↦ o ],
              typed,
              all_params_claim_other g2 g after name (claim_and_type rest).0 e3 ha ∙ now,
            )
      ]
