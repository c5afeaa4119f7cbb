-- ===== src/License/Generate/Total.antt =====
-- When `GenerateClaims` (license/claims-gen.go) does not panic.
use kustomer.Common.{
  ℕ, String, Bool, true, false, Option, none, some, List, [], ◌∷◌, ◌≡◌, ◌≢◌, refl, sym, arith, All,
  inl, inr, ◌⊎◌, if_pos, if_neg, string_dec, Option-cases, ◌∙◌, if◌then◌else◌, ite,
}
use kustomer.Common.Map.{get}
use kustomer.License.{Product}
use kustomer.License.Dynamic.{Value}
use kustomer.License.Generate.Parse.{cut_text}
use kustomer.License.Generate.{
  GenerateResult, GenerateError, value, error, crash, ◌>>=◌, Generated, wrong_exclusive, or_error,
  mapped, add_texts, typed_value, set_claim, product_of, product_key, claim_and_type, set_param,
  check_multiple, param, all_params, from_uid, generate_claims,
}
use kustomer.License.Generate.Step.{param-Round, product_of-Before}
use kustomer.License.Generate.Shape.{IsTexts}
use kustomer.License.Generate.Lists.{
  Lists, Agrees, HasLists, AllHaveLists, before-HasLists, Round-AllHaveLists,
}

>>=-eq-crash :
    {A B : Type 0} (m : GenerateResult A) (f : A → GenerateResult B)
    → (m >>= f) ≡ crash
    → (m ≡ crash) ⊎ ((a : A) × (m ≡ value a) × (f a ≡ crash))
>>=-eq-crash (value a) f e = inr (a, refl, e)
>>=-eq-crash (error x) f e = absurd (ground arith)
>>=-eq-crash crash f e = inl refl

value_or_error :
    {A : Type 0} (m : GenerateResult A)
    → m ≢ crash
    → ((a : A) × (m ≡ value a)) ⊎ ((e : GenerateError) × (m ≡ error e))
value_or_error (value a) h = inl (a, refl)
value_or_error (error e) h = inr (e, refl)
value_or_error crash h = absurd (h refl)

not_wrong :
    {A : Type 0} (b : Bool) (e : GenerateError) (m : GenerateResult A)
    → (if b then error e else m) ≡ crash
    → m ≡ crash
not_wrong true e m h = absurd (ground arith)
not_wrong false e m h = h

check_total :
    {F : Type 0} (parse_float : String → Option F) (uuids : ℕ → Option String) (rest : List String)
    (gm : Generated F × Bool)
    → check_multiple parse_float uuids rest gm ≢ crash
unfolding check_multiple
check_total parse_float uuids rest (g, multi) = λ e. absurd (ground arith)

module _ {F : Type 0} (lists : Lists) where
  module _ (parse_float : String → Option F) where
    add_texts_total :
        (old : Option (Value F)) (values : List String)
        → ((w : Value F) → old ≡ some w → IsTexts w)
        → add_texts parse_float old values ≢ crash
    unfolding add_texts
    add_texts_total none values h = λ e. absurd (ground arith)
    add_texts_total (some (Value.texts old)) values h = λ e. absurd (ground arith)
    add_texts_total (some Value.nil) values h = λ e. absurd (h _ refl)
    add_texts_total (some (Value.bool _)) values h = λ e. absurd (h _ refl)
    add_texts_total (some (Value.int _)) values h = λ e. absurd (h _ refl)
    add_texts_total (some (Value.float _)) values h = λ e. absurd (h _ refl)
    add_texts_total (some (Value.text _)) values h = λ e. absurd (h _ refl)
    add_texts_total (some (Value.arr _)) values h = λ e. absurd (h _ refl)
    add_texts_total (some (Value.obj _)) values h = λ e. absurd (h _ refl)

    plain_value_total :
        (t v : String) (values : List String) (old : Option (Value F))
        → t ≢ "[]string"
        → typed_value parse_float t old v values ≢ crash
    unfolding typed_value or_error mapped
    plain_value_total t v values old n = λ e. absurd (ground arith)

    typed_value_total :
        (t v : String) (values : List String) (old : Option (Value F))
        → ((w : Value F) → old ≡ some w → t ≡ "[]string" → IsTexts w)
        → typed_value parse_float t old v values ≢ crash
    unfolding typed_value or_error mapped string_dec
    typed_value_total t v values old h = λ e. elim (string_dec t "[]string") [
      | yes x ↦ add_texts_total old values (λ w q. h w q x) (rw x at e)
      | no n ↦ plain_value_total t v values old n e
    ]

    set_claim_total :
        (name claim t v : String) (values : List String) (p : Product F)
        → ite (string_dec t "[]string") true false ≡ lists name claim
        → HasLists lists name p
        → set_claim parse_float p claim t v values ≢ crash
    unfolding set_claim
    set_claim_total name claim t v values p agrees h = λ e. elim (string_dec claim "lid") [
      | yes c ↦ absurd (ground arith)
      | no c ↦ elim (string_dec claim "") [
        | yes d ↦ absurd (ground arith)
        | no d ↦
            elim (>>=-eq-crash (typed_value parse_float t (get claim p.unknown) v values) _ (
              rw (if_neg (string_dec claim "lid") c _ _, if_neg (string_dec claim "") d _ _) at
                e)) [
                  | inl x ↦
                      typed_value_total t v values (get claim p.unknown)
                        (λ w q l. h claim w q (sym agrees ∙ if_pos (string_dec t "[]string") l _ _))
                        x
                  | inr (tv, _, x) ↦ absurd (ground (arith, x))
                ]
      ]
    ]

    module _ (uuids : ℕ → Option String) where
      product_of_total :
          (g : Generated F) (name : String)
          → AllHaveLists lists g.products
          → product_of parse_float uuids g name ≢ crash
      unfolding product_of
      product_of_total g name h = λ e. elim (Option-cases (get name g.products)) [
        | inl n ↦ elim (Option-cases (uuids g.drawn)) [
          | inl m ↦ absurd (ground arith)
          | inr (lid, m) ↦ absurd (ground arith)
        ]
        | inr (none, n) ↦
            let (p, none_some, _) = h name none n in absurd (ground (arith, none_some))
        | inr (some p, n) ↦ absurd (ground arith)
      ]

      product_key_total :
          (g : Generated F) (parts : Option (String × String)) (v : String) (values : List String)
          → ((name rest : String)
              → parts ≡ some (name, rest)
              → ite (string_dec (claim_and_type rest).1 "[]string") true false
                ≡ lists name (claim_and_type rest).0)
          → AllHaveLists lists g.products
          → product_key parse_float uuids g parts v values ≢ crash
      unfolding product_key
      product_key_total g none v values agrees h = λ e. absurd (ground arith)
      product_key_total g (some (name, rest)) v values agrees h = λ e.
          elim (>>=-eq-crash (product_of parse_float uuids g name) _ e) [
            | inl x ↦ product_of_total g name h x
            | inr (gp, first, x) ↦
                let (before, _, _, _, _) = product_of-Before parse_float uuids g name gp first in
                elim (>>=-eq-crash
                  (set_claim parse_float gp.1 (claim_and_type rest).0 (claim_and_type rest).1 v
                    values)
                  _
                  (not_wrong (wrong_exclusive (claim_and_type rest).0 (claim_and_type rest).1) _ _
                    x)) [
                      | inl y ↦
                          set_claim_total name _ _ v values gp.1 (agrees name rest refl)
                            (before-HasLists lists parse_float g name gp.1 h before) y
                      | inr (pm, _, y) ↦ absurd (ground (arith, y))
                    ]
          ]

      param_total :
          (g : Generated F) (p : String × List String)
          → p.1 ≢ []
          → Agrees lists p
          → AllHaveLists lists g.products
          → param parse_float uuids g p ≢ crash
      unfolding param set_param
      param_total g (k, []) some_value agrees h = λ e. some_value refl
      param_total g (k, v ∷ rest) some_value agrees h = λ e.
          elim (>>=-eq-crash (set_param parse_float uuids g k v (v ∷ rest)) _ e) [
            | inl x ↦ product_key_total g (cut_text 46 k) v (v ∷ rest) agrees h (ground (arith, x))
            | inr (gm, _, x) ↦ check_total parse_float uuids rest gm x
          ]

      all_params_total :
          (ps : List (String × List String)) (g : Generated F)
          → All (λ p. p.1 ≢ []) ps
          → All (Agrees lists) ps
          → AllHaveLists lists g.products
          → all_params parse_float uuids g ps ≢ crash
      unfolding all_params
      all_params_total [] g some_values agree h = λ e. absurd (ground arith)
      all_params_total ((k, values) ∷ ps) g some_values agree h = λ e.
          elim (>>=-eq-crash (param parse_float uuids g (k, values)) _ e) [
            | inl x ↦ param_total g (k, values) some_values.0 agree.0 h x
            | inr (g1, first, x) ↦
                let (v, rest, multi, _, _, step) =
                  param-Round parse_float uuids g g1 k values first in
                all_params_total ps g1 some_values.1 agree.1
                  (Round-AllHaveLists lists parse_float uuids g g1 k v values multi agree.0 step h)
                  x
          ]

      -- If every parameter has a value, and for each claim of each product either all keys that set
      -- it have the type `[]string` or none has, then `GenerateClaims` does not panic: it returns
      -- claims or an error.
      pub generate_claims_total :
          (ps : List (String × List String))
          → All (λ p. p.1 ≢ []) ps
          → All (Agrees lists) ps
          → ((g : Generated F) × (generate_claims parse_float uuids ps ≡ value g))
            ⊎ ((e : GenerateError) × (generate_claims parse_float uuids ps ≡ error e))
      unfolding generate_claims from_uid get
      generate_claims_total ps some_values agree =
          value_or_error (generate_claims parse_float uuids ps) (λ e.
            elim (Option-cases (uuids 0)) [
              | inl n ↦ absurd (ground arith)
              | inr (uid, n) ↦ all_params_total ps _ some_values agree (λ name o q. cc) (rw n at e)
            ])
