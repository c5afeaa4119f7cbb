-- ===== src/License/Generate.antt =====
-- `GenerateClaims` (license/claims-gen.go): a license from keys and values. The random ids and
-- `strconv.ParseFloat` are parameters.
mod Tests
pub mod Parse
pub mod Step
pub mod Stored
pub mod Lists
pub mod Total
pub mod Fields
pub mod Shape
use kustomer.Common.{
  ℕ, ◌+◌, String, Bool, true, false, not, ◌&&◌, Option, none, some, List, [], ◌∷◌, ◌++◌, ite,
  if◌then◌else◌, string_dec, ltb, length,
}
use kustomer.Common.Map.{Map, get, put}
use kustomer.License.{Product, ProductSet, exclusive_claim}
use kustomer.License.Dynamic.{Value}
use kustomer.License.Generate.Parse.{parse_int, parse_bool, cut_text}

pub data GenerateError : Type 0 where
  no_uid no_lid unsupported_format exclusive_type bad_int bad_bool bad_float multiple_values :
      GenerateError

-- A value, an error, or a panic at run time.
pub data GenerateResult (A : Type 0) : Type 0 where
  value : A → GenerateResult A
  error : GenerateError → GenerateResult A
  crash : GenerateResult A

infixl 5 ◌>>=◌
abbrev pub ◌>>=◌ : {A B : Type 0} → GenerateResult A → (A → GenerateResult B) → GenerateResult B
value a >>= f = f a
error e >>= f = error e
crash >>= f = crash

-- The fields of the claims that are set, and how many random ids have been drawn. The embedded
-- `*jwt.Claims` is nil.
pub record Generated (F : Type 0) : Type 0 where
  pub license_file_id : String
  pub display_name : String
  pub support_identification_number : String
  pub products : ProductSet F
  pub drawn : ℕ

-- `kWithType[0]` and the type
pub claim_and_type : String → String × String
claim_and_type s = elim (cut_text 58 s) [ none ↦ (s, "string") | some (k, t) ↦ (k, t) ]

pub wrong_exclusive : (claim t : String) → Bool
wrong_exclusive claim t =
    ite (string_dec claim exclusive_claim) (ite (string_dec t "[]string") false true) false

module _ {F : Type 0} (parse_float : String → Option F) where
  or_error : GenerateError → Option (Value F) → GenerateResult (Value F)
  or_error e none = error e
  or_error e (some v) = value v

  mapped : {A : Type 0} → (A → Value F) → Option A → Option (Value F)
  mapped f none = none
  mapped f (some a) = some (f a)

  -- `sa = cv.([]string)`, and the new values behind it
  add_texts : Option (Value F) → List String → GenerateResult (Value F)
  add_texts none values = value (Value.texts values)
  add_texts (some (Value.texts old)) values = value (Value.texts (old ++ values))
  add_texts (some _) values = crash

  -- The `switch` on the type; an unknown type is a string.
  unfoldable pub typed_value :
      String → Option (Value F) → String → List String → GenerateResult (Value F)
  unfolding or_error mapped add_texts
  typed_value t old v values =
      ite (string_dec t "int") (or_error GenerateError.bad_int (mapped Value.int (parse_int v))) (
        ite (string_dec t "bool")
          (or_error GenerateError.bad_bool (mapped Value.bool (parse_bool v)))
          (ite (string_dec t "float")
            (or_error GenerateError.bad_float (mapped Value.float (parse_float v)))
            (ite (string_dec t "[]string") (add_texts old values) (value (Value.text v)))))

  -- The `switch` on the claim; it says also whether the key takes many values.
  unfoldable pub set_claim :
      Product F → (claim t v : String) → List String → GenerateResult (Product F × Bool)
  set_claim p claim t v values =
      ite (string_dec claim "lid") (value (record p { license_id = v }, false)) (
        ite (string_dec claim "") (value (p, false)) (
          typed_value t (get claim p.unknown) v values >>= λ tv. value (
            record p { unknown = put claim tv p.unknown },
            ite (string_dec t "[]string") true false,
          )))

  module _ (uuids : ℕ → Option String) where
    -- `product, ok := claims.Kopano.Products[parts[0]]`, with the new product
    pub product_of : Generated F → String → GenerateResult (Generated F × Product F)
    product_of g name = elim (get name g.products) [
      | some (some p) ↦ value (g, p)
      | some none ↦ crash
      | none ↦ elim (uuids g.drawn) [
        | none ↦ error GenerateError.no_lid
        | some lid ↦
            value (record g { drawn = g.drawn + 1 }, record { license_id = lid; unknown = [] })
      ]
    ]

    -- The `default` case, for the parts of a key at its first `.`.
    unfoldable pub product_key :
        Generated F
        → Option (String × String)
        → (v : String) → List String
        → GenerateResult (Generated F × Bool)
    unfolding product_of claim_and_type wrong_exclusive
    product_key g none v values = error GenerateError.unsupported_format
    product_key g (some (name, rest)) v values = product_of g name >>= λ gp.
        let claim = (claim_and_type rest).0 in
        let t = (claim_and_type rest).1 in
        if wrong_exclusive claim t
        then error GenerateError.exclusive_type
        else set_claim gp.1 claim t v values >>= λ pm.
            value (record gp.0 { products = put name (some pm.0) gp.0.products }, pm.1)

    unfoldable pub set_param :
        Generated F → String → (v : String) → List String → GenerateResult (Generated F × Bool)
    set_param g k v values =
        ite (string_dec k "uid") (value (record g { license_file_id = v }, false)) (
          ite (string_dec k "dn") (value (record g { display_name = v }, false)) (
            ite (string_dec k "sin") (value (record g { support_identification_number = v }, false))
              (product_key g (cut_text 46 k) v values)))

    check_multiple : List String → Generated F × Bool → GenerateResult (Generated F)
    check_multiple rest (g, multi) =
        if not multi && ltb 0 (length rest) then error GenerateError.multiple_values else value g

    -- One round of the loop over the parameters; `values[0]` panics where there is none.
    unfoldable pub param : Generated F → String × List String → GenerateResult (Generated F)
    unfolding check_multiple
    param g (k, []) = crash
    param g (k, v ∷ rest) = set_param g k v (v ∷ rest) >>= check_multiple rest

    unfoldable pub all_params :
        Generated F → List (String × List String) → GenerateResult (Generated F)
    all_params g [] = value g
    all_params g (p ∷ ps) = param g p >>= λ g'. all_params g' ps

    from_uid : Option String → List (String × List String) → GenerateResult (Generated F)
    from_uid none ps = error GenerateError.no_uid
    from_uid (some uid) ps =
        all_params
          (record {
            license_file_id = uid;
            display_name = "";
            support_identification_number = "";
            products = [];
            drawn = 1;
          })
          ps

    unfoldable pub generate_claims : List (String × List String) → GenerateResult (Generated F)
    unfolding from_uid
    generate_claims ps = from_uid (uuids 0) ps
