-- ===== src/License/Json.antt =====
-- `Product.UnmarshalJSON` and `Product.MarshalJSON` of license/license.go, with what encoding/json
-- writes of a dynamic value and what it reads of a JSON value.
pub mod RoundTrip
use kustomer.Common.{
  ℕ, String, Bool, true, false, Option, none, some, List, [], ◌∷◌, ◌≡◌, refl, ap, arith, All, subst,
  if◌then◌else◌,
}
use kustomer.Common.Map.{Map, get, put, remove, get-put, get-put_self, get-remove, All-remove}
use kustomer.License.{Product}
use kustomer.License.Dynamic.{Value, Values, Fields}

-- JSON values. An integer text (by the bit pattern of the int64 that wrote it) and the text of a
-- float64 are both JSON numbers; the second is read as the float that wrote it.
mutual
  pub data Json (F : Type 0) : Type 0 where
    null : Json F
    bool : Bool → Json F
    integer : ℕ → Json F
    number : F → Json F
    text : String → Json F
    array : Jsons F → Json F
    object : Members F → Json F

  pub data Jsons (F : Type 0) : Type 0 where
    end : Jsons F
    cons : Json F → Jsons F → Jsons F

  pub data Members (F : Type 0) : Type 0 where
    empty : Members F
    member : String → Json F → Members F → Members F

-- The float64 nearest to an int64, and whether a float64 is neither infinite nor NaN.
pub record JsonOps (F : Type 0) : Type 0 where
  pub of_int : ℕ → F
  pub is_finite : F → Bool

abbrev pub both : {A B C : Type 0} → (A → B → C) → Option A → Option B → Option C
both f (some a) (some b) = some (f a b)
both f _ _ = none

abbrev pub wrapped : {A B : Type 0} → (A → B) → Option A → Option B
wrapped f none = none
wrapped f (some a) = some (f a)

module _ {F : Type 0} (ops : JsonOps F) where
  text_array : List String → Jsons F
  text_array [] = Jsons.end
  text_array (s ∷ ss) = Jsons.cons (Json.text s) (text_array ss)

  -- `json.Marshal` fails for an infinite float and for NaN.
  unfoldable mutual
    unfolding text_array

    pub encode_value : Value F → Option (Json F)
    encode_value Value.nil = some Json.null
    encode_value (Value.bool b) = some (Json.bool b)
    encode_value (Value.int n) = some (Json.integer n)
    encode_value (Value.float x) = if ops.is_finite x then some (Json.number x) else none
    encode_value (Value.text s) = some (Json.text s)
    encode_value (Value.texts ss) = some (Json.array (text_array ss))
    encode_value (Value.arr vs) = wrapped Json.array (encode_values vs)
    encode_value (Value.obj fs) = wrapped Json.object (encode_fields fs)

    encode_values : Values F → Option (Jsons F)
    encode_values Values.end = some Jsons.end
    encode_values (Values.cons v vs) = both Jsons.cons (encode_value v) (encode_values vs)

    encode_fields : Fields F → Option (Members F)
    encode_fields Fields.empty = some Members.empty
    encode_fields (Fields.field k v fs) =
        both (Members.member k) (encode_value v) (encode_fields fs)

  -- `json.Unmarshal` into `interface{}`: every number becomes a float64.
  unfoldable mutual
    pub decode_value : Json F → Value F
    decode_value Json.null = Value.nil
    decode_value (Json.bool b) = Value.bool b
    decode_value (Json.integer n) = Value.float (ops.of_int n)
    decode_value (Json.number x) = Value.float x
    decode_value (Json.text s) = Value.text s
    decode_value (Json.array js) = Value.arr (decode_array js)
    decode_value (Json.object ms) = Value.obj (decode_object ms)

    decode_array : Jsons F → Values F
    decode_array Jsons.end = Values.end
    decode_array (Jsons.cons j js) = Values.cons (decode_value j) (decode_array js)

    decode_object : Members F → Fields F
    decode_object Members.empty = Fields.empty
    decode_object (Members.member k j ms) = Fields.field k (decode_value j) (decode_object ms)

  -- The entries of a Go map.
  encode_entries : Map (Value F) → Option (Map (Json F))
  encode_entries [] = some []
  encode_entries ((k, v) ∷ m) = both (λ j js. (k, j) ∷ js) (encode_value v) (encode_entries m)

  decode_entries : Map (Json F) → Map (Value F)
  decode_entries [] = []
  decode_entries ((k, j) ∷ m) = (k, decode_value j) ∷ decode_entries m

  -- `lid, _ := f.Unknown["lid"].(string)`
  as_text : Option (Value F) → String
  as_text (some (Value.text s)) = s
  as_text _ = ""

  -- An object that cannot be parsed is `none`.
  unfoldable pub unmarshal_product : Option (Map (Json F)) → Option (Product F)
  unfolding as_text decode_entries
  unmarshal_product none = none
  unmarshal_product (some members) =
      let unknown = decode_entries members in
      some (record { license_id = as_text (get "lid" unknown); unknown = remove "lid" unknown })

  unfoldable pub marshal_product : Product F → Option (Map (Json F))
  unfolding encode_entries
  marshal_product p = encode_entries (put "lid" (Value.text p.license_id) p.unknown)

module _ {F : Type 0} where
  -- A value of a dynamic type that JSON decoding gives.
  abbrev pub IsDecoded : Value F → Type 0
  IsDecoded (Value.int _) = ⊥
  IsDecoded (Value.texts _) = ⊥
  IsDecoded _ = Unit

module _ {F : Type 0} (ops : JsonOps F) where
  decode_value-IsDecoded : (j : Json F) → IsDecoded (decode_value ops j)
  unfolding decode_value
  decode_value-IsDecoded Json.null = tt
  decode_value-IsDecoded (Json.bool b) = tt
  decode_value-IsDecoded (Json.integer n) = tt
  decode_value-IsDecoded (Json.number x) = tt
  decode_value-IsDecoded (Json.text s) = tt
  decode_value-IsDecoded (Json.array js) = tt
  decode_value-IsDecoded (Json.object ms) = tt

  decode_entries-IsDecoded : (m : Map (Json F)) → All (λ e. IsDecoded e.1) (decode_entries ops m)
  unfolding decode_entries
  decode_entries-IsDecoded [] = tt
  decode_entries-IsDecoded ((k, j) ∷ m) = (decode_value-IsDecoded j, decode_entries-IsDecoded m)

  -- Every claim of a product that is read is of a type that JSON decoding gives.
  pub unmarshal_product-IsDecoded :
      (members : Map (Json F)) (p : Product F)
      → unmarshal_product ops (some members) ≡ some p
      → All (λ e. IsDecoded e.1) p.unknown
  unfolding unmarshal_product
  unmarshal_product-IsDecoded members p e =
      subst (All (λ e. IsDecoded e.1)) {x = remove "lid" (decode_entries ops members)}
        (ground arith) (All-remove (λ e. IsDecoded e.1) "lid" _ (decode_entries-IsDecoded members))
