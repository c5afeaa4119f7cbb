-- ===== src/License/Json/RoundTrip.antt =====
-- A product that is written and read again (license/license.go).
use kustomer.Common.{
  String, false, Option, none, some, List, [], ◌∷◌, ◌≡◌, refl, ap, arith, All, Any, if_pos, if_neg,
  ◌⊎◌, inl, inr, string_dec, Bool-cases,
}
use kustomer.Common.Map.{Map, get, put, remove, get-put, get-put_self, get-remove, All-put}
use kustomer.License.{Product}
use kustomer.License.Dynamic.{Value, Values}
use kustomer.License.Json.{
  Json, JsonOps, text_array, encode_value, decode_value, decode_array, encode_entries,
  decode_entries, as_text, unmarshal_product, marshal_product,
}

-- A value that `GenerateClaims` makes.
abbrev pub IsFlat : {F : Type 0} → Value F → Type 0
IsFlat Value.nil = ⊥
IsFlat (Value.arr _) = ⊥
IsFlat (Value.obj _) = ⊥
IsFlat _ = Unit

abbrev texts_of : {F : Type 0} → List String → Values F
texts_of [] = Values.end
texts_of (s ∷ ss) = Values.cons (Value.text s) (texts_of ss)

module _ {F : Type 0} (ops : JsonOps F) where
  -- What is read of a value that has been written: an int64 becomes a float64, and a `[]string` a
  -- `[]interface{}`.
  abbrev pub as_read : Value F → Value F
  as_read (Value.int n) = Value.float (ops.of_int n)
  as_read (Value.texts ss) = Value.arr (texts_of ss)
  as_read v = v

  abbrev pub as_read_if : Option (Value F) → Option (Value F)
  as_read_if none = none
  as_read_if (some v) = some (as_read v)

  abbrev pub CannotWrite : Value F → Type 0
  CannotWrite (Value.float x) = ops.is_finite x ≡ false
  CannotWrite _ = ⊥

  decode_texts : (ss : List String) → decode_array ops (text_array ops ss) ≡ texts_of ss
  unfolding text_array decode_value
  decode_texts [] = refl
  decode_texts (s ∷ ss) = ap (Values.cons (Value.text s)) (decode_texts ss)

  written_read :
      (v : Value F)
      → IsFlat v
      → (CannotWrite v × (encode_value ops v ≡ none))
        ⊎ ((j : Json F) × (encode_value ops v ≡ some j) × (decode_value ops j ≡ as_read v))
  unfolding encode_value decode_value
  written_read (Value.bool b) h = inr (_, refl, refl)
  written_read (Value.int n) h = inr (_, refl, refl)
  written_read (Value.float x) h = elim (Bool-cases (ops.is_finite x)) [
    | inl e ↦ inr (Json.number x, ground arith, refl)
    | inr e ↦ inl (e, ground arith)
  ]
  written_read (Value.text s) h = inr (_, refl, refl)
  written_read (Value.texts ss) h = inr (_, refl, ap Value.arr (decode_texts ss))
  written_read Value.nil h = absurd h
  written_read (Value.arr vs) h = absurd h
  written_read (Value.obj fs) h = absurd h

  -- Some entry cannot be written, or all are read again.
  entries_read :
      (m : Map (Value F))
      → All (λ e. IsFlat e.1) m
      → (Any (λ e. CannotWrite e.1) m × (encode_entries ops m ≡ none))
        ⊎ ((js : Map (Json F)) × (encode_entries ops m ≡ some js)
            × ((k : String) → get k (decode_entries ops js) ≡ as_read_if (get k m)))
  unfolding encode_entries decode_entries get
  entries_read [] h = inr ([], refl, λ k. refl)
  entries_read ((k, v) ∷ m) (flat, rest) = elim (written_read v flat) [
    | inl (bad, e) ↦ inl (inl bad, ground arith)
    | inr (j, e, same) ↦ elim (entries_read m rest) [
      | inl (bad, es) ↦ inl (inr bad, ground arith)
      | inr (js, es, sames) ↦ inr (
        (k, j) ∷ js,
        ground arith,
        λ i. elim (string_dec k i) [ yes p ↦ ground arith | no p ↦ ground (arith, sames i) ],
      )
    ]
  ]

  put_cannot :
      (s : String) (m : Map (Value F))
      → Any (λ e. CannotWrite e.1) (put "lid" (Value.text s) m)
      → Any (λ e. CannotWrite e.1) m
  unfolding put
  put_cannot s [] (inl bad) = absurd bad
  put_cannot s [] (inr bad) = absurd bad
  put_cannot s ((j, w) ∷ m) bad = elim (string_dec j "lid") [
    | yes p ↦ elim (rw (if_pos (string_dec j "lid") p) at bad) [ inl x ↦ absurd x | inr x ↦ inr x ]
    | no p ↦ elim (rw (if_neg (string_dec j "lid") p) at bad) [
      | inl x ↦ inl x
      | inr x ↦ inr (put_cannot s m x)
    ]
  ]

  put-IsFlat :
      (p : Product F)
      → All (λ e. IsFlat e.1) p.unknown
      → All (λ e. IsFlat e.1) (put "lid" (Value.text p.license_id) p.unknown)
  put-IsFlat p h = All-put (λ e. IsFlat e.1) "lid" (Value.text p.license_id) p.unknown tt h

  pub marshal_product_read :
      (p : Product F)
      → get "lid" p.unknown ≡ none
      → All (λ e. IsFlat e.1) p.unknown
      → (Any (λ e. CannotWrite e.1) p.unknown × (marshal_product ops p ≡ none))
        ⊎ ((members : Map (Json F)) × (q : Product F) × (marshal_product ops p ≡ some members)
            × (unmarshal_product ops (some members) ≡ some q)
            × (q.license_id ≡ p.license_id)
            × ((k : String) → get k q.unknown ≡ as_read_if (get k p.unknown)))
  unfolding marshal_product unmarshal_product as_text
  marshal_product_read p h flat = elim (entries_read _ (put-IsFlat p flat)) [
    | inl (bad, e) ↦ inl (put_cannot p.license_id p.unknown bad, e)
    | inr (js, e, reads) ↦ inr (
      js,
      record {
        license_id = as_text ops (get "lid" (decode_entries ops js));
        unknown = remove "lid" (decode_entries ops js);
      },
      e,
      refl,
      rw (reads "lid", get-put_self "lid" (Value.text p.license_id) p.unknown) refl,
      λ k. elim (string_dec "lid" k) [
        | yes c ↦ ground (arith, h, get-remove k "lid" (decode_entries ops js))
        | no c ↦ ground (
          arith,
          get-remove k "lid" (decode_entries ops js),
          reads k,
          get-put k "lid" (Value.text p.license_id) p.unknown,
        )
      ],
    )
  ]
