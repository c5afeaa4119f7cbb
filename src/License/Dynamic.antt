-- ===== src/License/Dynamic.antt =====
-- The dynamic values of `interface{}` in a license, with Go's `==` on them. `F` is float64.
use kustomer.Common.{
  ℕ, ◌≡◌, refl, ap, String, Bool, true, false, Option, none, some, List, [], ◌∷◌, ite, ◌==◌,
  string_dec,
}

-- JSON decoding makes `nil`, `bool`, `float`, `text`, `arr` and `obj`. `int` (an int64, by its bit
-- pattern) and `texts` (a `[]string` that is not nil) are made by `GenerateClaims` only.
mutual
  pub data Value (F : Type 0) : Type 0 where
    nil : Value F
    bool : Bool → Value F
    int : ℕ → Value F
    float : F → Value F
    text : String → Value F
    texts : List String → Value F
    arr : Values F → Value F
    obj : Fields F → Value F

  -- `[]interface{}`
  pub data Values (F : Type 0) : Type 0 where
    end : Values F
    cons : Value F → Values F → Values F

  -- `map[string]interface{}`
  pub data Fields (F : Type 0) : Type 0 where
    empty : Fields F
    field : String → Value F → Fields F → Fields F

-- The operations of float64 that the code uses.
pub record FloatOps (F : Type 0) : Type 0 where
  pub add : F → F → F
  pub eq : F → F → Bool

module _ {F : Type 0} where
  abbrev pub to_list : Values F → List (Value F)
  to_list end = []
  to_list (cons v vs) = v ∷ to_list vs

  abbrev pub of_list : List (Value F) → Values F
  of_list [] = end
  of_list (v ∷ vs) = cons v (of_list vs)

  pub to_list-of_list : (vs : List (Value F)) → to_list (of_list vs) ≡ vs
  to_list-of_list [] = refl
  to_list-of_list (v ∷ vs) = ap (◌∷◌ v) (to_list-of_list vs)

abbrev pub bool_eq : Bool → Bool → Bool
bool_eq true b = b
bool_eq false true = false
bool_eq false false = true

module _ {F : Type 0} (ops : FloatOps F) where
  -- `a == b` on interface values. `none` is the run-time panic: the dynamic types are equal and
  -- cannot be compared.
  unfoldable pub value_eq : Value F → Value F → Option Bool
  value_eq Value.nil Value.nil = some true
  value_eq (Value.bool a) (Value.bool b) = some (bool_eq a b)
  value_eq (Value.int a) (Value.int b) = some (a == b)
  value_eq (Value.float a) (Value.float b) = some (ops.eq a b)
  value_eq (Value.text a) (Value.text b) = some (ite (string_dec a b) true false)
  value_eq (Value.texts a) (Value.texts b) = none
  value_eq (Value.arr a) (Value.arr b) = none
  value_eq (Value.obj a) (Value.obj b) = none
  value_eq _ _ = some false

-- Whether a value can be a key of a Go map: hashing any other panics.
unfoldable pub hashable : {F : Type 0} → Value F → Bool
hashable (Value.texts _) = false
hashable (Value.arr _) = false
hashable (Value.obj _) = false
hashable _ = true
