-- ===== src/License/Generate/Tests.antt =====
-- The claims that are generated from concrete parameters.
use kustomer.Common.{
  Any, true, false, ℕ, String, Option, none, some, List, [], ◌∷◌, ◌≡◌, ◌≢◌, refl, arith, All,
  string_dec, string_ne, ap, subst, ite, ◌∙◌, ◌⊎◌,
}
use kustomer.Common.Map.{Map, get, put}
use kustomer.License.{Product, exclusive_claim}
use kustomer.License.Dynamic.{Value}
use kustomer.License.Json.{Json, JsonOps, marshal_product, unmarshal_product}
use kustomer.License.Json.RoundTrip.{CannotWrite, as_read_if}
use kustomer.License.Generate.Parse.{cut_text, parse_int}
use kustomer.License.Generate.{
  GenerateError, GenerateResult, value, crash, Generated, claim_and_type, typed_value, set_claim,
  product_key, set_param, param, all_params, generate_claims,
}
use kustomer.License.Generate.Lists.{Lists, Agrees}
use kustomer.License.Generate.Total.{generate_claims_total}
use kustomer.License.Generate.Shape.{IsTexts, generate_claims-AllProper}
use kustomer.License.Generate.Stored.{claim_of, Sets, generate_claims-stores}

-- No random id but `r`, and no floats.
abbrev no_float : String → Option ℕ
no_float s = none

abbrev random : ℕ → Option String
random n = some "r"

abbrev params : List (String × List String)
params =
    ("dn", "Acme" ∷ [])
    ∷ ("groupware.users:int", "5" ∷ [])
    ∷ ("groupware.exclusive:[]string", "users" ∷ "x" ∷ [])
    ∷ []

abbrev generated : Generated ℕ
generated = record {
  license_file_id = "r";
  display_name = "Acme";
  support_identification_number = "";
  products =
      (
        "groupware",
        some (record {
          license_id = "r";
          unknown = ("users", Value.int 5) ∷ ("exclusive", Value.texts ("users" ∷ "x" ∷ [])) ∷ [];
        }),
      )
      ∷ [];
  drawn = 2;
}

generates : generate_claims no_float random params ≡ value generated
unfolding generate_claims all_params param set_param product_key set_claim typed_value cut_text get
    put string_dec parse_int
generates = refl

-- Floats are numbers, all of them finite.
abbrev json : JsonOps ℕ
json = record { of_int = λ n. n; is_finite = λ x. true }

generate_claims-AllProper_example :
    All
      (λ e.
        (p : Product ℕ) × (e.1 ≡ some p)
        × ((v : Value ℕ) → get exclusive_claim p.unknown ≡ some v → IsTexts v)
        × ((Any (λ c. CannotWrite json c.1) p.unknown × (marshal_product json p ≡ none))
            ⊎ ((members : Map (Json ℕ)) × (q : Product ℕ) × (marshal_product json p ≡ some members)
                × (unmarshal_product json (some members) ≡ some q)
                × (q.license_id ≡ p.license_id)
                × ((k : String) → get k q.unknown ≡ as_read_if json (get k p.unknown)))))
      generated.products
generate_claims-AllProper_example =
    generate_claims-AllProper no_float random json params generated generates

-- The two other parameters do not set the claim `users`.
other_dn : ¬ Sets "groupware" "users" ("dn", "Acme" ∷ [])
unfolding cut_text
other_dn = λ s. ground (arith, s.1)

rest_of : Option (String × String) → String
rest_of none = ""
rest_of (some (name, rest)) = rest

other_exclusive : ¬ Sets "groupware" "users" ("groupware.exclusive:[]string", "users" ∷ "x" ∷ [])
unfolding cut_text claim_and_type string_dec rest_of
other_exclusive = λ (rest, key, c).
    string_ne "exclusive" "users" refl (ap (λ o. (claim_and_type (rest_of o)).0) key ∙ c)

generate_claims-stores_example :
    (v : String) × (others : List String) × (tv : Value ℕ) × (("5" ∷ []) ≡ v ∷ others)
    × ((claim_and_type "users:int").1 ≢ "[]string" → others ≡ [])
    × (typed_value no_float (claim_and_type "users:int").1 none v ("5" ∷ []) ≡ value tv)
    × (claim_of "groupware" (claim_and_type "users:int").0 generated.products ≡ some tv)
unfolding cut_text claim_and_type string_dec
generate_claims-stores_example =
    generate_claims-stores no_float random (("dn", "Acme" ∷ []) ∷ [])
      (("groupware.exclusive:[]string", "users" ∷ "x" ∷ []) ∷ []) "groupware.users:int" ("5" ∷ [])
      "groupware" "users:int" generated generates refl (string_ne "users" "lid" refl)
      (string_ne "users" "" refl) (other_dn, tt) (other_exclusive, tt)

-- One claim of two types: whether there is a panic depends on the order of the map.
two_types :
    generate_claims no_float random (("p.x", "a" ∷ []) ∷ ("p.x:[]string", "b" ∷ []) ∷ []) ≡ crash
unfolding generate_claims all_params param set_param product_key set_claim typed_value cut_text get
    put string_dec
two_types = refl

-- The claim `exclusive` is a list of texts, and no other.
abbrev lists : Lists
lists name claim = ite (string_dec claim "exclusive") true false

KeyAgrees : (rest : String) → Type 0
KeyAgrees rest =
    ite (string_dec (claim_and_type rest).1 "[]string") true false
    ≡ lists "" (claim_and_type rest).0

params_agree : All (Agrees lists) params
unfolding cut_text claim_and_type string_dec rest_of KeyAgrees
params_agree = (
  λ name rest e. absurd (ground (arith, e)),
  (
    λ name rest e. subst KeyAgrees {x = "users:int"} (ap rest_of e) refl,
    (λ name rest e. subst KeyAgrees {x = "exclusive:[]string"} (ap rest_of e) refl, tt),
  ),
)

generate_claims_total_example :
    ((g : Generated ℕ) × (generate_claims no_float random params ≡ value g))
    ⊎ ((e : GenerateError) × (generate_claims no_float random params ≡ GenerateResult.error e))
generate_claims_total_example =
    generate_claims_total lists no_float random params
      (
        λ e. absurd (ground (arith, e)),
        (λ e. absurd (ground (arith, e)), (λ e. absurd (ground (arith, e)), tt)),
      )
      params_agree
