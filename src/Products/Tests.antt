-- ===== src/Products/Tests.antt =====
-- The theorems on the products endpoint at concrete licenses.
use kustomer.Common.{
  ℕ, ◌+◌, String, Bool, true, false, Option, none, some, List, [], ◌∷◌, ◌≡◌, ◌≢◌, ◌↔◌, refl, sym,
  ite, arith, subst, ◌==◌, All, Any, string_dec,
}
use kustomer.Common.Map.{Map, get, put}
use kustomer.Common.Panic.{IsOk, ok, each}
use kustomer.License.{JwtClaims, Product, Claims, exclusive_claim}
use kustomer.License.Dynamic.{Value, end, cons, FloatOps, value_eq, hashable}
use kustomer.Server.State.{Server}
use kustomer.Server.ReloadRequest.{Ucred}
use kustomer.Products.Merge.{union, merge_claim, merge_float}
use kustomer.Products.Merge.Union.{IsHashable, union-IsOk_iff}
use kustomer.Products.Entry.{
  Entry, new_entry, flagged, check_claim, aggregate_claim, pin_claims, accept, add_product,
}
use kustomer.Products.Entry.Aggregate.{aggregates_order}
use kustomer.Products.Entry.Aggregated.{Aggregated, get-Aggregated}
use kustomer.Products.Entry.Decoded.{add_product-IsDecoded}
use kustomer.Products.Answer.{
  is_requested, entry_of, add_if_requested, add_claim, products_of, Wait, Reply,
  claims_kopano_products_handler,
}
use kustomer.Products.Answer.Entries.{AllEntries, AllProducts}
use kustomer.Products.Answer.Offered.{Offers, products_of_iff}
use kustomer.Products.Answer.Total.{IsPlainProduct, claims_kopano_products_handler_total}

-- Floats of whole numbers.
abbrev ops : FloatOps ℕ
ops = record { add = λ a b. a + b; eq = λ a b. a == b }

abbrev holds : Option Bool → Bool
holds (some true) = true
holds _ = false

abbrev cmp : Value ℕ → Value ℕ → Bool
cmp a b = holds (value_eq ops a b)

abbrev jwt : JwtClaims
jwt = record {
  issuer = "kopano";
  subject = "acme";
  audience = [];
  expiry = some 200;
  not_before = none;
  issued_at = some 100;
  id = "1";
}

abbrev license_with : Map (Value ℕ) → Claims ℕ
license_with unknown = record {
  claims = jwt;
  license_file_name = "a.license";
  license_id = "1";
  raw = [];
  license_file_id = "u";
  display_name = "Acme";
  support_identification_number = "";
  kopano = record {
    version = 0;
    products = some (("groupware", some (record { license_id = "p"; unknown = unknown })) ∷ []);
  };
}

abbrev product_with : Map (Value ℕ) → Product ℕ
product_with unknown = record { license_id = "p"; unknown = unknown }

abbrev conflicting : Map (Value ℕ)
conflicting = ("trial", Value.bool false) ∷ ("users", Value.float 5) ∷ []

-- What JSON gives for the flags, and a plain license.
abbrev decoded : Map (Value ℕ)
decoded = ("exclusive", Value.arr (cons (Value.text "trial") end)) ∷ ("trial", Value.bool true) ∷ []

abbrev plain : Map (Value ℕ)
plain = ("users", Value.float 5) ∷ ("sites", Value.arr (cons (Value.text "x") end)) ∷ []

abbrev plain_entry : Entry ℕ
plain_entry = record {
  success = true;
  claims = plain;
  expiry = some 200 ∷ [];
  display_name = "Acme" ∷ [];
  support_identification_number = [];
  exclusive_claims = [];
}

abbrev server : List (Claims ℕ) → Server ℕ Unit
server claims = record {
  license_path = "/etc/kopano";
  listen_path = "/run/kustomerd";
  sub = "";
  insecure = false;
  trusted = true;
  offline = 3;
  offline_threshold = 3;
  jwks = none;
  ready = true;
  update_ch = 1;
  claims = claims;
}

ne : (s t : String) → ite (string_dec s t) true false ≡ false → s ≢ t
ne s t h e = ground arith

some_inj : {A : Type 0} {x y : A} → Option.some x ≡ some y → x ≡ y
some_inj h = cc

of_license :
    (P : Option (Product ℕ) → Type 0) (unknown : Map (Value ℕ))
    → P (some (product_with unknown))
    → AllProducts P (license_with unknown)
of_license P unknown p named e = subst (All (λ x. P x.1)) (some_inj e) (p, tt)

abbrev answer : Entry ℕ → Map (Entry ℕ)
answer e = ("groupware", e) ∷ []

products_of_iff_example :
    (get "groupware" (answer plain_entry) ≢ none)
    ↔ Any
        (λ claim.
          (is_requested (some ("groupware" ∷ [])) "groupware" ≡ true) × Offers "groupware" claim)
        (license_with plain ∷ [])
unfolding products_of get string_dec each add_claim add_if_requested is_requested add_product
    flagged check_claim entry_of new_entry accept aggregate_claim put pin_claims value_eq
products_of_iff_example =
    products_of_iff ops cmp (some ("groupware" ∷ [])) "groupware" (license_with plain ∷ [])
      (answer plain_entry) refl

abbrev no_credentials : Option (Option Ucred)
no_credentials = none

not_nil : no_credentials ≢ some none
not_nil h = cc

claims_kopano_products_handler_total_example :
    (products : Map (Entry ℕ)) × (claims_kopano_products_handler ops cmp
        (server (license_with plain ∷ []))
        (record { parses = true; product = none; credentials = no_credentials })
        Wait.ready
      ≡ Reply.answered (record { trusted = true; offline = true; products = products }))
    × AllEntries (λ e. e.exclusive_claims ≡ []) products
unfolding get string_dec hashable
claims_kopano_products_handler_total_example =
    claims_kopano_products_handler_total ops cmp (server (license_with plain ∷ []))
      (record { parses = true; product = none; credentials = no_credentials })
      (of_license IsPlainProduct plain (tt, ((refl, tt), tt)), tt) refl not_nil

abbrev reversed : Map (Value ℕ)
reversed = ("users", Value.float 5) ∷ ("trial", Value.bool false) ∷ []

same_get : (k : String) → get k conflicting ≡ get k reversed
unfolding get string_dec
same_get k = elim (string_dec "trial" k) [ yes e ↦ rw (sym e) refl | no n ↦ ground arith ]

abbrev summed : Map (Value ℕ)
summed =
    ("users", Value.float 10)
    ∷ ("sites", Value.arr (cons (Value.text "x") end))
    ∷ ("trial", Value.bool false)
    ∷ []

get-Aggregated_example :
    Aggregated ops cmp (get "users" plain) (get "users" conflicting) (get "users" summed)
unfolding get each string_dec aggregate_claim merge_claim put merge_float
get-Aggregated_example =
    get-Aggregated ops cmp conflicting plain summed "users" (refl, (refl, tt)) refl (ne _ _ refl)

aggregates_order_example :
    (after' : Map (Value ℕ)) × (each (aggregate_claim ops cmp) plain reversed ≡ ok after')
    × ((k : String) → k ≢ exclusive_claim → get k summed ≡ get k after')
unfolding get each string_dec aggregate_claim merge_claim put merge_float
aggregates_order_example =
    aggregates_order ops cmp conflicting reversed plain summed (refl, (refl, tt)) (refl, (refl, tt))
      same_get refl

add_product-IsDecoded_example :
    (get exclusive_claim decoded ≢ none → plain_entry ≡ plain_entry)
    × (plain_entry.exclusive_claims ≡ [])
unfolding add_product get flagged string_dec
add_product-IsDecoded_example =
    add_product-IsDecoded ops cmp (license_with decoded) (product_with decoded) plain_entry refl
      plain_entry (tt, (tt, tt)) refl

union-IsOk_iff_example :
    IsOk (union ops [] (Value.arr end ∷ []))
    ↔ (All (IsHashable {F = ℕ}) [] × All (IsHashable {F = ℕ}) (Value.arr end ∷ []))
union-IsOk_iff_example = union-IsOk_iff ops [] (Value.arr end ∷ [])
