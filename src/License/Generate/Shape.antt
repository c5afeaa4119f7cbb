-- ===== src/License/Generate/Shape.antt =====
-- The products that `GenerateClaims` makes (license/claims-gen.go), and what is read back of them.
use kustomer.Common.{
  Any, ◌⊎◌, ite, ℕ, String, Bool, false, Option, none, some, List, [], ◌∷◌, ◌≡◌, refl, subst, arith,
  All, All-imp, inl, inr, if_neg, string_dec, Option-cases, ◌∙◌, ◌++◌,
}
use kustomer.Common.Map.{Map, get, get-put, All-put, All-at}
use kustomer.License.{Product, ProductSet, exclusive_claim}
use kustomer.License.Dynamic.{Value}
use kustomer.License.Json.{Json, JsonOps, marshal_product, unmarshal_product}
use kustomer.License.Json.RoundTrip.{IsFlat, CannotWrite, as_read_if, marshal_product_read}
use kustomer.License.Generate.{
  value, parse_int, parse_bool, GenerateResult, GenerateError, or_error, mapped, Generated,
  wrong_exclusive, add_texts, typed_value, param, all_params, from_uid, generate_claims,
}
use kustomer.License.Generate.Step.{>>=-eq-value, SetClaim, Before, KeyStep, Round, param-Round}

abbrev pub IsTexts : {F : Type 0} → Value F → Type 0
IsTexts (Value.texts _) = Unit
IsTexts _ = ⊥

-- No claim is named `lid`, an `exclusive` claim is a list of texts, and all claims are flat.
pub record IsProper {F : Type 0} (p : Product F) : Type 0 where
  pub no_lid_claim : get "lid" p.unknown ≡ none
  pub exclusive_texts : (v : Value F) → get exclusive_claim p.unknown ≡ some v → IsTexts v
  pub flat : All (λ e. IsFlat e.1) p.unknown

abbrev pub AllProper : {F : Type 0} → ProductSet F → Type 0
AllProper = All (λ e. (p : Product _) × (e.1 ≡ some p) × IsProper p)

module _ {F : Type 0} (parse_float : String → Option F) where
  pub typed_value-IsTexts :
      (old : Option (Value F)) (v : String) (values : List String) (tv : Value F)
      → typed_value parse_float "[]string" old v values ≡ value tv
      → IsTexts tv
  unfolding typed_value add_texts string_dec
  typed_value-IsTexts none v values tv e = subst IsTexts {x = Value.texts values} (ground arith) tt
  typed_value-IsTexts (some (Value.texts old)) v values tv e =
      subst IsTexts {x = Value.texts (old ++ values)} (ground arith) tt
  typed_value-IsTexts (some Value.nil) v values tv e = cc
  typed_value-IsTexts (some (Value.bool _)) v values tv e = cc
  typed_value-IsTexts (some (Value.int _)) v values tv e = cc
  typed_value-IsTexts (some (Value.float _)) v values tv e = cc
  typed_value-IsTexts (some (Value.text _)) v values tv e = cc
  typed_value-IsTexts (some (Value.arr _)) v values tv e = cc
  typed_value-IsTexts (some (Value.obj _)) v values tv e = cc

  abbrev FlatResult : GenerateResult (Value F) → Type 0
  FlatResult (GenerateResult.value v) = IsFlat v
  FlatResult _ = Unit

  ite-FlatResult :
      {P : Type 0} (d : Dec P) (a b : GenerateResult (Value F))
      → FlatResult a
      → FlatResult b
      → FlatResult (ite d a b)
  ite-FlatResult (yes p) a b h k = h
  ite-FlatResult (no p) a b h k = k

  mapped-FlatResult :
      {A : Type 0} (e : GenerateError) (f : A → Value F) (o : Option A)
      → ((x : A) → IsFlat (f x))
      → FlatResult (or_error parse_float e (mapped parse_float f o))
  unfolding or_error mapped
  mapped-FlatResult e f none h = tt
  mapped-FlatResult e f (some x) h = h x

  add_texts-FlatResult :
      (old : Option (Value F)) (values : List String)
      → FlatResult (add_texts parse_float old values)
  unfolding add_texts
  add_texts-FlatResult none values = tt
  add_texts-FlatResult (some Value.nil) values = tt
  add_texts-FlatResult (some (Value.bool _)) values = tt
  add_texts-FlatResult (some (Value.int _)) values = tt
  add_texts-FlatResult (some (Value.float _)) values = tt
  add_texts-FlatResult (some (Value.text _)) values = tt
  add_texts-FlatResult (some (Value.texts _)) values = tt
  add_texts-FlatResult (some (Value.arr _)) values = tt
  add_texts-FlatResult (some (Value.obj _)) values = tt

  typed_value-FlatResult :
      (t : String) (old : Option (Value F)) (v : String) (values : List String)
      → FlatResult (typed_value parse_float t old v values)
  unfolding typed_value
  typed_value-FlatResult t old v values =
      ite-FlatResult (string_dec t "int") _ _
        (mapped-FlatResult GenerateError.bad_int Value.int (parse_int v) (λ x. tt))
        (ite-FlatResult (string_dec t "bool") _ _
          (mapped-FlatResult GenerateError.bad_bool Value.bool (parse_bool v) (λ x. tt))
          (ite-FlatResult (string_dec t "float") _ _
            (mapped-FlatResult GenerateError.bad_float Value.float (parse_float v) (λ x. tt))
            (ite-FlatResult (string_dec t "[]string") _ _ (add_texts-FlatResult old values) tt)))

  set_claim-IsProper :
      (p q : Product F) (claim t v : String) (values : List String) (multi : Bool)
      → wrong_exclusive claim t ≡ false
      → SetClaim parse_float p claim t v values q multi
      → IsProper p
      → IsProper q
  unfolding wrong_exclusive
  set_claim-IsProper p q claim t v values multi right (SetClaim.kept _ same _) h = record {
    no_lid_claim = rw same h.no_lid_claim;
    exclusive_texts = λ w g. h.exclusive_texts w (rw same at g);
    flat = rw same h.flat;
  }
  set_claim-IsProper p q claim t v values multi right (SetClaim.stored tv c d typed same _) h =
      record {
        no_lid_claim =
            rw (same, get-put "lid" claim tv p.unknown)
              (if_neg (string_dec claim "lid") c _ _ ∙ h.no_lid_claim);
        exclusive_texts = λ w g. elim (string_dec claim exclusive_claim) [
          | yes x ↦
              let is_list : t ≡ "[]string" = ground arith in
              subst IsTexts {x = tv} (ground (arith, get-put exclusive_claim claim tv p.unknown))
                (typed_value-IsTexts (get claim p.unknown) v values tv (rw is_list at typed))
          | no n ↦ h.exclusive_texts w (ground (arith, get-put exclusive_claim claim tv p.unknown))
        ];
        flat = rw same (
            All-put (λ e. IsFlat e.1) claim tv p.unknown
              (subst FlatResult typed (typed_value-FlatResult t (get claim p.unknown) v values))
              h.flat);
      }

  before-IsProper :
      (g : Generated F) (name : String) (p : Product F)
      → AllProper g.products
      → Before g name p
      → IsProper p
  unfolding get
  before-IsProper g name p h (Before.known e) =
      let (q, same, proper) =
        All-at (λ o. (q : Product F) × (o ≡ some q) × IsProper q) name (some p) g.products h e in
      subst IsProper {x = q} (ground arith) proper
  before-IsProper g name p h (Before.new e nothing) = record {
    no_lid_claim = rw nothing refl;
    exclusive_texts = λ v x. absurd (ground (arith, rw nothing at x));
    flat = rw nothing tt;
  }

  key-IsProper :
      (g g' : Generated F) (k v : String) (values : List String) (multi : Bool)
      → KeyStep parse_float g k v values g' multi
      → AllProper g.products
      → AllProper g'.products
  key-IsProper g g' k v values multi s h =
      let old = before-IsProper g s.name s.old h s.before in
      rw s.products (
        All-put _ s.name (some s.new) g.products
          (s.new, refl, set_claim-IsProper s.old s.new _ _ v values multi s.right s.claim old) h)

  module _ (uuids : ℕ → Option String) where
    Round-IsProper :
        (g g' : Generated F) (k v : String) (values : List String) (multi : Bool)
        → Round parse_float uuids g k v values g' multi
        → AllProper g.products
        → AllProper g'.products
    Round-IsProper g g' k v values multi (Round.uid _ e _) h = rw e h
    Round-IsProper g g' k v values multi (Round.dn _ e _) h = rw e h
    Round-IsProper g g' k v values multi (Round.sin _ e _) h = rw e h
    Round-IsProper g g' k v values multi (Round.key s) h = key-IsProper g g' k v values multi s h

    all_params-IsProper :
        (g g' : Generated F) (ps : List (String × List String))
        → all_params parse_float uuids g ps ≡ value g'
        → AllProper g.products
        → AllProper g'.products
    unfolding all_params
    all_params-IsProper g g' [] e h = subst AllProper {x = g.products} (ground arith) h
    all_params-IsProper g g' ((k, values) ∷ ps) e h =
        let (g1, first, e1) = >>=-eq-value (param parse_float uuids g (k, values)) _ e in
        let (v, rest, multi, _, _, step) = param-Round parse_float uuids g g1 k values first in
        all_params-IsProper g1 g' ps e1 (Round-IsProper g g1 k v values multi step h)

    -- If `GenerateClaims` succeeds, each product of its claims is there, and its claim `exclusive`,
    -- if it has one, is a list of texts. The product cannot be written as JSON only if one of its
    -- claims is an infinite float or NaN. Otherwise it is written and can be read, and has then the
    -- same license id and the claims that JSON makes of its own: an int64 is read as a float64, a
    -- list of texts as an array of texts, and any other value as itself.
    pub generate_claims-AllProper :
        (json : JsonOps F) (ps : List (String × List String)) (g : Generated F)
        → generate_claims parse_float uuids ps ≡ value g
        → All
            (λ e.
              (p : Product F) × (e.1 ≡ some p)
              × ((v : Value F) → get exclusive_claim p.unknown ≡ some v → IsTexts v)
              × ((Any (λ c. CannotWrite json c.1) p.unknown × (marshal_product json p ≡ none))
                  ⊎ ((members : Map (Json F)) × (q : Product F) × (marshal_product json p
                        ≡ some members)
                      × (unmarshal_product json (some members) ≡ some q)
                      × (q.license_id ≡ p.license_id)
                      × ((k : String) → get k q.unknown ≡ as_read_if json (get k p.unknown)))))
            g.products
    unfolding generate_claims from_uid
    generate_claims-AllProper json ps g e = elim (Option-cases (uuids 0)) [
      | inl n ↦ absurd (ground arith)
      | inr (uid, n) ↦
          All-imp _ _
            (λ x h.
              let (p, same, proper) = h in
              (
                p,
                same,
                proper.exclusive_texts,
                marshal_product_read json p proper.no_lid_claim proper.flat,
              ))
            g.products (all_params-IsProper _ g ps (rw n at e) tt)
    ]
