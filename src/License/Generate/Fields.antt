-- ===== src/License/Generate/Fields.antt =====
-- The fields of the claims that `GenerateClaims` makes (license/claims-gen.go).
use kustomer.Common.{
  ℕ, String, Bool, Option, none, some, List, [], ◌∷◌, ◌≡◌, refl, sym, arith, if_pos, if_neg,
  string_dec, Option-cases, ◌∙◌, ap, ite, inl, inr,
}
use kustomer.Common.Map.{get, Distinct}
use kustomer.License.Generate.{value, Generated, param, all_params, from_uid, generate_claims}
use kustomer.License.Generate.Step.{>>=-eq-value, Round, param-Round}

abbrev pub first_of : String → Option (List String) → String
first_of otherwise (some (v ∷ _)) = v
first_of otherwise (some []) = otherwise
first_of otherwise none = otherwise

-- The first value of a parameter, if it is there.
abbrev pub first_value : String → List (String × List String) → String → String
first_value k ps otherwise = first_of otherwise (get k ps)

first_value-later :
    (k j v otherwise : String) (rest : List String) (ps : List (String × List String))
    → get j ps ≡ none
    → first_value k ps (ite (string_dec j k) v otherwise)
      ≡ first_value k ((j, v ∷ rest) ∷ ps) otherwise
unfolding get
first_value-later k j v otherwise rest ps fresh = elim (string_dec j k) [
  | yes e ↦
      ap (first_of _) (rw e at fresh)
      ∙ if_pos (string_dec j k) e v otherwise
      ∙ sym (ap (first_of otherwise) (if_pos (string_dec j k) e (some (v ∷ rest)) (get k ps)))
  | no n ↦
      ap (λ x. first_of x (get k ps)) (if_neg (string_dec j k) n v otherwise)
      ∙ sym (ap (first_of otherwise) (if_neg (string_dec j k) n (some (v ∷ rest)) (get k ps)))
]

module _ {F : Type 0} (parse_float : String → Option F) (uuids : ℕ → Option String) where
  Round-fields :
      (g g' : Generated F) (k v : String) (values : List String) (multi : Bool)
      → Round parse_float uuids g k v values g' multi
      → (g'.license_file_id ≡ ite (string_dec k "uid") v g.license_file_id)
        × (g'.display_name ≡ ite (string_dec k "dn") v g.display_name)
        × (g'.support_identification_number
            ≡ ite (string_dec k "sin") v g.support_identification_number)
  unfolding string_dec
  Round-fields g g' k v values multi (Round.uid c e _) = rw (c, e) (refl, refl, refl)
  Round-fields g g' k v values multi (Round.dn c e _) = rw (c, e) (refl, refl, refl)
  Round-fields g g' k v values multi (Round.sin c e _) = rw (c, e) (refl, refl, refl)
  Round-fields g g' k v values multi (Round.key s) =
      let (a, b, c) = s.not_field in
      (
        s.fields.0 ∙ sym (if_neg (string_dec k "uid") a v _),
        s.fields.1 ∙ sym (if_neg (string_dec k "dn") b v _),
        s.fields.2 ∙ sym (if_neg (string_dec k "sin") c v _),
      )

  all_params_fields :
      (g g' : Generated F) (ps : List (String × List String))
      → Distinct ps
      → all_params parse_float uuids g ps ≡ value g'
      → (g'.license_file_id ≡ first_value "uid" ps g.license_file_id)
        × (g'.display_name ≡ first_value "dn" ps g.display_name)
        × (g'.support_identification_number ≡ first_value "sin" ps g.support_identification_number)
  unfolding all_params get
  all_params_fields g g' [] d e = (ground arith, ground arith, ground arith)
  all_params_fields g g' ((k, values) ∷ ps) (fresh, d) e =
      let (g1, first, e1) = >>=-eq-value (param parse_float uuids g (k, values)) _ e in
      let (v, rest, multi, shape, _, step) = param-Round parse_float uuids g g1 k values first in
      let (a, b, c) = Round-fields g g1 k v values multi step in
      let (x, y, z) = all_params_fields g1 g' ps d e1 in
      rw shape (
        x ∙ ap (first_value "uid" ps) a ∙ first_value-later "uid" k v _ rest ps fresh,
        y ∙ ap (first_value "dn" ps) b ∙ first_value-later "dn" k v _ rest ps fresh,
        z ∙ ap (first_value "sin" ps) c ∙ first_value-later "sin" k v _ rest ps fresh,
      )

  -- If `GenerateClaims` succeeds for parameters no two of which have one key: the license file id
  -- is the first value of `uid` or else the first random id, and the display name and the support
  -- number are the first values of `dn` and `sin` or else empty.
  pub generate_claims-fields :
      (ps : List (String × List String)) (g : Generated F)
      → Distinct ps
      → generate_claims parse_float uuids ps ≡ value g
      → (random : String) × (uuids 0 ≡ some random)
        × (g.license_file_id ≡ first_value "uid" ps random)
        × (g.display_name ≡ first_value "dn" ps "")
        × (g.support_identification_number ≡ first_value "sin" ps "")
  unfolding generate_claims from_uid
  generate_claims-fields ps g d e = elim (Option-cases (uuids 0)) [
    | inl n ↦ absurd (ground arith)
    | inr (uid, n) ↦ let (a, b, c) = all_params_fields _ g ps d (rw n at e) in (uid, n, a, b, c)
  ]
