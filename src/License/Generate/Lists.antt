-- ===== src/License/Generate/Lists.antt =====
-- Which claims of the products that `GenerateClaims` makes (license/claims-gen.go) are lists.
use kustomer.Common.{
  ℕ, String, Bool, true, false, Option, some, List, ◌≡◌, sym, subst, arith, string_dec, ◌∙◌, ap,
  ite,
}
use kustomer.Common.Map.{get, get-put}
use kustomer.License.{Product, ProductSet}
use kustomer.License.Dynamic.{Value}
use kustomer.License.Generate.Parse.{cut_text}
use kustomer.License.Generate.{Generated, claim_and_type}
use kustomer.License.Generate.Step.{SetClaim, Before, KeyStep, Round}
use kustomer.License.Generate.Shape.{IsTexts, typed_value-IsTexts}

-- Which claims of which products are lists of texts.
abbrev pub Lists : Type 0
Lists = String → String → Bool

-- The type of a key is `[]string` just where its claim is such a list.
abbrev pub Agrees : Lists → String × List String → Type 0
Agrees lists p =
    (name rest : String)
    → cut_text 46 p.0 ≡ some (name, rest)
    → ite (string_dec (claim_and_type rest).1 "[]string") true false
      ≡ lists name (claim_and_type rest).0

module _ {F : Type 0} (lists : Lists) where
  abbrev pub HasLists : String → Product F → Type 0
  HasLists name p =
      (claim : String) (v : Value F)
      → get claim p.unknown ≡ some v
      → lists name claim ≡ true
      → IsTexts v

  abbrev pub AllHaveLists : ProductSet F → Type 0
  AllHaveLists products =
      (name : String) (o : Option (Product F))
      → get name products ≡ some o
      → (p : Product F) × (o ≡ some p) × HasLists name p

  module _ (parse_float : String → Option F) where
    set_claim-HasLists :
        (name claim t v : String) (values : List String) (p q : Product F) (multi : Bool)
        → ite (string_dec t "[]string") true false ≡ lists name claim
        → SetClaim parse_float p claim t v values q multi
        → HasLists name p
        → HasLists name q
    set_claim-HasLists name claim t v values p q multi agrees (SetClaim.kept _ same _) h =
        λ c w g l. h c w (rw same at g) l
    set_claim-HasLists name claim t v values p q multi agrees (SetClaim.stored tv _ _ typed same _)
          h =
        λ c w g l. elim (string_dec claim c) [
          | yes x ↦
              let is_list : t ≡ "[]string" = ground (arith, agrees, l, x) in
              subst IsTexts {x = tv} (ground (arith, get-put c claim tv p.unknown)) (
                typed_value-IsTexts parse_float (get claim p.unknown) v values tv
                  (rw is_list at typed))
          | no n ↦ h c w (ground (arith, get-put c claim tv p.unknown)) l
        ]

    pub before-HasLists :
        (g : Generated F) (name : String) (p : Product F)
        → AllHaveLists g.products
        → Before g name p
        → HasLists name p
    unfolding get
    before-HasLists g name p h (Before.known e) =
        let (q, same, has) = h name (some p) e in
        subst (HasLists name) {x = q} {y = p} (ground arith) has
    before-HasLists g name p h (Before.new e nothing) =
        λ c v x l. absurd (ground (arith, rw nothing at x))

    key-AllHaveLists :
        (g g' : Generated F) (k v : String) (values : List String) (multi : Bool)
        → Agrees lists (k, values)
        → KeyStep parse_float g k v values g' multi
        → AllHaveLists g.products
        → AllHaveLists g'.products
    key-AllHaveLists g g' k v values multi agrees s h = λ name o e.
        let e' = sym (ap (get name) s.products ∙ get-put name s.name (some s.new) g.products) ∙ e in
        elim (string_dec s.name name) [
          | yes x ↦ (
            s.new,
            ground (arith, e'),
            subst (λ n. HasLists n s.new) {x = s.name} x
                (set_claim-HasLists s.name _ _ v values s.old s.new multi
                  (agrees s.name s.rest s.key) s.claim (before-HasLists g s.name s.old h s.before)),
          )
          | no n ↦ h name o (ground (arith, e'))
        ]

    module _ (uuids : ℕ → Option String) where
      pub Round-AllHaveLists :
          (g g' : Generated F) (k v : String) (values : List String) (multi : Bool)
          → Agrees lists (k, values)
          → Round parse_float uuids g k v values g' multi
          → AllHaveLists g.products
          → AllHaveLists g'.products
      Round-AllHaveLists g g' k v values multi agrees (Round.uid _ e _) h = rw e h
      Round-AllHaveLists g g' k v values multi agrees (Round.dn _ e _) h = rw e h
      Round-AllHaveLists g g' k v values multi agrees (Round.sin _ e _) h = rw e h
      Round-AllHaveLists g g' k v values multi agrees (Round.key s) h =
          key-AllHaveLists g g' k v values multi agrees s h
