-- ===== src/Loader/Dedupe/Calls.antt =====
-- The calls of the hooks at the end of `sortAndDeduplicate` (licenses.go).
use kustomer.Common.{
  String, Bool, true, false, not, Option, none, some, List, [], ◌∷◌, ◌++◌, ◌≡◌, refl, inl, inr,
  arith, Option-cases, string_dec, ite, ◌||◌, ◌&&◌, All,
}
use kustomer.Common.Map.{Map, get, has, Distinct}
use kustomer.License.{Claims}
use kustomer.Loader.Dedupe.{
  Hook, on_activate, on_remove, on_new, on_skip, removals, kept, new_hook, additions,
}

-- `added[k]`, where a missing key is false
abbrev pub is_true : Option Bool → Bool
is_true none = false
is_true (some b) = b

module _ {F : Type 0} where
  -- Whether `OnNew` is called for a license with the license id `k`.
  abbrev pub calls_new : String → List (Hook F) → Bool
  calls_new k [] = false
  calls_new k (on_new c ∷ hooks) = ite (string_dec c.license_id k) true (calls_new k hooks)
  calls_new k (_ ∷ hooks) = calls_new k hooks

  -- Whether `OnRemove` is called for a license with the license id `k`.
  abbrev pub calls_remove : String → List (Hook F) → Bool
  calls_remove k [] = false
  calls_remove k (on_remove c ∷ hooks) = ite (string_dec c.license_id k) true (calls_remove k hooks)
  calls_remove k (_ ∷ hooks) = calls_remove k hooks

  pub calls_new-append :
      (k : String) (xs ys : List (Hook F))
      → calls_new k (xs ++ ys) ≡ (calls_new k xs || calls_new k ys)
  calls_new-append k [] ys = refl
  calls_new-append k (on_new c ∷ xs) ys = ground (arith, calls_new-append k xs ys)
  calls_new-append k (on_activate c ∷ xs) ys = calls_new-append k xs ys
  calls_new-append k (on_remove c ∷ xs) ys = calls_new-append k xs ys
  calls_new-append k (on_skip c ∷ xs) ys = calls_new-append k xs ys

  pub calls_remove-append :
      (k : String) (xs ys : List (Hook F))
      → calls_remove k (xs ++ ys) ≡ (calls_remove k xs || calls_remove k ys)
  calls_remove-append k [] ys = refl
  calls_remove-append k (on_remove c ∷ xs) ys = ground (arith, calls_remove-append k xs ys)
  calls_remove-append k (on_activate c ∷ xs) ys = calls_remove-append k xs ys
  calls_remove-append k (on_new c ∷ xs) ys = calls_remove-append k xs ys
  calls_remove-append k (on_skip c ∷ xs) ys = calls_remove-append k xs ys

  -- Each entry of the history is kept under its own license id.
  abbrev pub Keyed : Map (Claims F) → Type 0
  Keyed history = All (λ e. e.1.license_id ≡ e.0) history

  -- The license that `all` has for an entry of `added`.
  abbrev pub Known : Map (Claims F) → String × Bool → Type 0
  Known all e = (c : Claims F) × ((get e.0 all ≡ some c) × (c.license_id ≡ e.0))

  pub calls_new-removals :
      (k : String) (added : Map Bool) (history : Map (Claims F))
      → calls_new k (removals added history) ≡ false
  unfolding removals
  calls_new-removals k added [] = refl
  calls_new-removals k added ((i, c) ∷ history) = ground (arith, calls_new-removals k added history)

  calls_remove-new_hook :
      (k : String) (all : Map (Claims F)) (i : String) (v : Bool)
      → calls_remove k (new_hook all i v) ≡ false
  unfolding new_hook
  calls_remove-new_hook k all i false = refl
  calls_remove-new_hook k all i true = elim (Option-cases (get i all)) [
    | inl q ↦ ground arith
    | inr (c, q) ↦ ground arith
  ]

  pub calls_remove-additions :
      (k : String) (all : Map (Claims F)) (added : Map Bool)
      → calls_remove k (additions all added) ≡ false
  unfolding additions
  calls_remove-additions k all [] = refl
  calls_remove-additions k all ((i, v) ∷ added) = ground (
    arith,
    calls_remove-append k (new_hook all i v) (additions all added),
    calls_remove-new_hook k all i v,
    calls_remove-additions k all added,
  )

  calls_new-new_hook :
      (k : String) (all : Map (Claims F)) (e : String × Bool)
      → Known all e
      → calls_new k (new_hook all e.0 e.1) ≡ ite (string_dec e.0 k) e.1 false
  unfolding new_hook
  calls_new-new_hook k all (i, false) w = ground arith
  calls_new-new_hook k all (i, true) (c, (g, p)) = ground arith

  pub calls_new-additions :
      (k : String) (all : Map (Claims F)) (added : Map Bool)
      → Distinct added
      → All (Known all) added
      → calls_new k (additions all added) ≡ is_true (get k added)
  unfolding additions get
  calls_new-additions k all [] d w = refl
  calls_new-additions k all ((i, v) ∷ added) d w = ground (
    arith,
    calls_new-append k (new_hook all i v) (additions all added),
    calls_new-new_hook k all (i, v) w.0,
    calls_new-additions k all added d.1 w.1,
  )

  pub calls_remove-removals :
      (k : String) (added : Map Bool) (history : Map (Claims F))
      → Keyed history
      → calls_remove k (removals added history) ≡ (has k history && not (has k added))
  unfolding removals get
  calls_remove-removals k added [] h = refl
  calls_remove-removals k added ((i, c) ∷ history) (p, h) =
      ground (arith, calls_remove-removals k added history h)

  pub has-kept :
      (k : String) (added : Map Bool) (history : Map (Claims F))
      → has k (kept added history) ≡ (has k history && has k added)
  unfolding kept get
  has-kept k added [] = refl
  has-kept k added ((i, c) ∷ history) = ground (arith, has-kept k added history)
