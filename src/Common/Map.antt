-- ===== src/Common/Map.antt =====
-- Go maps with string keys, as association lists. The order of the list stands for an order in
-- which Go may iterate.
use Prim.Native.String.{String}
use mathlib.Core.Path.{◌≡◌, refl, sym, ◌∙◌, subst}
use mathlib.Core.Logic.{◌≢◌, ite, if_pos, if_neg}
use mathlib.Core.Bool.{Bool, true, false}
use mathlib.Core.Option.{Option, none, some}
use mathlib.Core.List.{List, [], ◌∷◌}
use native.Mathlib.Omega.{arith}
use kustomer.Common.Lists.{All, All-imp}
use kustomer.Common.Tests.{string_dec}

abbrev pub Map {ℓ} : Type ℓ → Type ℓ
Map V = List (String × V)

module _ {ℓ} {V : Type ℓ} where
  -- `v, ok := m[k]`
  unfoldable pub get : String → Map V → Option V
  get k [] = none
  get k ((j, v) ∷ m) = ite (string_dec j k) (some v) (get k m)

  -- `m[k] = v`
  unfoldable pub put : String → V → Map V → Map V
  put k v [] = (k, v) ∷ []
  put k v ((j, w) ∷ m) = ite (string_dec j k) ((j, v) ∷ m) ((j, w) ∷ put k v m)

  -- `delete(m, k)`
  unfoldable pub remove : String → Map V → Map V
  remove k [] = []
  remove k ((j, w) ∷ m) = ite (string_dec j k) (remove k m) ((j, w) ∷ remove k m)

  -- `_, ok := m[k]`
  abbrev pub has : String → Map V → Bool
  has k m = elim (get k m) [ none ↦ false | some _ ↦ true ]

  pub get-cons_self : (k : String) (v : V) (m : Map V) → get k ((k, v) ∷ m) ≡ some v
  unfolding get
  get-cons_self k v m = if_pos (string_dec k k) refl _ _

  get-cons_old :
      (k : String) (v : V) (m : Map V)
      → get k m ≡ none
      → (e : String × V) → get e.0 m ≡ some e.1
      → get e.0 ((k, v) ∷ m) ≡ some e.1
  unfolding get
  get-cons_old k v m fresh e h = ground arith

  pub get-put :
      (j k : String) (v : V) (m : Map V)
      → get j (put k v m) ≡ ite (string_dec k j) (some v) (get j m)
  unfolding get put
  get-put j k v [] = refl
  get-put j k v ((i, w) ∷ m) = ground (arith, get-put j k v m)

  pub get-put_self : (k : String) (v : V) (m : Map V) → get k (put k v m) ≡ some v
  get-put_self k v m = rw (get-put k k v m) (if_pos (string_dec k k) refl _ _)

  pub get-put_ne : (j k : String) (v : V) (m : Map V) → k ≢ j → get j (put k v m) ≡ get j m
  get-put_ne j k v m h = rw (get-put j k v m) (if_neg (string_dec k j) h _ _)

  pub get-remove :
      (j k : String) (m : Map V) → get j (remove k m) ≡ ite (string_dec k j) none (get j m)
  unfolding get remove
  get-remove j k [] = ground arith
  get-remove j k ((i, w) ∷ m) = ground (arith, get-remove j k m)

  -- No key occurs twice.
  abbrev pub Distinct : Map V → Type ℓ
  Distinct [] = Unit
  Distinct ((k, v) ∷ m) = (get k m ≡ none) × Distinct m

  -- What holds of every entry holds after a write, if it holds of what is written.
  pub All-put {κ} :
      (P : String × V → Type κ) (k : String) (v : V) (m : Map V)
      → P (k, v)
      → All P m
      → All P (put k v m)
  unfolding put
  All-put P k v [] p h = (p, tt)
  All-put P k v ((j, w) ∷ m) p h = elim (string_dec j k) [
    | yes e ↦ rw (if_pos _ e) (rw (sym e) at p, h.1)
    | no e ↦ rw (if_neg _ e) (h.0, All-put P k v m p h.1)
  ]

  -- Where no key occurs twice, every entry is what its key is mapped to.
  pub All-get : (m : Map V) → Distinct m → All (λ e. get e.0 m ≡ some e.1) m
  All-get [] d = tt
  All-get ((k, v) ∷ m) (fresh, d) =
      (get-cons_self k v m, All-imp _ _ (λ e h. get-cons_old k v m fresh e h) m (All-get m d))

  pub All-remove {κ} :
      (P : String × V → Type κ) (k : String) (m : Map V) → All P m → All P (remove k m)
  unfolding remove
  All-remove P k [] h = tt
  All-remove P k ((j, w) ∷ m) h = elim (string_dec j k) [
    | yes e ↦ rw (if_pos _ e) (All-remove P k m h.1)
    | no e ↦ rw (if_neg _ e) (h.0, All-remove P k m h.1)
  ]

  -- What holds of every entry holds of what a key is mapped to.
  pub All-at {κ} :
      (P : V → Type κ) (k : String) (v : V) (m : Map V)
      → All (λ e. P e.1) m
      → get k m ≡ some v
      → P v
  unfolding get
  All-at P k v [] h e = cc
  All-at P k v ((j, w) ∷ m) h e = elim (string_dec j k) [
    | yes p ↦ subst P (ground arith) h.0
    | no p ↦ All-at P k v m h.1 (ground arith)
  ]

  pub put-Distinct : (k : String) (v : V) (m : Map V) → Distinct m → Distinct (put k v m)
  unfolding put get
  put-Distinct k v [] d = (refl, tt)
  put-Distinct k v ((j, w) ∷ m) (fresh, d) = elim (string_dec j k) [
    | yes e ↦ rw (if_pos _ e) (fresh, d)
    | no e ↦ rw (if_neg _ e) (get-put_ne j k v m (λ s. e (sym s)) ∙ fresh, put-Distinct k v m d)
  ]
