-- ===== src/Common/Panic.antt =====
-- Code that may panic at run time.
use mathlib.Core.Path.{◌≡◌, refl, subst}
use mathlib.Core.List.{List, [], ◌∷◌, ◌++◌}
use mathlib.Core.Logic.{◌↔◌, ◌⊎◌, inl, inr}
use kustomer.Common.Lists.{All, Any}

pub data Run {ℓ} (A : Type ℓ) : Type ℓ where
  ok : A → Run A
  panic : Run A

-- The code does not panic.
abbrev pub IsOk {ℓ} : {A : Type ℓ} → Run A → Type ℓ
IsOk {A} m = (a : A) × (m ≡ ok a)

infixl 5 ◌>>=◌
abbrev pub ◌>>=◌ {ℓ κ} : {A : Type ℓ} {B : Type κ} → Run A → (A → Run B) → Run B
ok a >>= f = f a
panic >>= f = panic

-- A sequence that does not panic has a first part that does not.
pub >>=-eq-ok {ℓ κ} :
    {X : Type ℓ} {Y : Type κ} (run : Run X) (next : X → Run Y) {b : Y}
    → (run >>= next) ≡ ok b
    → (x : X) × (run ≡ ok x) × (next x ≡ ok b)
>>=-eq-ok panic next e = cc
>>=-eq-ok (ok x) next e = (x, refl, e)

Run-cases {ℓ} : {A : Type ℓ} (m : Run A) → ((a : A) × (m ≡ ok a)) ⊎ (m ≡ panic)
Run-cases (ok a) = inl (a, refl)
Run-cases panic = inr refl

-- A loop `for … range xs` over a state, that a panic ends.
module _ {ℓ κ} {A : Type ℓ} {S : Type κ} where
  unfoldable pub each : (S → A → Run S) → S → List A → Run S
  each f s [] = ok s
  each f s (x ∷ xs) = f s x >>= λ s'. each f s' xs

  pub each-append :
      (f : S → A → Run S) (s : S) (xs ys : List A)
      → each f s (xs ++ ys) ≡ (each f s xs >>= λ t. each f t ys)
  unfolding each
  each-append f s [] ys = refl
  each-append f s (x ∷ xs) ys = elim (Run-cases (f s x)) [
    | inl (t, e) ↦ rw e (each-append f t xs ys)
    | inr e ↦ rw e refl
  ]

  -- What every round keeps holds at the end.
  pub each_inv {μ} :
      (P : S → Type μ) (f : S → A → Run S)
      → ((s s' : S) (x : A) → f s x ≡ ok s' → P s → P s')
      → (xs : List A) (s s' : S) → each f s xs ≡ ok s'
      → P s
      → P s'
  unfolding each
  each_inv P f keep [] s s' e h = subst P (cc) h
  each_inv P f keep (x ∷ xs) s s' e h =
      let (t, first, rest) = >>=-eq-ok (f s x) _ e in
      each_inv P f keep xs t s' rest (keep s t x first h)

  -- The same, where the elements satisfy `Q`.
  pub each_inv_all {μ ν} :
      (P : S → Type μ) (Q : A → Type ν) (f : S → A → Run S)
      → ((s s' : S) (x : A) → Q x → f s x ≡ ok s' → P s → P s')
      → (xs : List A) (s s' : S) → All Q xs
      → each f s xs ≡ ok s'
      → P s
      → P s'
  unfolding each
  each_inv_all P Q f keep [] s s' q e h = subst P (cc) h
  each_inv_all P Q f keep (x ∷ xs) s s' q e h =
      let (t, first, rest) = >>=-eq-ok (f s x) _ e in
      each_inv_all P Q f keep xs t s' q.1 rest (keep s t x q.0 first h)

  -- The loop does not panic where no round does, from a state that satisfies `P`.
  pub each_total {μ ν} :
      (P : S → Type μ) (Q : A → Type ν) (f : S → A → Run S)
      → ((s : S) (x : A) → P s → Q x → (s' : S) × (f s x ≡ ok s') × P s')
      → (xs : List A) (s : S) → All Q xs
      → P s
      → (s' : S) × (each f s xs ≡ ok s') × P s'
  unfolding each
  each_total P Q f keep [] s q h = (s, refl, h)
  each_total P Q f keep (x ∷ xs) s q h =
      let (t, first, h') = keep s x h q.0 in rw first (each_total P Q f keep xs t q.1 h')

-- Where a round makes `L` true exactly for the elements that satisfy `H`, the loop makes it true
-- exactly if some element satisfies `H`.
module _ {ℓ κ} {A : Type ℓ} {S : Type κ} (L : S → Type 0) (H : A → Type 0) (f : S → A → Run S)
    (round : (s s' : S) (x : A) → f s x ≡ ok s' → L s' ↔ (L s ⊎ H x)) where
  pub each_adds : (xs : List A) (s s' : S) → each f s xs ≡ ok s' → L s' ↔ (L s ⊎ Any H xs)
  unfolding each
  each_adds [] s s' e =
      (λ h. inl (subst L (cc) h), elim [ inl h ↦ subst L (cc) h | inr h ↦ absurd h ])
  each_adds (x ∷ xs) s s' e =
      let (t, first, rest) = >>=-eq-ok (f s x) _ e in
      let (a, b) = round s t x first in
      let (c, d) = each_adds xs t s' rest in
      (
        λ h. elim (c h) [
          | inl m ↦ elim (a m) [ inl l ↦ inl l | inr r ↦ inr (inl r) ]
          | inr r ↦ inr (inr r)
        ],
        elim [
          | inl l ↦ d (inl (b (inl l)))
          | inr (inl r) ↦ d (inl (b (inr r)))
          | inr (inr r) ↦ d (inr r)
        ],
      )
