-- ===== src/Common/Text/Parts.antt =====
-- Cutting a text undoes joining its parts, and the other way round.
use Prim.Native.Nat.{ℕ}
use mathlib.Core.Path.{◌≡◌, refl, sym, ap, ◌∙◌}
use mathlib.Core.Logic.{◌≢◌, inl, inr}
use mathlib.Core.Option.{none, some}
use mathlib.Core.List.{List, [], ◌∷◌, ◌++◌}
use native.Mathlib.Omega.{arith}
use kustomer.Common.Lists.{All}
use kustomer.Common.Tests.{◌==◌, Bool-cases, Option-cases}
use kustomer.Common.Text.{before, cut, first_part, split}

module _ (sep : ℕ) where
  -- The text does not hold the separator.
  abbrev pub Lacks : List ℕ → Type 0
  Lacks = All (λ c. c ≢ sep)

  -- A text without the separator is not cut.
  pub cut-none : (s : List ℕ) → Lacks s → cut sep s ≡ none
  unfolding cut
  cut-none [] h = refl
  cut-none (c ∷ s) h = ground (arith, cut-none s h.1)

  pub cut-append : (s t : List ℕ) → Lacks s → cut sep (s ++ sep ∷ t) ≡ some (s, t)
  unfolding cut before
  cut-append [] t h = ground arith
  cut-append (c ∷ s) t h = ground (arith, cut-append s t h.1)

  pub cut-eq-some : (s a b : List ℕ) → cut sep s ≡ some (a, b) → s ≡ a ++ sep ∷ b
  unfolding cut before
  cut-eq-some [] a b h = cc
  cut-eq-some (c ∷ s) a b h = elim (Bool-cases (c == sep)) [
    | inl e ↦ ground arith
    | inr e ↦ elim (Option-cases (cut sep s)) [
      | inl q ↦ ground arith
      | inr ((x, y), q) ↦ ground (arith, cut-eq-some s x y q)
    ]
  ]

  -- The parts, with the separator between them.
  abbrev pub join : List (List ℕ) → List ℕ
  join [] = []
  join (p ∷ []) = p
  join (p ∷ q ∷ ps) = p ++ sep ∷ join (q ∷ ps)

  join_first : (c : ℕ) (ps : List (List ℕ)) → join (first_part c ps) ≡ c ∷ join ps
  unfolding first_part
  join_first c [] = refl
  join_first c (p ∷ []) = refl
  join_first c (p ∷ q ∷ ps) = refl

  pub split-cons : (s : List ℕ) → (p : List ℕ) × ((ps : List (List ℕ)) × (split sep s ≡ p ∷ ps))
  unfolding split first_part
  split-cons [] = ([], ([], refl))
  split-cons (c ∷ s) = elim (Bool-cases (c == sep)) [
    | inl e ↦ ([], (split sep s, rw e refl))
    | inr e ↦ let (p, (ps, q)) = split-cons s in (c ∷ p, (ps, rw (e, q) refl))
  ]

  pub join-split : (s : List ℕ) → join (split sep s) ≡ s
  unfolding split
  join-split [] = refl
  join-split (c ∷ s) = elim (Bool-cases (c == sep)) [
    | inl e ↦
        let (p, (ps, q)) = split-cons s in
        let h : join (p ∷ ps) ≡ s = ap join (sym q) ∙ join-split s in
        let d : c ≡ sep = ground arith in rw (e, q, h, d) refl
    | inr e ↦ rw e (join_first c (split sep s) ∙ ap (λ (u : List ℕ). c ∷ u) (join-split s))
  ]

  split-Lacks : (p : List ℕ) → Lacks p → split sep p ≡ p ∷ []
  unfolding split first_part
  split-Lacks [] h = refl
  split-Lacks (c ∷ p) h = ground (arith, split-Lacks p h.1)

  split-append : (p t : List ℕ) → Lacks p → split sep (p ++ sep ∷ t) ≡ p ∷ split sep t
  unfolding split first_part
  split-append [] t h = ground arith
  split-append (c ∷ p) t h = ground (arith, split-append p t h.1)

  pub split-join :
      (p : List ℕ) (ps : List (List ℕ)) → All Lacks (p ∷ ps) → split sep (join (p ∷ ps)) ≡ p ∷ ps
  split-join p [] h = split-Lacks p h.0
  split-join p (q ∷ ps) h =
      split-append p (join (q ∷ ps)) h.0 ∙ ap (λ (u : List (List ℕ)). p ∷ u) (split-join q ps h.1)
