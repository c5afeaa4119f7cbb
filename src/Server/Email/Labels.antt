-- ===== src/Server/Email/Labels.antt =====
-- The labels of the domain in `emailRegexp` (server/utils.go).
use kustomer.Common.{
  ℕ, ◌+◌, ◌≤◌, true, List, [], ◌∷◌, ◌++◌, ◌≡◌, refl, ap, arith, All, length, length-append,
}
use kustomer.Server.Email.{is_alnum, is_inner, ends_label, is_label}

-- `[a-zA-Z0-9](?:[a-zA-Z0-9-]{0,61}[a-zA-Z0-9])?`
pub data IsLabel (l : List ℕ) : Type 0 where
  single : (c : ℕ) → is_alnum c ≡ true → l ≡ c ∷ [] → IsLabel l
  longer :
      (c d : ℕ) (inner : List ℕ)
      → is_alnum c ≡ true
      → All (λ x. is_inner x ≡ true) inner
      → length inner ≤ 61
      → is_alnum d ≡ true
      → l ≡ c ∷ (inner ++ d ∷ [])
      → IsLabel l

ends_label-parts :
    (d : ℕ) (s : List ℕ)
    → ends_label (d ∷ s) ≡ true
    → (inner : List ℕ) × (e : ℕ) × (d ∷ s ≡ inner ++ e ∷ [])
      × All (λ x. is_inner x ≡ true) inner
      × (is_alnum e ≡ true)
unfolding ends_label
ends_label-parts d [] h = ([], d, refl, tt, h)
ends_label-parts d (e ∷ s) h =
    let (inner, f, shape, all, last) = ends_label-parts e s (ground arith) in
    (d ∷ inner, f, ap (◌∷◌ d) shape, (ground arith, all), last)

parts-ends_label :
    (inner : List ℕ) (e : ℕ)
    → All (λ x. is_inner x ≡ true) inner
    → is_alnum e ≡ true
    → ends_label (inner ++ e ∷ []) ≡ true
unfolding ends_label
parts-ends_label [] e all h = h
parts-ends_label (c ∷ []) e all h = ground arith
parts-ends_label (c ∷ d ∷ inner) e all h = ground (arith, parts-ends_label (d ∷ inner) e all.1 h)

longer-IsLabel :
    (c e : ℕ) (s inner : List ℕ)
    → is_alnum c ≡ true
    → s ≡ inner ++ e ∷ []
    → All (λ x. is_inner x ≡ true) inner
    → is_alnum e ≡ true
    → length s ≤ 62
    → IsLabel (c ∷ s)
longer-IsLabel c e s inner first shape all last short =
    let long : length s ≡ length (inner ++ e ∷ []) = ap length shape in
    let long' : length (inner ++ e ∷ []) ≡ length inner + 1 = length-append inner (e ∷ []) in
    IsLabel.longer c e inner first all (omega (arith, long, long', short)) last
      (ap (λ (t : List ℕ). c ∷ t) shape)

pub is_label-IsLabel : (l : List ℕ) → is_label l ≡ true → IsLabel l
unfolding is_label
is_label-IsLabel [] h = cc
is_label-IsLabel (c ∷ []) h = IsLabel.single c (ground arith) refl
is_label-IsLabel (c ∷ d ∷ s) h =
    let (inner, e, shape, all, last) = ends_label-parts d s (ground arith) in
    longer-IsLabel c e (d ∷ s) inner (ground arith) shape all last (ground arith)

pub IsLabel-is_label : (l : List ℕ) → IsLabel l → is_label l ≡ true
unfolding is_label ends_label
IsLabel-is_label l (IsLabel.single c h e) = rw e (ground arith)
IsLabel-is_label l (IsLabel.longer c d inner h all short last e) =
    rw e (ground (arith, parts-ends_label inner d all last, length-append inner (d ∷ [])))
