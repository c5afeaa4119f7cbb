-- ===== src/Loader/Sort.antt =====
-- `sort.SliceStable` of the claims by their issue time, newest first (licenses.go). A stable sort
-- has one result, which insertion computes.
pub mod Order
use kustomer.Common.{ℕ, Bool, List, [], ◌∷◌, if◌then◌else◌, ltb}
use kustomer.License.{Claims}
use kustomer.Loader.Jose.{Jose}

module _ {F : Type 0} (j : Jose F) where
  -- `claims[i].Claims.IssuedAt.Time()`
  abbrev pub issued : Claims F → ℕ
  issued c = j.time c.issued_at

  -- `issued(c).After(issued(d))`
  abbrev pub is_newer : Claims F → Claims F → Bool
  is_newer c d = ltb (issued d) (issued c)

  unfoldable pub insert : Claims F → List (Claims F) → List (Claims F)
  insert c [] = c ∷ []
  insert c (d ∷ ds) = if is_newer d c then d ∷ insert c ds else c ∷ d ∷ ds

  unfoldable pub sort_newest : List (Claims F) → List (Claims F)
  unfolding insert
  sort_newest [] = []
  sort_newest (c ∷ cs) = insert c (sort_newest cs)
