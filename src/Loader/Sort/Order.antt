-- ===== src/Loader/Sort/Order.antt =====
-- The sort of the claims by issue time, newest first (licenses.go).
use mathlib.Core.List.{Perm}
use mathlib.Core.List.Perm
use kustomer.Common.{
  ℕ, ◌≤◌, List, [], ◌∷◌, ◌≡◌, refl, inl, inr, arith, Bool-cases, All, All-imp, AllPairs, ◌==◌,
  if◌then◌else◌,
}
use kustomer.License.{Claims}
use kustomer.Loader.Jose.{Jose}
use kustomer.Loader.Sort.{issued, is_newer, insert, sort_newest}

module _ {F : Type 0} (j : Jose F) where
  -- No older than.
  abbrev pub NotOlder : Claims F → Claims F → Type 0
  NotOlder c d = issued j d ≤ issued j c

  insert-perm : (c : Claims F) (ds : List (Claims F)) → Perm (insert j c ds) (c ∷ ds)
  unfolding insert
  insert-perm c [] = Perm.rfl
  insert-perm c (d ∷ ds) = elim (Bool-cases (is_newer j d c)) [
    | inl b ↦ rw (b, insert) (Perm.trans (Perm.cons d (insert-perm c ds)) (Perm.swap c d ds))
    | inr b ↦ rw (b, insert) Perm.rfl
  ]

  -- The sort neither loses nor invents a license.
  pub sort_newest-perm : (cs : List (Claims F)) → Perm (sort_newest j cs) cs
  unfolding sort_newest
  sort_newest-perm [] = Perm.rfl
  sort_newest-perm (c ∷ cs) =
      Perm.trans (insert-perm c (sort_newest j cs)) (Perm.cons c (sort_newest-perm cs))

  module _ (P : Claims F → Type 0) where
    insert-All : (c : Claims F) (ds : List (Claims F)) → P c → All P ds → All P (insert j c ds)
    unfolding insert
    insert-All c [] p h = (p, tt)
    insert-All c (d ∷ ds) p h = ground (arith, insert-All c ds p h.1)

    pub sort_newest-All : (cs : List (Claims F)) → All P cs → All P (sort_newest j cs)
    unfolding sort_newest
    sort_newest-All [] h = tt
    sort_newest-All (c ∷ cs) h = insert-All c (sort_newest j cs) h.0 (sort_newest-All cs h.1)

    All-insert : (c : Claims F) (ds : List (Claims F)) → All P (insert j c ds) → P c × All P ds
    unfolding insert
    All-insert c [] h = (h.0, tt)
    All-insert c (d ∷ ds) h = elim (Bool-cases (is_newer j d c)) [
      | inl b ↦ let h' = rw b at h in let (p, rest) = All-insert c ds h'.1 in (p, (h'.0, rest))
      | inr b ↦ let h' = rw b at h in (h'.0, h'.1)
    ]

    pub All-sort_newest : (cs : List (Claims F)) → All P (sort_newest j cs) → All P cs
    unfolding sort_newest
    All-sort_newest [] h = tt
    All-sort_newest (c ∷ cs) h =
        let (p, rest) = All-insert c (sort_newest j cs) h in (p, All-sort_newest cs rest)

  insert-Descending :
      (c : Claims F) (ds : List (Claims F))
      → AllPairs NotOlder ds
      → AllPairs NotOlder (insert j c ds)
  unfolding insert
  insert-Descending c [] h = (tt, tt)
  insert-Descending c (d ∷ ds) h = elim (Bool-cases (is_newer j d c)) [
    | inl b ↦ rw b (insert-All (NotOlder d) c ds (ground arith) h.0, insert-Descending c ds h.1)
    | inr b ↦
        let older : issued j d ≤ issued j c = ground arith in
        rw b ((older, All-imp _ _ (λ e q. omega arith) ds h.0), h)
  ]

  -- The sorted list goes from newer to older.
  pub sort_newest-Descending : (cs : List (Claims F)) → AllPairs NotOlder (sort_newest j cs)
  unfolding sort_newest
  sort_newest-Descending [] = tt
  sort_newest-Descending (c ∷ cs) =
      insert-Descending c (sort_newest j cs) (sort_newest-Descending cs)

  -- The licenses of one issue time.
  abbrev pub issued_at_time : ℕ → List (Claims F) → List (Claims F)
  issued_at_time t [] = []
  issued_at_time t (c ∷ cs) =
      let rest = issued_at_time t cs in if issued j c == t then c ∷ rest else rest

  insert-stable :
      (t : ℕ) (c : Claims F) (ds : List (Claims F))
      → issued_at_time t (insert j c ds) ≡ issued_at_time t (c ∷ ds)
  unfolding insert
  insert-stable t c [] = refl
  insert-stable t c (d ∷ ds) = ground (arith, insert-stable t c ds)

  -- Licenses of one issue time stay in the order of their files.
  pub sort_newest_stable :
      (t : ℕ) (cs : List (Claims F)) → issued_at_time t (sort_newest j cs) ≡ issued_at_time t cs
  unfolding sort_newest
  sort_newest_stable t [] = refl
  sort_newest_stable t (c ∷ cs) =
      ground (arith, insert-stable t c (sort_newest j cs), sort_newest_stable t cs)
