-- ===== src/Loader/Dedupe/Newest.antt =====
-- The licenses that `sortAndDeduplicate` returns (licenses.go, docs/kopano-licenses.md).
use kustomer.Common.{
  ◌≤◌, String, Bool, true, false, Option, List, [], ◌∷◌, ◌≡◌, refl, sym, ◌∙◌, ◌≢◌, ◌⊎◌, inl, inr,
  arith, Bool-cases, string_dec, All, All-imp, AllPairs, Any, Any-imp, All-Any, All-witness, subst,
}
use kustomer.Common.Map.{Map, get, has, get-put_self, get-put_ne}
use kustomer.License.{Claims}
use kustomer.Loader.Jose.{Jose}
use kustomer.Loader.Sort.{issued, sort_newest}
use kustomer.Loader.Sort.Order.{NotOlder, sort_newest-All, All-sort_newest, sort_newest-Descending}
use kustomer.Loader.Dedupe.{
  Dedupe, mark_seen, dedupe_step, dedupe, dedupe_start, sort_and_deduplicate,
}

module _ {F : Type 0} where
  -- What one round does to the result and to `seen`.
  data Round (s s' : Dedupe F) (c : Claims F) : Type 0 where
    skips :
        has c.license_file_id s.seen ≡ true → s'.seen ≡ s.seen → s'.result ≡ s.result → Round s s' c
    keeps :
        has c.license_file_id s.seen ≡ false
        → s'.seen ≡ mark_seen c.license_file_id s.seen
        → s'.result ≡ c ∷ s.result
        → Round s s' c

  dedupe_step-Round : (s : Dedupe F) (c : Claims F) → Round s (dedupe_step s c) c
  unfolding dedupe_step
  dedupe_step-Round s c = elim (Bool-cases (has c.license_file_id s.seen)) [
    | inl b ↦ skips b (ground arith) (ground arith)
    | inr b ↦ keeps b (ground arith) (ground arith)
  ]

-- What the active licenses are, of all the valid ones.
pub record NewestPerUid {F : Type 0} (j : Jose F) (claims result : List (Claims F)) : Type 0 where
  -- from older to newer
  pub ascending : AllPairs (λ c d. issued j c ≤ issued j d) result
  -- no two have one uid, except those with none
  pub unique :
      AllPairs (λ c d. c.license_file_id ≡ d.license_file_id → c.license_file_id ≡ "") result
  -- each is one of the valid licenses
  pub sound : All (λ r. Any (λ c. c ≡ r) claims) result
  -- a valid license that is not active has an active one with its uid that is no older
  pub complete :
      All
        (λ c.
          Any
            (λ r.
              (r ≡ c)
              ⊎ ((c.license_file_id ≢ "")
                  × (r.license_file_id ≡ c.license_file_id)
                  × (issued j c ≤ issued j r)))
            result)
        claims

module _ {F : Type 0} (j : Jose F) where
  abbrev Covers : Claims F → Claims F → Type 0
  Covers c r =
      (r ≡ c)
      ⊎ ((c.license_file_id ≢ "")
          × (r.license_file_id ≡ c.license_file_id)
          × (issued j c ≤ issued j r))

  abbrev Marked : Map Bool → Claims F → Type 0
  Marked seen r = (r.license_file_id ≡ "") ⊎ (has r.license_file_id seen ≡ true)

  abbrev From : Map Bool → List (Claims F) → Type 0
  From seen result =
      (u : String) → has u seen ≡ true → (u ≢ "") × Any (λ r. r.license_file_id ≡ u) result

  -- The invariant of the loop: `rest` is still to come.
  record Inv (s : Dedupe F) (rest : List (Claims F)) : Type 0 where
    ascending : AllPairs (λ c d. issued j c ≤ issued j d) s.result
    bound : All (λ r. All (λ c. issued j c ≤ issued j r) rest) s.result
    unique :
        AllPairs (λ c d. c.license_file_id ≡ d.license_file_id → c.license_file_id ≡ "") s.result
    marked : All (Marked s.seen) s.result
    seen_from : From s.seen s.result

  has-mark_seen :
      (u uid : String) (seen : Map Bool)
      → has u (mark_seen uid seen) ≡ true
      → (has u seen ≡ true) ⊎ ((u ≡ uid) × (u ≢ ""))
  unfolding mark_seen
  has-mark_seen u uid seen h = elim (string_dec uid "") [
    | yes e ↦ inl (ground arith)
    | no e ↦ elim (string_dec uid u) [
      | yes same ↦ inr (sym same, λ z. e (ground arith))
      | no other ↦ inl (ground (arith, get-put_ne u uid true seen other))
    ]
  ]

  mark_seen-has :
      (u uid : String) (seen : Map Bool)
      → (has u seen ≡ true) ⊎ ((u ≡ uid) × (u ≢ ""))
      → has u (mark_seen uid seen) ≡ true
  unfolding mark_seen
  mark_seen-has u uid seen h = elim (string_dec uid "") [
    | yes e ↦ ground arith
    | no e ↦ elim (string_dec uid u) [
      | yes same ↦ ground (arith, get-put_self uid true seen)
      | no other ↦ ground (arith, get-put_ne u uid true seen other)
    ]
  ]

  step-Inv :
      (s s' : Dedupe F) (c : Claims F) (rest : List (Claims F))
      → Round s s' c
      → All (NotOlder j c) rest
      → Inv s (c ∷ rest)
      → Inv s' rest
  step-Inv s s' c rest (skips b q r) front i = record {
    ascending = rw r i.ascending;
    bound = rw r (All-imp _ _ (λ x h. h.1) s.result i.bound);
    unique = rw r i.unique;
    marked = rw (r, q) i.marked;
    seen_from = rw (r, q) i.seen_from;
  }
  step-Inv s s' c rest (keeps b q r) front i = record {
    ascending = rw r (All-imp _ _ (λ x h. h.0) s.result i.bound, i.ascending);
    bound = rw r (front, All-imp _ _ (λ x h. h.1) s.result i.bound);
    unique = rw r (All-imp _ _ fresh s.result i.marked, i.unique);
    marked = rw r (
        subst (λ m. All (Marked m) (c ∷ s.result)) (sym q)
          (own, All-imp (Marked s.seen) (Marked seen') grow s.result i.marked));
    seen_from = rw r (subst (λ m. From m (c ∷ s.result)) (sym q) from);
  }
    where
      seen' : Map Bool
      seen' = mark_seen c.license_file_id s.seen

      fresh :
          (d : Claims F)
          → (d.license_file_id ≡ "") ⊎ (has d.license_file_id s.seen ≡ true)
          → c.license_file_id ≡ d.license_file_id
          → c.license_file_id ≡ ""
      fresh d (inl e) same = same ∙ e
      fresh d (inr h) same = ground arith

      own : Marked seen' c
      own = elim (string_dec c.license_file_id "") [
        | yes e ↦ inl e
        | no e ↦ inr (mark_seen-has c.license_file_id c.license_file_id s.seen (inr (refl, e)))
      ]

      grow : (d : Claims F) → Marked s.seen d → Marked seen' d
      grow d (inl e) = inl e
      grow d (inr h) = inr (mark_seen-has d.license_file_id c.license_file_id s.seen (inl h))

      from : From seen' (c ∷ s.result)
      from u h = elim (has-mark_seen u c.license_file_id s.seen h) [
        | inl old ↦ let (named, some_one) = i.seen_from u old in (named, inr some_one)
        | inr (same, named) ↦ (named, inl (sym same))
      ]

  module _ (s s' : Dedupe F) (c : Claims F) where
    Any-step : Round s s' c → (P : Claims F → Type 0) → Any P s.result → Any P s'.result
    Any-step (skips b q r) P a = rw r a
    Any-step (keeps b q r) P a = rw r (inr a)

    All-step : Round s s' c → (P : Claims F → Type 0) → All P s.result → P c → All P s'.result
    All-step (skips b q r) P a p = rw r a
    All-step (keeps b q r) P a p = rw r (p, a)

    -- The license of this round is active, or one with its uid that is no older.
    step-Covers :
        (rest : List (Claims F)) → Round s s' c → Inv s (c ∷ rest) → Any (Covers c) s'.result
    step-Covers rest (skips b q r) i =
        let (named, found) = i.seen_from c.license_file_id b in
        rw r (
          Any-imp _ (Covers c) (λ x (h, same). inr (named, same, h.0)) s.result
            (All-Any _ (λ x. x.license_file_id ≡ c.license_file_id) s.result i.bound found))
    step-Covers rest (keeps b q r) i = rw r (inl (inl refl))

  -- What the rest of the loop adds.
  dedupe-NewestPerUid :
      (s : Dedupe F) (rest : List (Claims F))
      → AllPairs (NotOlder j) rest
      → Inv s rest
      → Inv (dedupe s rest) []
        × ((P : Claims F → Type 0) → Any P s.result → Any P (dedupe s rest).result)
        × All (λ c. Any (Covers c) (dedupe s rest).result) rest
        × ((P : Claims F → Type 0) → All P s.result → All P rest → All P (dedupe s rest).result)
  unfolding dedupe
  dedupe-NewestPerUid s [] h i = (i, λ P a. a, tt, λ P a b. a)
  dedupe-NewestPerUid s (c ∷ rest) (front, h) i =
      let round = dedupe_step-Round s c in
      let (i', later, covered, all) =
        dedupe-NewestPerUid (dedupe_step s c) rest h
          (step-Inv s (dedupe_step s c) c rest round front i) in
      (
        i',
        λ P a. later P (Any-step s (dedupe_step s c) c round P a),
        (later (Covers c) (step-Covers s (dedupe_step s c) c rest round i), covered),
        λ P a b. all P (All-step s (dedupe_step s c) c round P a b.0) b.1,
      )

  -- Whatever the history, the licenses that `sortAndDeduplicate` returns are `NewestPerUid` of the
  -- given ones: from older to newer, no two with one uid that is not empty, none that was not
  -- given, and for each that was given itself or one with its uid that is no older.
  pub sort_and_deduplicate-NewestPerUid :
      (history : Option (Map (Claims F))) (claims : List (Claims F))
      → NewestPerUid j claims (sort_and_deduplicate j history claims).claims
  unfolding sort_and_deduplicate get
  sort_and_deduplicate-NewestPerUid history claims =
      let sorted = sort_newest j claims in
      let (i, later, covered, all) =
        dedupe-NewestPerUid (dedupe_start history) sorted (sort_newest-Descending j claims) empty in
      record {
        ascending = i.ascending;
        unique = i.unique;
        sound =
            all (λ r. Any (λ c. c ≡ r) claims) tt
              (sort_newest-All j (λ r. Any (λ c. c ≡ r) claims) claims listed);
        complete = All-sort_newest j _ claims covered;
      }
    where
      listed : All (λ r. Any (λ c. c ≡ r) claims) claims
      listed =
          All-imp _ _ (λ c h. h c refl) claims
            (All-witness (λ (c : Claims F) (r : Claims F). c ≡ r) claims)

      empty : Inv (dedupe_start history) (sort_newest j claims)
      empty = record { ascending = tt; bound = tt; unique = tt; marked = tt; seen_from = λ u h. cc }
