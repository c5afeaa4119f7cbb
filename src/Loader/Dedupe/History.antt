-- ===== src/Loader/Dedupe/History.antt =====
-- How `ActivateHistory` and `added` follow the license ids of a scan (licenses.go).
use kustomer.Common.{
  ℕ, zero, suc, ◌+◌, String, Bool, true, false, not, Option, some, List, [], ◌∷◌, ◌≡◌, refl, ◌≢◌,
  inl, inr, arith, Bool-cases, Option-cases, string_dec, ite, ◌||◌, ltb,
}
use kustomer.Common.Map.{Map, get, put, has, get-put_self, get-put_ne}
use kustomer.License.{Claims}
use kustomer.Loader.Jose.{Jose}
use kustomer.Loader.Sort.{insert, sort_newest}
use kustomer.Loader.Dedupe.{Dedupe, was_active, dedupe_step, dedupe}

-- `added[k]` after `n` licenses with that id: `before` says whether the id is in the history.
abbrev pub added_after : Option Bool → Bool → ℕ → Option Bool
added_after old before zero = old
added_after old before (suc zero) = some (not before)
added_after old before (suc (suc n)) = some false

added_after_again :
    (old : Option Bool) (before : Bool) (n : ℕ)
    → added_after (some (not before)) true n ≡ added_after old before (suc n)
added_after_again old before zero = refl
added_after_again old before (suc zero) = refl
added_after_again old before (suc (suc n)) = refl

true_after : (b : Bool) (n : ℕ) → true ≡ (b || ltb 0 (suc n))
true_after b n = ground arith

module _ {F : Type 0} (k : String) where
  -- How many licenses have the license id `k`.
  abbrev pub count_id : List (Claims F) → ℕ
  count_id [] = 0
  count_id (c ∷ cs) = ite (string_dec c.license_id k) 1 0 + count_id cs

  count_id-insert :
      (j : Jose F) (c : Claims F) (cs : List (Claims F))
      → count_id (insert j c cs) ≡ count_id (c ∷ cs)
  unfolding insert
  count_id-insert j c [] = refl
  count_id-insert j c (d ∷ ds) = ground (arith, count_id-insert j c ds)

  pub count_id-sort_newest :
      (j : Jose F) (cs : List (Claims F)) → count_id (sort_newest j cs) ≡ count_id cs
  unfolding sort_newest
  count_id-sort_newest j [] = refl
  count_id-sort_newest j (c ∷ cs) =
      omega (arith, count_id-insert j c (sort_newest j cs), count_id-sort_newest j cs)

  added-dedupe_step_ne :
      (s : Dedupe F) (c : Claims F)
      → c.license_id ≢ k
      → get k (dedupe_step s c).added ≡ get k s.added
  unfolding dedupe_step
  added-dedupe_step_ne s c h =
      ground
        (arith, get-put_ne k c.license_id true s.added h, get-put_ne k c.license_id false s.added h)

  added-dedupe_step_self :
      (s : Dedupe F) (c : Claims F)
      → c.license_id ≡ k
      → get k (dedupe_step s c).added ≡ some (not (was_active s.activate_history k))
  unfolding dedupe_step
  added-dedupe_step_self s c h =
      ground (arith, get-put_self k true s.added, get-put_self k false s.added)

  was_active-dedupe_step_ne :
      (s : Dedupe F) (c : Claims F)
      → c.license_id ≢ k
      → was_active (dedupe_step s c).activate_history k ≡ was_active s.activate_history k
  unfolding dedupe_step
  was_active-dedupe_step_ne s c h = elim (Option-cases s.activate_history) [
    | inl q ↦ ground arith
    | inr (history, q) ↦ ground (arith, get-put_ne k c.license_id c history h)
  ]

  was_active-dedupe_step_self :
      (s : Dedupe F) (c : Claims F) (history : Map (Claims F))
      → s.activate_history ≡ some history
      → c.license_id ≡ k
      → was_active (dedupe_step s c).activate_history k ≡ true
  unfolding dedupe_step
  was_active-dedupe_step_self s c history q h = ground (arith, get-put_self k c history)

  -- A map that is not nil stays one.
  pub dedupe_step-history :
      (s : Dedupe F) (c : Claims F) (history : Map (Claims F))
      → s.activate_history ≡ some history
      → (history' : Map (Claims F)) × ((dedupe_step s c).activate_history ≡ some history')
  unfolding dedupe_step
  dedupe_step-history s c history q = elim (Bool-cases (has c.license_id history)) [
    | inl b ↦ (history, ground arith)
    | inr b ↦ (put c.license_id c history, ground arith)
  ]

  -- After the loop the id is in the history if it was there, or some license has it; and `added`
  -- says that it is new if it was not there and exactly one license has it.
  pub dedupe-added :
      (cs : List (Claims F)) (s : Dedupe F) (history : Map (Claims F))
      → s.activate_history ≡ some history
      → (get k (dedupe s cs).added
          ≡ added_after (get k s.added) (was_active s.activate_history k) (count_id cs))
        × (was_active (dedupe s cs).activate_history k
            ≡ (was_active s.activate_history k || ltb 0 (count_id cs)))
        × ((history' : Map (Claims F)) × ((dedupe s cs).activate_history ≡ some history'))
  unfolding dedupe
  dedupe-added [] s history q = (refl, ground arith, (history, q))
  dedupe-added (c ∷ cs) s history q =
      let (history₁, q₁) = dedupe_step-history s c history q in
      let (a, w, f) = dedupe-added cs (dedupe_step s c) history₁ q₁ in
      elim (string_dec c.license_id k) [
        | yes h ↦
            let e : count_id (c ∷ cs) ≡ suc (count_id cs) = ground arith in
            let r = added-dedupe_step_self s c h in
            let v = was_active-dedupe_step_self s c history q h in
            let g =
              added_after_again (get k s.added) (was_active s.activate_history k) (count_id cs) in
            (
              rw (e, a, r, v) g,
              rw (e, w, v) (true_after (was_active s.activate_history k) (count_id cs)),
              f,
            )
        | no h ↦
            let e : count_id (c ∷ cs) ≡ count_id cs = ground arith in
            (
              rw (e, a, added-dedupe_step_ne s c h, was_active-dedupe_step_ne s c h),
              rw (e, w, was_active-dedupe_step_ne s c h),
              f,
            )
      ]
