-- ===== src/Loader/Dedupe/Hooks.antt =====
-- Which hooks a scan calls, and what `ActivateHistory` holds after it (licenses.go).
use kustomer.Common.{
  ℕ, zero, suc, String, Bool, true, false, not, Option, none, some, List, [], ◌∷◌, ◌++◌, ◌≡◌, refl,
  sym, ◌⊎◌, inl, inr, arith, Bool-cases, string_dec, ◌||◌, ◌&&◌, ltb, ◌==◌, ◌∙◌, ap, All, All-imp,
  subst,
}
use kustomer.Common.Map.{
  Map, get, put, has, get-put, get-put_self, get-put_ne, Distinct, put-Distinct, All-put,
}
use kustomer.License.{Claims}
use kustomer.Loader.Jose.{Jose}
use kustomer.Loader.Sort.{sort_newest}
use kustomer.Loader.Dedupe.{
  Hook, on_activate, on_skip, Dedupe, dedupe_step, dedupe, dedupe_start, kept, additions,
  sort_and_deduplicate, was_active, activate, removals_of, kept_of,
}
use kustomer.Loader.Dedupe.History.{count_id, count_id-sort_newest, added_after, dedupe-added}
use kustomer.Loader.Dedupe.Calls.{
  is_true, Known, calls_new, calls_remove, Keyed, calls_new-append, calls_remove-append,
  calls_new-removals, calls_remove-additions, calls_new-additions, calls_remove-removals, has-kept,
}

-- `added` after the loop, from the number of licenses with the id
new_after : (before : Bool) (n : ℕ) → is_true (added_after none before n) ≡ (not before && (n == 1))
new_after before zero = ground arith
new_after before (suc zero) = ground arith
new_after before (suc (suc n)) = ground arith

found_after :
    (before : Bool) (n : ℕ)
    → elim (added_after none before n) [ none ↦ false | some _ ↦ true ] ≡ ltb 0 n
found_after before zero = ground arith
found_after before (suc zero) = ground arith
found_after before (suc (suc n)) = ground arith

removed_after :
    (before : Bool) (n : ℕ) → ((before || ltb 0 n) && not (ltb 0 n)) ≡ (before && (n == 0))
removed_after before n = ground arith

kept_after : (before : Bool) (n : ℕ) → ((before || ltb 0 n) && ltb 0 n) ≡ ltb 0 n
kept_after before n = ground arith

or_false : (b : Bool) → (b || false) ≡ b
or_false true = refl
or_false false = refl

module _ {F : Type 0} where
  record Tracked (s : Dedupe F) : Type 0 where
    distinct : Distinct s.added
    known : All (Known s.all) s.added
    no_new : (k : String) → calls_new k s.hooks ≡ false
    no_remove : (k : String) → calls_remove k s.hooks ≡ false

  put-Known :
      (all : Map (Claims F)) (c : Claims F) (e : String × Bool)
      → Known all e
      → Known (put c.license_id c all) e
  put-Known all c e (d, (g, i)) = elim (string_dec c.license_id e.0) [
    | yes p ↦ (c, (ground (arith, get-put e.0 c.license_id c all), p))
    | no p ↦ (d, (get-put_ne e.0 c.license_id c all p ∙ g, i))
  ]

  -- One round writes `added`, `all` and the hooks in step.
  dedupe_step-fields :
      (s : Dedupe F) (c : Claims F)
      → (v : Bool) × (((dedupe_step s c).added ≡ put c.license_id v s.added)
          × ((dedupe_step s c).all ≡ put c.license_id c s.all))
  unfolding dedupe_step
  dedupe_step-fields s c = elim (Bool-cases (was_active s.activate_history c.license_id)) [
    | inl b ↦ (false, (ground arith, ground arith))
    | inr b ↦ (true, (ground arith, ground arith))
  ]

  dedupe_step-calls :
      (k : String) (s : Dedupe F) (c : Claims F)
      → (calls_new k (dedupe_step s c).hooks ≡ calls_new k s.hooks)
        × (calls_remove k (dedupe_step s c).hooks ≡ calls_remove k s.hooks)
  unfolding dedupe_step
  dedupe_step-calls k s c = (
    ground (
      arith,
      calls_new-append k s.hooks (on_skip c ∷ []),
      calls_new-append k s.hooks (on_activate c ∷ []),
    ),
    ground (
      arith,
      calls_remove-append k s.hooks (on_skip c ∷ []),
      calls_remove-append k s.hooks (on_activate c ∷ []),
    ),
  )

  dedupe_step-Tracked : (s : Dedupe F) (c : Claims F) → Tracked s → Tracked (dedupe_step s c)
  dedupe_step-Tracked s c t =
      let (v, (a, l)) = dedupe_step-fields s c in
      record {
        distinct = subst Distinct (sym a) (put-Distinct c.license_id v s.added t.distinct);
        known =
            rw (a, l)
              (All-put _ c.license_id v s.added (c, (get-put_self c.license_id c s.all, refl))
                (All-imp _ _ (put-Known s.all c) s.added t.known));
        no_new = λ k. (dedupe_step-calls k s c).0 ∙ t.no_new k;
        no_remove = λ k. (dedupe_step-calls k s c).1 ∙ t.no_remove k;
      }

  dedupe-Tracked : (cs : List (Claims F)) (s : Dedupe F) → Tracked s → Tracked (dedupe s cs)
  unfolding dedupe
  dedupe-Tracked [] s t = t
  dedupe-Tracked (c ∷ cs) s t = dedupe-Tracked cs (dedupe_step s c) (dedupe_step-Tracked s c t)

  -- The history stays keyed by the license ids.
  abbrev pub KeyedHistory : Option (Map (Claims F)) → Type 0
  KeyedHistory none = Unit
  KeyedHistory (some history) = Keyed history

  activate-Keyed :
      (o : Option (Map (Claims F))) (c : Claims F) → KeyedHistory o → KeyedHistory (activate o c)
  unfolding activate
  activate-Keyed none c h = tt
  activate-Keyed (some history) c h = All-put _ c.license_id c history refl h

  dedupe_step-activates :
      (s : Dedupe F) (c : Claims F)
      → ((dedupe_step s c).activate_history ≡ s.activate_history)
        ⊎ ((dedupe_step s c).activate_history ≡ activate s.activate_history c)
  unfolding dedupe_step
  dedupe_step-activates s c = ground arith

  dedupe_step-Keyed :
      (s : Dedupe F) (c : Claims F)
      → KeyedHistory s.activate_history
      → KeyedHistory (dedupe_step s c).activate_history
  dedupe_step-Keyed s c h = elim (dedupe_step-activates s c) [
    | inl q ↦ subst KeyedHistory (sym q) h
    | inr q ↦ subst KeyedHistory (sym q) (activate-Keyed s.activate_history c h)
  ]

  dedupe-Keyed :
      (cs : List (Claims F)) (s : Dedupe F)
      → KeyedHistory s.activate_history
      → KeyedHistory (dedupe s cs).activate_history
  unfolding dedupe
  dedupe-Keyed [] s h = h
  dedupe-Keyed (c ∷ cs) s h = dedupe-Keyed cs (dedupe_step s c) (dedupe_step-Keyed s c h)

  -- What the end of `sortAndDeduplicate` calls, from what the loop has left.
  abbrev all_hooks : Dedupe F → List (Hook F)
  all_hooks s = s.hooks ++ removals_of s.added s.activate_history ++ additions s.all s.added

  all_hooks-calls :
      (k : String) (s : Dedupe F) (history : Map (Claims F))
      → Tracked s
      → s.activate_history ≡ some history
      → Keyed history
      → (calls_new k (all_hooks s) ≡ is_true (get k s.added))
        × (calls_remove k (all_hooks s) ≡ (has k history && not (has k s.added)))
        × (was_active (kept_of s.added s.activate_history) k ≡ (has k history && has k s.added))
  unfolding removals_of kept_of was_active
  all_hooks-calls k s history t q h =
      let new = additions s.all s.added in
      let removed = removals_of s.added (some history) in
      (
        rw (
          q,
          calls_new-append k (s.hooks ++ removed) new,
          calls_new-append k s.hooks removed,
          t.no_new k,
          calls_new-removals k s.added history,
          calls_new-additions k s.all s.added t.distinct t.known,
        ),
        rw
            (
              q,
              calls_remove-append k (s.hooks ++ removed) new,
              calls_remove-append k s.hooks removed,
              t.no_remove k,
              calls_remove-removals k s.added history h,
              calls_remove-additions k s.all s.added,
            )
            (or_false (has k history && not (has k s.added))),
        rw (q) (has-kept k s.added history),
      )

  kept-Keyed :
      (added : Map Bool) (history : Map (Claims F)) → Keyed history → Keyed (kept added history)
  unfolding kept
  kept-Keyed added [] h = tt
  kept-Keyed added ((i, c) ∷ history) (p, h) = elim (Bool-cases (has i added)) [
    | inl b ↦ rw (b) (p, kept-Keyed added history h)
    | inr b ↦ rw (b) (kept-Keyed added history h)
  ]

  kept_of-Keyed :
      (added : Map Bool) (o : Option (Map (Claims F)))
      → KeyedHistory o
      → KeyedHistory (kept_of added o)
  unfolding kept_of
  kept_of-Keyed added none h = tt
  kept_of-Keyed added (some history) h = kept-Keyed added history h

-- The history that a scan leaves is keyed by the license ids if the one before was.
pub sort_and_deduplicate-Keyed :
    {F : Type 0} (j : Jose F) (history : Option (Map (Claims F))) (claims : List (Claims F))
    → KeyedHistory history
    → KeyedHistory (sort_and_deduplicate j history claims).activate_history
unfolding sort_and_deduplicate
sort_and_deduplicate-Keyed j history claims h =
    let s = dedupe (dedupe_start history) (sort_newest j claims) in
    kept_of-Keyed s.added s.activate_history
      (dedupe-Keyed (sort_newest j claims) (dedupe_start history) h)

-- With a history that is keyed by the license ids, and the licenses found valid: `OnNew` is called
-- for a license id just where the id is not in the history and exactly one of the licenses has it,
-- `OnRemove` just where it is in the history and none has it, and the new history has the ids of
-- the licenses found.
pub sort_and_deduplicate-hooks :
    {F : Type 0} (j : Jose F) (history : Map (Claims F)) (claims : List (Claims F)) (k : String)
    → Keyed history
    → (calls_new k (sort_and_deduplicate j (some history) claims).hooks
        ≡ (not (has k history) && (count_id k claims == 1)))
      × (calls_remove k (sort_and_deduplicate j (some history) claims).hooks
          ≡ (has k history && (count_id k claims == 0)))
      × (was_active (sort_and_deduplicate j (some history) claims).activate_history k
          ≡ ltb 0 (count_id k claims))
unfolding sort_and_deduplicate get was_active
sort_and_deduplicate-hooks {F} j history claims k h =
    let s = dedupe (dedupe_start (some history)) (sort_newest j claims) in
    let (a, w, (history', q)) =
      dedupe-added k (sort_newest j claims) (dedupe_start (some history)) history refl in
    let t =
      dedupe-Tracked (sort_newest j claims) (dedupe_start (some history))
        (record { distinct = tt; known = tt; no_new = λ i. refl; no_remove = λ i. refl }) in
    let n = count_id-sort_newest k j claims in
    let h' : Keyed history' =
      subst KeyedHistory q (dedupe-Keyed (sort_newest j claims) (dedupe_start (some history)) h) in
    let before = has k history in
    let m = count_id k (sort_newest j claims) in
    let present : has k s.added ≡ ltb 0 m =
      ap (λ o. elim o [ none ↦ false | some _ ↦ true ]) a ∙ found_after before m in
    let active : has k history' ≡ (before || ltb 0 m) = sym (ap (λ o. was_active o k) q) ∙ w in
    let (c, d, e) = all_hooks-calls k s history' t q h' in
    (
      c ∙ ap is_true a ∙ new_after before m ∙ ap (λ i. not before && (i == 1)) n,
      d ∙ rw (active, present) (removed_after before m) ∙ ap (λ i. before && (i == 0)) n,
      e ∙ rw (active, present) (kept_after before m) ∙ ap (ltb 0) n,
    )
