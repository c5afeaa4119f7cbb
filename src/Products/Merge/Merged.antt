-- ===== src/Products/Merge/Merged.antt =====
-- What two values of one claim are merged to, in words of its own (server/handlers.go).
use kustomer.Common.{
  String, subst, ℕ, ◌+◌, ◌%◌, ◌^◌, Bool, true, false, some, List, [], ◌∷◌, ◌++◌, ◌≡◌, arith, All,
  Any, inl, inr, Bool-cases, Option-cases, if◌then◌else◌,
}
use kustomer.Common.Panic.{ok, >>=-eq-ok}
use kustomer.License.Dynamic.{Value, Values, FloatOps, to_list, of_list, value_eq}
use kustomer.Products.Merge.{cached, union, merge_int, merge_float, merge_arr, merge_claim}
use kustomer.Products.Merge.Union.{IsHashable, fresh, union_lem, union-IsOk_iff}

-- Two values that are added up, or arrays that are united.
abbrev pub IsSummed : {F : Type 0} → Value F → Value F → Type 0
IsSummed (Value.int a) (Value.int b) = Unit
IsSummed (Value.float a) (Value.float b) = Unit
IsSummed (Value.arr a) (Value.arr b) = Unit
IsSummed _ _ = ⊥

-- A value that is neither a number nor a slice.
abbrev pub IsPlainValue : {F : Type 0} → Value F → Type 0
IsPlainValue (Value.int _) = ⊥
IsPlainValue (Value.float _) = ⊥
IsPlainValue (Value.arr _) = ⊥
IsPlainValue (Value.texts _) = ⊥
IsPlainValue _ = Unit

not_summed : {F : Type 0} (have next : Value F) → IsPlainValue next → IsSummed have next → ⊥
not_summed have next p h = ground arith

texts_apart : {F : Type 0} (have : Value F) (ss : List String) → IsSummed have (Value.texts ss) → ⊥
texts_apart have ss h = ground arith

module _ {F : Type 0} (ops : FloatOps F) where
  abbrev pub IsAmong : Value F → List (Value F) → Type 0
  IsAmong v have = Any (λ w. value_eq ops w v ≡ some true) have

  -- The elements of the second list, in order, that equal none of the first.
  pub data Added (have : List (Value F)) : List (Value F) → List (Value F) → Type 0 where
    done : Added have [] []
    known :
        {v : Value F} {vs out : List (Value F)}
        → IsAmong v have
        → Added have vs out
        → Added have (v ∷ vs) out
    added :
        {v : Value F} {vs out : List (Value F)}
        → (IsAmong v have → ⊥)
        → Added have vs out
        → Added have (v ∷ vs) (v ∷ out)

  cached-IsAmong : (have : List (Value F)) (v : Value F) → cached ops have v ≡ true → IsAmong v have
  unfolding cached
  cached-IsAmong [] v e = cc
  cached-IsAmong (w ∷ ws) v e = elim (Option-cases (value_eq ops w v)) [
    | inl q ↦ inr (cached-IsAmong ws v (ground arith))
    | inr (true, q) ↦ inl q
    | inr (false, q) ↦ inr (cached-IsAmong ws v (ground arith))
  ]

  IsAmong-cached : (have : List (Value F)) (v : Value F) → IsAmong v have → cached ops have v ≡ true
  unfolding cached
  IsAmong-cached [] v h = absurd h
  IsAmong-cached (w ∷ ws) v (inl e) = ground arith
  IsAmong-cached (w ∷ ws) v (inr h) = ground (arith, IsAmong-cached ws v h)

  fresh-Added : (have next : List (Value F)) → Added have next (fresh ops have next)
  fresh-Added have [] = done
  fresh-Added have (v ∷ next) = elim (Bool-cases (cached ops have v)) [
    | inl e ↦ rw e (known (cached-IsAmong have v e) (fresh-Added have next))
    | inr e ↦
        rw e (added (λ h. let c = IsAmong-cached have v h in cc (c, e)) (fresh-Added have next))
  ]

  module _ (cmp_equal : Value F → Value F → Bool) where
    -- The older value, the newer one, and what becomes of them.
    pub data Merged : Value F → Value F → Value F → Type 0 where
      sum_int : (a b : ℕ) → Merged (Value.int a) (Value.int b) (Value.int ((a + b) % 2 ^ 64))
      sum_float : (a b : F) → Merged (Value.float a) (Value.float b) (Value.float (ops.add a b))
      united :
          (a b : Values F) (more : List (Value F))
          → All IsHashable (to_list a)
          → All IsHashable (to_list b)
          → Added (to_list a) (to_list b) more
          → Merged (Value.arr a) (Value.arr b) (Value.arr (of_list (to_list a ++ more)))
      kept :
          {have next : Value F}
          → IsPlainValue next
          → cmp_equal next have ≡ true
          → Merged have next have
      newest :
          {have next : Value F}
          → (IsSummed have next → ⊥)
          → (IsPlainValue next → cmp_equal next have ≡ false)
          → Merged have next next

    arr-Merged :
        (a b : Values F) (v : Value F)
        → merge_arr ops (Value.arr a) b ≡ ok v
        → Merged (Value.arr a) (Value.arr b) v
    unfolding merge_arr
    arr-Merged a b v e =
        let (all, run, rest) = >>=-eq-ok (union ops (to_list a) (to_list b)) _ e in
        let (h, h') = (union-IsOk_iff ops (to_list a) (to_list b)).0 (all, run) in
        let spec = union_lem ops (to_list a) (to_list b) h h' in
        subst (Merged (Value.arr a) (Value.arr b))
          {x = Value.arr (of_list (to_list a ++ fresh ops (to_list a) (to_list b)))} (ground arith)
          (united a b (fresh ops (to_list a) (to_list b)) h h'
            (fresh-Added (to_list a) (to_list b)))

    plain-Merged :
        (have next v : Value F)
        → IsPlainValue next
        → (if cmp_equal next have then have else next) ≡ v
        → Merged have next v
    plain-Merged have next v p e = elim (Bool-cases (cmp_equal next have)) [
      | inl c ↦ subst (Merged have next) {x = have} (ground arith) (kept p c)
      | inr c ↦
          subst (Merged have next) {x = next} (ground arith)
            (newest (λ h. not_summed have next p h) (λ q. c))
    ]

    newest-Merged :
        (have next v : Value F)
        → next ≡ v
        → (IsSummed have next → ⊥)
        → (IsPlainValue next → ⊥)
        → Merged have next v
    newest-Merged have next v e h p = subst (Merged have next) e (newest h (λ q. absurd (p q)))

    pub merge_claim-Merged :
        (have next v : Value F) → merge_claim ops cmp_equal have next ≡ ok v → Merged have next v
    unfolding merge_claim merge_int merge_float merge_arr
    merge_claim-Merged (Value.int a) (Value.int b) v e =
        subst (Merged (Value.int a) (Value.int b)) (ground arith) (sum_int a b)
    merge_claim-Merged (Value.float a) (Value.float b) v e =
        subst (Merged (Value.float a) (Value.float b)) (ground arith) (sum_float a b)
    merge_claim-Merged (Value.arr a) (Value.arr b) v e = arr-Merged a b v e
    merge_claim-Merged have (Value.texts ss) v e =
        newest-Merged have (Value.texts ss) v (ground arith) (texts_apart have ss) (λ q. q)
    merge_claim-Merged have Value.nil v e = plain-Merged have Value.nil v tt (ground arith)
    merge_claim-Merged have (Value.bool b) v e =
        plain-Merged have (Value.bool b) v tt (ground arith)
    merge_claim-Merged have (Value.text b) v e =
        plain-Merged have (Value.text b) v tt (ground arith)
    merge_claim-Merged have (Value.obj b) v e = plain-Merged have (Value.obj b) v tt (ground arith)
    merge_claim-Merged have next v e = newest-Merged have next v (ground arith) (λ h. h) (λ q. q)
