-- ===== src/Server/Email/Accepts.antt =====
-- Which texts `emailRegexp` matches (server/utils.go).
use kustomer.Common.{
  ℕ, String, Bool, true, false, Option, none, some, List, [], ◌∷◌, ◌++◌, ◌≡◌, ◌≢◌, ◌↔◌, refl, sym,
  ap, subst, ◌∙◌, All-imp, arith, All, Bool-cases, inl, inr,
}
use kustomer.Common.Text.{codes, cut, split}
use kustomer.Common.Text.Parts.{
  Lacks, join, cut-none, cut-append, cut-eq-some, join-split, split-join, split-cons,
}
use kustomer.Server.Email.Labels.{IsLabel, is_label-IsLabel, IsLabel-is_label}
use kustomer.Server.Email.{
  is_alnum, is_local, member, is_inner, ends_label, all_of, is_label, all_labels, parts_match,
  is_valid_email, hide_email,
}

all_of-All : (p : ℕ → Bool) (s : List ℕ) → all_of p s ≡ true → All (λ c. p c ≡ true) s
unfolding all_of
all_of-All p [] h = tt
all_of-All p (c ∷ s) h = (ground arith, all_of-All p s (ground arith))

All-all_of : (p : ℕ → Bool) (s : List ℕ) → All (λ c. p c ≡ true) s → all_of p s ≡ true
unfolding all_of
All-all_of p [] h = refl
All-all_of p (c ∷ s) h = ground (arith, All-all_of p s h.1)

-- One character class and another: what is matched holds no separator.
local_no_at : (c : ℕ) → is_local c ≡ true → c ≢ 0x40
unfolding is_local is_alnum member
local_no_at c h = ground arith

ends_label_no_dot : (s : List ℕ) → ends_label s ≡ true → Lacks 0x2e s
unfolding ends_label is_inner is_alnum
ends_label_no_dot [] h = tt
ends_label_no_dot (c ∷ []) h = (ground arith, tt)
ends_label_no_dot (c ∷ d ∷ s) h = (ground arith, ends_label_no_dot (d ∷ s) (ground arith))

label_no_dot : (s : List ℕ) → is_label s ≡ true → Lacks 0x2e s
unfolding is_label is_alnum
label_no_dot [] h = tt
label_no_dot (c ∷ s) h = (ground arith, ends_label_no_dot s (ground arith))

all_labels-All : (ls : List (List ℕ)) → all_labels ls ≡ true → All (λ l. is_label l ≡ true) ls
unfolding all_labels
all_labels-All [] h = tt
all_labels-All (l ∷ ls) h = (ground arith, all_labels-All ls (ground arith))

All-all_labels : (ls : List (List ℕ)) → All (λ l. is_label l ≡ true) ls → all_labels ls ≡ true
unfolding all_labels
All-all_labels [] h = refl
All-all_labels (l ∷ ls) h = ground (arith, All-all_labels ls h.1)

-- The shape that the regular expression describes: at least one local character, `@`, and labels
-- joined by dots.
pub record IsEmail (s : List ℕ) : Type 0 where
  pub first : ℕ
  pub rest : List ℕ
  pub label : List ℕ
  pub labels : List (List ℕ)
  pub local : All (λ c. is_local c ≡ true) (first ∷ rest)
  pub domain : All IsLabel (label ∷ labels)
  pub shape : s ≡ (first ∷ rest) ++ 0x40 ∷ join 0x2e (label ∷ labels)

match-IsEmail :
    (s : List ℕ) (o : Option (List ℕ × List ℕ)) → cut 0x40 s ≡ o → parts_match o ≡ true → IsEmail s
unfolding parts_match
match-IsEmail s none q h = cc
match-IsEmail s (some ([], domain)) q h = cc
match-IsEmail s (some (c ∷ rest, domain)) q h =
    let (l, (ls, e)) = split-cons 0x2e domain in
    let labelled : all_labels (split 0x2e domain) ≡ true = ground arith in
    record {
      first = c;
      rest = rest;
      label = l;
      labels = ls;
      local = (ground arith, all_of-All is_local rest (ground arith));
      domain =
          All-imp _ IsLabel is_label-IsLabel (l ∷ ls)
            (subst (All (λ m. is_label m ≡ true)) e (all_labels-All (split 0x2e domain) labelled));
      shape =
          cut-eq-some 0x40 s (c ∷ rest) domain q
          ∙ ap (λ (d : List ℕ). (c ∷ rest) ++ 0x40 ∷ d)
              (sym (join-split 0x2e domain) ∙ ap (join 0x2e) e);
    }

IsEmail-match : (s : List ℕ) → IsEmail s → parts_match (cut 0x40 s) ≡ true
unfolding parts_match
IsEmail-match s m =
    let parts = m.label ∷ m.labels in
    let no_at = All-imp _ _ local_no_at (m.first ∷ m.rest) m.local in
    let labelled = All-imp IsLabel (λ l. is_label l ≡ true) IsLabel-is_label parts m.domain in
    let no_dot = All-imp _ _ label_no_dot parts labelled in
    let domain = split-join 0x2e m.label m.labels no_dot in
    let local = m.local.0 in
    let rest = All-all_of is_local m.rest m.local.1 in
    let labels = All-all_labels parts labelled in
    rw (m.shape, cut-append 0x40 (m.first ∷ m.rest) (join 0x2e parts) no_at, local, rest, domain)
      labels

-- A text is taken for an email exactly if it is made of one or more of the characters allowed
-- before the `@`, the `@`, and one or more labels joined by dots: a letter or digit, or two of them
-- with at most 61 letters, digits and `-` between.
pub is_valid_email_iff : (email : String) → (is_valid_email email ≡ true) ↔ IsEmail (codes email)
unfolding is_valid_email
is_valid_email_iff email =
    (λ h. match-IsEmail (codes email) _ refl h, λ m. IsEmail-match (codes email) m)

-- Where hashes have no `@`, no reported subject is an email.
pub hide_email_lem :
    (hash_sub : String → String)
    → ((s : String) → All (λ c. c ≢ 0x40) (codes (hash_sub s)))
    → (sub : String) → is_valid_email (hide_email hash_sub sub) ≡ false
unfolding is_valid_email hide_email
hide_email_lem hash_sub no_at sub = elim (Bool-cases (is_valid_email sub)) [
  | inl e ↦ rw (hide_email, e, cut-none 0x40 (codes (hash_sub sub)) (no_at sub)) refl
  | inr e ↦ rw (hide_email, e) e
]
