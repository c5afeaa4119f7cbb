-- ===== src/Server/Email.antt =====
-- `emailRegexp` with `isValidEmail`, and `hashSub` (server/utils.go).
pub mod Labels
pub mod Accepts
use kustomer.Common.{
  ℕ, String, Bool, true, false, ◌&&◌, ◌||◌, Option, none, some, List, [], ◌∷◌, leb, ◌==◌, length,
  if◌then◌else◌,
}
use kustomer.Common.Text.{codes, cut, split}

-- `[a-zA-Z0-9]`
unfoldable pub is_alnum : ℕ → Bool
is_alnum c = leb 0x61 c && leb c 0x7a || leb 0x41 c && leb c 0x5a || leb 0x30 c && leb c 0x39

member : ℕ → List ℕ → Bool
member c [] = false
member c (d ∷ ds) = c == d || member c ds

-- `.!#$%&'*+/=?^_`{|}~-`
abbrev punctuation : List ℕ
punctuation =
    b'.' ∷ b'!' ∷ b'#' ∷ b'$' ∷ b'%' ∷ b'&' ∷ 0x27 ∷ b'*' ∷ b'+' ∷ b'/' ∷ b'=' ∷ b'?' ∷ b'^' ∷ b'_'
    ∷ 0x60 ∷ b'{' ∷ b'|' ∷ b'}' ∷ b'~' ∷ b'-' ∷ []

-- The characters before the `@`.
unfoldable pub is_local : ℕ → Bool
unfolding is_alnum member
is_local c = is_alnum c || member c punctuation

all_of : (ℕ → Bool) → List ℕ → Bool
all_of p [] = true
all_of p (c ∷ s) = p c && all_of p s

-- `[a-zA-Z0-9-]`
unfoldable pub is_inner : ℕ → Bool
unfolding is_alnum
is_inner c = is_alnum c || c == b'-'

-- The rest of a label: its last character is no `-`.
ends_label : List ℕ → Bool
unfolding is_alnum is_inner
ends_label [] = true
ends_label (c ∷ []) = is_alnum c
ends_label (c ∷ d ∷ s) = is_inner c && ends_label (d ∷ s)

-- `[a-zA-Z0-9](?:[a-zA-Z0-9-]{0,61}[a-zA-Z0-9])?`: at most 63 characters.
unfoldable pub is_label : List ℕ → Bool
unfolding is_alnum ends_label
is_label [] = false
is_label (c ∷ s) = is_alnum c && ends_label s && leb (length s) 62

all_labels : List (List ℕ) → Bool
all_labels [] = true
all_labels (l ∷ ls) = is_label l && all_labels ls

-- The parts of a match: something before the `@`, and labels joined by dots behind it. Neither
-- part can hold an `@`, and no label can hold a dot, so the parts are those at the first `@` and
-- at every dot.
parts_match : Option (List ℕ × List ℕ) → Bool
parts_match none = false
parts_match (some ([], domain)) = false
parts_match (some (c ∷ local, domain)) =
    is_local c && all_of is_local local && all_labels (split b'.' domain)

unfoldable pub is_valid_email : String → Bool
unfolding is_local all_of is_label all_labels parts_match
is_valid_email email = parts_match (cut b'@' (codes email))

-- The subject as it is reported: hashed if it is an email. `hash_sub` is the hexadecimal SHA-256
-- of its argument, a parameter.
unfoldable pub hide_email : (hash_sub : String → String) → String → String
hide_email hash_sub sub = if is_valid_email sub then hash_sub sub else sub
