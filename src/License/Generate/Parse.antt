-- ===== src/License/Generate/Parse.antt =====
-- What license/claims-gen.go calls of Go's `strings` and `strconv`: `strings.SplitN` with a limit
-- of two, `strconv.ParseInt` in base 10 with 64 bits, and `strconv.ParseBool`.
use Prim.Native.Char.{Char, code}
use kustomer.Common.{
  ℕ, ◌+◌, ◌-◌, ◌*◌, ◌%◌, ◌^◌, String, Bool, true, false, ◌&&◌, Option, none, some, leb, ◌==◌,
  if◌then◌else◌, ite, string_dec,
}

put_before : Char → Option (String × String) → Option (String × String)
put_before c none = none
put_before c (some (s, t)) = some (String.◌∷◌ c s, t)

-- The texts before and after the first separator, if there is one.
unfoldable pub cut_text : ℕ → String → Option (String × String)
unfolding put_before
cut_text sep String.[] = none
cut_text sep (String.◌∷◌ c s) =
    if code c == sep then some ("", s) else put_before c (cut_text sep s)

-- The number that the digits stand for, behind those that are read.
digits : ℕ → String → Option ℕ
digits n String.[] = some n
digits n (String.◌∷◌ c s) =
    let rest = digits (n * 10 + (code c - 48)) s in
    if leb 48 (code c) && leb (code c) 57 then rest else none

some_digits : String → Option ℕ
some_digits String.[] = none
some_digits s = digits 0 s

-- An int64 by its bit pattern, if the number is in range.
positive : Option ℕ → Option ℕ
positive none = none
positive (some n) = if leb (2 ^ 63) n then none else some n

negative : Option ℕ → Option ℕ
negative none = none
negative (some n) = if leb n (2 ^ 63) then some ((2 ^ 64 - n) % 2 ^ 64) else none

signed : ℕ → String → String → Option ℕ
signed c s all =
    if c == 43
    then positive (some_digits s)
    else if c == 45
    then negative (some_digits s)
    else positive (some_digits all)

unfoldable pub parse_int : String → Option ℕ
unfolding digits some_digits positive negative signed
parse_int String.[] = none
parse_int (String.◌∷◌ c s) = signed (code c) s (String.◌∷◌ c s)

is_true : String → Bool
is_true s = ite (string_dec s "1") true (
    ite (string_dec s "t") true (
      ite (string_dec s "T") true (
        ite (string_dec s "true") true
          (ite (string_dec s "TRUE") true (ite (string_dec s "True") true false)))))

is_false : String → Bool
is_false s = ite (string_dec s "0") true (
    ite (string_dec s "f") true (
      ite (string_dec s "F") true (
        ite (string_dec s "false") true
          (ite (string_dec s "FALSE") true (ite (string_dec s "False") true false)))))

unfoldable pub parse_bool : String → Option Bool
unfolding is_true is_false
parse_bool s = if is_true s then some true else if is_false s then some false else none
