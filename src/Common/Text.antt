-- ===== src/Common/Text.antt =====
-- Texts as lists of code points, and cutting a list at a separator (Go's `strings.SplitN` with a
-- limit of two, and `strings.Split`).
pub mod Parts
use Prim.Native.Char.{code}
use Prim.Native.String.{String}
use Prim.Native.Nat.{ℕ}
use mathlib.Core.Bool.{true, false}
use mathlib.Core.Option.{Option, none, some}
use mathlib.Core.List.{List, [], ◌∷◌}
use kustomer.Common.Tests.{◌==◌, if◌then◌else◌}

-- The code points of a text. `String` has its own `[]` and `∷`.
abbrev pub codes : String → List ℕ
codes String.[] = []
codes (String.◌∷◌ c s) = code c ∷ codes s

before : {A : Type 0} → A → Option (List A × List A) → Option (List A × List A)
before a none = none
before a (some (xs, ys)) = some (a ∷ xs, ys)

-- The parts before and after the first separator, if there is one.
unfoldable pub cut : ℕ → List ℕ → Option (List ℕ × List ℕ)
unfolding before
cut sep [] = none
cut sep (c ∷ s) = if c == sep then some ([], s) else before c (cut sep s)

first_part : ℕ → List (List ℕ) → List (List ℕ)
first_part c [] = (c ∷ []) ∷ []
first_part c (p ∷ ps) = (c ∷ p) ∷ ps

-- All parts between the separators.
unfoldable pub split : ℕ → List ℕ → List (List ℕ)
unfolding first_part
split sep [] = [] ∷ []
split sep (c ∷ s) = if c == sep then [] ∷ split sep s else first_part c (split sep s)
