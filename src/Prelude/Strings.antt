-- ===== src/Prelude/Strings.antt =====
-- Texts as the code uses them: concatenation, truthiness, trimming and maps keyed by text.
use Prim.Native.Char.{Char, code}
use Prim.Native.String
use Prim.Native.String.{String}
use mathlib.Core.Path.{◌≡◌, refl}
use mathlib.Core.Bool.{Bool, ◌&&◌, ◌||◌}
use mathlib.Core.List.{List, [], ◌∷◌}
use mathlib.Core.Option.{Option, none, some}
use native.Mathlib.Omega.{arith}
use text.Mathlib.Text.{◌==◌}
use apiv.Prelude.Tests.{if◌then◌else◌, nat_eq, leb}

-- A template literal: its pieces, joined.
abbrev pub join : List String → String
join [] = ""
join (x ∷ xs) = String.◌++◌ x (join xs)

-- `if (text)`: null and the empty text are falsy.
abbrev pub truthy : Option String → Option String
truthy none = none
truthy (some t) = if t == "" then none else some t

-- A `Map`, or the rows of a key-value store.
module _ {V : Type 0} where
  abbrev pub lookup : String → List (String × V) → Option V
  lookup k [] = none
  lookup k ((j, v) ∷ m) = if k == j then some v else lookup k m

  abbrev pub erase : String → List (String × V) → List (String × V)
  erase k [] = []
  erase k ((j, v) ∷ m) = if k == j then erase k m else (j, v) ∷ erase k m

  pub lookup-erase_self : (k : String) (m : List (String × V)) → lookup k (erase k m) ≡ none
  lookup-erase_self k [] = refl
  lookup-erase_self k ((j, v) ∷ m) = ground (arith, lookup-erase_self k m)

-- `String.prototype.trim`: the white space and line terminators of the language's definition.
abbrev is_space : Char → Bool
is_space c =
    let n = code c in
    (leb 9 n && leb n 13)
    || (nat_eq n 32 || nat_eq n 160)
    || nat_eq n 5760
    || (leb 8192 n && leb n 8202)
    || (nat_eq n 8232 || nat_eq n 8233)
    || (nat_eq n 8239 || nat_eq n 8287)
    || (nat_eq n 12288 || nat_eq n 65279)

trim_start : String → String
trim_start String.[] = String.[]
trim_start (String.◌∷◌ c s) = let rest = trim_start s in if is_space c then rest else String.◌∷◌ c s

reverse_onto : String → String → String
reverse_onto acc String.[] = acc
reverse_onto acc (String.◌∷◌ c s) = reverse_onto (String.◌∷◌ c acc) s

unfoldable pub trim : String → String
unfolding trim_start reverse_onto
trim s = reverse_onto "" (trim_start (reverse_onto "" (trim_start s)))

trim_both_ends : trim "  a b\t\n" ≡ "a b"
unfolding trim
trim_both_ends = refl
