-- ===== src/Prelude/Sets.antt =====
-- JavaScript's `Set<string>` as the list of its elements in insertion order.
use Prim.Native.String.{String}
use mathlib.Core.Path.{◌≡◌, refl}
use mathlib.Core.Bool.{Bool, true, false, not, ◌||◌}
use mathlib.Core.List.{List, [], ◌∷◌, ◌++◌}
use native.Mathlib.Omega.{arith}
use text.Mathlib.Text.{◌==◌}
use text.Mathlib.TextEquality.{eq_iff}
use apiv.Prelude.Tests.{if◌then◌else◌}
use apiv.Prelude.Lists.{filter}

-- `Array.includes`, `Set.has`
abbrev pub contains : String → List String → Bool
contains k [] = false
contains k (x ∷ xs) = if k == x then true else contains k xs

-- `Set.add`
abbrev pub add : String → List String → List String
add k xs = if contains k xs then xs else xs ++ k ∷ []

-- `Set.delete`
abbrev pub delete : String → List String → List String
delete k xs = filter (λ x. not (k == x)) xs

-- `new Set(array)`, read from the left
abbrev pub set_from : List String → List String → List String
set_from acc [] = acc
set_from acc (x ∷ xs) = set_from (add x acc) xs

abbrev pub to_set : List String → List String
to_set xs = set_from [] xs

pub contains-append :
    (k : String) (xs ys : List String) → contains k (xs ++ ys) ≡ (contains k xs || contains k ys)
contains-append k [] ys = refl
contains-append k (x ∷ xs) ys = ground (arith, contains-append k xs ys)

pub contains-add :
    (k j : String) (xs : List String)
    → contains k (add j xs) ≡ (if k == j then true else contains k xs)
contains-add k j xs = ground (arith, eq_iff k j, contains-append k xs (j ∷ []))

pub contains-delete :
    (k j : String) (xs : List String)
    → contains k (delete j xs) ≡ (if k == j then false else contains k xs)
contains-delete k j [] = ground arith
contains-delete k j (x ∷ xs) =
    ground (arith, contains-delete k j xs, eq_iff k x, eq_iff k j, eq_iff j x)

pub contains-set_from :
    (k : String) (acc xs : List String)
    → contains k (set_from acc xs) ≡ (contains k acc || contains k xs)
contains-set_from k acc [] = ground arith
contains-set_from k acc (x ∷ xs) =
    ground (arith, contains-set_from k (add x acc) xs, contains-add k x acc)

pub contains-to_set : (k : String) (xs : List String) → contains k (to_set xs) ≡ contains k xs
contains-to_set k xs = contains-set_from k [] xs
