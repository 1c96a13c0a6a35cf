-- ===== src/Prelude/Counting.antt =====
-- How often a list has elements that pass a test.
use Prim.Native.Nat.{ℕ, suc, ◌+◌}
use mathlib.Core.Path.{◌≡◌}
use mathlib.Core.Bool.{Bool}
use mathlib.Core.List.{List, [], ◌∷◌, ◌++◌}
use native.Mathlib.Omega.{arith}
use scalability_engineering.Prelude.Tests.{if◌then◌else◌}

abbrev pub count {ℓ} : {A : Type ℓ} → (A → Bool) → List A → ℕ
count p [] = 0
count p (x ∷ xs) = let rest = count p xs in if p x then suc rest else rest

pub count-concat {ℓ} :
    {A : Type ℓ} (p : A → Bool) (xs ys : List A) → count p (xs ++ ys) ≡ count p xs + count p ys
count-concat p [] ys = ground arith
count-concat p (x ∷ xs) ys = ground (arith, count-concat p xs ys)

-- What sort.Slice and ORDER BY have in common: the same elements in another order.
abbrev pub Rearranges {ℓ} : {A : Type ℓ} → (List A → List A) → Type ℓ
Rearranges {A} sort = (p : A → Bool) (xs : List A) → count p (sort xs) ≡ count p xs
