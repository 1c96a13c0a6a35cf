-- ===== src/Prelude/GoMap.antt =====
-- Go's built-in maps, as lists of bindings of which the first one counts. Other modules use the
-- laws below.
use Prim.Native.Nat.{ℕ, suc, ◌+◌}
use mathlib.Core.Path.{◌≡◌, refl, ap}
use mathlib.Core.Logic.{ite, inl, inr}
use mathlib.Core.List.{List, [], ◌∷◌}
use mathlib.Core.Option.{Option, none, some}
use native.Mathlib.Omega.{arith}
use scalability_engineering.Prelude.Tests.{Option-cases}

abbrev pub GoMap {ℓ} : Type ℓ → Type ℓ → Type ℓ
GoMap K A = List (K × A)

module _ {ℓ} {K A : Type ℓ} where
  -- `make(map[K]A)`
  abbrev pub empty : GoMap K A
  empty = []

module _ {ℓ} {K A : Type ℓ} (dec : Discrete K) where
  -- `v, ok := m[k]`
  unfoldable pub lookup : K → GoMap K A → Option A
  lookup k [] = none
  lookup k ((j, a) ∷ m) = ite (dec j k) (some a) (lookup k m)

  -- `m[k] = a`
  unfoldable pub insert : K → A → GoMap K A → GoMap K A
  insert k a m = (k, a) ∷ m

  -- `delete(m, k)`
  unfoldable pub delete : K → GoMap K A → GoMap K A
  delete k [] = []
  delete k ((j, a) ∷ m) = ite (dec j k) (delete k m) ((j, a) ∷ delete k m)

  -- `len(m)`: the number of keys
  unfoldable pub size : GoMap K A → ℕ
  size [] = 0
  size ((j, a) ∷ m) = elim (lookup j m) [ none ↦ suc (size m) | some _ ↦ size m ]

  pub lookup-insert :
      (k j : K) (a : A) (m : GoMap K A)
      → lookup j (insert k a m) ≡ ite (dec k j) (some a) (lookup j m)
  unfolding lookup insert
  lookup-insert k j a m = refl

  pub lookup-delete :
      (k j : K) (m : GoMap K A) → lookup j (delete k m) ≡ ite (dec k j) none (lookup j m)
  unfolding lookup delete
  lookup-delete k j [] = ground arith
  lookup-delete k j ((i, a) ∷ m) = ground (arith, lookup-delete k j m)

  pub lookup_of_size-zero : (k : K) (m : GoMap K A) → size m ≡ 0 → lookup k m ≡ none
  unfolding lookup size
  lookup_of_size-zero k [] h = refl
  lookup_of_size-zero k ((j, a) ∷ m) h = elim (Option-cases (lookup j m)) [
    | inl e ↦ absurd (ground arith)
    | inr (b, e) ↦ ground (arith, lookup_of_size-zero j m)
  ]

  pub size-insert_old :
      (k : K) (a b : A) (m : GoMap K A) → lookup k m ≡ some b → size (insert k a m) ≡ size m
  unfolding insert size
  size-insert_old k a b m h = rw (h, size)

  pub size-insert_new :
      (k : K) (a : A) (m : GoMap K A) → lookup k m ≡ none → size (insert k a m) ≡ size m + 1
  unfolding insert size
  size-insert_new k a m h = rw (h, size) (omega arith)

  pub size-delete_absent : (k : K) (m : GoMap K A) → lookup k m ≡ none → size (delete k m) ≡ size m
  unfolding size delete lookup
  size-delete_absent k [] h = refl
  size-delete_absent k ((j, a) ∷ m) h = ground (arith, size-delete_absent k m, lookup-delete k j m)

  pub size-delete :
      (k : K) (b : A) (m : GoMap K A) → lookup k m ≡ some b → size (delete k m) + 1 ≡ size m
  unfolding size delete lookup
  size-delete k b [] h = cc
  size-delete k b ((j, a) ∷ m) h = elim (dec j k) [
    | yes p ↦ elim (Option-cases (lookup k m)) [
      | inl gone ↦
          let same : lookup j m ≡ lookup k m = ap (λ i. lookup i m) p in
          ground (arith, size-delete_absent k m gone, same)
      | inr (c, there) ↦
          let same : lookup j m ≡ lookup k m = ap (λ i. lookup i m) p in
          ground (arith, size-delete k c m there, same)
    ]
    | no p ↦ ground (arith, size-delete k b m, lookup-delete k j m)
  ]
