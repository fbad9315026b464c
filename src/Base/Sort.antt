-- ===== src/Base/Sort.antt =====
-- Python's `sorted(..., key=...)` by a key of text: the order of code points, stable.
use Prim.Native.Nat.{suc}
use Prim.Native.String.{String, compare}
use mathlib.Core.Path.{◌≡◌, refl}
use mathlib.Core.Bool.{Bool, true}
use mathlib.Core.List.{List, [], ◌∷◌}
use text.Mathlib.Text.{is_le}
use text.Mathlib.TextEquality.{eq_iff}
use text.Mathlib.TextPositions.{compare_refl}
use native.Mathlib.Omega.{arith}
use smartwatch_clank.Base.Tests.{if◌then◌else◌, ◌==◌, string_eq}
use smartwatch_clank.Base.Lists.{length, All, keep_if}

unfoldable pub before : String → String → Bool
before a b = is_le (compare a b)

before_refl : (a : String) → before a a ≡ true
unfolding before
before_refl a = rw (compare_refl a)

module _ {ℓ} {A : Type ℓ} (key : A → String) where
  unfoldable pub insert_by : A → List A → List A
  unfolding before
  insert_by a [] = a ∷ []
  insert_by a (x ∷ xs) =
      let rest = insert_by a xs in if before (key a) (key x) then a ∷ x ∷ xs else x ∷ rest

  unfoldable pub sort_by : List A → List A
  unfolding insert_by
  sort_by [] = []
  sort_by (x ∷ xs) = insert_by x (sort_by xs)

  pub All-insert_by {κ} :
      (P : A → Type κ) (a : A) (xs : List A) → P a → All P xs → All P (insert_by a xs)
  unfolding insert_by
  All-insert_by P a [] p h = (p, tt)
  All-insert_by P a (x ∷ xs) p h = ground (arith, All-insert_by P a xs p h.1)

  pub All-sort_by {κ} : (P : A → Type κ) (xs : List A) → All P xs → All P (sort_by xs)
  unfolding sort_by
  All-sort_by P [] h = tt
  All-sort_by P (x ∷ xs) h = All-insert_by P x (sort_by xs) h.0 (All-sort_by P xs h.1)

  pub length-insert_by : (a : A) (xs : List A) → length (insert_by a xs) ≡ suc (length xs)
  unfolding insert_by
  length-insert_by a [] = refl
  length-insert_by a (x ∷ xs) = ground (arith, length-insert_by a xs)

  pub length-sort_by : (xs : List A) → length (sort_by xs) ≡ length xs
  unfolding sort_by
  length-sort_by [] = refl
  length-sort_by (x ∷ xs) = omega (arith, length-insert_by x (sort_by xs), length-sort_by xs)

  -- A selection by the key sees the elements in the order that they had.
  keep_if-insert_by :
      (k : String) (a : A) (xs : List A)
      → keep_if (λ x. key x == k) (insert_by a xs) ≡ keep_if (λ x. key x == k) (a ∷ xs)
  unfolding insert_by
  keep_if-insert_by k a [] = refl
  keep_if-insert_by k a (x ∷ xs) =
      ground (arith, keep_if-insert_by k a xs, eq_iff (key a) k, eq_iff (key x) k, before_refl k)

  pub keep_if-sort_by :
      (k : String) (xs : List A)
      → keep_if (λ x. key x == k) (sort_by xs) ≡ keep_if (λ x. key x == k) xs
  unfolding sort_by
  keep_if-sort_by k [] = refl
  keep_if-sort_by k (x ∷ xs) =
      ground (arith, keep_if-insert_by k x (sort_by xs), keep_if-sort_by k xs)
