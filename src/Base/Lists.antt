-- ===== src/Base/Lists.antt =====
-- Lists measured by native numbers, and the loops of Python's comprehensions.
use Prim.Native.Nat.{ℕ, suc, ◌+◌, ◌≤◌}
use mathlib.Core.Path.{◌≡◌, refl}
use mathlib.Core.Bool.{Bool, true, false, ◌&&◌, ◌||◌}
use mathlib.Core.Option.{Option, none, some}
use mathlib.Core.List.{List, [], ◌∷◌, ◌++◌}
use native.Mathlib.Omega.{arith}
use smartwatch_clank.Base.Tests.{if◌then◌else◌}

module _ {ℓ} {A : Type ℓ} where
  abbrev pub length : List A → ℕ
  length [] = 0
  length (x ∷ xs) = suc (length xs)

  -- `[x for x in xs if p(x)]`
  abbrev pub keep_if : (A → Bool) → List A → List A
  keep_if p [] = []
  keep_if p (x ∷ xs) = let rest = keep_if p xs in if p x then x ∷ rest else rest

  -- the first element that passes
  abbrev pub find_first : (A → Bool) → List A → Option A
  find_first p [] = none
  find_first p (x ∷ xs) = let rest = find_first p xs in if p x then some x else rest

  abbrev pub any_of : (A → Bool) → List A → Bool
  any_of p [] = false
  any_of p (x ∷ xs) = p x || any_of p xs

  abbrev pub all_of : (A → Bool) → List A → Bool
  all_of p [] = true
  all_of p (x ∷ xs) = p x && all_of p xs

  abbrev pub count_if : (A → Bool) → List A → ℕ
  count_if p [] = 0
  count_if p (x ∷ xs) = let rest = count_if p xs in if p x then suc rest else rest

  -- A predicate of every element, as a tuple that the tactics read.
  abbrev pub All {κ} : (A → Type κ) → List A → Type κ
  All P [] = Unit
  All P (x ∷ xs) = P x × All P xs

  pub All-append {κ} : (P : A → Type κ) (xs ys : List A) → All P xs → All P ys → All P (xs ++ ys)
  All-append P [] ys hx hy = hy
  All-append P (x ∷ xs) ys hx hy = (hx.0, All-append P xs ys hx.1 hy)

  pub All-map {κ μ} :
      (P : A → Type κ) (Q : A → Type μ) (xs : List A) → ((x : A) → P x → Q x) → All P xs → All Q xs
  All-map P Q [] f h = tt
  All-map P Q (x ∷ xs) f h = (f x h.0, All-map P Q xs f h.1)

  pub All-keep_if {κ} :
      (P : A → Type κ) (p : A → Bool) (xs : List A) → All P xs → All P (keep_if p xs)
  All-keep_if P p [] h = tt
  All-keep_if P p (x ∷ xs) h = ground (arith, All-keep_if P p xs h.1)

  pub keep_if-passes : (p : A → Bool) (xs : List A) → All (λ x. p x ≡ true) (keep_if p xs)
  keep_if-passes p [] = tt
  keep_if-passes p (x ∷ xs) = ground (arith, keep_if-passes p xs)

  pub keep_if-append :
      (p : A → Bool) (xs ys : List A) → keep_if p (xs ++ ys) ≡ keep_if p xs ++ keep_if p ys
  keep_if-append p [] ys = refl
  keep_if-append p (x ∷ xs) ys = ground (arith, keep_if-append p xs ys)

  pub keep_if_comm :
      (p q : A → Bool) (xs : List A) → keep_if p (keep_if q xs) ≡ keep_if q (keep_if p xs)
  keep_if_comm p q [] = refl
  keep_if_comm p q (x ∷ xs) = ground (arith, keep_if_comm p q xs)

  pub length-append : (xs ys : List A) → length (xs ++ ys) ≡ length xs + length ys
  length-append [] ys = omega arith
  length-append (x ∷ xs) ys = omega (arith, length-append xs ys)

  pub length-keep_if-le : (p : A → Bool) (xs : List A) → length (keep_if p xs) ≤ length xs
  length-keep_if-le p [] = omega arith
  length-keep_if-le p (x ∷ xs) = ground (arith, length-keep_if-le p xs)

module _ {ℓ κ} {A : Type ℓ} {B : Type κ} where
  -- the items that a loop appends, in order
  abbrev pub collect : (A → List B) → List A → List B
  collect f [] = []
  collect f (x ∷ xs) = f x ++ collect f xs

  -- To select among what a loop appends is to select among what it runs over, where the two
  -- selections agree item by item.
  pub keep_if-collect :
      (p : B → Bool) (q : A → Bool) (f : A → List B) (xs : List A)
      → All (λ x. keep_if p (f x) ≡ (if q x then f x else [])) xs
      → keep_if p (collect f xs) ≡ collect f (keep_if q xs)
  keep_if-collect p q f [] h = refl
  keep_if-collect p q f (x ∷ xs) h =
      ground (arith, h.0, keep_if-append p (f x) (collect f xs), keep_if-collect p q f xs h.1)
