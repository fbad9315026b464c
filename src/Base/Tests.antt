-- ===== src/Base/Tests.antt =====
-- Boolean tests, the conditional, and equality as an interface with an instance for each type that
-- the program compares.
use Prim.Native.Nat.{ℕ, ◌≤◌, ◌<◌, compare, Ordering}
use Prim.Native.String.{String}
use mathlib.Core.Path.{◌≡◌, refl}
use mathlib.Core.Logic.{◌↔◌, ◌⊎◌, inl, inr}
use mathlib.Core.Bool.{Bool, true, false, ◌||◌}
use mathlib.Core.Option.{Option, none, some}
use mathlib.Core.List.{List, [], ◌∷◌}
use native.Mathlib.Omega.{arith}
use text.Mathlib.Text
use text.Mathlib.TextEquality.{eq_iff}

abbrev pub ltb : ℕ → ℕ → Bool
ltb a b = elim (compare a b) [ Ordering.lt ↦ true | _ ↦ false ]

abbrev pub leb : ℕ → ℕ → Bool
leb a b = elim (compare a b) [ Ordering.gt ↦ false | _ ↦ true ]

infix 1 if◌then◌else◌
abbrev pub if◌then◌else◌ {ℓ} : {A : Type ℓ} → Bool → A → A → A
if true then x else y = x
if false then x else y = y

abbrev nat_beq : ℕ → ℕ → Bool
nat_beq a b = elim (compare a b) [ Ordering.eq ↦ true | _ ↦ false ]

pub nat_beq_iff : (a b : ℕ) → (nat_beq a b ≡ true) ↔ (a ≡ b)
nat_beq_iff a b = ground arith

pub ltb→lt : (a b : ℕ) → ltb a b ≡ true → a < b
ltb→lt a b h = ground arith

pub leb→le : (a b : ℕ) → leb a b ≡ true → a ≤ b
leb→le a b h = ground arith

-- To split on a computed value and keep the equation.
pub Bool-cases : (b : Bool) → (b ≡ true) ⊎ (b ≡ false)
Bool-cases true = inl refl
Bool-cases false = inr refl

pub Option-cases {ℓ} : {A : Type ℓ} (o : Option A) → (o ≡ none) ⊎ ((a : A) × (o ≡ some a))
Option-cases none = inl refl
Option-cases (some a) = inr (a, refl)

-- Python's `==` on a type.
pub record Eq {κ} (K : Type κ) : Type κ where
  pub beq : K → K → Bool
  pub beq_iff : (x y : K) → (beq x y ≡ true) ↔ (x ≡ y)

abbrev pub bool_beq : Bool → Bool → Bool
bool_beq true b = b
bool_beq false true = false
bool_beq false false = true

pub bool_beq_iff : (a b : Bool) → (bool_beq a b ≡ true) ↔ (a ≡ b)
bool_beq_iff a b = ground arith

instance abbrev pub bool_eq : Eq Bool
bool_eq = record { beq = bool_beq; beq_iff = bool_beq_iff }

-- texts
instance abbrev pub string_eq : Eq String
string_eq = record { beq = Text.◌==◌; beq_iff = eq_iff }

infix 50 ◌==◌
abbrev pub ◌==◌ {κ} : {K : Type κ} ⦃same : Eq K⦄ → K → K → Bool
◌==◌ ⦃same⦄ = same.beq

instance abbrev pub nat_eq : Eq ℕ
nat_eq = record { beq = nat_beq; beq_iff = nat_beq_iff }

module _ {ℓ} {A : Type ℓ} ⦃e : Eq A⦄ where
  abbrev option_beq : Option A → Option A → Bool
  option_beq none none = true
  option_beq none (some b) = false
  option_beq (some a) none = false
  option_beq (some a) (some b) = e.beq a b

  pub option_beq_iff : (a b : Option A) → (option_beq a b ≡ true) ↔ (a ≡ b)
  option_beq_iff none none = ground arith
  option_beq_iff none (some b) = ground arith
  option_beq_iff (some a) none = ground arith
  option_beq_iff (some a) (some b) = ground (arith, e.beq_iff a b)

  instance abbrev pub option_eq : Eq (Option A)
  option_eq = record { beq = option_beq; beq_iff = option_beq_iff }

  pub beq_refl : (a : A) → (a == a) ≡ true
  beq_refl a = (e.beq_iff a a).1 refl

  pub beq_false : (a b : A) → ¬ (a ≡ b) → (a == b) ≡ false
  beq_false a b h = ground (arith, e.beq_iff a b)

  -- `a in xs`
  abbrev pub contains : List A → A → Bool
  contains [] a = false
  contains (x ∷ xs) a = a == x || contains xs a
