-- ===== src/Base/Json.antt =====
-- The values of `dict[str, Any]`: JSON documents. An object keeps its members in the order of the
-- keys, which is how the program writes them (`sort_keys=True`), so that `==` is member by member.
use Prim.Native.Nat.{ℕ}
use Prim.Native.String.{String}
use text.Mathlib.TextPositions.{eq_refl}
use mathlib.Core.Path.{◌≡◌, refl, ap, ap₂}
use mathlib.Core.Logic.{◌↔◌}
use mathlib.Core.Bool.{Bool, true, false, ◌&&◌}
use mathlib.Core.Option.{Option, none, some}
use mathlib.Core.List.{List, [], ◌∷◌}
use native.Mathlib.Omega.{arith}
use text.Mathlib.TextEquality.{eq_iff}
use smartwatch_clank.Base.Sort.{before}
use smartwatch_clank.Base.Tests.{
  ◌==◌, Eq, nat_eq, nat_beq_iff, bool_beq, bool_beq_iff, string_eq, beq_refl, if◌then◌else◌,
}

mutual
  pub data Json : Type 0 where
    null : Json
    bool : Bool → Json
    -- an integer that is not negative
    int : ℕ → Json
    -- any other number, by its text
    num : String → Json
    str : String → Json
    arr : Items → Json
    obj : Fields → Json

  pub data Items : Type 0 where
    nil : Items
    cons : Json → Items → Items

  pub data Fields : Type 0 where
    end : Fields
    field : String → Json → Fields → Fields

unfoldable mutual
  pub json_beq : Json → Json → Bool
  json_beq null null = true
  json_beq (bool a) (bool b) = bool_beq a b
  json_beq (int a) (int b) = a == b
  json_beq (num a) (num b) = a == b
  json_beq (str a) (str b) = a == b
  json_beq (arr xs) (arr ys) = items_beq xs ys
  json_beq (obj xs) (obj ys) = fields_beq xs ys
  json_beq _ _ = false

  pub items_beq : Items → Items → Bool
  items_beq nil nil = true
  items_beq (cons x xs) (cons y ys) = json_beq x y && items_beq xs ys
  items_beq _ _ = false

  pub fields_beq : Fields → Fields → Bool
  fields_beq end end = true
  fields_beq (field j x xs) (field k y ys) = j == k && (json_beq x y && fields_beq xs ys)
  fields_beq _ _ = false

nat_beq_sound : (a b : ℕ) → (a == b) ≡ true → a ≡ b
nat_beq_sound a b h = (nat_beq_iff a b).0 h

both : (a b : Bool) → (a && b) ≡ true → (a ≡ true) × (b ≡ true)
both a b h = ground arith

fields_path :
    {j k : String} {x y : Json} {xs ys : Fields}
    → j ≡ k
    → x ≡ y
    → xs ≡ ys
    → field j x xs ≡ field k y ys
fields_path p q r = cc

-- Equal by the test means equal.
mutual
  unfolding json_beq items_beq fields_beq

  json_sound : (a b : Json) → json_beq a b ≡ true → a ≡ b
  json_sound null null h = refl
  json_sound (bool x) (bool y) h = ap bool ((bool_beq_iff x y).0 h)
  json_sound (int x) (int y) h = ap int (nat_beq_sound x y h)
  json_sound (num x) (num y) h = ap num ((eq_iff x y).0 h)
  json_sound (str x) (str y) h = ap str ((eq_iff x y).0 h)
  json_sound (arr xs) (arr ys) h = ap arr (items_sound xs ys h)
  json_sound (obj xs) (obj ys) h = ap obj (fields_sound xs ys h)
  json_sound _ _ h = cc

  items_sound : (a b : Items) → items_beq a b ≡ true → a ≡ b
  items_sound nil nil h = refl
  items_sound (cons x xs) (cons y ys) h =
      let (p, q) = both _ _ h in ap₂ cons (json_sound x y p) (items_sound xs ys q)
  items_sound _ _ h = cc

  fields_sound : (a b : Fields) → fields_beq a b ≡ true → a ≡ b
  fields_sound end end h = refl
  fields_sound (field j x xs) (field k y ys) h =
      fields_path ((eq_iff j k).0 (both (j == k) (json_beq x y && fields_beq xs ys) h).0)
        (json_sound x y (both _ _ (both (j == k) _ h).1).0)
        (fields_sound xs ys (both (json_beq x y) _ (both (j == k) _ h).1).1)
  fields_sound _ _ h = cc

-- A value is equal to itself by the test.
mutual
  unfolding json_beq items_beq fields_beq

  json_refl : (a : Json) → json_beq a a ≡ true
  json_refl null = refl
  json_refl (bool true) = refl
  json_refl (bool false) = refl
  json_refl (int x) = beq_refl x
  json_refl (num x) = eq_refl x
  json_refl (str x) = eq_refl x
  json_refl (arr xs) = items_refl xs
  json_refl (obj xs) = fields_refl xs

  items_refl : (a : Items) → items_beq a a ≡ true
  items_refl nil = refl
  items_refl (cons x xs) = rw (json_refl x) (items_refl xs)

  fields_refl : (a : Fields) → fields_beq a a ≡ true
  fields_refl end = refl
  fields_refl (field j x xs) = rw (eq_refl j) (rw (json_refl x) (fields_refl xs))

pub json_beq_iff : (a b : Json) → (json_beq a b ≡ true) ↔ (a ≡ b)
json_beq_iff a b = (json_sound a b, λ e. rw e (json_refl b))

pub fields_beq_iff : (a b : Fields) → (fields_beq a b ≡ true) ↔ (a ≡ b)
fields_beq_iff a b = (fields_sound a b, λ e. rw e (fields_refl b))

instance abbrev pub json_eq : Eq Json
json_eq = record { beq = json_beq; beq_iff = json_beq_iff }

instance abbrev pub fields_eq : Eq Fields
fields_eq = record { beq = fields_beq; beq_iff = fields_beq_iff }

-- `d.get(k)`
unfoldable pub member : String → Fields → Option Json
member k end = none
member k (field j v fs) = if j == k then some v else member k fs

-- A text or `None`.
abbrev pub opt_str : Option String → Json
opt_str none = null
opt_str (some s) = str s

abbrev pub items : List Json → Items
items [] = nil
items (x ∷ xs) = cons x (items xs)

-- `d[k] = v`
unfoldable pub set_member : String → Json → Fields → Fields
unfolding before
set_member k v end = field k v end
set_member k v (field j w fs) =
    let rest = set_member k v fs in
    if j == k then field k v fs else if before k j then field k v (field j w fs) else field j w rest
