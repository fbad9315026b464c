-- ===== src/Base/Maps.antt =====
-- Python's `dict` with keys of text, in insertion order.
use Prim.Native.String.{String}
use mathlib.Core.Path.{◌≡◌, refl}
use mathlib.Core.Bool.{Bool, true, false}
use mathlib.Core.Option.{Option, none, some}
use mathlib.Core.List.{List, [], ◌∷◌}
use native.Mathlib.Omega.{arith}
use text.Mathlib.TextEquality.{eq_iff}
use smartwatch_clank.Base.Lists.{keep_if}
use smartwatch_clank.Base.Tests.{◌==◌, string_eq, if◌then◌else◌}

abbrev pub Dict {ℓ} : Type ℓ → Type ℓ
Dict V = List (String × V)

module _ {ℓ} {V : Type ℓ} where
  unfoldable pub lookup : String → Dict V → Option V
  lookup k [] = none
  lookup k ((j, v) ∷ d) = if j == k then some v else lookup k d

  unfoldable pub has_key : String → Dict V → Bool
  has_key k [] = false
  has_key k ((j, v) ∷ d) = if j == k then true else has_key k d

  -- `d[k] = v`
  unfoldable pub put : String → V → Dict V → Dict V
  put k v [] = (k, v) ∷ []
  put k v ((j, w) ∷ d) = if j == k then (k, v) ∷ d else (j, w) ∷ put k v d

  pub lookup-put :
      (k j : String) (v : V) (d : Dict V)
      → lookup j (put k v d) ≡ (if k == j then some v else lookup j d)
  unfolding lookup put
  lookup-put k j v [] = refl
  lookup-put k j v ((i, w) ∷ d) =
      ground (arith, eq_iff k j, eq_iff i k, eq_iff i j, lookup-put k j v d)

  pub has_key-put :
      (k j : String) (v : V) (d : Dict V)
      → has_key j (put k v d) ≡ (if k == j then true else has_key j d)
  unfolding has_key put
  has_key-put k j v [] = refl
  has_key-put k j v ((i, w) ∷ d) =
      ground (arith, eq_iff k j, eq_iff i k, eq_iff i j, has_key-put k j v d)

  -- the keys of a dict are distinct
  abbrev pub NodupKeys : Dict V → Type 0
  NodupKeys [] = Unit
  NodupKeys ((k, _) ∷ d) = (has_key k d ≡ false) × NodupKeys d

  pub put-NodupKeys : (k : String) (v : V) (d : Dict V) → NodupKeys d → NodupKeys (put k v d)
  unfolding put has_key
  put-NodupKeys k v [] h = (refl, tt)
  put-NodupKeys k v ((j, w) ∷ d) h =
      ground (arith, put-NodupKeys k v d h.1, has_key-put k j v d, eq_iff k j, eq_iff j k)

  pub has_key-eq-lookup :
      (k : String) (d : Dict V) → has_key k d ≡ elim (lookup k d) [ none ↦ false | some _ ↦ true ]
  unfolding lookup has_key
  has_key-eq-lookup k [] = refl
  has_key-eq-lookup k ((j, v) ∷ d) = ground (arith, has_key-eq-lookup k d)

  -- the entries of one key
  abbrev pub entry_of : String → Option V → List (String × V)
  entry_of k none = []
  entry_of k (some v) = (k, v) ∷ []

  pub keep_if-absent :
      (k : String) (d : Dict V) → has_key k d ≡ false → keep_if (λ e. e.0 == k) d ≡ []
  unfolding has_key
  keep_if-absent k [] h = refl
  keep_if-absent k ((j, v) ∷ d) h = ground (arith, keep_if-absent k d)

  pub keep_if-key :
      (k : String) (d : Dict V) → NodupKeys d → keep_if (λ e. e.0 == k) d ≡ entry_of k (lookup k d)
  unfolding lookup has_key
  keep_if-key k [] h = refl
  keep_if-key k ((j, v) ∷ d) h = ground (arith, keep_if-key k d h.1, eq_iff j k, keep_if-absent k d)
