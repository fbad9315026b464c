-- ===== src/Base/Result.antt =====
-- Exceptions as values: the kinds that the program raises or tells apart, with their messages.
use Prim.Native.String.{String}
use mathlib.Core.Path.{◌≡◌, refl}
use mathlib.Core.Bool.{Bool, true, false}
use mathlib.Core.Logic.{◌⊎◌, inl, inr}

-- core/health.py: the subclasses of `SourceHealthError`
pub data SourceFailure : Type 0 where
  source_health host_blocked rate_limited parser_failure proxy_unreachable : SourceFailure

pub data Exn : Type 0 where
  catalogue_health_error : String → Exn
  source_health_error : SourceFailure → String → Exn
  value_error : String → Exn
  key_error : String → Exn
  integrity_error : String → Exn
  -- any other exception: its class name and its message
  other_error : (name message : String) → Exn

pub data Result {ℓ} (A : Type ℓ) : Type ℓ where
  ok : A → Result A
  err : Exn → Result A

-- `if fails: raise e`
abbrev pub raise_if : Bool → Exn → Result (Unit {0})
raise_if false e = ok tt
raise_if true e = err e

infixl 5 ◌>>=◌
abbrev pub ◌>>=◌ {μ ν} : {X : Type μ} {Y : Type ν} → Result X → (X → Result Y) → Result Y
err e >>= next = err e
ok x >>= next = next x

-- To split on a computed result and keep the equation.
pub Result-cases {ℓ} :
    {A : Type ℓ} (m : Result A) → ((e : Exn) × (m ≡ err e)) ⊎ ((a : A) × (m ≡ ok a))
Result-cases (ok a) = inr (a, refl)
Result-cases (err e) = inl (e, refl)

pub ok_inj {ℓ} : {A : Type ℓ} (a b : A) → ok a ≡ ok b → a ≡ b
ok_inj a b h = cc

-- `try: m  except Exception as exc: handler(exc)`
abbrev pub recover {ℓ} : {A : Type ℓ} → Result A → (Exn → Result A) → Result A
recover (ok a) handler = ok a
recover (err e) handler = handler e

infixl 5 ◌>>◌
abbrev pub ◌>>◌ {μ} : {Y : Type μ} → Result (Unit {0}) → Result Y → Result Y
first >> second = first >>= λ u. second
