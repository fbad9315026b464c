-- ===== src/Platform.antt =====
-- What the program takes from Python's standard library and from the host, where its own code does
-- not say what comes out: digests, the text of dates and numbers, tracebacks.
use smartwatch_clank.Base.{ℕ, String, ◌≡◌, Option, some}
use smartwatch_clank.Base.Json.{Json, Fields}
use smartwatch_clank.Base.Result.{Exn}

-- What `datetime.fromisoformat` returns: an instant with a zone, or a wall clock reading without. An
-- instant is `out_of_range` where its time in UTC is before the year 1 or after the year 9999, so that
-- `astimezone` raises an OverflowError.
pub data Stamp : Type 0 where
  aware : ℕ → Stamp
  naive : ℕ → Stamp
  out_of_range : Stamp

-- An integer, `below n` being -(n + 1).
pub data Signed : Type 0 where
  below : ℕ → Signed
  whole : ℕ → Signed

pub record Platform : Type 0 where
  -- `hashlib.sha256` of `json.dumps(components, sort_keys=True)`, as hexadecimal digits
  pub digest : Fields → String
  -- f"{label}: {current} observations vs {previous} previously ({ratio:.1%})"
  pub describe_counts : (label : String) (current previous : ℕ) → String
  -- `datetime.isoformat` of an instant in UTC
  pub isoformat : ℕ → String
  -- `datetime.fromisoformat`; `none` is its ValueError
  pub fromisoformat : String → Option Stamp
  -- `str` of an integer and of a JSON value
  pub decimal : ℕ → String
  pub show : Json → String
  -- `int` of a text; `none` is its ValueError
  pub read_int : String → Option Signed
  -- "".join(traceback.format_exception(exc)).strip()
  pub traceback : Exn → String

-- Documented behaviour: a digest tells documents apart.
pub record IsCollisionFree (p : Platform) : Type 0 where
  pub digest_injective : (a b : Fields) → p.digest a ≡ p.digest b → a ≡ b

-- Documented behaviour: `fromisoformat` reads what `isoformat` writes.
pub record ReadsDates (p : Platform) : Type 0 where
  pub reads : (t : ℕ) → p.fromisoformat (p.isoformat t) ≡ some (aware t)
