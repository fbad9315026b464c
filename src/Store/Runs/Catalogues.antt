-- ===== src/Store/Runs/Catalogues.antt =====
-- core/store.py: a list of observations as a catalogue.
use smartwatch_clank.Base.{
  String, ◌≡◌, refl, ap, ◌∙◌, sym, Option, none, some, List, [], ◌∷◌, put, lookup, NodupKeys,
  put-NodupKeys, lookup-put, sort_by, keep_if-sort_by, keep_if, ◌==◌, string_eq, arith, eq_iff,
}
use smartwatch_clank.Models.{Observation}
use smartwatch_clank.Diff.{Catalogue}
use smartwatch_clank.Diff.Exact.{IsKeyed}
use smartwatch_clank.Store.Runs.{index_onto, by_identity}

put-IsKeyed : (o : Observation) (d : Catalogue) → IsKeyed d → IsKeyed (put o.identity o d)
unfolding put
put-IsKeyed o [] h = (refl, tt)
put-IsKeyed o ((k, v) ∷ d) h = ground (arith, put-IsKeyed o d h.1)

index_onto-IsKeyed : (os : List Observation) (d : Catalogue) → IsKeyed d → IsKeyed (index_onto d os)
unfolding index_onto
index_onto-IsKeyed [] d h = h
index_onto-IsKeyed (o ∷ os) d h = index_onto-IsKeyed os (put o.identity o d) (put-IsKeyed o d h)

index_onto-NodupKeys :
    (os : List Observation) (d : Catalogue) → NodupKeys d → NodupKeys (index_onto d os)
unfolding index_onto
index_onto-NodupKeys [] d h = h
index_onto-NodupKeys (o ∷ os) d h =
    index_onto-NodupKeys os (put o.identity o d) (put-NodupKeys o.identity o d h)

pub by_identity-IsKeyed : (os : List Observation) → IsKeyed (by_identity os)
unfolding by_identity
by_identity-IsKeyed os = index_onto-IsKeyed os [] tt

pub by_identity-NodupKeys : (os : List Observation) → NodupKeys (by_identity os)
unfolding by_identity
by_identity-NodupKeys os = index_onto-NodupKeys os [] tt

-- the last of a list, or what was there before
abbrev pub last_of : Option Observation → List Observation → Option Observation
last_of x [] = x
last_of x (o ∷ os) = last_of (some o) os

lookup-index_onto :
    (k : String) (os : List Observation) (d : Catalogue)
    → lookup k (index_onto d os) ≡ last_of (lookup k d) (keep_if (λ o. o.identity == k) os)
unfolding index_onto
lookup-index_onto k [] d = refl
lookup-index_onto k (o ∷ os) d = ground (
  arith,
  lookup-index_onto k os (put o.identity o d),
  lookup-put o.identity k o d,
  eq_iff o.identity k,
)

-- A catalogue holds the last observation of each identity.
pub lookup-by_identity :
    (k : String) (os : List Observation)
    → lookup k (by_identity os) ≡ last_of none (keep_if (λ o. o.identity == k) os)
unfolding by_identity lookup
lookup-by_identity k os = lookup-index_onto k os []

-- Sorting by the identity first makes no difference to what is found.
pub lookup-sorted :
    (k : String) (os : List Observation)
    → lookup k (by_identity (sort_by (λ o. o.identity) os)) ≡ lookup k (by_identity os)
lookup-sorted k os =
    lookup-by_identity k (sort_by (λ o. o.identity) os)
    ∙ ap (last_of none) (keep_if-sort_by (λ o. o.identity) k os)
    ∙ sym (lookup-by_identity k os)
