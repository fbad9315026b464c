-- ===== src/Registry/Isolation.antt =====
-- collectors/registry.py: one OEM's failure to register leaves the others' collectors in place.
use smartwatch_clank.Base.{
  String, ◌≡◌, ◌≢◌, refl, subst, none, some, inl, inr, List, [], ◌∷◌, ◌++◌, Dict, lookup, All,
  All-map, has_key-eq-lookup, lookup-put, beq_refl, string_eq, arith, eq_iff,
}
use smartwatch_clank.Base.Result.{Exn, ok, err, Result-cases}
use smartwatch_clank.Registry.{
  Collector, Registry, register, register_each, build_from, build_registry,
}

register_keeps :
    (c d : Collector) (k : String) (r r' : Registry)
    → lookup k r ≡ some d
    → register c r ≡ ok r'
    → lookup k r' ≡ some d
unfolding register
register_keeps c d k r r' h e =
    ground (arith, has_key-eq-lookup c.name r, lookup-put c.name k c r, eq_iff c.name k)

register_new : (c : Collector) (r r' : Registry) → register c r ≡ ok r' → lookup c.name r' ≡ some c
unfolding register
register_new c r r' e = ground (arith, lookup-put c.name c.name c r, beq_refl c.name)

register_each_keeps :
    (cs : List Collector) (r : Registry) (k : String) (d : Collector)
    → lookup k r ≡ some d
    → lookup k (register_each cs r).0 ≡ some d
unfolding register_each
register_each_keeps [] r k d h = h
register_each_keeps (c ∷ cs) r k d h = elim (Result-cases (register c r)) [
  | inl (e, p) ↦ rw (p, register_each) h
  | inr (r', p) ↦
      rw (p, register_each) (register_each_keeps cs r' k d (register_keeps c d k r r' h p))
]

build_from_keeps :
    (regs : List (String × List Collector)) (r : Registry) (f : Dict Exn) (k : String)
    (d : Collector)
    → lookup k r ≡ some d
    → lookup k (build_from regs r f).0 ≡ some d
unfolding build_from
build_from_keeps [] r f k d h = h
build_from_keeps ((oem, cs) ∷ regs) r f k d h =
    build_from_keeps regs _ _ k d (register_each_keeps cs r k d h)

step_ok :
    (c : Collector) (cs : List Collector) (r r' : Registry)
    → register c r ≡ ok r'
    → register_each cs r' ≡ register_each (c ∷ cs) r
unfolding register_each
step_ok c cs r r' p = rw (p, register_each) refl

step_err :
    (c : Collector) (cs : List Collector) (r : Registry) (e : Exn)
    → register c r ≡ err e
    → (register_each (c ∷ cs) r).1 ≢ none
unfolding register_each
step_err c cs r e p h = cc (rw (p, register_each) at h)

register_each_all :
    (cs : List Collector) (r : Registry)
    → (register_each cs r).1 ≡ none
    → All (λ c. lookup c.name (register_each cs r).0 ≡ some c) cs
unfolding register_each
register_each_all [] r h = tt
register_each_all (c ∷ cs) r h = elim (Result-cases (register c r)) [
  | inl (e, p) ↦ absurd (step_err c cs r e p h)
  | inr (r', p) ↦
      subst (λ t. All (λ d. lookup d.name t.0 ≡ some d) (c ∷ cs)) (step_ok c cs r r' p)
        (
          register_each_keeps cs r' c.name c (register_new c r r' p),
          register_each_all cs r' (rw (step_ok c cs r r' p) h),
        )
]

build_from-append :
    (xs ys : List (String × List Collector)) (r : Registry) (f : Dict Exn)
    → build_from (xs ++ ys) r f ≡ build_from ys (build_from xs r f).0 (build_from xs r f).1
unfolding build_from
build_from-append [] ys r f = refl
build_from-append ((oem, cs) ∷ xs) ys r f = build_from-append xs ys _ _

-- If one OEM's function raises nothing, each of its collectors is found in the built registry under
-- its name, whatever the OEMs before and after it do.
pub build_registry_isolated :
    (before after : List (String × List Collector)) (oem : String) (cs : List Collector)
    → (register_each cs (build_registry before).0).1 ≡ none
    → All (λ c. lookup c.name (build_registry (before ++ (oem, cs) ∷ after)).0 ≡ some c) cs
unfolding build_registry
build_registry_isolated before after oem cs h =
    rw (build_from-append before ((oem, cs) ∷ after) [] []) (
      All-map _ _ cs (λ c p. build_from_keeps after _ _ c.name c p)
        (register_each_all cs (build_from before [] []).0 h))
