-- ===== src/Registry.antt =====
-- src/smartwatch_clank/core/collector.py, core/registry.py and the registration list of
-- collectors/registry.py. A collector's `run` reaches the network: the field `result` is what it
-- gives, or raises, at the time of the run.
pub mod Selection
pub mod Isolation
use smartwatch_clank.Base.{
  String, Bool, true, false, not, ◌&&◌, ◌||◌, Option, none, some, List, [], ◌∷◌, ◌++◌, map, Dict,
  lookup, has_key, put, sort_by, keep_if, contains, if◌then◌else◌, ◌==◌, string_eq,
}
use smartwatch_clank.Base.Result.{Exn, Result, ok, err, key_error, value_error}
use smartwatch_clank.Models.{CollectorTier, production, experimental, CollectorResult, RunScope}

pub record Collector : Type 0 where
  pub name : String
  pub tier : CollectorTier
  pub unexpected_zero_is_failure : Bool
  pub result : Result CollectorResult

abbrev pub Registry : Type 0
Registry = Dict Collector

-- `CollectorRegistry.register`
unfoldable pub register : Collector → Registry → Result Registry
unfolding has_key
register c r =
    if c.name == "" || has_key c.name r
    then err (value_error "Collector name must be unique and non-empty")
    else ok (put c.name c r)

-- `CollectorRegistry.get`
unfoldable pub get : String → Registry → Result Collector
unfolding lookup
get name r = elim (lookup name r) [ none ↦ err (key_error name) | some c ↦ ok c ]

-- `CollectorRegistry.all`
unfoldable pub all_collectors : Registry → List Collector
all_collectors r = map (λ e. e.1) (sort_by (λ e. e.0) r)

abbrev pub is_production : CollectorTier → Bool
is_production production = true
is_production experimental = false

-- the test that a scope makes of a collector
unfoldable pub admits : RunScope → List String → Collector → Bool
admits RunScope.all allowlist c = true
admits RunScope.experimental allowlist c = not (is_production c.tier)
admits RunScope.production allowlist c = is_production c.tier && contains allowlist c.name

-- `CollectorRegistry.selected`
unfoldable pub selected : RunScope → List String → Registry → List Collector
unfolding admits all_collectors
selected RunScope.all allowlist r = all_collectors r
selected RunScope.experimental allowlist r =
    keep_if (admits RunScope.experimental allowlist) (all_collectors r)
selected RunScope.production allowlist r =
    keep_if (admits RunScope.production allowlist) (all_collectors r)

-- One OEM's registration function: it registers its collectors in turn, and what it registered
-- before it raised stays registered.
unfoldable pub register_each : List Collector → Registry → Registry × Option Exn
register_each [] r = (r, none)
register_each (c ∷ cs) r = elim (register c r) [ err e ↦ (r, some e) | ok r' ↦ register_each cs r' ]

-- `build_registry`: the registry, and the failure of each OEM whose function raised
unfoldable pub build_from :
    List (String × List Collector) → Registry → Dict Exn → Registry × Dict Exn
unfolding register_each
build_from [] r failures = (r, failures)
build_from ((oem, cs) ∷ rest) r failures =
    let (r', raised) = register_each cs r in
    build_from rest r' (elim raised [ none ↦ failures | some e ↦ put oem e failures ])

unfoldable pub build_registry : List (String × List Collector) → Registry × Dict Exn
unfolding build_from
build_registry registrations = build_from registrations [] []
