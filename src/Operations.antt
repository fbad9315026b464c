-- ===== src/Operations.antt =====
-- src/smartwatch_clank/operations.py (`scope_report`, `health_report`) and core/scope.py: what an operator
-- reads of the runs, and whether a device is in scope. Texts without letters outside ASCII.
use smartwatch_clank.Base.{
  ℕ, suc, String, ◌≡◌, refl, Bool, true, false, not, ◌&&◌, ◌||◌, Option, none, some, List, [], ◌∷◌,
  map, keep_if, any_of, contains, if◌then◌else◌, ◌==◌, nat_eq, string_eq, arith,
}
use smartwatch_clank.Base.Text.{codes, lower, same_text}
use smartwatch_clank.Models.{CollectorTier}
use smartwatch_clank.Registry.{Collector, Registry, all_collectors, is_production}
use smartwatch_clank.Store.{Store, RunRow}

pub data ScopeDecision : Type 0 where
  include review exclude : ScopeDecision

-- `Scope`: its words are in lower case, as `Scope.load` makes them
pub record Scope : Type 0 where
  pub manufacturers : List String
  pub included_device_types : List String
  pub review_device_types : List String
  pub excluded_device_types : List String

-- `word.lower() in words`
abbrev pub has_word : List String → String → Bool
has_word words word = any_of (λ w. same_text (codes w) (lower (codes word))) words

-- `Scope.decide`
unfoldable pub decide_scope : Scope → (manufacturer device_type : String) → ScopeDecision
decide_scope s manufacturer device_type =
    if has_word s.excluded_device_types device_type
    then exclude
    else if not (has_word s.manufacturers manufacturer)
        || has_word s.review_device_types device_type
    then review
    else if has_word s.included_device_types device_type
    then include
    else review

-- an entry of "collectors" in `scope_report`
pub record ScopeEntry : Type 0 where
  pub collector : String
  pub tier : CollectorTier
  pub production_enabled : Bool

abbrev pub is_enabled : List String → Collector → Bool
is_enabled allowlist c = is_production c.tier && contains allowlist c.name

-- `scope_report`: the allowlist and the collectors
unfoldable pub scope_report : List String → Registry → List String × List ScopeEntry
scope_report allowlist r = (
  allowlist,
  map
      (λ c. record {
        collector = c.name;
        tier = c.tier;
        production_enabled = is_enabled allowlist c;
      })
      (all_collectors r),
)

pub data HealthStatus : Type 0 where
  never_run failing warning_status healthy_status : HealthStatus

abbrev pub has_warning : RunRow → Bool
has_warning r = elim (r.warning) [ none ↦ false | some w ↦ not (w == "") ]

-- the chain that sets `status`
unfoldable pub status_of : Option RunRow → HealthStatus
status_of none = never_run
status_of (some r) =
    if not r.healthy then failing else if has_warning r then warning_status else healthy_status

-- the loop that counts the failures since the last healthy run, over the newest first
unfoldable pub consecutive_failures : List RunRow → ℕ
consecutive_failures [] = 0
consecutive_failures (r ∷ rows) =
    let rest = consecutive_failures rows in if r.healthy then 0 else suc rest

abbrev pub second : List RunRow → Option RunRow
second (_ ∷ r ∷ _) = some r
second _ = none

abbrev pub first : List RunRow → Option RunRow
first [] = none
first (r ∷ _) = some r

-- `previous_success`
unfoldable pub previous_success : Option RunRow → List RunRow → Option RunRow
previous_success none successes = none
previous_success (some latest) successes =
    if latest.healthy then second successes else first successes

-- an entry of "collectors" in `health_report`, with the rows whose columns it shows
pub record HealthEntry : Type 0 where
  pub collector : String
  pub tier : CollectorTier
  pub production_enabled : Bool
  pub health_status : HealthStatus
  pub last_run : Option RunRow
  pub last_success : Option RunRow
  pub previous_healthy : Option RunRow
  pub failures : ℕ

-- the body of the loop of `health_report`
unfoldable pub health_entry : List String → Store → Collector → HealthEntry
unfolding status_of consecutive_failures previous_success
health_entry allowlist s c =
    let rows = keep_if (λ r. r.collector == c.name) s.runs in
    let successes = keep_if (λ r. r.healthy) rows in
    record {
      collector = c.name;
      tier = c.tier;
      production_enabled = is_enabled allowlist c;
      health_status = status_of (first rows);
      last_run = first rows;
      last_success = first successes;
      previous_healthy = previous_success (first rows) successes;
      failures = consecutive_failures rows;
    }

abbrev pub is_failing : HealthStatus → Bool
is_failing failing = true
is_failing _ = false

abbrev pub is_warning : HealthStatus → Bool
is_warning never_run = true
is_warning warning_status = true
is_warning _ = false

-- `overall`
unfoldable pub overall : List HealthEntry → HealthStatus
overall entries =
    if any_of (λ e. is_failing e.health_status) entries
    then failing
    else if any_of (λ e. is_warning e.health_status) entries
    then warning_status
    else healthy_status

-- `health_report`
unfoldable pub health_report : List String → Registry → Store → HealthStatus × List HealthEntry
unfolding health_entry overall
health_report allowlist r s =
    let entries = map (health_entry allowlist s) (all_collectors r) in (overall entries, entries)

-- A collector has failed since its last healthy run exactly where its status says so.
pub consecutive_failures_lem :
    (rows : List RunRow)
    → is_failing (status_of (first rows)) ≡ (if consecutive_failures rows == 0 then false else true)
unfolding status_of consecutive_failures
consecutive_failures_lem [] = refl
consecutive_failures_lem (r ∷ rows) = ground arith
