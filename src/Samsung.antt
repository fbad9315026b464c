-- ===== src/Samsung.antt =====
-- src/smartwatch_clank/intelligence/samsung.py: the reconciliation of catalogue and support pages, and
-- its tables. An instant stands in a row as the value that it reads back.
pub mod Ledgers
pub mod Candidates
use Prim.Native.String.{◌++◌ as appended}
use smartwatch_clank.Base.{
  ℕ, suc, ◌+◌, String, Bool, true, false, not, ◌&&◌, ◌||◌, Option, none, some, List, [], ◌∷◌, ◌++◌,
  map, sort_by, keep_if, find_first, any_of, contains, length, if◌then◌else◌, ◌==◌, string_eq,
  option_eq,
}
use smartwatch_clank.Models.{Observation}

pub data Relationship : Type 0 where
  catalogue_and_support support_only_base_model support_only_regional_sku : Relationship
  catalogue_only ambiguous_support_only : Relationship

abbrev pub relationship_value : Relationship → String
relationship_value catalogue_and_support = "CATALOGUE_AND_SUPPORT"
relationship_value support_only_base_model = "SUPPORT_ONLY_BASE_MODEL"
relationship_value support_only_regional_sku = "SUPPORT_ONLY_REGIONAL_SKU"
relationship_value catalogue_only = "CATALOGUE_ONLY"
relationship_value ambiguous_support_only = "AMBIGUOUS_SUPPORT_ONLY"

pub data CandidateState : Type 0 where
  global_unknown_support_model known_globally_support_first_in_region : CandidateState
  ambiguous_official_identifier commercially_confirmed : CandidateState

pub record Reconciliation : Type 0 where
  pub relationship : Relationship
  pub region : String
  pub base_model : Option String
  pub regional_sku : Option String
  pub product_identity : Option String
  pub support_identity : Option String
  pub support_url : Option String
  pub support_observed_at : Option ℕ
  pub classification_evidence : List String

-- the truth of a text or `None`
abbrev pub present : Option String → Bool
present none = false
present (some s) = not (s == "")

-- `a or b`
abbrev pub or_else : Option String → Option String → Option String
or_else a b = if present a then a else b

abbrev pub region_of : Observation → String
region_of o = elim (o.region) [ none ↦ "UNKNOWN" | some r ↦ if r == "" then "UNKNOWN" else r ]

-- an f-string's text of a value that may be `None`
abbrev pub shown : Option String → String
shown none = "None"
shown (some s) = s

-- `SamsungReconciliation.key`
unfoldable pub reconciliation_key : Reconciliation → String
reconciliation_key r = appended (relationship_value r.relationship) (
    appended ":" (
      appended r.region
        (appended ":" (shown (or_else r.regional_sku (or_else r.base_model r.product_identity))))))

-- `product_exact.get(...)`: the last product of the region with the number
unfoldable pub exact_of : Observation → List Observation → Option Observation
exact_of item [] = none
exact_of item (p ∷ ps) = elim (exact_of item ps) [
  | some q ↦ some q
  | none ↦
      if present p.regional_model_number
        && (p.region == item.region && p.regional_model_number == item.regional_model_number)
      then some p
      else none
]

abbrev pub is_known : Observation → Bool
is_known item = item.classification_state == some "known_smartwatch"

-- the chain that sets `relationship`
unfoldable pub relate : List Observation → Observation → Option Observation → Relationship
relate products item exact = if not (is_known item) then ambiguous_support_only else elim exact [
  | some p ↦ catalogue_and_support
  | none ↦
      if not (any_of (λ p. present p.model_number && p.model_number == item.model_number) products)
      then support_only_base_model
      else support_only_regional_sku
]

-- the record of a support observation
unfoldable pub support_record : List Observation → Observation → Reconciliation
unfolding exact_of relate
support_record products item = record {
  relationship = relate products item (exact_of item products);
  region = region_of item;
  base_model = item.model_number;
  regional_sku = item.regional_model_number;
  product_identity = elim (exact_of item products) [ none ↦ none | some p ↦ some p.identity ];
  support_identity = some item.identity;
  support_url = some item.source_url;
  support_observed_at = some item.observed_at;
  classification_evidence = item.classification_evidence;
}

unfoldable pub catalogue_record : Observation → Reconciliation
catalogue_record item = record {
  relationship = catalogue_only;
  region = region_of item;
  base_model = item.model_number;
  regional_sku = item.regional_model_number;
  product_identity = some item.identity;
  support_identity = none;
  support_url = none;
  support_observed_at = none;
  classification_evidence = [];
}

-- the loop over the products, with the keys that it has seen
unfoldable pub catalogue_records :
    List Observation → List (String × Option String) → List Observation → List Reconciliation
catalogue_records supports seen [] = []
catalogue_records supports seen (item ∷ items) =
    let region = region_of item in
    let model = or_else item.model_number item.regional_model_number in
    if any_of (λ k. k.0 == region && k.1 == model) seen
      || any_of
          (λ s.
            present s.model_number
            && (is_known s && (s.region == some region && s.model_number == model)))
          supports
    then catalogue_records supports seen items
    else catalogue_record item ∷ catalogue_records supports ((region, model) ∷ seen) items

-- `reconcile_samsung`
unfoldable pub reconcile_samsung : List Observation → List Observation → List Reconciliation
unfolding support_record catalogue_records
reconcile_samsung product_observations support_observations =
    let products = sort_by (λ o. o.identity) product_observations in
    let supports = sort_by (λ o. o.identity) support_observations in
    sort_by reconciliation_key
      (map (support_record products) supports ++ catalogue_records supports [] products)

-- a row of `prelaunch_candidates`
pub record Candidate : Type 0 where
  pub candidate_key : String
  pub base_model : Option String
  pub regional_sku : Option String
  pub region : String
  pub support_url : Option String
  pub first_seen : ℕ
  pub last_seen : ℕ
  pub classification_evidence : List String
  pub state : CandidateState
  pub matched_catalogue : Option String
  pub catalogue_first_seen : Option ℕ
  pub onboarding_baseline : Bool

-- the types of `samsung_candidate_events`
pub data EventType : Type 0 where
  support_before_product support_model_first_seen support_regional_sku_first_seen : EventType

pub record CandidateEvent : Type 0 where
  pub candidate_key : String
  pub event_type : EventType
  pub occurred_at : ℕ
  pub relationship : Relationship

pub record ReconciliationRun : Type 0 where
  pub id : ℕ
  pub reconciled_at : ℕ
  pub baseline : Bool
  pub source_regions : List String

-- The tables of the reconciliation; `runs` has the newest first.
pub record Ledger : Type 0 where
  pub onboarded : List (String × ℕ)
  pub runs : List ReconciliationRun
  pub records : List (ℕ × Reconciliation)
  pub candidates : List Candidate
  pub events : List CandidateEvent
