-- ===== src/Samsung/Ledgers.antt =====
-- intelligence/samsung.py: `persist_samsung_reconciliation`.
use Prim.Native.String.{◌++◌ as appended}
use smartwatch_clank.Base.{
  ℕ, suc, String, Bool, true, false, not, ◌&&◌, ◌||◌, Option, none, some, List, [], ◌∷◌, ◌++◌, map,
  sort_by, keep_if, find_first, any_of, contains, length, if◌then◌else◌, ◌==◌, string_eq,
}
use smartwatch_clank.Samsung.{
  Relationship, catalogue_and_support, support_only_base_model, support_only_regional_sku,
  catalogue_only, ambiguous_support_only, CandidateState, global_unknown_support_model,
  known_globally_support_first_in_region, ambiguous_official_identifier, commercially_confirmed,
  Reconciliation, present, shown, Candidate, EventType, support_before_product,
  support_model_first_seen, support_regional_sku_first_seen, CandidateEvent, ReconciliationRun,
  Ledger,
}

-- the state that a relationship gives
abbrev pub state_for : Relationship → CandidateState
state_for support_only_base_model = global_unknown_support_model
state_for support_only_regional_sku = known_globally_support_first_in_region
state_for ambiguous_support_only = ambiguous_official_identifier
state_for catalogue_and_support = commercially_confirmed
state_for catalogue_only = commercially_confirmed

abbrev pub is_confirmed : CandidateState → Bool
is_confirmed commercially_confirmed = true
is_confirmed _ = false

abbrev pub is_both : Relationship → Bool
is_both catalogue_and_support = true
is_both _ = false

abbrev pub is_global_unknown : CandidateState → Bool
is_global_unknown global_unknown_support_model = true
is_global_unknown _ = false

-- `f"{item.region}:{item.regional_sku}"`
abbrev pub candidate_key_of : Reconciliation → String
candidate_key_of item = appended item.region (appended ":" (shown item.regional_sku))

-- SELECT ... WHERE candidate_key=?
abbrev pub find_candidate : String → List Candidate → Option Candidate
find_candidate key rows = find_first (λ c. c.candidate_key == key) rows

-- What the run knows beside the tables that the loop writes.
pub record Setting : Type 0 where
  pub now : ℕ
  pub baseline : Bool
  pub new_regions : List String

-- What the loop has written so far.
abbrev pub Written : Type 0
Written = List Candidate × List CandidateEvent

module _ (e : Setting) where
  -- `baseline or item.region in new_regions`
  abbrev pub is_onboarding : Reconciliation → Bool
  is_onboarding item = e.baseline || contains e.new_regions item.region

  -- `pending_event`
  unfoldable pub pending_event : Reconciliation → Option Candidate → Option EventType
  pending_event item (some existing) =
      if not (is_confirmed existing.state) && is_confirmed (state_for item.relationship)
      then some support_before_product
      else none
  pending_event item none =
      if not (is_onboarding item) && not (is_confirmed (state_for item.relationship))
      then some (
          if is_global_unknown (state_for item.relationship)
          then support_model_first_seen
          else support_regional_sku_first_seen)
      else none

  -- the values of the INSERT for a key that is not there
  unfoldable pub new_candidate : Reconciliation → Candidate
  new_candidate item = record {
    candidate_key = candidate_key_of item;
    base_model = item.base_model;
    regional_sku = item.regional_sku;
    region = item.region;
    support_url = item.support_url;
    first_seen = elim (item.support_observed_at) [ none ↦ e.now | some t ↦ t ];
    last_seen = e.now;
    classification_evidence = item.classification_evidence;
    state = state_for item.relationship;
    matched_catalogue = if present item.product_identity then item.product_identity else none;
    catalogue_first_seen = if is_confirmed (state_for item.relationship) then some e.now else none;
    onboarding_baseline = is_onboarding item;
  }

  -- ON CONFLICT(candidate_key) DO UPDATE
  unfoldable pub updated_candidate : Reconciliation → Candidate → Candidate
  updated_candidate item c = record c {
    last_seen = e.now;
    state = state_for item.relationship;
    matched_catalogue = if present item.product_identity then item.product_identity else none;
    catalogue_first_seen = elim (c.catalogue_first_seen) [
      | some t ↦ some t
      | none ↦ if is_confirmed (state_for item.relationship) then some e.now else none
    ];
  }

  unfoldable pub upsert_candidate :
      Reconciliation → Option Candidate → List Candidate → List Candidate
  upsert_candidate item none rows = rows ++ new_candidate item ∷ []
  upsert_candidate item (some existing) rows =
      map (λ c. if c.candidate_key == candidate_key_of item then updated_candidate item c else c)
        rows

  abbrev pub event_rows : Reconciliation → Option EventType → List CandidateEvent
  event_rows item none = []
  event_rows item (some t) =
      record {
        candidate_key = candidate_key_of item;
        event_type = t;
        occurred_at = e.now;
        relationship = item.relationship;
      }
      ∷ []

  -- the two `continue`s
  unfoldable pub is_skipped : Reconciliation → Option Candidate → Bool
  is_skipped item existing =
      not (present item.support_identity)
      || (not (present item.regional_sku)
          || (is_both item.relationship && elim existing [ none ↦ true | some _ ↦ false ]))

  unfoldable pub persist_item : Reconciliation → Written → Written
  persist_item item (candidates, events) =
      let existing = find_candidate (candidate_key_of item) candidates in
      if is_skipped item existing then (candidates, events) else (
        upsert_candidate item existing candidates,
        events ++ event_rows item (pending_event item existing),
      )

  unfoldable pub persist_each : List Reconciliation → Written → Written
  persist_each [] w = w
  persist_each (item ∷ items) w = persist_each items (persist_item item w)

-- sorted({...})
unfoldable pub sorted_set : List String → List String
sorted_set xs = sort_by (λ x. x) (distinct xs)
  where
    distinct : List String → List String
    distinct [] = []
    distinct (x ∷ xs) = let rest = distinct xs in if contains rest x then rest else x ∷ rest

abbrev pub last_run_id : List ReconciliationRun → ℕ
last_run_id [] = 0
last_run_id (r ∷ _) = r.id

abbrev is_first : List ReconciliationRun → Bool
is_first [] = true
is_first (r ∷ _) = false

-- `support_regions`
unfoldable pub support_regions : List Reconciliation → List String
unfolding sorted_set
support_regions items =
    sorted_set (map (λ r. r.region) (keep_if (λ r. present r.support_identity) items))

-- what is read before the transaction
unfoldable pub setting_of : ℕ → List Reconciliation → Ledger → Setting
setting_of now items l = record {
  now = now;
  baseline = is_first l.runs;
  new_regions = keep_if (λ r. not (any_of (λ o. o.0 == r) l.onboarded)) (support_regions items);
}

-- `persist_samsung_reconciliation`: the number of events, and the tables
unfoldable pub persist_samsung_reconciliation : ℕ → List Reconciliation → Ledger → ℕ × Ledger
persist_samsung_reconciliation now items l =
    let e = setting_of now items l in
    let id = suc (last_run_id l.runs) in
    let w = persist_each e items (l.candidates, []) in
    (
      length w.1,
      record {
        onboarded = l.onboarded ++ map (λ r. (r, now)) e.new_regions;
        runs =
            record {
              id = id;
              reconciled_at = now;
              baseline = e.baseline;
              source_regions = support_regions items;
            }
            ∷ l.runs;
        records = l.records ++ map (λ r. (id, r)) items;
        candidates = w.0;
        events = l.events ++ w.1;
      },
    )
