-- ===== src/News/Persist.antt =====
-- src/smartwatch_clank/intelligence/news.py: what the classified news leave in the evidence tables.
use smartwatch_clank.Base.{
  ℕ, ◌+◌, ◌≡◌, refl, ◌∙◌, String, Bool, ◌||◌, Option, none, some, List, [], ◌∷◌, map, Dict, lookup,
  put, length, length-append, count_if, Bool-cases, inl, inr, if◌then◌else◌, ◌==◌, string_eq, arith,
}
use smartwatch_clank.Base.Json.{Fields, field, end, str, arr, items, opt_str, set_member}
use smartwatch_clank.Models.{Observation}
use smartwatch_clank.Store.{Store, TimelineRow}
use smartwatch_clank.Store.Evidence.{Sighting, record_evidence, record_evidence_event}

abbrev pub truthy_or : Option String → String → String
truthy_or none d = d
truthy_or (some s) d = if s == "" then d else s

-- `item.classification_state or ...`
abbrev pub state_of : Observation → String
state_of o = truthy_or o.classification_state "NOT_SMARTWATCH_RELEVANT"

-- `_PROMOTED_TO_EVIDENCE`
abbrev pub is_promoted : String → Bool
is_promoted state = state == "SMARTWATCH_RELEVANT" || state == "POSSIBLY_SMARTWATCH_RELEVANT"

-- the confidence in EDITORIAL_BY_CLASSIFICATION.get(state, ("LOW", "4"))
abbrev pub confidence_of : String → String
confidence_of state =
    if state == "SMARTWATCH_RELEVANT"
    then "HIGH"
    else if state == "POSSIBLY_SMARTWATCH_RELEVANT"
    then "MEDIUM"
    else "LOW"

-- {"title": ..., "classification_evidence": ..., **item.payload}
unfoldable pub with_payload : Fields → Fields → Fields
with_payload base end = base
with_payload base (field k v fs) = with_payload (set_member k v base) fs

unfoldable pub news_sighting : Observation → Sighting
unfolding with_payload
news_sighting o = record {
  oem = truthy_or o.oem "unknown";
  source_class = truthy_or o.source_class "official_news";
  identity = o.identity;
  observed_at = o.observed_at;
  region = none;
  confidence = some (confidence_of (state_of o));
  editorial_level = some (state_of o);
  source_url = some o.source_url;
  payload =
      with_payload
        (field "classification_evidence" (arr (items (map str o.classification_evidence)))
          (field "title" (opt_str o.title) end))
        o.payload;
}

abbrev pub classified_event : Observation → ℕ → TimelineRow
classified_event o id = record {
  evidence_id = id;
  observed_at = o.observed_at;
  event = "NEWS_CLASSIFIED";
  payload = field "classification_state" (str (state_of o)) end;
}

-- what the loop does with a promoted item
unfoldable pub promote : Observation → Store → Store
unfolding news_sighting
promote o s =
    let (id, t) = record_evidence (news_sighting o) s in
    record_evidence_event (classified_event o id) t

abbrev pub count_of : Option ℕ → ℕ
count_of none = 0
count_of (some n) = n

pub record Persisted : Type 0 where
  pub processed : ℕ
  pub classification_counts : Dict ℕ
  pub evidence_written : ℕ

-- the loop of `persist_news_evidence`
unfoldable pub persist_items : List Observation → Dict ℕ → ℕ → Store → Dict ℕ × ℕ × Store
persist_items [] counts written s = (counts, written, s)
persist_items (o ∷ os) counts written s =
    let counts' = put (state_of o) (count_of (lookup (state_of o) counts) + 1) counts in
    persist_items os counts' (if is_promoted (state_of o) then written + 1 else written)
      (if is_promoted (state_of o) then promote o s else s)

-- `persist_news_evidence`
unfoldable pub persist_news_evidence : List Observation → Store → Persisted × Store
persist_news_evidence observations s =
    let (counts, written, t) =
      persist_items observations
        (("SMARTWATCH_RELEVANT", 0)
          ∷ ("POSSIBLY_SMARTWATCH_RELEVANT", 0)
          ∷ ("NOT_SMARTWATCH_RELEVANT", 0)
          ∷ [])
        0 s in
    (
      record {
        processed = length observations;
        classification_counts = counts;
        evidence_written = written;
      },
      t,
    )

promote_lem :
    (o : Observation) (s : Store)
    → ((promote o s).runs ≡ s.runs)
      × ((promote o s).notifications ≡ s.notifications)
      × (length (promote o s).timeline ≡ length s.timeline + 1)
unfolding promote record_evidence record_evidence_event
promote_lem o s = (refl, refl, length-append s.timeline _)

-- The runs, the outbox and the epochs are no business of the news: persisting them leaves those tables
-- as they were, and adds one row to the timeline for each promoted item.
persist_items_lem :
    (os : List Observation) (counts : Dict ℕ) (n : ℕ) (s : Store)
    → ((persist_items os counts n s).1 ≡ n + count_if (λ o. is_promoted (state_of o)) os)
      × ((persist_items os counts n s).2.runs ≡ s.runs)
      × ((persist_items os counts n s).2.notifications ≡ s.notifications)
      × (length (persist_items os counts n s).2.timeline
          ≡ length s.timeline + count_if (λ o. is_promoted (state_of o)) os)
unfolding persist_items
persist_items_lem [] counts n s = (omega arith, refl, refl, omega arith)
persist_items_lem (o ∷ os) counts n s =
    let counts' = put (state_of o) (count_of (lookup (state_of o) counts) + 1) counts in
    elim (Bool-cases (is_promoted (state_of o))) [
      | inl q ↦
          let (a, b, c) = promote_lem o s in
          let (x, y, z, w) = persist_items_lem os counts' (n + 1) (promote o s) in
          rw (q, persist_items) (omega (arith, x), y ∙ a, z ∙ b, omega (arith, w, c))
      | inr q ↦ rw (q, persist_items) (persist_items_lem os counts' n s)
    ]
