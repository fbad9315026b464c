-- ===== src/Store/Evidence.antt =====
-- core/store.py: the tables `evidence_records` and `evidence_timeline`.
pub mod FirstSeen
use smartwatch_clank.Base.{
  ℕ, ◌+◌, ◌≡◌, String, Bool, true, false, not, ◌&&◌, Option, none, some, List, [], ◌∷◌, ◌++◌, map,
  find_first, keep_if, if◌then◌else◌, ◌==◌, nat_eq, string_eq,
}
use smartwatch_clank.Base.Json.{Fields}
use smartwatch_clank.Store.{Store, EvidenceRow, TimelineRow}

-- The arguments of `record_evidence`.
pub record Sighting : Type 0 where
  pub oem : String
  pub source_class : String
  pub identity : String
  pub observed_at : ℕ
  pub region : Option String
  pub confidence : Option String
  pub editorial_level : Option String
  pub source_url : Option String
  pub payload : Fields

abbrev pub is_of : String → String → EvidenceRow → Bool
is_of source_class identity r = r.source_class == source_class && r.identity == identity

-- `SQLiteStore.get_evidence`
unfoldable pub get_evidence : String → String → Store → Option EvidenceRow
get_evidence source_class identity s = find_first (is_of source_class identity) s.evidence

abbrev pub last_evidence_id : List EvidenceRow → ℕ
last_evidence_id [] = 0
last_evidence_id (r ∷ []) = r.id
last_evidence_id (_ ∷ q ∷ rs) = last_evidence_id (q ∷ rs)

unfoldable pub evidence_row : ℕ → Sighting → EvidenceRow
evidence_row id e = record {
  id = id;
  oem = e.oem;
  source_class = e.source_class;
  identity = e.identity;
  region = e.region;
  confidence = e.confidence;
  editorial_level = e.editorial_level;
  source_url = e.source_url;
  first_seen = e.observed_at;
  last_seen = e.observed_at;
  payload = e.payload;
}

-- the SET clause of the UPDATE
unfoldable pub seen_again : Sighting → EvidenceRow → EvidenceRow
seen_again e r = record r {
  oem = e.oem;
  region = e.region;
  confidence = e.confidence;
  editorial_level = e.editorial_level;
  source_url = e.source_url;
  last_seen = e.observed_at;
  payload = e.payload;
}

-- the two branches of `record_evidence`
unfoldable pub upsert : Sighting → Option EvidenceRow → List EvidenceRow → ℕ × List EvidenceRow
upsert e none rows = let id = last_evidence_id rows + 1 in (id, rows ++ evidence_row id e ∷ [])
upsert e (some r) rows = (r.id, map (λ x. if x.id == r.id then seen_again e x else x) rows)

-- `SQLiteStore.record_evidence`: the id of the row, and the store
unfoldable pub record_evidence : Sighting → Store → ℕ × Store
record_evidence e s =
    let (id, rows) = upsert e (get_evidence e.source_class e.identity s) s.evidence in
    (id, record s { evidence = rows })

-- `SQLiteStore.record_evidence_event`
unfoldable pub record_evidence_event : TimelineRow → Store → Store
record_evidence_event t s = record s { timeline = s.timeline ++ t ∷ [] }
