-- ===== src/Samples/SamsungExamples.antt =====
-- Examples for the reconciliation of Samsung's pages.
use smartwatch_clank.Base.{
  ◌≡◌, refl, true, none, some, List, [], ◌∷◌, ◌++◌, All, length, before, insert_by, sort_by,
}
use smartwatch_clank.Models.{Observation}
use smartwatch_clank.Samsung.{
  Reconciliation, Candidate, CandidateEvent, support_before_product, Ledger, reconcile_samsung,
  reconciliation_key, support_record, exact_of, relate, catalogue_records,
}
use smartwatch_clank.Samsung.Ledgers.{
  find_candidate, is_onboarding, setting_of, persist_samsung_reconciliation, persist_each,
  persist_item, is_skipped, upsert_candidate, new_candidate,
}
use smartwatch_clank.Samsung.Candidates.{candidate_keeps_first_seen, onboarding_reports_nothing_new}
use smartwatch_clank.Samples.{watch}

-- a support page of a watch that no catalogue has
abbrev support_page : Observation
support_page = record watch {
  identity = "samsung:support:SM-L500";
  model_number = some "SM-L500";
  regional_model_number = some "SM-L500NZAA";
  classification_state = some "known_smartwatch";
}

abbrev no_ledger : Ledger
no_ledger = record { onboarded = []; runs = []; records = []; candidates = []; events = [] }

abbrev found_records : List Reconciliation
found_records = reconcile_samsung [] (support_page ∷ [])

abbrev first_ledger : Ledger
first_ledger = (persist_samsung_reconciliation 5 found_records no_ledger).1

abbrev the_candidate : Candidate
the_candidate =
    new_candidate (setting_of 5 found_records no_ledger) (support_record [] support_page)

candidate_there : find_candidate "uk:SM-L500NZAA" first_ledger.candidates ≡ some the_candidate
unfolding persist_samsung_reconciliation persist_each persist_item is_skipped upsert_candidate
    new_candidate reconcile_samsung reconciliation_key support_record exact_of relate
    catalogue_records sort_by insert_by before
candidate_there = refl

candidate_keeps_first_seen_example :
    (d : Candidate) × (find_candidate "uk:SM-L500NZAA"
        (persist_samsung_reconciliation 9 found_records first_ledger).1.candidates
      ≡ some d)
    × (d.first_seen ≡ the_candidate.first_seen)
    × (d.catalogue_first_seen ≡ elim (the_candidate.catalogue_first_seen) [
      | none ↦ d.catalogue_first_seen
      | some t ↦ some t
    ])
candidate_keeps_first_seen_example =
    candidate_keeps_first_seen 9 found_records first_ledger "uk:SM-L500NZAA" the_candidate
      candidate_there

all_onboarding :
    All
      (λ (i : Reconciliation). is_onboarding (setting_of 5 found_records no_ledger) i ≡ true)
      found_records
unfolding setting_of reconcile_samsung sort_by insert_by before support_record catalogue_records
all_onboarding = (refl, tt)

onboarding_reports_nothing_new_example :
    (new : List CandidateEvent) × ((persist_samsung_reconciliation 5 found_records
        no_ledger).1.events
      ≡ no_ledger.events ++ new)
    × ((persist_samsung_reconciliation 5 found_records no_ledger).0 ≡ length new)
    × All (λ (v : CandidateEvent). v.event_type ≡ support_before_product) new
onboarding_reports_nothing_new_example =
    onboarding_reports_nothing_new 5 found_records no_ledger all_onboarding
