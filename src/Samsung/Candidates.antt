-- ===== src/Samsung/Candidates.antt =====
-- intelligence/samsung.py: what a reconciliation keeps of a candidate, and what it reports of a region
-- that it sees for the first time.
use smartwatch_clank.Base.{
  ℕ, String, ◌≡◌, refl, ◌∙◌, subst, Bool, true, false, Option, none, some, List, [], ◌∷◌, ◌++◌, map,
  All, All-append, length, Bool-cases, inl, inr, if◌then◌else◌, ◌==◌, string_eq, arith,
}
use smartwatch_clank.Samsung.{
  Reconciliation, Candidate, CandidateEvent, support_before_product, Ledger,
}
use smartwatch_clank.Samsung.Ledgers.{
  Setting, candidate_key_of, find_candidate, is_onboarding, pending_event, new_candidate,
  updated_candidate, upsert_candidate, Written, event_rows, is_skipped, persist_item, persist_each,
  setting_of, persist_samsung_reconciliation,
}

-- What stays of a candidate: when it was first seen, and when the catalogue first had it, once it did.
abbrev pub Kept : Candidate → Candidate → Type 0
Kept c d =
    (d.first_seen ≡ c.first_seen)
    × (d.catalogue_first_seen
        ≡ elim (c.catalogue_first_seen) [ none ↦ d.catalogue_first_seen | some t ↦ some t ])

Kept-refl : (c : Candidate) → Kept c c
Kept-refl c = (refl, ground arith)

Kept-trans : (a b c : Candidate) → Kept a b → Kept b c → Kept a c
Kept-trans a b c h g = (g.0 ∙ h.0, ground (arith, h.1, g.1))

some_inj {ℓ} : {A : Type ℓ} (a b : A) → some a ≡ some b → a ≡ b
some_inj a b h = cc

-- A change of every row that keeps its key and the two times keeps every candidate.
map_keeps :
    (u : Candidate → Candidate) (k : String) (rows : List Candidate) (c : Candidate)
    → ((x : Candidate) → Kept x (u x) × ((u x).candidate_key ≡ x.candidate_key))
    → find_candidate k rows ≡ some c
    → (d : Candidate) × (find_candidate k (map u rows) ≡ some d) × Kept c d
map_keeps u k [] c keep h = absurd (cc h)
map_keeps u k (x ∷ rows) c keep h = elim (Bool-cases (x.candidate_key == k)) [
  | inl q ↦ (
    u x,
    rw ((keep x).1, q) refl,
    subst (λ y. Kept y (u x)) (some_inj x c (rw q at h)) (keep x).0,
  )
  | inr q ↦ let (d, a, b) = map_keeps u k rows c keep (rw q at h) in (d, rw ((keep x).1, q) a, b)
]

module _ (e : Setting) where
  updated_keeps :
      (item : Reconciliation) (c : Candidate)
      → Kept c (updated_candidate e item c)
        × ((updated_candidate e item c).candidate_key ≡ c.candidate_key)
  unfolding updated_candidate
  updated_keeps item c = ((refl, ground arith), refl)

  changed_keeps :
      (item : Reconciliation) (b : Bool) (x : Candidate)
      → Kept x (if b then updated_candidate e item x else x)
        × ((if b then updated_candidate e item x else x).candidate_key ≡ x.candidate_key)
  changed_keeps item true x = updated_keeps item x
  changed_keeps item false x = (Kept-refl x, refl)

  found_before :
      (k : String) (rows more : List Candidate) (c : Candidate)
      → find_candidate k rows ≡ some c
      → find_candidate k (rows ++ more) ≡ some c
  found_before k [] more c h = absurd (cc h)
  found_before k (x ∷ rows) more c h = ground (arith, found_before k rows more c)

  upsert_keeps :
      (item : Reconciliation) (o : Option Candidate) (k : String) (rows : List Candidate)
      (c : Candidate)
      → find_candidate k rows ≡ some c
      → (d : Candidate) × (find_candidate k (upsert_candidate e item o rows) ≡ some d) × Kept c d
  unfolding upsert_candidate
  upsert_keeps item none k rows c h =
      (c, found_before k rows (new_candidate e item ∷ []) c h, Kept-refl c)
  upsert_keeps item (some x) k rows c h =
      map_keeps _ k rows c (λ y. changed_keeps item (y.candidate_key == candidate_key_of item) y) h

  item_keeps :
      (item : Reconciliation) (w : Written) (k : String) (c : Candidate)
      → find_candidate k w.0 ≡ some c
      → (d : Candidate) × (find_candidate k (persist_item e item w).0 ≡ some d) × Kept c d
  unfolding persist_item
  item_keeps item (rows, events) k c h =
      elim (Bool-cases (is_skipped e item (find_candidate (candidate_key_of item) rows))) [
        | inl q ↦ rw q (c, h, Kept-refl c)
        | inr q ↦ rw q (upsert_keeps item (find_candidate (candidate_key_of item) rows) k rows c h)
      ]

  each_keeps :
      (items : List Reconciliation) (w : Written) (k : String) (c : Candidate)
      → find_candidate k w.0 ≡ some c
      → (d : Candidate) × (find_candidate k (persist_each e items w).0 ≡ some d) × Kept c d
  unfolding persist_each
  each_keeps [] w k c h = (c, h, Kept-refl c)
  each_keeps (item ∷ items) w k c h =
      let (d, a, b) = item_keeps item w k c h in
      let (x, y, z) = each_keeps items (persist_item e item w) k d a in (x, y, Kept-trans c d x b z)

-- A candidate stays a candidate, however often support and catalogue are reconciled: the time at
-- which it was first seen never changes, nor the time at which the catalogue first had it, once that
-- is set.
pub candidate_keeps_first_seen :
    (now : ℕ) (items : List Reconciliation) (l : Ledger) (k : String) (c : Candidate)
    → find_candidate k l.candidates ≡ some c
    → (d : Candidate) × (find_candidate k (persist_samsung_reconciliation now items l).1.candidates
        ≡ some d)
      × (d.first_seen ≡ c.first_seen)
      × (d.catalogue_first_seen
          ≡ elim (c.catalogue_first_seen) [ none ↦ d.catalogue_first_seen | some t ↦ some t ])
unfolding persist_samsung_reconciliation
candidate_keeps_first_seen now items l k c h =
    let (d, a, b) = each_keeps (setting_of now items l) items (l.candidates, []) k c h in
    (d, a, b.0, b.1)

-- the events of the one type that a region may have while it is seen for the first time
abbrev OnlyKnown : List CandidateEvent → Type 0
OnlyKnown = All (λ v. v.event_type ≡ support_before_product)

module _ (e : Setting) where
  onboarding_event :
      (item : Reconciliation) (o : Option Candidate)
      → is_onboarding e item ≡ true
      → OnlyKnown (event_rows e item (pending_event e item o))
  unfolding pending_event
  onboarding_event item none h = rw h tt
  onboarding_event item (some c) h = split _
    where
      split :
          (b : Bool)
          → OnlyKnown (event_rows e item (if b then some support_before_product else none))
      split true = (refl, tt)
      split false = tt

  item_events :
      (item : Reconciliation) (w : Written)
      → is_onboarding e item ≡ true
      → OnlyKnown w.1
      → OnlyKnown (persist_item e item w).1
  unfolding persist_item
  item_events item (rows, events) h k =
      elim (Bool-cases (is_skipped e item (find_candidate (candidate_key_of item) rows))) [
        | inl q ↦ rw q k
        | inr q ↦ rw q (
            All-append _ events _ k
              (onboarding_event item (find_candidate (candidate_key_of item) rows) h))
      ]

  each_events :
      (items : List Reconciliation) (w : Written)
      → All (λ i. is_onboarding e i ≡ true) items
      → OnlyKnown w.1
      → OnlyKnown (persist_each e items w).1
  unfolding persist_each
  each_events [] w h k = k
  each_events (item ∷ items) w h k =
      each_events items (persist_item e item w) h.1 (item_events item w h.0 k)

-- A first reconciliation, or one of regions whose support pages are seen for the first time, reports
-- no model and no regional number as new: its only events tell that the catalogue now has what
-- support pages had before.
pub onboarding_reports_nothing_new :
    (now : ℕ) (items : List Reconciliation) (l : Ledger)
    → All (λ i. is_onboarding (setting_of now items l) i ≡ true) items
    → (new : List CandidateEvent) × ((persist_samsung_reconciliation now items l).1.events
        ≡ l.events ++ new)
      × ((persist_samsung_reconciliation now items l).0 ≡ length new)
      × All (λ v. v.event_type ≡ support_before_product) new
unfolding persist_samsung_reconciliation
onboarding_reports_nothing_new now items l h =
    (_, refl, refl, each_events (setting_of now items l) items (l.candidates, []) h tt)
