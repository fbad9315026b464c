-- ===== src/Store/Evidence/FirstSeen.antt =====
-- core/store.py: what a sighting changes of the evidence.
use mathlib.Core.Option.{some-injective}
use smartwatch_clank.Base.{
  ℕ, ◌+◌, ◌≡◌, inl, inr, refl, ◌∙◌, Bool, true, Option, none, some, List, [], ◌∷◌, ◌++◌, map,
  find_first, subst, if◌then◌else◌, ◌==◌, nat_eq, string_eq, beq_refl, Bool-cases, String, All,
  arith, eq_iff, nat_beq_iff, sym, false,
}
use smartwatch_clank.Store.{Store, EvidenceRow}
use smartwatch_clank.Store.Evidence.{
  Sighting, is_of, get_evidence, evidence_row, seen_again, upsert, record_evidence,
  last_evidence_id,
}

-- the row that is found after a sighting
abbrev after_sighting : Sighting → ℕ → Option EvidenceRow → EvidenceRow
after_sighting e id none = evidence_row id e
after_sighting e id (some r) = seen_again e r

found-append :
    (p : EvidenceRow → Bool) (rows : List EvidenceRow) (r : EvidenceRow)
    → find_first p rows ≡ none
    → p r ≡ true
    → find_first p (rows ++ r ∷ []) ≡ some r
found-append p [] r h k = rw k
found-append p (x ∷ rows) r h k = elim (Bool-cases (p x)) [
  | inl q ↦ absurd (cc (rw q at h))
  | inr q ↦ rw q (found-append p rows r (rw q at h) k)
]

found-update :
    (p : EvidenceRow → Bool) (f : EvidenceRow → EvidenceRow) (rows : List EvidenceRow)
    (r : EvidenceRow)
    → ((x : EvidenceRow) → p (f x) ≡ p x)
    → find_first p rows ≡ some r
    → find_first p (map (λ x. if x.id == r.id then f x else x) rows) ≡ some (f r)
found-update p f [] r same h = absurd (cc h)
found-update p f (x ∷ rows) r same h = elim (Bool-cases (p x)) [
  | inl q ↦
      let e : x ≡ r = some-injective _ _ (rw q at h) in
      rw (e, beq_refl r.id, same r ∙ subst (λ y. p y ≡ true) e q)
  | inr q ↦
      let rest = found-update p f rows r same (rw q at h) in
      elim (Bool-cases (x.id == r.id)) [ inl i ↦ rw (i, same x, q) rest | inr i ↦ rw (i, q) rest ]
]

-- the row that is found is the one that was written
record_evidence_lem :
    (e : Sighting) (s : Store)
    → get_evidence e.source_class e.identity (record_evidence e s).1
      ≡ some (after_sighting e (record_evidence e s).0 (get_evidence e.source_class e.identity s))
unfolding record_evidence get_evidence upsert
record_evidence_lem e s = go (get_evidence e.source_class e.identity s) refl
  where
    go :
        (o : Option EvidenceRow)
        → find_first (is_of e.source_class e.identity) s.evidence ≡ o
        → find_first (is_of e.source_class e.identity) (upsert e o s.evidence).1
          ≡ some (after_sighting e (upsert e o s.evidence).0 o)
    go none h =
        found-append _ s.evidence _ h
          (unfold evidence_row in rw (beq_refl e.source_class, beq_refl e.identity))
    go (some r) h = found-update _ (seen_again e) s.evidence r (unfold seen_again in λ x. refl) h

-- What a row says once a sighting has been recorded: its first time is the one it had, if any.
pub record TellsOf (e : Sighting) (before : Option EvidenceRow) (r : EvidenceRow) : Type 0 where
  pub source_class : r.source_class ≡ e.source_class
  pub identity : r.identity ≡ e.identity
  pub first_seen : r.first_seen ≡ elim before [ none ↦ e.observed_at | some q ↦ q.first_seen ]
  pub last_seen : r.last_seen ≡ e.observed_at
  pub oem : r.oem ≡ e.oem
  pub region : r.region ≡ e.region
  pub confidence : r.confidence ≡ e.confidence
  pub editorial_level : r.editorial_level ≡ e.editorial_level
  pub source_url : r.source_url ≡ e.source_url
  pub payload : r.payload ≡ e.payload

found-is_of :
    (p : EvidenceRow → Bool) (rows : List EvidenceRow) (r : EvidenceRow)
    → find_first p rows ≡ some r
    → p r ≡ true
found-is_of p [] r h = absurd (cc h)
found-is_of p (x ∷ rows) r h = elim (Bool-cases (p x)) [
  | inl q ↦ subst (λ y. p y ≡ true) (some-injective _ _ (rw q at h)) q
  | inr q ↦ found-is_of p rows r (rw q at h)
]

after_sighting-TellsOf :
    (e : Sighting) (id : ℕ) (o : Option EvidenceRow)
    → ((r : EvidenceRow) → o ≡ some r → is_of e.source_class e.identity r ≡ true)
    → TellsOf e o (after_sighting e id o)
unfolding evidence_row seen_again
after_sighting-TellsOf e id none h = record {
  source_class = refl;
  identity = refl;
  first_seen = refl;
  last_seen = refl;
  oem = refl;
  region = refl;
  confidence = refl;
  editorial_level = refl;
  source_url = refl;
  payload = refl;
}
after_sighting-TellsOf e id (some q) h =
    let own = h q refl in
    record {
      source_class = ground (arith, own, eq_iff q.source_class e.source_class);
      identity = ground (arith, own, eq_iff q.identity e.identity);
      first_seen = refl;
      last_seen = refl;
      oem = refl;
      region = refl;
      confidence = refl;
      editorial_level = refl;
      source_url = refl;
      payload = refl;
    }

-- The ids of the rows are distinct.
abbrev pub HasIds : List EvidenceRow → Type 0
HasIds rows = All (λ a. All (λ b. a.id ≡ b.id → a ≡ b) rows) rows

found-All :
    (P : EvidenceRow → Type 0) (p : EvidenceRow → Bool) (rows : List EvidenceRow) (r : EvidenceRow)
    → find_first p rows ≡ some r
    → All P rows
    → P r
found-All P p [] r h a = absurd (cc h)
found-All P p (x ∷ rows) r h a = elim (Bool-cases (p x)) [
  | inl q ↦ subst P (some-injective _ _ (rw q at h)) a.0
  | inr q ↦ found-All P p rows r (rw q at h) a.1
]

others-append :
    (p : EvidenceRow → Bool) (rows : List EvidenceRow) (r : EvidenceRow)
    → p r ≡ false
    → find_first p (rows ++ r ∷ []) ≡ find_first p rows
others-append p [] r h = rw h
others-append p (x ∷ rows) r h = rw (others-append p rows r h)

others-update :
    (p : EvidenceRow → Bool) (f : EvidenceRow → EvidenceRow) (rows : List EvidenceRow)
    (r : EvidenceRow)
    → p r ≡ false
    → p (f r) ≡ false
    → All (λ b. r.id ≡ b.id → r ≡ b) rows
    → find_first p (map (λ x. if x.id == r.id then f x else x) rows) ≡ find_first p rows
others-update p f [] r a b h = refl
others-update p f (x ∷ rows) r a b h =
    let rest = others-update p f rows r a b h.1 in
    elim (Bool-cases (x.id == r.id)) [
      | inl q ↦
          let same : r ≡ x = h.0 (sym ((nat_beq_iff x.id r.id).0 q)) in
          rw (q, subst (λ y. p y ≡ false) same a, subst (λ y. p (f y) ≡ false) same b) rest
      | inr q ↦ rw (q, rest)
    ]

not_both :
    (e : Sighting) (c i : String) (r : EvidenceRow)
    → ¬ ((c ≡ e.source_class) × (i ≡ e.identity))
    → is_of e.source_class e.identity r ≡ true
    → is_of c i r ≡ false
not_both e c i r n h = ground (
  arith,
  n,
  h,
  eq_iff r.source_class c,
  eq_iff r.identity i,
  eq_iff r.source_class e.source_class,
  eq_iff r.identity e.identity,
)

others_kept :
    (e : Sighting) (s : Store) (c i : String)
    → HasIds s.evidence
    → ¬ ((c ≡ e.source_class) × (i ≡ e.identity))
    → get_evidence c i (record_evidence e s).1 ≡ get_evidence c i s
unfolding get_evidence record_evidence upsert
others_kept e s c i h n = go (get_evidence e.source_class e.identity s) refl
  where
    go :
        (o : Option EvidenceRow)
        → find_first (is_of e.source_class e.identity) s.evidence ≡ o
        → find_first (is_of c i) (upsert e o s.evidence).1 ≡ find_first (is_of c i) s.evidence
    go none q =
        let id = last_evidence_id s.evidence + 1 in
        others-append _ s.evidence (evidence_row id e) (
          not_both e c i (evidence_row id e) n
            (unfold evidence_row in rw (beq_refl e.source_class, beq_refl e.identity)))
    go (some r) q =
        let own = not_both e c i r n (found-is_of _ s.evidence r q) in
        others-update _ (seen_again e) s.evidence r own (unfold seen_again in own)
          (found-All _ _ s.evidence r q h)

-- Where the ids of the evidence are distinct, recording a sighting leaves a row of its source class and
-- identity that has the sighting's particulars, is last seen then, and is first seen when it was before,
-- or then where there was none; what is found of any other source class or identity is as it was.
pub record_evidence-TellsOf :
    (e : Sighting) (s : Store) (c i : String)
    → HasIds s.evidence
    → ¬ ((c ≡ e.source_class) × (i ≡ e.identity))
    → ((r : EvidenceRow) × (get_evidence e.source_class e.identity (record_evidence e s).1 ≡ some r)
        × TellsOf e (get_evidence e.source_class e.identity s) r)
      × (get_evidence c i (record_evidence e s).1 ≡ get_evidence c i s)
unfolding get_evidence
record_evidence-TellsOf e s c i h n = (
  (
    after_sighting e (record_evidence e s).0 (get_evidence e.source_class e.identity s),
    record_evidence_lem e s,
    after_sighting-TellsOf e _ (get_evidence e.source_class e.identity s)
        (found-is_of _ s.evidence),
  ),
  others_kept e s c i h n,
)
