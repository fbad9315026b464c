-- ===== src/Qc/Decisions.antt =====
-- qc_archive.py: what a decision adds to the archive.
use smartwatch_clank.Base.{
  ℕ, zero, suc, String, ◌≡◌, ◌≢◌, subst, inl, inr, refl, ap, ◌∙◌, Bool, true, false, not, ◌&&◌,
  Option, none, some, List, [], ◌∷◌, ◌++◌, lookup, lookup-put, find_first, any_of, contains,
  count_if, if◌then◌else◌, ◌==◌, nat_eq, nat_beq_iff, string_eq, eq_iff, Bool-cases, arith,
}
use smartwatch_clank.Qc.{
  QcError, QcRow, Subject, QcResult, done, failed, qc_decisions, is_decided, qc_row,
  insert_decision, decide_qc, decision_for, by_decision,
}

find_first-append {ℓ} :
    {A : Type ℓ} (p : A → Bool) (xs : List A) (a : A)
    → any_of p xs ≡ false
    → find_first p (xs ++ a ∷ []) ≡ (if p a then some a else none)
find_first-append p [] a h = refl
find_first-append p (x ∷ xs) a h = ground (arith, find_first-append p xs a)

find_first-other {ℓ} :
    {A : Type ℓ} (p : A → Bool) (xs : List A) (a : A)
    → p a ≡ false
    → find_first p (xs ++ a ∷ []) ≡ find_first p xs
find_first-other p [] a h = rw h refl
find_first-other p (x ∷ xs) a h = ground (arith, find_first-other p xs a h)

none_found : (id : ℕ) (rows : List QcRow) → is_decided id rows ≡ false → decision_for id rows ≡ none
unfolding decision_for
none_found id [] h = refl
none_found id (r ∷ rows) h = ground (arith, none_found id rows)

failed_ne_done {ℓ} : {A : Type ℓ} (e : QcError) (a : A) → failed e ≢ done a
failed_ne_done e a h = cc

-- What an INSERT that goes in has put behind the rows.
inserted :
    (id : ℕ) (o : Option QcRow) (rows rows' : List QcRow)
    → insert_decision id o rows ≡ done rows'
    → (row : QcRow) × (o ≡ some row) × (is_decided id rows ≡ false) × (rows' ≡ rows ++ row ∷ [])
unfolding insert_decision
inserted id none rows rows' h = absurd (cc h)
inserted id (some row) rows rows' h = (row, refl, ground arith, ground arith)

row_parts :
    (now : String) (d : Subject) (decision : String) (remark : Option String) (decided_by : String)
    (rows : List QcRow) (row : QcRow)
    → qc_row now d decision remark decided_by rows ≡ some row
    → (row.discovery_id ≡ d.id) × (row.decision ≡ decision)
unfolding qc_row
row_parts now d decision remark decided_by rows row h = (ground arith, ground arith)

found_after :
    (id k : ℕ) (rows : List QcRow) (row : QcRow)
    → row.discovery_id ≡ id
    → is_decided id rows ≡ false
    → decision_for k (rows ++ row ∷ []) ≡ (if id == k then some row else decision_for k rows)
unfolding decision_for
found_after id k rows row e f = elim (Bool-cases (id == k)) [
  | inl q ↦ rw q (
      find_first-append (λ r. r.discovery_id == k) rows row
        (subst (λ n. is_decided n rows ≡ false) ((nat_beq_iff id k).0 q) f)
      ∙ rw (ap (λ n. n == k) e, q) refl)
  | inr q ↦ rw q (find_first-other (λ r. r.discovery_id == k) rows row (rw e q))
]

-- A decision that is accepted is one of the four, of a discovery that had none; afterwards it is the
-- decision on that discovery, and the decisions on the others are the same as before.
pub decide_qc_lem :
    (now : String) (d : Subject) (decision : String) (remark : Option String) (decided_by : String)
    (rows rows' : List QcRow) (k : ℕ)
    → decide_qc now d decision remark decided_by rows ≡ done rows'
    → (contains qc_decisions decision ≡ true)
      × (decision_for d.id rows ≡ none)
      × (row : QcRow) × (row.decision ≡ decision)
      × (decision_for k rows' ≡ (if d.id == k then some row else decision_for k rows))
unfolding decide_qc
decide_qc_lem now d decision remark decided_by rows rows' k h =
    elim (Bool-cases (contains qc_decisions decision)) [
      | inl q ↦
          let (row, e, f, g) =
            inserted d.id (qc_row now d decision remark decided_by rows) rows rows'
              (rw (q, decide_qc) at h) in
          let (a, b) = row_parts now d decision remark decided_by rows row e in
          (q, none_found d.id rows f, row, b, rw g (found_after d.id k rows row a f))
      | inr q ↦ absurd (failed_ne_done _ _ (rw (q, decide_qc) at h))
    ]

abbrev pub is_done {ℓ} : {A : Type ℓ} → QcResult A → Bool
is_done (done a) = true
is_done (failed e) = false

abbrev pub is_some {ℓ} : {A : Type ℓ} → Option A → Bool
is_some none = false
is_some (some a) = true

-- A decision is accepted exactly where it is one of the four, and the discovery has none and names
-- its collector and its identity.
pub decide_qc_accepts :
    (now : String) (d : Subject) (decision : String) (remark : Option String) (decided_by : String)
    (rows : List QcRow)
    → is_done (decide_qc now d decision remark decided_by rows) ≡ (
        contains qc_decisions decision
        && (not (is_decided d.id rows) && (is_some d.collector && is_some d.identity)))
unfolding decide_qc insert_decision qc_row
decide_qc_accepts now d decision remark decided_by rows =
    split (contains qc_decisions decision) (is_decided d.id rows) refl refl (d.collector)
      (d.identity) refl refl
  where
    split :
        (a b : Bool)
        → contains qc_decisions decision ≡ a
        → is_decided d.id rows ≡ b
        → (c i : Option String) → d.collector ≡ c
        → d.identity ≡ i
        → is_done (decide_qc now d decision remark decided_by rows)
          ≡ (a && (not b && (is_some c && is_some i)))
    split a b p q c i r t = ground (arith, p, q, r, t)

-- the entry of a decision in the counts
abbrev pub counted : ℕ → Option ℕ
counted zero = none
counted (suc n) = some (suc n)

-- The status has a count for each decision that the archive holds, of the rows with it.
pub status_counts :
    (rows : List QcRow) (decision : String)
    → lookup decision (by_decision rows) ≡ counted (count_if (λ r. r.decision == decision) rows)
unfolding by_decision lookup
status_counts [] decision = refl
status_counts (r ∷ rows) decision = ground (
  arith,
  lookup-put r.decision decision
      (suc (elim (lookup r.decision (by_decision rows)) [ none ↦ 0 | some n ↦ n ]))
      (by_decision rows),
  status_counts rows decision,
  eq_iff r.decision decision,
)
