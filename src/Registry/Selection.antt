-- ===== src/Registry/Selection.antt =====
-- core/registry.py: what a scope selects.
use smartwatch_clank.Base.{
  String, ◌≡◌, refl, ap, ◌∙◌, false, Option, none, some, List, [], ◌∷◌, map, lookup, put,
  put-NodupKeys, NodupKeys, entry_of, keep_if-key, keep_if-sort_by, keep_if, keep_if_comm, All,
  All-sort_by, lookup-put, beq_refl, subst, ◌↔◌, ◌≤◌, true, length, contains, Bool-cases, inl, inr,
  sym, false≢true, if◌then◌else◌, ◌==◌, string_eq, arith,
}
use smartwatch_clank.Base.Result.{ok}
use smartwatch_clank.Models.{RunScope, production, experimental}
use smartwatch_clank.Registry.{Collector, Registry, register, all_collectors, admits, selected}

-- The collectors stand under their own names, each once.
pub record IsRegistry (r : Registry) : Type 0 where
  pub keyed : All (λ e. e.0 ≡ e.1.name) r
  pub distinct : NodupKeys r

put-keyed :
    (c : Collector) (r : Registry)
    → All (λ e. e.0 ≡ e.1.name) r
    → All (λ e. e.0 ≡ e.1.name) (put c.name c r)
unfolding put
put-keyed c [] h = (refl, tt)
put-keyed c ((k, d) ∷ r) h = ground (arith, put-keyed c r h.1)

register-put : (c : Collector) (r r' : Registry) → register c r ≡ ok r' → put c.name c r ≡ r'
unfolding register
register-put c r r' e = ground arith

put_lem :
    (c : Collector) (r : Registry)
    → IsRegistry r
    → IsRegistry (put c.name c r)
      × (lookup c.name (put c.name c r) ≡ some c)
      × ((k : String) → (c.name == k) ≡ false → lookup k (put c.name c r) ≡ lookup k r)
put_lem c r h = (
  record { keyed = put-keyed c r h.keyed; distinct = put-NodupKeys c.name c r h.distinct },
  rw (lookup-put, beq_refl c.name),
  λ k n. rw (lookup-put, n),
)

-- A registration that succeeds keeps a well-formed registry so; the collector is then found under
-- its name, and every other name is as it was.
pub register_lem :
    (c : Collector) (r r' : Registry)
    → IsRegistry r
    → register c r ≡ ok r'
    → IsRegistry r'
      × (lookup c.name r' ≡ some c)
      × ((k : String) → (c.name == k) ≡ false → lookup k r' ≡ lookup k r)
register_lem c r r' h e =
    subst
      (λ t.
        IsRegistry t
        × (lookup c.name t ≡ some c)
        × ((k : String) → (c.name == k) ≡ false → lookup k t ≡ lookup k r))
      (register-put c r r' e) (put_lem c r h)

map-keep_if :
    (k : String) (es : Registry)
    → All (λ e. e.0 ≡ e.1.name) es
    → keep_if (λ c. c.name == k) (map (λ e. e.1) es) ≡ map (λ e. e.1) (keep_if (λ e. e.0 == k) es)
map-keep_if k [] h = refl
map-keep_if k (e ∷ es) h = ground (arith, h.0, map-keep_if k es h.1)

abbrev admitted : RunScope → List String → Option Collector → List Collector
admitted scope allowlist none = []
admitted scope allowlist (some c) = if admits scope allowlist c then c ∷ [] else []

all_collectors_at :
    (k : String) (r : Registry)
    → IsRegistry r
    → keep_if (λ c. c.name == k) (all_collectors r) ≡ map (λ e. e.1) (entry_of k (lookup k r))
unfolding all_collectors
all_collectors_at k r h =
    map-keep_if k _ (All-sort_by (λ e. e.0) _ r h.keyed)
    ∙ ap (map (λ e. e.1)) (keep_if-sort_by (λ e. e.0) k r ∙ keep_if-key k r h.distinct)

-- what is selected of a name is what the scope admits of the registered collector
selected-eq-admitted :
    (scope : RunScope) (allowlist : List String) (k : String) (r : Registry)
    → IsRegistry r
    → keep_if (λ c. c.name == k) (selected scope allowlist r)
      ≡ admitted scope allowlist (lookup k r)
unfolding selected
selected-eq-admitted RunScope.all allowlist k r h =
    rw (all_collectors_at k r h) (unfold admits in ground arith)
selected-eq-admitted RunScope.experimental allowlist k r h =
    rw (keep_if_comm, all_collectors_at k r h) (ground arith)
selected-eq-admitted RunScope.production allowlist k r h =
    rw (keep_if_comm, all_collectors_at k r h) (ground arith)

-- What a scope asks of a collector.
abbrev pub Asks : RunScope → List String → Collector → Type 0
Asks RunScope.all allowlist c = Unit
Asks RunScope.experimental allowlist c = c.tier ≡ experimental
Asks RunScope.production allowlist c = (c.tier ≡ production) × (contains allowlist c.name ≡ true)

admits-Asks :
    (scope : RunScope) (allowlist : List String) (c : Collector)
    → (admits scope allowlist c ≡ true) ↔ Asks scope allowlist c
unfolding admits
admits-Asks RunScope.all allowlist c = ground arith
admits-Asks RunScope.experimental allowlist c = ground arith
admits-Asks RunScope.production allowlist c = ground arith

admitted_lem :
    (scope : RunScope) (allowlist : List String) (o : Option Collector)
    → (length (admitted scope allowlist o) ≤ 1)
      × ((c : Collector)
          → (admitted scope allowlist o ≡ c ∷ []) ↔ ((o ≡ some c) × Asks scope allowlist c))
admitted_lem scope allowlist none = (omega arith, λ c. ((λ e. absurd (cc e)), λ h. absurd (cc h.0)))
admitted_lem scope allowlist (some d) = elim (Bool-cases (admits scope allowlist d)) [
  | inl q ↦
      let asked = (admits-Asks scope allowlist d).0 q in
      rw q (
        omega arith,
        λ c. (
          λ e. let same : d ≡ c = cc e in (ap some same, subst (Asks scope allowlist) same asked),
          λ h. let same : d ≡ c = cc h.0 in ap (λ x. x ∷ []) same,
        ),
      )
  | inr q ↦ rw q (
    omega arith,
    λ c. (
      λ e. absurd (cc e),
      λ h.
          let same : d ≡ c = cc h.0 in
          let asked =
            (admits-Asks scope allowlist d).1 (subst (Asks scope allowlist) (sym same) h.1) in
          absurd (false≢true (sym q ∙ asked)),
    ),
  )
]

-- In a well-formed registry, a scope selects of each name at most one collector: the one that is
-- registered under it, exactly when the scope is all collectors, when it is the experimental scope and
-- the collector is of the experimental tier, or when it is the production scope and the collector is of
-- the production tier and its name on the allowlist.
pub selected_iff :
    (scope : RunScope) (allowlist : List String) (k : String) (r : Registry)
    → IsRegistry r
    → (length (keep_if (λ c. c.name == k) (selected scope allowlist r)) ≤ 1)
      × ((c : Collector)
          → (keep_if (λ c. c.name == k) (selected scope allowlist r) ≡ c ∷ [])
            ↔ ((lookup k r ≡ some c) × Asks scope allowlist c))
selected_iff scope allowlist k r h =
    rw (selected-eq-admitted scope allowlist k r h) (admitted_lem scope allowlist (lookup k r))
