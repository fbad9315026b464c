-- ===== src/Store/Epochs/Resets.antt =====
-- core/store.py: a change of material starts an epoch, and nothing else does.
use smartwatch_clank.Base.{
  String, ◌≡◌, ◌≢◌, ◌⊎◌, refl, Bool, true, false, ◌&&◌, Option, none, some, List, [], ◌∷◌,
  find_first, All, ◌==◌, string_eq, beq_refl, Bool-cases, inl, inr, arith, eq_iff,
}
use smartwatch_clank.Base.Result.{ok}
use smartwatch_clank.Platform.{Platform}
use smartwatch_clank.Qualification.{QualificationEpoch, identity}
use smartwatch_clank.Store.{Store, EpochRow, EventRow}
use smartwatch_clank.Store.Epochs.{
  Preparation, current_epoch, epoch_from_row, new_epoch_row, start_event_row, start_epoch,
  epoch_exists, with_epoch, prepare_qualification, last_terminal, qualification_gate, gate_of,
  closed,
}

module _ (p : Platform) (a : Preparation) (c : Option EpochRow) (s t : Store)
    (e : QualificationEpoch) where
  start_epoch_ok :
      start_epoch p a c s ≡ ok (e, t)
      → (e ≡ epoch_from_row (new_epoch_row p a c s.epochs))
        × (t ≡ with_epoch p a c s)
        × (epoch_exists
              (new_epoch_row p a c s.epochs).collector
              (new_epoch_row p a c s.epochs).epoch_id
              s.epochs
            ≡ false)
  unfolding start_epoch
  start_epoch_ok h = (ground arith, ground arith, ground arith)

pub current-with_epoch :
    (p : Platform) (a : Preparation) (c : Option EpochRow) (s : Store)
    → current_epoch a.collector (with_epoch p a c s) ≡ some (new_epoch_row p a c s.epochs)
unfolding current_epoch with_epoch new_epoch_row
current-with_epoch p a c s = rw (beq_refl a.collector)

-- What a preparation did: it found the current epoch to stand for the material, or it started one.
abbrev pub Kept : Platform → Preparation → Store → Store → QualificationEpoch → Type 0
Kept p a s t e =
    (r : EpochRow) × (current_epoch a.collector s ≡ some r)
    × (r.material_identity ≡ identity p a.material)
    × (e ≡ epoch_from_row r)
    × (t ≡ s)

-- an epoch, where there is one, stands for a material
abbrev pub stands_for : String → Option EpochRow → Bool
stands_for m none = false
stands_for m (some r) = r.material_identity == m

abbrev pub Started : Platform → Preparation → Store → Store → QualificationEpoch → Type 0
Started p a s t e =
    (c : Option EpochRow) × (e ≡ epoch_from_row (new_epoch_row p a c s.epochs))
    × (t ≡ with_epoch p a c s)
    × (epoch_exists (new_epoch_row p a c s.epochs).collector (new_epoch_row p a c s.epochs).epoch_id
          s.epochs
        ≡ false)
    × (current_epoch a.collector s ≡ c)
    × (stands_for (identity p a.material) c ≡ false)

pub prepare-cases :
    (p : Platform) (a : Preparation) (s t : Store) (e : QualificationEpoch)
    → prepare_qualification p a s ≡ ok (e, t)
    → Kept p a s t e ⊎ Started p a s t e
unfolding prepare_qualification
prepare-cases p a s t e h = go (current_epoch a.collector s) refl
  where
    same :
        (r : EpochRow)
        → current_epoch a.collector s ≡ some r
        → (r.material_identity == identity p a.material) ≡ true
        → Kept p a s t e
    same r q m =
        let k = rw (q, m, prepare_qualification) at h in
        (r, q, (eq_iff _ _).0 m, ground arith, ground arith)

    go :
        (c : Option EpochRow) → current_epoch a.collector s ≡ c → Kept p a s t e ⊎ Started p a s t e
    go none q =
        let (x, y, z) = start_epoch_ok p a none s t e (rw (q, prepare_qualification) at h) in
        inr (none, x, y, z, q, refl)
    go (some r) q = elim (Bool-cases (r.material_identity == identity p a.material)) [
      | inl m ↦ inl (same r q m)
      | inr m ↦
          let (x, y, z) =
            start_epoch_ok p a (some r) s t e (rw (q, m, prepare_qualification) at h) in
          inr (some r, x, y, z, q, m)
    ]

-- The epoch that a preparation returns is the current epoch of its collector, and it stands for the
-- material that was prepared.
pub prepare_qualification_lem :
    (p : Platform) (a : Preparation) (s t : Store) (e : QualificationEpoch)
    → prepare_qualification p a s ≡ ok (e, t)
    → (r : EpochRow) × (current_epoch a.collector t ≡ some r)
      × (e ≡ epoch_from_row r)
      × (r.material_identity ≡ identity p a.material)
prepare_qualification_lem p a s t e h = elim (prepare-cases p a s t e h) [
  | inl (r, q, m, f, u) ↦ (r, rw u q, f, m)
  | inr (c, f, u, _, _, _) ↦ (
    new_epoch_row p a c s.epochs,
    rw u (current-with_epoch p a c s),
    f,
    unfold new_epoch_row in refl,
  )
]

-- Preparing the same material again, by any later execution, returns the same epoch and writes
-- nothing.
pub prepare_qualification_again :
    (p : Platform) (a b : Preparation) (s t : Store) (e : QualificationEpoch)
    → prepare_qualification p a s ≡ ok (e, t)
    → b.collector ≡ a.collector
    → b.material ≡ a.material
    → prepare_qualification p b t ≡ ok (e, t)
unfolding prepare_qualification
prepare_qualification_again p a b s t e h c m =
    let (r, q, f, i) = prepare_qualification_lem p a s t e h in
    let q' : current_epoch b.collector t ≡ some r = rw c q in
    let i' : r.material_identity ≡ identity p b.material = rw m i in
    rw (q', (eq_iff _ _).1 i', prepare_qualification) (rw f)

-- Every event belongs to an epoch that is there.
abbrev pub HasEpochs : Store → Type 0
HasEpochs s = All (λ v. epoch_exists v.collector v.epoch_id s.epochs ≡ true) s.events

module _ (rows : List EpochRow) (collector epoch_id : String)
    (absent : epoch_exists collector epoch_id rows ≡ false) where
  no_terminal :
      (vs : List EventRow)
      → All (λ v. epoch_exists v.collector v.epoch_id rows ≡ true) vs
      → find_first
          (λ v. v.collector == collector && (v.event_type == "TERMINAL" && v.epoch_id == epoch_id))
          vs
        ≡ none
  no_terminal [] h = refl
  no_terminal (v ∷ vs) h = ground (
    arith,
    no_terminal vs h.1,
    eq_iff v.collector collector,
    eq_iff v.epoch_id epoch_id,
    h.0,
    absent,
  )

skip {ℓ} :
    {A : Type ℓ} (p : A → Bool) (x : A) (xs : List A)
    → p x ≡ false
    → find_first p xs ≡ none
    → find_first p (x ∷ xs) ≡ none
skip p x xs a b = rw (a, b) refl

middle_false : (a b c : Bool) → b ≡ false → (a && (b && c)) ≡ false
middle_false a b c h = ground arith

event_of_start :
    (e : EpochRow) (c : Option EpochRow) (rows : List EventRow)
    → ((start_event_row e c rows).event_type == "TERMINAL") ≡ false
unfolding start_event_row
event_of_start e none rows = refl
event_of_start e (some r) rows = refl

terminal-with_epoch :
    (p : Platform) (a : Preparation) (c : Option EpochRow) (s : Store)
    → HasEpochs s
    → epoch_exists
        (new_epoch_row p a c s.epochs).collector
        (new_epoch_row p a c s.epochs).epoch_id
        s.epochs
      ≡ false
    → last_terminal a.collector (new_epoch_row p a c s.epochs).epoch_id (with_epoch p a c s) ≡ none
unfolding last_terminal with_epoch
terminal-with_epoch p a c s h f =
    let e = new_epoch_row p a c s.epochs in
    skip _ _ s.events (middle_false _ _ _ (event_of_start e c s.events))
      (no_terminal s.epochs a.collector e.epoch_id (unfold new_epoch_row in f) s.events h)

gate_unproved :
    (t : Store) (collector : String) (r : EpochRow)
    → current_epoch collector t ≡ some r
    → last_terminal collector r.epoch_id t ≡ none
    → qualification_gate t collector none none ≡ closed collector r "NO_TERMINAL_EVIDENCE"
unfolding qualification_gate
gate_unproved t collector r q n = rw (q, qualification_gate) (unfold gate_of in rw (n, gate_of))

-- Where every event belongs to an epoch of the store, a preparation whose material is not that of
-- the current epoch closes the gate of the collector, for want of terminal evidence in the new
-- epoch.
pub gate_after_reset :
    (p : Platform) (a : Preparation) (s t : Store) (e : QualificationEpoch)
    → HasEpochs s
    → ((r : EpochRow)
        → current_epoch a.collector s ≡ some r
        → r.material_identity ≢ identity p a.material)
    → prepare_qualification p a s ≡ ok (e, t)
    → ((qualification_gate t a.collector none none).eligible ≡ false)
      × ((qualification_gate t a.collector none none).reason ≡ "NO_TERMINAL_EVIDENCE")
      × ((qualification_gate t a.collector none none).epoch_id ≡ some e.epoch_id)
gate_after_reset p a s t e k changed h = elim (prepare-cases p a s t e h) [
  | inl (r, q, m, _, _) ↦ absurd (changed r q m)
  | inr (c, f, u, x, _, _) ↦
      let r = new_epoch_row p a c s.epochs in
      let g =
        gate_unproved t a.collector r (rw u (current-with_epoch p a c s))
          (rw u (terminal-with_epoch p a c s k x)) in
      rw (g, f) (unfold closed epoch_from_row in (refl, refl, refl))
]
