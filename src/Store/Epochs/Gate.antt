-- ===== src/Store/Epochs/Gate.antt =====
-- core/store.py: when the qualification gate is open, and how terminal evidence is recorded.
use mathlib.Core.Path.{subst₂}
use smartwatch_clank.Base.{
  String, ◌≡◌, ◌↔◌, refl, Bool, true, false, false≢true, Option, none, some, string_eq, option_eq,
  bool_eq, beq_refl, arith, eq_iff, Bool-cases, inl, inr,
}
use smartwatch_clank.Base.Json.{Fields}
use smartwatch_clank.Platform.{Platform}
use smartwatch_clank.Qualification.{normalize_provenance}
use smartwatch_clank.Store.{Store, EpochRow, EventRow}
use smartwatch_clank.Store.Epochs.{
  Terminal, current_epoch, record_qualification_terminal, terminal_row, event_exists, last_terminal,
  qualification_gate, gate_of, judge_terminal, closed, differs, is_unknown, trusted_components,
}

-- The material of an event can be read and is trusted.
abbrev pub is_trusted : Option Fields → Bool
is_trusted none = false
is_trusted (some fs) = trusted_components fs

-- What a terminal event must be for its epoch to qualify.
pub record Qualifies (current : EpochRow) (t : EventRow) : Type 0 where
  pub known : is_unknown (normalize_provenance (some t.provenance)) ≡ false
  pub material : is_trusted t.material_components ≡ true
  pub was_healthy : t.healthy ≡ some true
  pub same_material : t.material_identity ≡ current.material_identity

judge_terminal_iff :
    (current : EpochRow) (t : EventRow)
    → ((judge_terminal current t).0 ≡ true) ↔ Qualifies current t
unfolding judge_terminal
judge_terminal_iff current t = ground (arith, eq_iff t.material_identity current.material_identity)

-- What opens the gate: a current epoch that passes the caller's filters, and a newest terminal event
-- of that epoch that qualifies.
pub record IsOpen (s : Store) (collector : String) (epoch_id material_identity : Option String)
    : Type 0 where
  pub current : EpochRow
  pub terminal : EventRow
  pub is_current : current_epoch collector s ≡ some current
  pub is_last : last_terminal collector current.epoch_id s ≡ some terminal
  pub epoch_passes : differs epoch_id current.epoch_id ≡ false
  pub material_passes : differs material_identity current.material_identity ≡ false
  pub qualifies : Qualifies current terminal

-- The gate is open exactly when the newest terminal event of the current epoch qualifies: its
-- provenance is known, its material can be read and is trusted, the execution was healthy, its
-- material is the epoch's, and the epoch passes the caller's filters.
pub qualification_gate_iff :
    (s : Store) (collector : String) (epoch_id material_identity : Option String)
    → ((qualification_gate s collector epoch_id material_identity).eligible ≡ true)
      ↔ IsOpen s collector epoch_id material_identity
unfolding qualification_gate
qualification_gate_iff s collector e m = (opened (current_epoch collector s) refl, shown)
  where
    judged :
        (r : EpochRow) (o : Option EventRow)
        → current_epoch collector s ≡ some r
        → last_terminal collector r.epoch_id s ≡ o
        → (gate_of collector r e m o).eligible ≡ true
        → IsOpen s collector e m
    judged r none q l h = absurd (unfold gate_of closed in ground arith)
    judged r (some t) q l h = record {
      current = r;
      terminal = t;
      is_current = q;
      is_last = l;
      epoch_passes = unfold gate_of closed in ground arith;
      material_passes = unfold gate_of closed in ground arith;
      qualifies = (judge_terminal_iff r t).0 (unfold gate_of closed in ground arith);
    }

    opened :
        (c : Option EpochRow)
        → current_epoch collector s ≡ c
        → (qualification_gate s collector e m).eligible ≡ true
        → IsOpen s collector e m
    opened none q h = absurd (false≢true (rw (q, qualification_gate) at h))
    opened (some r) q h =
        judged r (last_terminal collector r.epoch_id s) q refl (rw (q, qualification_gate) at h)

    shown : IsOpen s collector e m → (qualification_gate s collector e m).eligible ≡ true
    shown o =
        rw (o.is_current, qualification_gate)
          (rw (o.is_last) (
            unfold gate_of in
            ground (
              arith,
              o.epoch_passes,
              o.material_passes,
              (judge_terminal_iff o.current o.terminal).1 o.qualifies,
            )))

terminal_there :
    (p : Platform) (t : Terminal) (s : Store)
    → event_exists t.collector "TERMINAL" t.execution_id
        (record_qualification_terminal p t s).events
      ≡ true
unfolding record_qualification_terminal
terminal_there p t s =
    elim (Bool-cases (event_exists t.collector "TERMINAL" t.execution_id s.events)) [
      | inl e ↦ rw e e
      | inr e ↦ rw e (
          unfold event_exists terminal_row in
          rw (beq_refl t.collector) (rw (beq_refl t.execution_id)))
    ]

-- Recording the terminal event of an execution a second time, whatever it says, changes nothing.
pub record_terminal_once :
    (p : Platform) (t u : Terminal) (s : Store)
    → t.collector ≡ u.collector
    → t.execution_id ≡ u.execution_id
    → record_qualification_terminal p u (record_qualification_terminal p t s)
      ≡ record_qualification_terminal p t s
record_terminal_once p t u s c x =
    unfold record_qualification_terminal in
    rw (
      subst₂
        (λ k i. event_exists k "TERMINAL" i (record_qualification_terminal p t s).events ≡ true) c x
        (terminal_there p t s))
