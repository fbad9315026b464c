-- ===== src/Diff/Kinds.antt =====
-- core/diff.py: when nothing is reported, and which kind a change is reported as.
use smartwatch_clank.Base.{
  ℕ, String, ◌≡◌, ◌≢◌, ◌↔◌, ◌⊎◌, refl, Option, none, some, List, [], ◌∷◌, lookup, NodupKeys,
  keep_if, beq_refl, option_beq_iff, string_eq, option_eq, arith,
}
use smartwatch_clank.Base.Json.{fields_eq, fields_beq_iff}
use smartwatch_clank.Models.{
  Observation, Discovery, comparable, price_change, firmware_released, spec_changed,
}
use smartwatch_clank.Diff.{Catalogue, classify_change, diff_catalogues}
use smartwatch_clank.Diff.Exact.{IsKeyed, about, change_of, diff_catalogues-eq-change_of}

-- The same evidence: both absent, or both there with the same comparable fields.
abbrev pub Unchanged : Option Observation → Option Observation → Type 0
Unchanged none none = Unit
Unchanged (some a) (some b) = comparable a ≡ comparable b
Unchanged _ _ = ⊥

change_of-Unchanged : (now : ℕ) (a b : Option Observation) → Unchanged a b → change_of now a b ≡ []
unfolding change_of
change_of-Unchanged now none none h = refl
change_of-Unchanged now (some a) (some b) h = rw ((fields_beq_iff _ _).1 h)
change_of-Unchanged now none (some b) h = absurd h
change_of-Unchanged now (some a) none h = absurd h

nil_of_about : (ds : List Discovery) → ((k : String) → keep_if (about k) ds ≡ []) → ds ≡ []
nil_of_about [] h = refl
nil_of_about (d ∷ ds) h = ground (arith, h d.identity, beq_refl d.identity)

-- Where the identities of each catalogue are distinct and each item stands under its own, two
-- catalogues with the same evidence give no discovery, whatever the times of observation and the
-- order of the items.
pub diff_catalogues-Unchanged :
    (clock : String → ℕ) (previous current : Catalogue)
    → NodupKeys previous
    → NodupKeys current
    → IsKeyed previous
    → IsKeyed current
    → ((k : String) → Unchanged (lookup k previous) (lookup k current))
    → diff_catalogues clock previous current ≡ []
diff_catalogues-Unchanged clock previous current np nc kp kc same = nil_of_about _ λ k.
    rw (diff_catalogues-eq-change_of clock previous current k np nc kp kc)
      (change_of-Unchanged (clock k) _ _ (same k))

-- A change is a price change exactly when the price or the currency differs, and a mere change of
-- specification exactly when price, currency, availability and firmware all agree. A firmware
-- release is reported exactly when the firmware differs and the first three agree.
pub classify_change_kinds :
    (a b : Observation)
    → ((classify_change a b ≡ price_change) ↔ ((a.price ≢ b.price) ⊎ (a.currency ≢ b.currency)))
      × ((classify_change a b ≡ spec_changed) ↔ (
          (a.price ≡ b.price)
          × (a.currency ≡ b.currency)
          × (a.availability ≡ b.availability)
          × (a.firmware_version ≡ b.firmware_version)))
      × ((classify_change a b ≡ firmware_released) ↔ (
          (a.price ≡ b.price)
          × (a.currency ≡ b.currency)
          × (a.availability ≡ b.availability)
          × (a.firmware_version ≢ b.firmware_version)))
unfolding classify_change
classify_change_kinds a b =
    let p = option_beq_iff a.price b.price in
    let c = option_beq_iff a.currency b.currency in
    let v = option_beq_iff a.availability b.availability in
    let f = option_beq_iff a.firmware_version b.firmware_version in
    (
      (ground (arith, p, c), ground (arith, p, c)),
      (ground (arith, p, c, v, f), ground (arith, p, c, v, f)),
      (ground (arith, p, c, v, f), ground (arith, p, c, v, f)),
    )
