-- ===== src/Samples/ContinuityExamples.antt =====
-- Examples for the continuity registry.
use smartwatch_clank.Base.{
  ℕ, ◌≡◌, refl, true, Option, none, some, List, [], ◌∷◌, ◌++◌, All, before, if◌then◌else◌, ◌==◌,
  nat_eq,
}
use smartwatch_clank.Base.Json.{set_member, json_beq, fields_beq, fields_eq}
use smartwatch_clank.Base.Result.{ok, ◌>>=◌}
use smartwatch_clank.Continuity.{
  Codec, is_break, merge, remove_member, content_hash, record_of, read_events, append_event,
  ensure_registry,
}
use smartwatch_clank.Continuity.Seeds.{
  seed_events, volume_loss, restore_from_backup, observation_gap,
}
use smartwatch_clank.Continuity.Lines.{ends}
use smartwatch_clank.Continuity.Appending.{HasLine, append_event_lem}
use smartwatch_clank.Continuity.Seeding.{seeded, ensure_registry_again}

-- a digest for the examples
abbrev hashing : Codec
hashing = record { dumps = λ e. []; loads = λ l. none; digest = λ f. "hash" }

-- one letter for each seed's record
abbrev letters : Codec
letters = record {
  dumps = λ e.
      if e == record_of hashing volume_loss
      then 65 ∷ []
      else if e == record_of hashing restore_from_backup
      then 66 ∷ []
      else 67 ∷ [];
  loads = λ l. elim l [
    | c ∷ cs ↦ some (
        if c == 65
        then record_of hashing volume_loss
        else if c == 66
        then record_of hashing restore_from_backup
        else record_of hashing observation_gap)
    | [] ↦ none
  ];
  digest = λ f. "hash";
}

seed_lines : All (λ s. HasLine letters (record_of letters s)) seed_events
unfolding record_of merge set_member before content_hash remove_member json_beq fields_beq is_break
seed_lines = (
  record { single = refl; visible = refl; reads_back = refl },
  (
    record { single = refl; visible = refl; reads_back = refl },
    (record { single = refl; visible = refl; reads_back = refl }, tt),
  ),
)

no_events : read_events letters none ≡ ok []
unfolding read_events
no_events = refl

nothing_ends : ends [] ≡ true
unfolding ends
nothing_ends = refl

ensure_registry_again_example :
    (file : Option (List ℕ)) × (ensure_registry letters none ≡ ok file)
    × (read_events letters file ≡ ok (seeded letters []))
    × (ensure_registry letters file ≡ ok file)
ensure_registry_again_example =
    ensure_registry_again letters none [] seed_lines nothing_ends no_events

append_event_lem_example :
    (read_events letters (some (append_event letters volume_loss none).1) ≡ (
      read_events letters none >>= λ es. ok (es ++ (append_event letters volume_loss none).0 ∷ [])))
    × (ends (append_event letters volume_loss none).1 ≡ true)
append_event_lem_example = append_event_lem letters volume_loss none nothing_ends (seed_lines.0)
