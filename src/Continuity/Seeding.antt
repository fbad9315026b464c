-- ===== src/Continuity/Seeding.antt =====
-- core/continuity.py: seeding the registry.
use mathlib.Core.List.{append-nil, append_assoc, map-append}
use smartwatch_clank.Base.{
  ℕ, ◌≡◌, refl, sym, ap, ◌∙◌, true, ◌||◌, Option, some, List, [], ◌∷◌, ◌++◌, map, All, contains,
  if◌then◌else◌, string_eq, option_eq, option_beq_iff, before, false≢true, Bool-cases, inl, inr,
  arith,
}
use smartwatch_clank.Base.Json.{Json, Fields, member, set_member, json_eq, json_beq}
use smartwatch_clank.Base.Result.{ok}
use smartwatch_clank.Continuity.{
  Codec, merge, read_events, record_of, text_of, append_event, seed_missing, ensure_registry,
}
use smartwatch_clank.Continuity.Seeds.{seed_events}
use smartwatch_clank.Continuity.Lines.{ends}
use smartwatch_clank.Continuity.Appending.{HasLine, append_event_lem}

-- the seeds that the loop appends
abbrev pub missing : List Fields → List (Option Json) → List Fields
missing [] ids = []
missing (seed ∷ seeds) ids =
    if contains ids (member "event_id" seed)
    then missing seeds ids
    else seed ∷ missing seeds (member "event_id" seed ∷ ids)

module _ (c : Codec) where
  seed_missing_lem :
      (seeds : List Fields) (ids : List (Option Json)) (file : Option (List ℕ)) (es : List Fields)
      → All (λ s. HasLine c (record_of c s)) seeds
      → ends (text_of file) ≡ true
      → read_events c file ≡ ok es
      → (read_events c (seed_missing c seeds ids file)
          ≡ ok (es ++ map (record_of c) (missing seeds ids)))
        × (ends (text_of (seed_missing c seeds ids file)) ≡ true)
  unfolding seed_missing
  seed_missing_lem [] ids file es o h r = (r ∙ ap ok (sym (append-nil es)), h)
  seed_missing_lem (s ∷ seeds) ids file es o h r =
      elim (Bool-cases (contains ids (member "event_id" s))) [
        | inl q ↦ rw q (seed_missing_lem seeds ids file es o.1 h r)
        | inr q ↦
            let (x, y) = append_event_lem c s file h o.0 in
            let (a, b) =
              seed_missing_lem seeds (member "event_id" s ∷ ids) (some (append_event c s file).1)
                (es ++ record_of c s ∷ []) o.1 y (x ∙ rw r (unfold append_event in refl)) in
            rw q (a ∙ ap ok (append_assoc es (record_of c s ∷ []) _), b)
      ]

  -- A loop that finds every seed's id changes nothing.
  nothing_missing :
      (seeds : List Fields) (ids : List (Option Json)) (file : Option (List ℕ))
      → All (λ s. contains ids (member "event_id" s) ≡ true) seeds
      → seed_missing c seeds ids file ≡ file
  unfolding seed_missing
  nothing_missing [] ids file h = refl
  nothing_missing (s ∷ seeds) ids file h = rw (h.0) (nothing_missing seeds ids file h.1)

contains-append :
    (xs ys : List (Option Json)) (a : Option Json)
    → contains (xs ++ ys) a ≡ (contains xs a || contains ys a)
contains-append [] ys a = refl
contains-append (x ∷ xs) ys a = ground (arith, contains-append xs ys a)

abbrev pub event_ids : List Fields → List (Option Json)
event_ids = map (member "event_id")

-- Every seed's id is among those that were there and those of the seeds that the loop appends.
covered :
    (seeds : List Fields) (ids : List (Option Json)) (a : Option Json)
    → contains (event_ids seeds) a ≡ true
    → (contains ids a || contains (event_ids (missing seeds ids)) a) ≡ true
covered [] ids a h = absurd (false≢true h)
covered (s ∷ seeds) ids a h = ground (
  arith,
  covered seeds ids a,
  covered seeds (member "event_id" s ∷ ids) a,
  option_beq_iff a (member "event_id" s),
)

seed_ids : All (λ s. contains (event_ids seed_events) (member "event_id" s) ≡ true) seed_events
unfolding member json_beq
seed_ids = (refl, (refl, (refl, tt)))

-- A record has the id of its event.
record_id :
    (c : Codec) → All (λ s. member "event_id" (record_of c s) ≡ member "event_id" s) seed_events
unfolding record_of merge set_member before member
record_id c = (refl, (refl, (refl, tt)))

All-missing {κ} :
    (P : Fields → Type κ) (seeds : List Fields) (ids : List (Option Json))
    → All P seeds
    → All P (missing seeds ids)
All-missing P [] ids h = tt
All-missing P (s ∷ seeds) ids h = elim (Bool-cases (contains ids (member "event_id" s))) [
  | inl q ↦ rw q (All-missing P seeds ids h.1)
  | inr q ↦ rw q (h.0, All-missing P seeds (member "event_id" s ∷ ids) h.1)
]

same_ids :
    (c : Codec) (es : List Fields)
    → All (λ s. member "event_id" (record_of c s) ≡ member "event_id" s) es
    → event_ids (map (record_of c) es) ≡ event_ids es
same_ids c [] h = refl
same_ids c (e ∷ es) h = rw (h.0, same_ids c es h.1) refl

module _ (c : Codec) (es : List Fields) where
  -- what the registry holds after it is seeded
  abbrev pub seeded : List Fields
  seeded = es ++ map (record_of c) (missing seed_events (event_ids es))

  seeded-covers :
      (seeds : List Fields)
      → All (λ s. contains (event_ids seed_events) (member "event_id" s) ≡ true) seeds
      → All (λ s. contains (event_ids seeded) (member "event_id" s) ≡ true) seeds
  seeded-covers [] h = tt
  seeded-covers (s ∷ seeds) h =
      let ms = missing seed_events (event_ids es) in
      let ids : event_ids seeded ≡ event_ids es ++ event_ids ms =
        map-append (member "event_id") es (map (record_of c) ms)
        ∙ ap (λ x. event_ids es ++ x) (same_ids c ms (All-missing _ seed_events _ (record_id c))) in
      (
        ap (λ x. contains x (member "event_id" s)) ids
            ∙ contains-append (event_ids es) (event_ids ms) (member "event_id" s)
            ∙ covered seed_events (event_ids es) (member "event_id" s) h.0,
        seeded-covers seeds h.1,
      )

-- Where the registry can be read and ends with the end of a line, and the seeds' records have lines
-- of their own, seeding it succeeds; afterwards it reads as before, with the records of the missing
-- seeds behind; and seeding it again changes nothing.
pub ensure_registry_again :
    (c : Codec) (file : Option (List ℕ)) (es : List Fields)
    → All (λ s. HasLine c (record_of c s)) seed_events
    → ends (text_of file) ≡ true
    → read_events c file ≡ ok es
    → (file' : Option (List ℕ)) × (ensure_registry c file ≡ ok file')
      × (read_events c file' ≡ ok (seeded c es))
      × (ensure_registry c file' ≡ ok file')
unfolding ensure_registry
ensure_registry_again c file es o h r =
    let file' = seed_missing c seed_events (event_ids es) file in
    let (a, b) = seed_missing_lem c seed_events (event_ids es) file es o h r in
    (
      file',
      rw r refl,
      a,
      rw a (
          ap ok (
            nothing_missing c seed_events (event_ids (seeded c es)) file'
              (seeded-covers c es seed_events seed_ids))),
    )
