-- ===== src/Continuity.antt =====
-- src/smartwatch_clank/core/continuity.py: the append-only registry of continuity events, a file of
-- one JSON document on each line. A text is the list of its code points. What the json module and
-- hashlib make of a document is a `Codec`; a line that is no JSON object raises when it is read.
pub mod Seeds
pub mod Lines
pub mod Records
pub mod Appending
pub mod Seeding
use smartwatch_clank.Base.{
  ℕ, String, Bool, true, false, not, ◌&&◌, ◌||◌, Option, none, some, List, [], ◌∷◌, ◌++◌, map,
  all_of, keep_if, contains, if◌then◌else◌, ◌==◌, nat_eq, string_eq, option_eq,
}
use smartwatch_clank.Base.Json.{Json, Fields, field, end, str, member, set_member, json_eq}
use smartwatch_clank.Base.Result.{Result, ok, err, other_error, ◌>>=◌}
use smartwatch_clank.Base.Text.{is_space}
use smartwatch_clank.Continuity.Seeds.{clank_id, instance_id, lane_id, seed_events}

pub record Codec : Type 0 where
  -- `json.dumps(record, sort_keys=True, ensure_ascii=False)` and `json.loads`
  pub dumps : Fields → List ℕ
  pub loads : List ℕ → Option Fields
  -- `sha256` of the canonical text, in hexadecimal digits
  pub digest : Fields → String

-- the characters at which `str.splitlines` ends a line
unfoldable pub is_break : ℕ → Bool
is_break c = contains (10 ∷ 11 ∷ 12 ∷ 13 ∷ 28 ∷ 29 ∷ 30 ∷ 133 ∷ 8232 ∷ 8233 ∷ []) c

abbrev pub onto_first : ℕ → List (List ℕ) → List (List ℕ)
onto_first c [] = (c ∷ []) ∷ []
onto_first c (l ∷ ls) = (c ∷ l) ∷ ls

-- `str.splitlines`. The second character of "\r\n" gives a blank line more, which the reader skips.
unfoldable pub splitlines : List ℕ → List (List ℕ)
splitlines [] = []
splitlines (c ∷ cs) =
    let rest = splitlines cs in if is_break c then [] ∷ rest else onto_first c rest

-- `not line.strip()`
abbrev pub is_blank : List ℕ → Bool
is_blank line = all_of is_space line

-- {k: v for k, v in record.items() if k != key}
unfoldable pub remove_member : String → Fields → Fields
remove_member key end = end
remove_member key (field k v fs) =
    let rest = remove_member key fs in if k == key then rest else field k v rest

-- {**base, **event}
unfoldable pub merge : Fields → Fields → Fields
merge base end = base
merge base (field k v fs) = merge (set_member k v base) fs

abbrev pub text_of : Option (List ℕ) → List ℕ
text_of none = []
text_of (some text) = text

module _ (c : Codec) where
  -- `_content_hash`
  unfoldable pub content_hash : Fields → String
  unfolding remove_member
  content_hash event = c.digest (remove_member "content_hash" event)

  -- the comprehension of `read_events`
  unfoldable pub parse_each : List (List ℕ) → Result (List Fields)
  parse_each [] = ok []
  parse_each (l ∷ ls) = elim (c.loads l) [
    | none ↦ err (other_error "JSONDecodeError" "")
    | some e ↦ parse_each ls >>= λ es. ok (e ∷ es)
  ]

  -- `read_events`, of a file that may be missing
  unfoldable pub read_events : Option (List ℕ) → Result (List Fields)
  unfolding splitlines
  read_events none = ok []
  read_events (some text) = parse_each (keep_if (λ l. not (is_blank l)) (splitlines text))

  -- the name that `verify_hashes` reports
  abbrev pub event_name : Fields → Json
  event_name e = elim (member "event_id" e) [ none ↦ str "<unnamed>" | some v ↦ v ]

  -- `verify_hashes`
  unfoldable pub verify_hashes : List Fields → List Json
  verify_hashes [] = []
  verify_hashes (e ∷ es) =
      let bad = verify_hashes es in
      if member "content_hash" e == some (str (content_hash e)) then bad else event_name e ∷ bad

  -- the record that `append_event` makes of an event
  unfoldable pub record_of : Fields → Fields
  unfolding merge
  record_of event =
      let base =
        field "clank_id" (str clank_id)
          (field "instance_id" (str instance_id) (field "lane_id" (str lane_id) end)) in
      set_member "content_hash" (str (content_hash (merge base event))) (merge base event)

  -- `append_event`: the record, and the file
  unfoldable pub append_event : Fields → Option (List ℕ) → Fields × List ℕ
  append_event event file =
      (record_of event, text_of file ++ (c.dumps (record_of event) ++ 10 ∷ []))

  -- the loop of `ensure_registry` over the seeds
  unfoldable pub seed_missing : List Fields → List (Option Json) → Option (List ℕ) → Option (List ℕ)
  seed_missing [] ids file = file
  seed_missing (seed ∷ seeds) ids file =
      if contains ids (member "event_id" seed)
      then seed_missing seeds ids file
      else seed_missing seeds (member "event_id" seed ∷ ids) (some (append_event seed file).1)

  -- `ensure_registry`: the file that is left
  unfoldable pub ensure_registry : Option (List ℕ) → Result (Option (List ℕ))
  ensure_registry file = read_events file >>= λ es.
      ok (seed_missing seed_events (map (λ e. member "event_id" e) es) file)
