-- ===== src/Delivery/Embed.antt =====
-- notifications/discord.py: the payload of a discovery.
use Prim.Native.Char.{code}
use Prim.Native.String.{◌++◌}
use smartwatch_clank.Base.{
  ℕ, zero, suc, String, Bool, true, false, not, ◌||◌, Option, none, some, List, [], ◌∷◌, map,
  keep_if, contains, leb, sort_by, if◌then◌else◌, ◌==◌, nat_eq, string_eq, option_eq,
}
use smartwatch_clank.Base.Json.{
  Json, Fields, null, bool, int, num, str, arr, obj, nil, cons, end, field, json_eq, member,
}
use smartwatch_clank.Platform.{Platform}
use smartwatch_clank.Models.{
  Discovery, EditorialLevel, critical, newsworthy, monitor, noise, confidence_value, change_value,
}

abbrev pub level_text : EditorialLevel → String
level_text critical = "CRITICAL"
level_text newsworthy = "NEWSWORTHY"
level_text monitor = "MONITOR"
level_text noise = "NOISE"

abbrev pub level_color : EditorialLevel → ℕ
level_color critical = 12597547
level_color newsworthy = 3049153
level_color monitor = 9807270
level_color noise = 9807270

abbrev pub watched_fields : List String
watched_fields =
    "title" ∷ "product_name" ∷ "model_number" ∷ "regional_model_number" ∷ "colour" ∷ "size"
    ∷ "connectivity" ∷ "price" ∷ "currency" ∷ "availability" ∷ "firmware_version"
    ∷ "software_version" ∷ "classification_state" ∷ []

-- `len`, in code points
unfoldable pub size : String → ℕ
size String.[] = 0
size (String.◌∷◌ c s) = suc (size s)

-- text[:n]
unfoldable pub cut : ℕ → String → String
cut zero s = String.[]
cut (suc n) String.[] = String.[]
cut (suc n) (String.◌∷◌ c s) = String.◌∷◌ c (cut n s)

-- separator.join(texts)
unfoldable pub join : String → List String → String
join separator [] = ""
join separator (s ∷ []) = s
join separator (s ∷ t ∷ ss) = s ++ (separator ++ join separator (t ∷ ss))

-- text.replace("_", " ")
unfoldable pub spaced : String → String
spaced String.[] = String.[]
spaced (String.◌∷◌ c s) =
    (if code c == b'_' then String.◌∷◌ " " String.[] else String.◌∷◌ c String.[]) ++ spaced s

-- `d.get(k)`: `null` is `None`
unfoldable pub get_member : String → Fields → Option Json
unfolding member
get_member k d = elim (member k d) [ some null ↦ none | r ↦ r ]

-- the truth value of a JSON value
abbrev pub truthy : Json → Bool
truthy null = false
truthy (bool b) = b
truthy (int n) = not (n == 0)
truthy (num s) = not (s == "0.0" || s == "-0.0")
truthy (str s) = not (s == "")
truthy (arr nil) = false
truthy (arr (cons x xs)) = true
truthy (obj end) = false
truthy (obj (field k v fs)) = true

-- `_fmt_value`
unfoldable pub fmt_value : Platform → Json → String
unfolding size cut
fmt_value p value =
    let text = p.show value in if leb (size text) 90 then text else cut 87 text ++ "..."

-- `previous or {}`
abbrev pub or_empty : Option Fields → Fields
or_empty none = end
or_empty (some d) = d

-- the loop of the `facts`
unfoldable pub facts : Platform → Fields → List String → List String
unfolding get_member fmt_value
facts p current [] = []
facts p current (k ∷ ks) =
    let rest = facts p current ks in
    elim (get_member k current) [
      | none ↦ rest
      | some v ↦ if truthy v then (k ++ (": " ++ fmt_value p v)) ∷ rest else rest
    ]

abbrev pub shown : Platform → Option Json → String
shown p none = "—"
shown p (some v) = fmt_value p v

-- the loop over the watched fields, which ends at six lines
unfoldable pub watched_lines : Platform → Fields → Fields → (room : ℕ) → List String → List String
unfolding get_member fmt_value
watched_lines p previous current zero ks = []
watched_lines p previous current (suc room) [] = []
watched_lines p previous current (suc room) (k ∷ ks) =
    let old = get_member k previous in
    let new = get_member k current in
    let skipped = watched_lines p previous current (suc room) ks in
    let more = watched_lines p previous current room ks in
    if old == new then skipped else (k ++ (": " ++ (shown p old ++ (" → " ++ shown p new)))) ∷ more

abbrev keys_of : Fields → List String
keys_of end = []
keys_of (field k v fs) = k ∷ keys_of fs

-- set(previous) | set(current)
abbrev all_keys : List String → List String → List String
all_keys [] ks = ks
all_keys (j ∷ js) ks = let rest = all_keys js ks in if contains rest j then rest else j ∷ rest

abbrev pub take : ℕ → List String → List String
take zero xs = []
take (suc n) [] = []
take (suc n) (x ∷ xs) = x ∷ take n xs

-- the keys outside the watched fields that differ
unfoldable pub other_changes : Fields → Fields → List String
unfolding get_member sort_by
other_changes previous current =
    sort_by (λ k. k)
      (keep_if (λ k. not (get_member k previous == get_member k current))
        (all_keys (keys_of previous) (keys_of current)))

abbrev or_changed : List String → List String → List String
or_changed [] changed = ("changed: " ++ join ", " (take 6 changed)) ∷ []
or_changed (l ∷ ls) changed = l ∷ ls

abbrev or_first : List String → List String
or_first [] = "first evidence for this identity" ∷ []
or_first (l ∷ ls) = take 4 (l ∷ ls)

-- `_changed_lines`
unfoldable pub changed_lines : Platform → Option Fields → Option Fields → List String
unfolding facts watched_lines other_changes join
changed_lines p none current =
    or_first (facts p (or_empty current) ("product_name" ∷ "model_number" ∷ "title" ∷ []))
changed_lines p (some previous) none = "the previously observed evidence is no longer present" ∷ []
changed_lines p (some previous) (some current) =
    or_changed (watched_lines p previous current 6 watched_fields) (other_changes previous current)

-- discovery.current or discovery.previous or {}
abbrev pub side_of : Option Fields → Option Fields → Fields
side_of none previous = or_empty previous
side_of (some end) previous = or_empty previous
side_of (some (field k v fs)) previous = field k v fs

-- the line of a field that is there and not empty
unfoldable pub optional_line : Platform → String → Option Json → List String → List String
optional_line p label none rest = rest
optional_line p label (some v) rest = if truthy v then (label ++ p.show v) ∷ rest else rest

unfoldable pub embed_lines : Platform → Discovery → List String
unfolding optional_line get_member changed_lines join
embed_lines p d =
    let side = side_of d.current d.previous in
    ("**Device:** " ++ d.identity)
    ∷ optional_line p "**OEM:** " (get_member "oem" side) (
        optional_line p "**Region:** " (get_member "region" side) (
          ("**Level:** " ++ level_text d.editorial_level)
          ∷ ("**Confidence:** " ++ confidence_value d.confidence)
          ∷ ("**Source:** " ++ d.collector)
          ∷ ("**Detected:** " ++ p.isoformat d.discovered_at)
          ∷ ("**Changed:**\n"
              ++ join "\n" (map (λ l. "• " ++ l) (changed_lines p d.previous d.current)))
          ∷ []))

abbrev pub or_null : String → Json
or_null s = if s == "" then null else str s

-- `build_embed`, with its members in the order of the keys
unfoldable pub build_embed : Platform → Discovery → (discovery_id : ℕ) → Fields
unfolding embed_lines join cut spaced
build_embed p d discovery_id =
    field "embeds"
      (arr (
        cons
          (obj (
            field "color" (int (level_color d.editorial_level)) (
              field "description" (str (cut 4096 (join "\n" (embed_lines p d)))) (
                field "footer"
                  (obj (
                    field "text"
                      (str (
                        cut 2048 (
                          join " · " (
                            "SMARTWATCH CLANK"
                            ∷ ("Discovery ID: " ++ p.decimal discovery_id)
                            ∷ []))))
                      end))
                  (field "timestamp" (str (p.isoformat d.discovered_at)) (
                    field "title"
                      (str (cut 256 ("SMARTWATCH CLANK — " ++ spaced (change_value d.change_type))))
                      (field "url" (or_null d.source_url) end)))))))
          nil))
      end
