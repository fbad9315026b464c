-- ===== src/Diff/Exact.antt =====
-- core/diff.py: what `diff_catalogues` reports of one identity.
use smartwatch_clank.Base.{
  ℕ, String, ◌≡◌, refl, ap, ◌∙◌, Bool, not, ◌||◌, Option, none, some, List, [], ◌∷◌, ◌++◌, lookup,
  has_key, NodupKeys, entry_of, keep_if-key, sort_by, keep_if-sort_by, keep_if, collect,
  keep_if-append, keep_if_comm, keep_if-collect, All, All-sort_by, All-keep_if, has_key-eq-lookup,
  if◌then◌else◌, ◌==◌, string_eq, option_eq, arith,
}
use smartwatch_clank.Base.Json.{fields_eq}
use smartwatch_clank.Models.{
  Observation, Discovery, comparable, new_device, product_removed, source_listing_removed,
  news_item_appeared,
}
use smartwatch_clank.Diff.{
  Catalogue, is_official_news, classify_change, discovery, report_new, report_changed, report_gone,
  diff_catalogues,
}

-- The entries of a catalogue stand under their own identities.
abbrev pub IsKeyed : Catalogue → Type 0
IsKeyed c = All (λ e. e.0 ≡ e.1.identity) c

-- What the change of one identity is worth, from its observations before and after.
unfoldable pub change_of : ℕ → Option Observation → Option Observation → List Discovery
change_of now none none = []
change_of now none (some item) =
    discovery now item (if is_official_news item then news_item_appeared else new_device) none
      (some (comparable item))
    ∷ []
change_of now (some before) (some after) =
    if comparable before == comparable after
    then []
    else discovery now after (classify_change before after) (some (comparable before))
        (some (comparable after))
      ∷ []
change_of now (some item) none =
    if is_official_news item
    then []
    else discovery now item
        (if item.source_kind == some "product_catalogue" || item.source_kind == some "support"
          then source_listing_removed
          else product_removed)
        (some (comparable item)) none
      ∷ []

abbrev pub about : String → Discovery → Bool
about k d = d.identity == k

module _ (clock : String → ℕ) (k : String) where
  about-new :
      (es : Catalogue)
      → IsKeyed es
      → All
          (λ e.
            keep_if (about k) (report_new clock e) ≡ (if e.0 == k then report_new clock e else []))
          es
  unfolding report_new
  about-new [] h = tt
  about-new (e ∷ es) h = (rw h.0, about-new es h.1)

  about-gone :
      (es : Catalogue)
      → IsKeyed es
      → All
          (λ e.
            keep_if (about k) (report_gone clock e)
            ≡ (if e.0 == k then report_gone clock e else []))
          es
  unfolding report_gone
  about-gone [] h = tt
  about-gone (e ∷ es) h = (rw h.0 (ground arith), about-gone es h.1)

  about-changed :
      (previous es : Catalogue)
      → IsKeyed es
      → All
          (λ e.
            keep_if (about k) (report_changed clock previous e)
            ≡ (if e.0 == k then report_changed clock previous e else []))
          es
  unfolding report_changed
  about-changed previous [] h = tt
  about-changed previous ((j, o) ∷ es) h = (rw h.0 (ground arith), about-changed previous es h.1)

-- One of the loops, seen from one identity.
loop_about :
    (k : String) (f : String × Observation → List Discovery) (p : String × Observation → Bool)
    (d : Catalogue)
    → NodupKeys d
    → All (λ e. keep_if (about k) (f e) ≡ (if e.0 == k then f e else [])) d
    → keep_if (about k) (collect f (sort_by (λ e. e.0) (keep_if p d)))
      ≡ collect f (keep_if p (entry_of k (lookup k d)))
loop_about k f p d n h =
    keep_if-collect (about k) (λ e. e.0 == k) f _ (All-sort_by (λ e. e.0) _ _ (All-keep_if _ p d h))
    ∙ ap (collect f) (
        keep_if-sort_by (λ e. e.0) k (keep_if p d)
        ∙ keep_if_comm (λ e. e.0 == k) p d
        ∙ ap (keep_if p) (keep_if-key k d n))

-- The three loops at the entries of one identity.
loops_at :
    (clock : String → ℕ) (previous current : Catalogue) (k : String) (b a : Option Observation)
    → lookup k previous ≡ b
    → lookup k current ≡ a
    → collect (report_new clock) (keep_if (λ e. not (has_key e.0 previous)) (entry_of k a))
        ++ (collect
              (report_changed clock previous)
              (keep_if (λ e. has_key e.0 previous) (entry_of k a))
            ++ collect
                (report_gone clock)
                (keep_if (λ e. not (has_key e.0 current)) (entry_of k b)))
      ≡ change_of (clock k) b a
unfolding report_new report_changed report_gone change_of
loops_at clock previous current k b a hb ha =
    ground (arith, has_key-eq-lookup k previous, has_key-eq-lookup k current)

-- Where the identities of each catalogue are distinct and each item stands under its own, what
-- `diff_catalogues` reports of an identity is the change between its two observations, and nothing
-- else: at most one discovery, whatever the order of the catalogues.
pub diff_catalogues-eq-change_of :
    (clock : String → ℕ) (previous current : Catalogue) (k : String)
    → NodupKeys previous
    → NodupKeys current
    → IsKeyed previous
    → IsKeyed current
    → keep_if (about k) (diff_catalogues clock previous current)
      ≡ change_of (clock k) (lookup k previous) (lookup k current)
diff_catalogues-eq-change_of clock previous current k np nc kp kc =
    unfold diff_catalogues in
    rw (keep_if-append, keep_if-append)
      (rw
        (
          loop_about k (report_new clock) _ current nc (about-new clock k current kc),
          loop_about k (report_changed clock previous) _ current nc
              (about-changed clock k previous current kc),
          loop_about k (report_gone clock) _ previous np (about-gone clock k previous kp),
        )
        (loops_at clock previous current k _ _ refl refl))
