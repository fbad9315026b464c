-- ===== src/Diff.antt =====
-- src/smartwatch_clank/core/diff.py: the changes between two catalogues. A catalogue is a dict from
-- identities to observations; `clock` gives the instant at which an identity's discovery is made.
pub mod Exact
pub mod Kinds
use smartwatch_clank.Base.{
  ℕ, String, Bool, true, false, not, ◌||◌, Option, none, some, List, [], ◌∷◌, ◌++◌, Dict, lookup,
  has_key, sort_by, keep_if, collect, if◌then◌else◌, ◌==◌, string_eq, option_eq,
}
use smartwatch_clank.Base.Json.{Fields, field, end, str, fields_eq}
use smartwatch_clank.Models.{
  Observation, Discovery, ChangeType, Confidence, EditorialLevel, comparable, high, low, newsworthy,
  monitor, noise, change_value, new_device, price_change, availability_change, firmware_released,
  spec_changed, product_removed, source_listing_removed, news_item_appeared,
}
use smartwatch_clank.News.{
  editorial_by_classification, smartwatch_relevant, possibly_smartwatch_relevant,
  not_smartwatch_relevant,
}

abbrev pub Catalogue : Type 0
Catalogue = Dict Observation

-- `item.source_class == SourceClass.OFFICIAL_NEWS`
unfoldable pub is_official_news : Observation → Bool
is_official_news o = o.source_class == some "official_news"

unfoldable pub classify_change : Observation → Observation → ChangeType
classify_change before after =
    if not (before.price == after.price) || not (before.currency == after.currency)
    then price_change
    else if not (before.availability == after.availability)
    then availability_change
    else if not (before.firmware_version == after.firmware_version)
    then firmware_released
    else spec_changed

-- `EDITORIAL_BY_CLASSIFICATION.get(item.classification_state, ("LOW", NOISE))`
unfoldable pub editorial_of : Option String → Confidence × EditorialLevel
unfolding editorial_by_classification
editorial_of state =
    if state == some "SMARTWATCH_RELEVANT"
    then editorial_by_classification smartwatch_relevant
    else if state == some "POSSIBLY_SMARTWATCH_RELEVANT"
    then editorial_by_classification possibly_smartwatch_relevant
    else if state == some "NOT_SMARTWATCH_RELEVANT"
    then editorial_by_classification not_smartwatch_relevant
    else (low, noise)

-- confidence and level of `_discovery`
unfoldable pub grade : Observation → ChangeType → Confidence × EditorialLevel
unfolding editorial_of
grade item news_item_appeared = editorial_of item.classification_state
grade item spec_changed = (high, monitor)
grade item product_removed = (high, monitor)
grade item _ = (high, newsworthy)

unfoldable pub discovery : ℕ → Observation → ChangeType → Option Fields → Option Fields → Discovery
unfolding grade
discovery now item change previous current = record {
  collector = item.collector;
  identity = item.identity;
  change_type = change;
  confidence = (grade item change).0;
  editorial_level = (grade item change).1;
  source_url = item.source_url;
  previous = previous;
  current = current;
  evidence =
      field "change_type" (str (change_value change))
        (field "source_url" (str item.source_url) end);
  discovered_at = now;
}

module _ (clock : String → ℕ) where
  -- the first loop's body
  unfoldable pub report_new : String × Observation → List Discovery
  unfolding discovery is_official_news
  report_new (k, item) =
      discovery (clock k) item (if is_official_news item then news_item_appeared else new_device)
        none (some (comparable item))
      ∷ []

  -- the second loop's body
  unfoldable pub report_changed : Catalogue → String × Observation → List Discovery
  unfolding discovery classify_change lookup
  report_changed previous (k, after) = elim (lookup k previous) [
    | none ↦ []
    | some before ↦
        if comparable before == comparable after
        then []
        else discovery (clock k) after (classify_change before after) (some (comparable before))
            (some (comparable after))
          ∷ []
  ]

  -- the third loop's body
  unfoldable pub report_gone : String × Observation → List Discovery
  unfolding discovery is_official_news
  report_gone (k, item) =
      if is_official_news item
      then []
      else discovery (clock k) item
          (if item.source_kind == some "product_catalogue" || item.source_kind == some "support"
            then source_listing_removed
            else product_removed)
          (some (comparable item)) none
        ∷ []

  unfoldable pub diff_catalogues : Catalogue → Catalogue → List Discovery
  unfolding report_new report_changed report_gone has_key sort_by
  diff_catalogues previous current =
      collect report_new (sort_by (λ e. e.0) (keep_if (λ e. not (has_key e.0 previous)) current))
      ++ (collect (report_changed previous)
            (sort_by (λ e. e.0) (keep_if (λ e. has_key e.0 previous) current))
          ++ collect report_gone
              (sort_by (λ e. e.0) (keep_if (λ e. not (has_key e.0 current)) previous)))
