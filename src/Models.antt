-- ===== src/Models.antt =====
-- src/smartwatch_clank/core/models.py: the enumerations and the records that the layers exchange.
-- A `datetime` is the number of microseconds of an instant in UTC; a `dict[str, Any]` is a `Fields`.
use smartwatch_clank.Base.{ℕ, String, ◌≡◌, ap, Bool, Option, some, List, map, arith}
use smartwatch_clank.Base.Json.{Json, Fields, str, arr, obj, field, end, opt_str, items, member}

pub data CollectorTier : Type 0 where
  production experimental : CollectorTier

pub data RunScope : Type 0 where
  production experimental all : RunScope

pub data Confidence : Type 0 where
  high medium low : Confidence

pub data EditorialLevel : Type 0 where
  critical newsworthy monitor noise : EditorialLevel

pub data ChangeType : Type 0 where
  new_device new_model_number new_regional_variant new_size new_colour lte_variant : ChangeType
  product_page_appeared support_page_appeared certification_appeared price_change
        availability_change preorder_started :
      ChangeType
  shipping_started firmware_released ota_released feature_added feature_removed spec_changed :
      ChangeType
  product_removed possible_discontinuation source_listing_removed news_item_appeared : ChangeType

-- `CollectorTier.value`
abbrev pub tier_value : CollectorTier → String
tier_value production = "production"
tier_value experimental = "experimental"

abbrev pub confidence_value : Confidence → String
confidence_value high = "HIGH"
confidence_value medium = "MEDIUM"
confidence_value low = "LOW"

abbrev pub level_value : EditorialLevel → String
level_value critical = "1"
level_value newsworthy = "2"
level_value monitor = "3"
level_value noise = "4"

abbrev pub change_value : ChangeType → String
change_value new_device = "NEW_DEVICE"
change_value new_model_number = "NEW_MODEL_NUMBER"
change_value new_regional_variant = "NEW_REGIONAL_VARIANT"
change_value new_size = "NEW_SIZE"
change_value new_colour = "NEW_COLOUR"
change_value lte_variant = "LTE_VARIANT"
change_value product_page_appeared = "PRODUCT_PAGE_APPEARED"
change_value support_page_appeared = "SUPPORT_PAGE_APPEARED"
change_value certification_appeared = "CERTIFICATION_APPEARED"
change_value price_change = "PRICE_CHANGE"
change_value availability_change = "AVAILABILITY_CHANGE"
change_value preorder_started = "PREORDER_STARTED"
change_value shipping_started = "SHIPPING_STARTED"
change_value firmware_released = "FIRMWARE_RELEASED"
change_value ota_released = "OTA_RELEASED"
change_value feature_added = "FEATURE_ADDED"
change_value feature_removed = "FEATURE_REMOVED"
change_value spec_changed = "SPEC_CHANGED"
change_value product_removed = "PRODUCT_REMOVED"
change_value possible_discontinuation = "POSSIBLE_DISCONTINUATION"
change_value source_listing_removed = "SOURCE_LISTING_REMOVED"
change_value news_item_appeared = "NEWS_ITEM_APPEARED"

pub record Observation : Type 0 where
  pub collector : String
  pub identity : String
  pub source_url : String
  pub observed_at : ℕ
  pub source_kind : Option String
  pub source_class : Option String
  pub oem : Option String
  pub region : Option String
  pub product_family : Option String
  pub family_identity : Option String
  pub product_name : Option String
  pub regional_model_number : Option String
  pub size : Option String
  pub colour : Option String
  pub connectivity : Option String
  pub classification_state : Option String
  pub classification_evidence : List String
  pub title : Option String
  pub model_number : Option String
  pub sku : Option String
  pub price : Option String
  pub currency : Option String
  pub availability : Option String
  pub specifications : Fields
  pub firmware_version : Option String
  pub software_version : Option String
  pub support_metadata : Fields
  pub release_notes : Option String
  pub page_hash : Option String
  pub payload : Fields

-- `Observation.comparable`: every field but `observed_at` and `collector`.
unfoldable pub comparable : Observation → Fields
comparable o =
    (field "availability" (opt_str o.availability) (
      field "classification_evidence" (arr (items (map str o.classification_evidence))) (
        field "classification_state" (opt_str o.classification_state) (
          field "colour" (opt_str o.colour) (
            field "connectivity" (opt_str o.connectivity) (
              field "currency" (opt_str o.currency) (
                field "family_identity" (opt_str o.family_identity) (
                  field "firmware_version" (opt_str o.firmware_version) (
                    field "identity" (str o.identity) (
                      field "model_number" (opt_str o.model_number) (
                        field "oem" (opt_str o.oem) (
                          field "page_hash" (opt_str o.page_hash) (
                            field "payload" (obj o.payload) (
                              field "price" (opt_str o.price) (
                                field "product_family" (opt_str o.product_family) (
                                  field "product_name" (opt_str o.product_name) (
                                    field "region" (opt_str o.region) (
                                      field "regional_model_number"
                                        (opt_str o.regional_model_number)
                                        (field "release_notes" (opt_str o.release_notes) (
                                          field "size" (opt_str o.size) (
                                            field "sku" (opt_str o.sku) (
                                              field "software_version" (opt_str o.software_version)
                                                (field "source_class" (opt_str o.source_class) (
                                                  field "source_kind" (opt_str o.source_kind) (
                                                    field "source_url" (str o.source_url) (
                                                      field "specifications" (obj o.specifications)
                                                        (field "support_metadata"
                                                          (obj o.support_metadata)
                                                          (field "title" (opt_str o.title)
                                                            end))))))))))))))))))))))))))))

pub record Discovery : Type 0 where
  pub collector : String
  pub identity : String
  pub change_type : ChangeType
  pub confidence : Confidence
  pub editorial_level : EditorialLevel
  pub source_url : String
  pub previous : Option Fields
  pub current : Option Fields
  pub evidence : Fields
  pub discovered_at : ℕ

pub record CollectorResult : Type 0 where
  pub observations : List Observation
  pub metadata : Fields

pub record HealthRecord : Type 0 where
  pub collector : String
  pub healthy : Bool
  pub observed_count : ℕ
  pub previous_count : Option ℕ
  pub warning : Option String
  pub error : Option String
  pub checked_at : ℕ

pub record RunOutcome : Type 0 where
  pub collector : String
  pub healthy : Bool
  pub baseline : Bool
  pub observation_count : ℕ
  pub discovery_count : ℕ
  pub warning : Option String
  pub error : Option String

opt_str_inj : (a b : Option String) → opt_str a ≡ opt_str b → a ≡ b
opt_str_inj a b h = ground arith

some_inj : (a b : Json) → some a ≡ some b → a ≡ b
some_inj a b h = cc

module _ (a b : Observation) (e : comparable a ≡ comparable b) where
  pub price_of_comparable : a.price ≡ b.price
  unfolding comparable member
  price_of_comparable = opt_str_inj _ _ (some_inj _ _ (ap (member "price") e))

  pub currency_of_comparable : a.currency ≡ b.currency
  unfolding comparable member
  currency_of_comparable = opt_str_inj _ _ (some_inj _ _ (ap (member "currency") e))

  pub availability_of_comparable : a.availability ≡ b.availability
  unfolding comparable member
  availability_of_comparable = opt_str_inj _ _ (some_inj _ _ (ap (member "availability") e))

  pub firmware_of_comparable : a.firmware_version ≡ b.firmware_version
  unfolding comparable member
  firmware_of_comparable = opt_str_inj _ _ (some_inj _ _ (ap (member "firmware_version") e))
