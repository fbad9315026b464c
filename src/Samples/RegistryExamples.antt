-- ===== src/Samples/RegistryExamples.antt =====
-- Examples for the registry, the health checks and the differ.
use smartwatch_clank.Base.{
  ℕ, ◌≡◌, ◌↔◌, ◌⊎◌, ◌≢◌, ◌≤◌, refl, true, Option, none, some, [], ◌∷◌, All, has_key, put, lookup,
  keep_if, any_of, length, ◌==◌, string_eq,
}
use smartwatch_clank.Models.{RunScope, Observation, price_change, spec_changed, firmware_released}
use smartwatch_clank.Registry.{
  Collector, Registry, register, selected, build_registry, register_each,
}
use smartwatch_clank.Registry.Selection.{IsRegistry, selected_iff, Asks}
use smartwatch_clank.Registry.Isolation.{build_registry_isolated}
use smartwatch_clank.Health.{assess_catalogue, Ratio}
use smartwatch_clank.Health.Bounds.{assess_catalogue_verdicts, severity, IsBelow}
use smartwatch_clank.News.{
  Item, classify_news, mentions, item_text, phrases_of, smartwatch_relevant,
}
use smartwatch_clank.News.Phrases.{classify_news-relevant_iff}
use smartwatch_clank.Diff.{Catalogue, diff_catalogues, classify_change}
use smartwatch_clank.Diff.Exact.{diff_catalogues-eq-change_of, change_of, about}
use smartwatch_clank.Diff.Kinds.{diff_catalogues-Unchanged, classify_change_kinds, Unchanged}
use smartwatch_clank.Samples.{host, samsung, watch}

abbrev garmin : Collector
garmin = record samsung { name = "garmin" }

abbrev one_registered : Registry
one_registered = ("samsung", samsung) ∷ []

one-IsRegistry : IsRegistry one_registered
unfolding has_key
one-IsRegistry = record { keyed = (refl, tt); distinct = (refl, tt) }

selected_iff_example :
    (length (
        keep_if
          (λ c. c.name == "samsung")
          (selected RunScope.production ("samsung" ∷ []) one_registered))
      ≤ 1)
    × ((c : Collector)
        → (keep_if
              (λ d. d.name == "samsung")
              (selected RunScope.production ("samsung" ∷ []) one_registered)
            ≡ c ∷ [])
          ↔ ((lookup "samsung" one_registered ≡ some c)
              × Asks RunScope.production ("samsung" ∷ []) c))
selected_iff_example =
    selected_iff RunScope.production ("samsung" ∷ []) "samsung" one_registered one-IsRegistry

build_registry_isolated_example :
    All
      (λ c.
        lookup c.name
          (build_registry (("samsung", samsung ∷ samsung ∷ []) ∷ ("garmin", garmin ∷ []) ∷ [])).0
        ≡ some c)
      (garmin ∷ [])
unfolding build_registry register_each register put
build_registry_isolated_example =
    build_registry_isolated (("samsung", samsung ∷ samsung ∷ []) ∷ []) [] "garmin" (garmin ∷ [])
      refl

abbrev there : ℕ
there = 6

abbrev half : Ratio
half = record { num = 1; den = 2 }

abbrev most : Ratio
most = record { num = 3; den = 4 }

assess_catalogue_verdicts_example :
    ((severity (assess_catalogue host there (some 10) true most half) ≡ 2)
      ↔ (((there ≡ 0) × (true ≡ true)) ⊎ IsBelow there 10 half))
    × ((severity (assess_catalogue host there (some 10) true most half) ≡ 1)
        ↔ ((¬ ((there ≡ 0) × (true ≡ true))) × (¬ IsBelow there 10 half) × IsBelow there 10 most))
    × ((severity (assess_catalogue host there none true most half) ≡ 2)
        ↔ ((there ≡ 0) × (true ≡ true)))
    × (severity (assess_catalogue host there none true most half) ≢ 1)
assess_catalogue_verdicts_example = assess_catalogue_verdicts host there 10 true most half

abbrev before_sale : Catalogue
before_sale = ("samsung:watch", watch) ∷ []

abbrev after_sale : Catalogue
after_sale = ("samsung:watch", record watch { price = some "199" }) ∷ []

diff_catalogues-eq-change_of_example :
    keep_if (about "samsung:watch") (diff_catalogues (λ k. 5) before_sale after_sale)
    ≡ change_of 5 (lookup "samsung:watch" before_sale) (lookup "samsung:watch" after_sale)
unfolding has_key
diff_catalogues-eq-change_of_example =
    diff_catalogues-eq-change_of (λ k. 5) before_sale after_sale "samsung:watch" (refl, tt)
      (refl, tt) (refl, tt) (refl, tt)

self-Unchanged : (o : Option Observation) → Unchanged o o
self-Unchanged none = tt
self-Unchanged (some a) = refl

diff_catalogues-Unchanged_example : diff_catalogues (λ k. 5) before_sale before_sale ≡ []
unfolding has_key
diff_catalogues-Unchanged_example =
    diff_catalogues-Unchanged (λ k. 5) before_sale before_sale (refl, tt) (refl, tt) (refl, tt)
      (refl, tt) (λ k. self-Unchanged (lookup k before_sale))

abbrev cheaper : Observation
cheaper = record watch { price = some "199" }

classify_change_kinds_example :
    ((classify_change watch cheaper ≡ price_change)
      ↔ ((watch.price ≢ cheaper.price) ⊎ (watch.currency ≢ cheaper.currency)))
    × ((classify_change watch cheaper ≡ spec_changed) ↔ (
        (watch.price ≡ cheaper.price)
        × (watch.currency ≡ cheaper.currency)
        × (watch.availability ≡ cheaper.availability)
        × (watch.firmware_version ≡ cheaper.firmware_version)))
    × ((classify_change watch cheaper ≡ firmware_released) ↔ (
        (watch.price ≡ cheaper.price)
        × (watch.currency ≡ cheaper.currency)
        × (watch.availability ≡ cheaper.availability)
        × (watch.firmware_version ≢ cheaper.firmware_version)))
classify_change_kinds_example = classify_change_kinds watch cheaper

abbrev article : Item
article = record { title = "The new Fenix"; categories = []; summary = none }

classify_news-relevant_iff_example :
    ((classify_news "garmin" article).0 ≡ smartwatch_relevant)
    ↔ (any_of (mentions (item_text article)) (phrases_of "garmin") ≡ true)
classify_news-relevant_iff_example = classify_news-relevant_iff "garmin" article
