-- ===== src/News.antt =====
-- src/smartwatch_clank/classifiers/news.py: the relevance cascade over a feed item.
pub mod Phrases
pub mod Persist
use Prim.Native.String.{◌++◌}
use mathlib.Core.List.{◌++◌ as appended}
use smartwatch_clank.Base.{
  String, Bool, Option, none, some, List, [], ◌∷◌, map, keep_if, if◌then◌else◌, ◌==◌, string_eq,
}
use smartwatch_clank.Base.Text.{codes, lower, occurs}
use smartwatch_clank.Models.{
  Confidence, high, medium, low, EditorialLevel, newsworthy, monitor, noise,
}

pub data NewsClassification : Type 0 where
  smartwatch_relevant possibly_smartwatch_relevant not_smartwatch_relevant : NewsClassification

abbrev pub classification_value : NewsClassification → String
classification_value smartwatch_relevant = "SMARTWATCH_RELEVANT"
classification_value possibly_smartwatch_relevant = "POSSIBLY_SMARTWATCH_RELEVANT"
classification_value not_smartwatch_relevant = "NOT_SMARTWATCH_RELEVANT"

-- `EDITORIAL_BY_CLASSIFICATION`
unfoldable pub editorial_by_classification : NewsClassification → Confidence × EditorialLevel
editorial_by_classification smartwatch_relevant = (high, newsworthy)
editorial_by_classification possibly_smartwatch_relevant = (medium, monitor)
editorial_by_classification not_smartwatch_relevant = (low, noise)

-- `_RELEVANT_PHRASES`
abbrev relevant_phrases : List String
relevant_phrases =
    "galaxy watch" ∷ "pixel watch" ∷ "apple watch" ∷ "watchos" ∷ "fenix" ∷ "forerunner" ∷ "venu"
    ∷ "vivoactive" ∷ "instinct" ∷ "enduro" ∷ "marq" ∷ []

-- `_OEM_RELEVANT_PHRASES`
abbrev amazfit_phrases : List String
amazfit_phrases =
    "balance" ∷ "bip" ∷ "cheetah" ∷ "t-rex" ∷ "trex" ∷ "active max" ∷ "active edge" ∷ "falcon"
    ∷ "zepp os" ∷ []

abbrev coros_phrases : List String
coros_phrases = "pace" ∷ "apex" ∷ "vertix" ∷ "nomad" ∷ "dura" ∷ "pod" ∷ []

abbrev specialist_phrases : List String
specialist_phrases =
    "fenix" ∷ "forerunner" ∷ "venu" ∷ "vivoactive" ∷ "instinct" ∷ "enduro" ∷ "marq" ∷ "epix"
    ∷ "tactix" ∷ "descent" ∷ "quatix" ∷ "lily" ∷ "amazfit balance" ∷ "amazfit bip" ∷ "amazfit t-rex"
    ∷ "amazfit active" ∷ "amazfit cheetah" ∷ "amazfit falcon" ∷ "zepp os" ∷ "coros pace"
    ∷ "coros apex" ∷ "coros vertix" ∷ "coros nomad" ∷ "suunto race" ∷ "polar vantage" ∷ "polar grit"
    ∷ "smartwatch" ∷ "gps watch" ∷ "running watch" ∷ "sports watch" ∷ []

unfoldable pub oem_phrases : String → List String
oem_phrases oem =
    if oem == "amazfit"
    then amazfit_phrases
    else if oem == "coros"
    then coros_phrases
    else if oem == "specialist_dcrainmaker"
    then specialist_phrases
    else []

-- (*_RELEVANT_PHRASES, *oem_phrases)
unfoldable pub phrases_of : String → List String
phrases_of oem = appended relevant_phrases (oem_phrases oem)

-- `_EXCLUDED_PHRASES`
abbrev pub excluded_phrases : List String
excluded_phrases =
    "galaxy fit" ∷ "galaxy ring" ∷ "smart band" ∷ "mi band" ∷ "fitness band" ∷ "helio strap"
    ∷ "helio ring" ∷ "helio core" ∷ "helio armband" ∷ "up open-ear" ∷ "up earbuds" ∷ []

-- `_WEAK_SIGNAL_PHRASES`
abbrev pub weak_phrases : List String
weak_phrases = "watch" ∷ "wearable" ∷ []

-- " ".join(categories)
unfoldable pub spaced_out : List String → String
spaced_out [] = ""
spaced_out (c ∷ []) = c
spaced_out (c ∷ d ∷ cs) = c ++ (" " ++ spaced_out (d ∷ cs))

abbrev or_nothing : Option String → String
or_nothing none = ""
or_nothing (some s) = s

-- an item of a feed
pub record Item : Type 0 where
  pub title : String
  pub categories : List String
  pub summary : Option String

-- " ".join((title, " ".join(categories), summary or ""))
unfoldable pub item_text : Item → String
item_text i = i.title ++ (" " ++ (spaced_out i.categories ++ (" " ++ or_nothing i.summary)))

-- `phrase in text`, the text in lower case
unfoldable pub mentions : String → String → Bool
mentions text phrase = occurs (codes phrase) (lower (codes text))

unfoldable pub matched : String → List String → List String
matched text phrases = keep_if (mentions text) phrases

abbrev pub weak : List String → NewsClassification × List String
weak [] = (not_smartwatch_relevant, "no_smartwatch_signal" ∷ [])
weak (p ∷ ps) = (possibly_smartwatch_relevant, map (λ q. "weak_signal:" ++ q) (p ∷ ps))

abbrev pub excluded_or :
    NewsClassification × List String → List String → NewsClassification × List String
excluded_or other [] = other
excluded_or other (p ∷ ps) = (not_smartwatch_relevant, map (λ q. "excluded_phrase:" ++ q) (p ∷ ps))

abbrev pub relevant_or :
    NewsClassification × List String → List String → NewsClassification × List String
relevant_or other [] = other
relevant_or other (p ∷ ps) = (smartwatch_relevant, map (λ q. "matched_phrase:" ++ q) (p ∷ ps))

-- `classify_news`
unfoldable pub classify_news : String → Item → NewsClassification × List String
classify_news oem item =
    let text = item_text item in
    relevant_or (excluded_or (weak (matched text weak_phrases)) (matched text excluded_phrases))
      (matched text (phrases_of oem))
