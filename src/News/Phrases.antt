-- ===== src/News/Phrases.antt =====
-- classifiers/news.py: what makes an item relevant.
use smartwatch_clank.Base.{
  String, ◌≡◌, ◌≢◌, ◌↔◌, refl, Bool, true, List, [], ◌∷◌, keep_if, any_of, nat_eq, Bool-cases, inl,
  inr,
}
use smartwatch_clank.News.{
  NewsClassification, smartwatch_relevant, Item, item_text, mentions, matched, weak, excluded_or,
  relevant_or, phrases_of, classify_news,
}

relevant_or-matched :
    (other : NewsClassification × List String) (p : String → Bool) (ps : List String)
    → other.0 ≢ smartwatch_relevant
    → ((relevant_or other (keep_if p ps)).0 ≡ smartwatch_relevant) ↔ (any_of p ps ≡ true)
relevant_or-matched other p [] n = ((λ h. absurd (n h)), λ h. absurd (cc h))
relevant_or-matched other p (q ∷ ps) n = elim (Bool-cases (p q)) [
  | inl e ↦ rw e ((λ h. refl), λ h. refl)
  | inr e ↦ rw e (relevant_or-matched other p ps n)
]

others_not_relevant : (ws es : List String) → (excluded_or (weak ws) es).0 ≢ smartwatch_relevant
others_not_relevant [] [] h = cc h
others_not_relevant (w ∷ ws) [] h = cc h
others_not_relevant ws (e ∷ es) h = cc h

-- An item is classified as relevant exactly when its text mentions one of the phrases of its OEM: the
-- weak signals, such as the word watch, and the excluded phrases never decide it.
pub classify_news-relevant_iff :
    (oem : String) (item : Item)
    → ((classify_news oem item).0 ≡ smartwatch_relevant)
      ↔ (any_of (mentions (item_text item)) (phrases_of oem) ≡ true)
unfolding classify_news matched
classify_news-relevant_iff oem item =
    relevant_or-matched _ (mentions (item_text item)) (phrases_of oem) (others_not_relevant _ _)
