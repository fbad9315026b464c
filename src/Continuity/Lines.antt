-- ===== src/Continuity/Lines.antt =====
-- core/continuity.py: the lines of a text to which a line is appended.
use smartwatch_clank.Base.{
  ℕ, ◌≡◌, refl, Bool, true, not, List, [], ◌∷◌, ◌++◌, all_of, ap, ◌∙◌, arith, Bool-cases, some,
  Option-cases, inl, inr,
}
use smartwatch_clank.Base.Result.{Result, ok, err, ◌>>=◌}
use smartwatch_clank.Base.Json.{Fields}
use smartwatch_clank.Continuity.{Codec, is_break, onto_first, splitlines, parse_each}

-- A text is empty or ends with the end of a line.
unfoldable pub ends : List ℕ → Bool
ends [] = true
ends (c ∷ []) = is_break c
ends (c ∷ d ∷ cs) = ends (d ∷ cs)

pub ends-line : (text : List ℕ) → ends (text ++ 10 ∷ []) ≡ true
unfolding ends is_break
ends-line [] = refl
ends-line (c ∷ []) = refl
ends-line (c ∷ d ∷ cs) = ends-line (d ∷ cs)

onto_first-append :
    (c : ℕ) (d : ℕ) (cs : List ℕ) (ls : List (List ℕ))
    → onto_first c (splitlines (d ∷ cs) ++ ls) ≡ onto_first c (splitlines (d ∷ cs)) ++ ls
unfolding splitlines
onto_first-append c d cs ls = elim (Bool-cases (is_break d)) [
  | inl q ↦ rw q refl
  | inr q ↦ rw q (go (splitlines cs))
]
  where
    go :
        (xs : List (List ℕ))
        → onto_first c (onto_first d xs ++ ls) ≡ onto_first c (onto_first d xs) ++ ls
    go [] = refl
    go (x ∷ xs) = refl

-- What follows the end of a line starts a line of its own.
pub splitlines-append :
    (text more : List ℕ)
    → ends text ≡ true
    → splitlines (text ++ more) ≡ splitlines text ++ splitlines more
unfolding splitlines ends
splitlines-append [] more h = refl
splitlines-append (c ∷ []) more h = rw h refl
splitlines-append (c ∷ d ∷ cs) more h =
    let rest : splitlines (d ∷ cs ++ more) ≡ splitlines (d ∷ cs) ++ splitlines more =
      splitlines-append (d ∷ cs) more h in
    elim (Bool-cases (is_break c)) [
      | inl q ↦ rw q (ap (λ x. [] ∷ x) rest)
      | inr q ↦ rw q (ap (onto_first c) rest ∙ onto_first-append c d cs (splitlines more))
    ]

line_feed : is_break 10 ≡ true
unfolding is_break
line_feed = refl

pub splitlines-line :
    (line : List ℕ)
    → all_of (λ c. not (is_break c)) line ≡ true
    → splitlines (line ++ 10 ∷ []) ≡ line ∷ []
unfolding splitlines
splitlines-line [] h = rw line_feed refl
splitlines-line (c ∷ cs) h = ground (arith, splitlines-line cs)

pub parse_each-append :
    (c : Codec) (ls : List (List ℕ)) (l : List ℕ) (e : Fields)
    → c.loads l ≡ some e
    → parse_each c (ls ++ l ∷ []) ≡ (parse_each c ls >>= λ es. ok (es ++ e ∷ []))
unfolding parse_each
parse_each-append c [] l e h = rw h refl
parse_each-append c (x ∷ ls) l e h = elim (Option-cases (c.loads x)) [
  | inl q ↦ rw (q, parse_each) refl
  | inr (y, q) ↦ rw (q, parse_each, parse_each-append c ls l e h) (bind (parse_each c ls) y)
]
  where
    bind :
        (r : Result (List Fields)) (y : Fields)
        → (r >>= (λ es. ok (es ++ e ∷ [])) >>= λ es. ok (y ∷ es))
          ≡ (r >>= (λ es. ok (y ∷ es)) >>= λ es. ok (es ++ e ∷ []))
    bind (ok es) y = refl
    bind (err x) y = refl
