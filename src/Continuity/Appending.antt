-- ===== src/Continuity/Appending.antt =====
-- core/continuity.py: what is read after an event is appended, and after the registry is seeded.
use mathlib.Core.List.{append_assoc}
use smartwatch_clank.Base.{
  ℕ, ◌≡◌, refl, sym, ap, ◌∙◌, true, false, not, Option, none, some, List, [], ◌∷◌, ◌++◌, all_of,
  keep_if, keep_if-append, string_eq, option_eq,
}
use smartwatch_clank.Base.Json.{Fields, json_eq}
use smartwatch_clank.Base.Result.{ok, ◌>>=◌}
use smartwatch_clank.Continuity.{
  Codec, is_break, is_blank, splitlines, parse_each, read_events, record_of, text_of, append_event,
}
use smartwatch_clank.Continuity.Lines.{
  ends, ends-line, splitlines-append, splitlines-line, parse_each-append,
}

-- What the json module does with a record: it prints it on one line that is not blank, and reads it
-- back. A record has such a line where its texts hold none of the characters outside ASCII at which
-- `splitlines` ends a line.
pub record HasLine (c : Codec) (e : Fields) : Type 0 where
  pub single : all_of (λ d. not (is_break d)) (c.dumps e) ≡ true
  pub visible : is_blank (c.dumps e) ≡ false
  pub reads_back : c.loads (c.dumps e) ≡ some e

module _ (c : Codec) where
  read_text :
      (file : Option (List ℕ))
      → read_events c file
        ≡ parse_each c (keep_if (λ l. not (is_blank l)) (splitlines (text_of file)))
  unfolding read_events parse_each splitlines
  read_text none = refl
  read_text (some text) = refl

  appended_lines :
      (text : List ℕ) (r : Fields)
      → ends text ≡ true
      → HasLine c r
      → keep_if (λ l. not (is_blank l)) (splitlines (text ++ (c.dumps r ++ 10 ∷ [])))
        ≡ keep_if (λ l. not (is_blank l)) (splitlines text) ++ c.dumps r ∷ []
  appended_lines text r h o =
      ap (keep_if (λ l. not (is_blank l))) (
        splitlines-append text (c.dumps r ++ 10 ∷ []) h
        ∙ ap (λ ls. splitlines text ++ ls) (splitlines-line (c.dumps r) o.single))
      ∙ keep_if-append (λ l. not (is_blank l)) (splitlines text) (c.dumps r ∷ [])
      ∙ rw (o.visible) refl

  -- Where the file is missing, empty or ends with the end of a line, and the new record has a line of
  -- its own, reading after an event is appended gives what was read before, and the record behind it;
  -- and the file ends with the end of a line again.
  pub append_event_lem :
      (event : Fields) (file : Option (List ℕ))
      → ends (text_of file) ≡ true
      → HasLine c (record_of c event)
      → (read_events c (some (append_event c event file).1)
          ≡ (read_events c file >>= λ es. ok (es ++ (append_event c event file).0 ∷ [])))
        × (ends (append_event c event file).1 ≡ true)
  unfolding append_event
  append_event_lem event file h o =
      let r = record_of c event in
      (
        read_text (some (text_of file ++ (c.dumps r ++ 10 ∷ [])))
            ∙ ap (parse_each c) (appended_lines (text_of file) r h o)
            ∙ parse_each-append c _ (c.dumps r) r o.reads_back
            ∙ ap (λ x. x >>= λ es. ok (es ++ r ∷ [])) (sym (read_text file)),
        ap ends (sym (append_assoc (text_of file) (c.dumps r) (10 ∷ [])))
            ∙ ends-line (text_of file ++ c.dumps r),
      )
