-- ===== src/Continuity/Records.antt =====
-- core/continuity.py: the records that are appended, and their hashes.
use mathlib.Core.List.{append-nil}
use smartwatch_clank.Base.{
  String, ◌≡◌, ◌≢◌, refl, sym, ap, ◌∙◌, some, List, [], ◌∷◌, ◌++◌, ◌==◌, string_eq, option_eq,
  option_beq_iff, beq_refl, Bool-cases, inl, inr, eq_iff, arith,
}
use smartwatch_clank.Base.Json.{Json, Fields, field, end, str, member, set_member, json_eq}
use smartwatch_clank.Continuity.{Codec, remove_member, content_hash, verify_hashes, record_of}

member-set : (k : String) (v : Json) (fs : Fields) → member k (set_member k v fs) ≡ some v
unfolding member set_member
member-set k v end = rw (beq_refl k) refl
member-set k v (field j w fs) = ground (arith, member-set k v fs, eq_iff j k, eq_iff k k)

remove-set :
    (k : String) (v : Json) (fs : Fields) → remove_member k (set_member k v fs) ≡ remove_member k fs
unfolding remove_member set_member
remove-set k v end = rw (beq_refl k) refl
remove-set k v (field j w fs) = ground (arith, remove-set k v fs, eq_iff j k, eq_iff k k)

cons_ne_nil {ℓ} : {A : Type ℓ} (x : A) (xs : List A) → x ∷ xs ≢ []
cons_ne_nil x xs h = cc

str_inj : (a b : String) → some (str a) ≡ some (str b) → a ≡ b
str_inj a b h = cc

module _ (c : Codec) where
  -- A record carries the hash of its content.
  record_of-hash :
      (event : Fields)
      → member "content_hash" (record_of c event) ≡ some (str (content_hash c (record_of c event)))
  unfolding record_of content_hash
  record_of-hash event =
      member-set "content_hash" _ _
      ∙ sym (ap (λ f. some (str (c.digest f))) (remove-set "content_hash" _ _))

  verify_hashes-append :
      (es fs : List Fields) → verify_hashes c (es ++ fs) ≡ verify_hashes c es ++ verify_hashes c fs
  unfolding verify_hashes
  verify_hashes-append [] fs = refl
  verify_hashes-append (e ∷ es) fs = ground (arith, verify_hashes-append es fs)

  verified_alone : (event : Fields) → verify_hashes c (record_of c event ∷ []) ≡ []
  unfolding verify_hashes
  verified_alone event =
      rw (record_of-hash event, beq_refl (some (str (content_hash c (record_of c event))))) refl

  -- An appended record passes the verification, and leaves the verdict on the others as it was.
  pub record_of-verified :
      (event : Fields) (es : List Fields)
      → verify_hashes c (es ++ record_of c event ∷ []) ≡ verify_hashes c es
  record_of-verified event es =
      verify_hashes-append es (record_of c event ∷ [])
      ∙ rw (verified_alone event) (append-nil (verify_hashes c es))

  passes :
      (e : Fields)
      → verify_hashes c (e ∷ []) ≡ []
      → member "content_hash" e ≡ some (str (content_hash c e))
  unfolding verify_hashes
  passes e h = elim (Bool-cases (member "content_hash" e == some (str (content_hash c e)))) [
    | inl q ↦ (option_beq_iff _ _).0 q
    | inr q ↦ absurd (cons_ne_nil _ _ (rw (q, verify_hashes) at h))
  ]

  -- Where the digest tells documents apart, two records that pass the verification with the same hash
  -- have the same members apart from it: a record whose content was altered and whose hash was kept
  -- is reported.
  pub same_hash_same_content :
      (a b : Fields)
      → ((x y : Fields) → c.digest x ≡ c.digest y → x ≡ y)
      → verify_hashes c (a ∷ []) ≡ []
      → verify_hashes c (b ∷ []) ≡ []
      → member "content_hash" a ≡ member "content_hash" b
      → remove_member "content_hash" a ≡ remove_member "content_hash" b
  same_hash_same_content a b inj h g e = inj _ _ (
      unfold content_hash in
      str_inj (content_hash c a) (content_hash c b) (sym (passes a h) ∙ e ∙ passes b g))
