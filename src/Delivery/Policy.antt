-- ===== src/Delivery/Policy.antt =====
-- notifications/delivery_policy.py. A verdict is a data type here; `reason` is its text.
use Prim.Native.Char.{code}
use smartwatch_clank.Base.{
  ℕ, ◌≤◌, String, ◌≡◌, ◌↔◌, ◌⊎◌, inl, inr, refl, Bool, true, false, ◌||◌, Option, none, some, leb,
  if◌then◌else◌, ◌==◌, nat_eq, arith, subst, sym,
}
use smartwatch_clank.Base.Text.{is_space}
use smartwatch_clank.Base.Result.{Exn, other_error, Result, ok, err, ok_inj}
use smartwatch_clank.Platform.{Platform, Stamp, aware, naive, out_of_range}

abbrev pub activation_cutoff_key : String
activation_cutoff_key = "discord.activation_cutoff"

pub data Verdict : Type 0 where
  send held_before_cutoff held_unknown_event_time held_policy_unreadable : Verdict

abbrev pub reason : Verdict → String
reason send = "send"
reason held_before_cutoff = "held_before_cutoff"
reason held_unknown_event_time = "held_unknown_event_time"
reason held_policy_unreadable = "held_policy_unreadable"

-- `verdict in HELD_REASONS`
abbrev pub is_held : Verdict → Bool
is_held send = false
is_held _ = true

-- `str.lstrip`
unfoldable pub trim_left : String → String
trim_left String.[] = String.[]
trim_left (String.◌∷◌ c s) =
    let rest = trim_left s in if is_space (code c) then rest else String.◌∷◌ c s

-- `str.rstrip`
unfoldable pub trim_right : String → String
trim_right String.[] = String.[]
trim_right (String.◌∷◌ c s) = elim (trim_right s) [
  | String.[] ↦ if is_space (code c) then String.[] else String.◌∷◌ c String.[]
  | String.◌∷◌ d r ↦ String.◌∷◌ c (String.◌∷◌ d r)
]

-- a final Z or z becomes +00:00
unfoldable pub with_offset : String → String
with_offset String.[] = String.[]
with_offset (String.◌∷◌ c String.[]) =
    if code c == b'Z' || code c == b'z' then "+00:00" else String.◌∷◌ c String.[]
with_offset (String.◌∷◌ c (String.◌∷◌ d s)) = String.◌∷◌ c (with_offset (String.◌∷◌ d s))

abbrev pub overflow : Exn
overflow = other_error "OverflowError" "date value out of range"

-- the time in UTC; a reading without a zone is one in UTC
abbrev pub in_utc : Option Stamp → Result (Option ℕ)
in_utc none = ok none
in_utc (some (aware t)) = ok (some t)
in_utc (some (naive t)) = ok (some t)
in_utc (some out_of_range) = err overflow

-- the part of `parse_timestamp` after `strip`: an empty text is no time
unfoldable pub parse_stripped : Platform → String → Result (Option ℕ)
unfolding with_offset
parse_stripped p String.[] = ok none
parse_stripped p (String.◌∷◌ c s) = in_utc (p.fromisoformat (with_offset (String.◌∷◌ c s)))

-- `parse_timestamp`; `none` is `None` or a value that is no text
unfoldable pub parse_timestamp : Platform → Option String → Result (Option ℕ)
parse_timestamp p none = ok none
parse_timestamp p (some raw) = parse_stripped p (trim_left (trim_right raw))

pub record ActivationPolicy : Type 0 where
  pub cutoff : Option ℕ
  pub raw : Option String
  pub unreadable : Bool

-- `ActivationPolicy.configured`
abbrev pub configured : ActivationPolicy → Bool
configured policy = elim policy.raw [ none ↦ false | some raw ↦ true ]

abbrev pub policy_of : String → Option ℕ → ActivationPolicy
policy_of text none = record { cutoff = none; raw = some text; unreadable = true }
policy_of text (some t) = record { cutoff = some t; raw = some text; unreadable = false }

abbrev loaded : String → Result (Option ℕ) → Result ActivationPolicy
loaded text (ok t) = ok (policy_of text t)
loaded text (err e) = err e

-- `load_policy`
unfoldable pub load_policy : Platform → Option String → Result ActivationPolicy
load_policy p none = ok (record { cutoff = none; raw = none; unreadable = false })
load_policy p (some text) = loaded text (parse_timestamp p (some text))

-- the test of the time of discovery against the cutoff
abbrev pub against : ℕ → Option ℕ → Verdict
against cutoff none = held_unknown_event_time
against cutoff (some detected) = if leb cutoff detected then send else held_before_cutoff

abbrev judged : ℕ → Result (Option ℕ) → Result Verdict
judged cutoff (ok detected) = ok (against cutoff detected)
judged cutoff (err e) = err e

-- `decide`
unfoldable pub decide : Platform → Option String → ActivationPolicy → Result Verdict
decide p discovered_at policy =
    if policy.unreadable then ok held_policy_unreadable else elim policy.cutoff [
      | none ↦ ok send
      | some cutoff ↦ judged cutoff (parse_timestamp p discovered_at)
    ]

-- The verdict under the policy of a stored cutoff is to send exactly when no cutoff has been
-- installed, or when the installed cutoff can be read, the time of the discovery can be read, and that
-- time is not before the cutoff.
pub decide_iff :
    (p : Platform) (raw discovered_at : Option String)
    → ((policy : ActivationPolicy) × (load_policy p raw ≡ ok policy)
        × (decide p discovered_at policy ≡ ok send))
      ↔ ((raw ≡ none)
          ⊎ ((cutoff : ℕ) × (detected : ℕ) × (parse_timestamp p raw ≡ ok (some cutoff))
              × (parse_timestamp p discovered_at ≡ ok (some detected))
              × (cutoff ≤ detected)))
unfolding decide load_policy
decide_iff p none discovered_at = (λ _. inl refl, λ _. (_, refl, refl))
decide_iff p (some text) discovered_at =
    go (parse_timestamp p (some text)) (parse_timestamp p discovered_at) refl refl
  where
    under :
        (c : Option ℕ)
        → ((policy : ActivationPolicy) × (ok (policy_of text c) ≡ ok policy)
            × (decide p discovered_at policy ≡ ok send))
        → decide p discovered_at (policy_of text c) ≡ ok send
    under c (policy, h, k) =
        subst (λ (x : ActivationPolicy). decide p discovered_at x ≡ ok send) (sym (ok_inj _ _ h)) k

    go :
        (c d : Result (Option ℕ))
        → parse_timestamp p (some text) ≡ c
        → parse_timestamp p discovered_at ≡ d
        → ((policy : ActivationPolicy) × (load_policy p (some text) ≡ ok policy)
            × (decide p discovered_at policy ≡ ok send))
          ↔ ((some text ≡ none)
              ⊎ ((cutoff : ℕ) × (detected : ℕ) × (parse_timestamp p (some text) ≡ ok (some cutoff))
                  × (parse_timestamp p discovered_at ≡ ok (some detected))
                  × (cutoff ≤ detected)))
    go (err x) d e f = rw e (
      (λ h. absurd (cc h.1)),
      λ s. elim s [ inl z ↦ absurd (cc z) | inr (a, b, q, r, l) ↦ absurd (cc q) ],
    )
    go (ok none) d e f = rw e (
      (λ h. absurd (cc (under none h))),
      λ s. elim s [ inl z ↦ absurd (cc z) | inr (a, b, q, r, l) ↦ absurd (cc q) ],
    )
    go (ok (some c)) (err x) e f =
        rw (e, f)
          (
            (λ h. absurd (cc ((rw (decide, f) at (under (some c) h))))),
            λ s. elim s [ inl z ↦ absurd (cc z) | inr (a, b, q, r, l) ↦ absurd (cc r) ],
          )
    go (ok (some c)) (ok none) e f =
        rw (e, f)
          (
            (λ h. absurd (cc ((rw (decide, f) at (under (some c) h))))),
            λ s. elim s [ inl z ↦ absurd (cc z) | inr (a, b, q, r, l) ↦ absurd (cc r) ],
          )
    go (ok (some c)) (ok (some d)) e f =
        rw (e, f)
          (
            (λ h.
                let k = (rw (decide, f) at (under (some c) h)) in
                inr (c, d, refl, refl, ground (arith, k))),
            λ s. elim s [
              | inl z ↦ absurd (cc z)
              | inr (a, b, q, r, l) ↦ (_, refl, rw f (ground (arith, q, r, l)))
            ],
          )
