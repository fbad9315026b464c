-- ===== src/Delivery/Returns.antt =====
-- notifications/discord.py: when a drain raises nothing, and which waits the webhook's sender names.
use smartwatch_clank.Base.{
  ℕ, ◌≤◌, String, ◌≡◌, ◌≢◌, inl, inr, refl, ap, nat_beq_iff, Bool, true, false, Option, none, some,
  All, if◌then◌else◌, ◌==◌, leb, nat_eq, string_eq, option_eq, Option-cases, Bool-cases, arith,
}
use smartwatch_clank.Base.Result.{Result, ok, err}
use smartwatch_clank.Platform.{Platform}
use smartwatch_clank.Store.{Store, Notification}
use smartwatch_clank.Store.Outbox.{policy_get, status_eq}
use smartwatch_clank.Delivery.Policy.{
  Verdict, send, held_policy_unreadable, against, ActivationPolicy, decide, parse_timestamp,
  activation_cutoff_key,
}
use smartwatch_clank.Delivery.Selected.{branch}
use smartwatch_clank.Delivery.Discord.{
  Outcome, Response, answered, http_error, transport_error, below_zero, infinite, Float, finite,
  nan, delivered, after_send, sent_or_raised, eligible_now, post_webhook, parse_retry_after,
  max_retry_after,
}

-- No wait, or one of at most a quarter of an hour.
abbrev pub IsShort : Option Float → Type 0
IsShort none = Unit
IsShort (some (finite n)) = n ≤ max_retry_after
IsShort (some _) = ⊥

-- The sender returns an outcome, and that names no wait or a short one.
abbrev pub IsAnswer : Result Outcome → Type 0
IsAnswer (ok o) = IsShort o.retry_after
IsAnswer (err e) = ⊥

-- The sender returns an outcome, and accepts.
abbrev pub accepts : Result Outcome → Bool
accepts (ok o) = o.ok
accepts (err e) = false

abbrev pub status_given : Result Outcome → Option ℕ
status_given (ok o) = o.http_status
status_given (err e) = none

pub sent_or_raised-accepts :
    (limited_at : ℕ) (r : Notification) (o : Result Outcome)
    → accepts o ≡ true
    → sent_or_raised limited_at r o ≡ delivered (status_given o)
unfolding after_send
sent_or_raised-accepts limited_at r (ok o) h = rw (h, after_send) refl
sent_or_raised-accepts limited_at r (err e) h = absurd (cc h)

-- A stored time is read, as a time or as none; its time in UTC is in range.
abbrev pub Reads : Platform → Option String → Type 0
Reads p raw = (t : Option ℕ) × (parse_timestamp p raw ≡ ok t)

-- The stored times of a store are in range.
pub record IsTimely (p : Platform) (s : Store) : Type 0 where
  pub cutoff : Reads p (policy_get activation_cutoff_key s)
  pub rows : All (λ r. Reads p r.not_before × Reads p r.discovered_at) s.notifications

pub eligible_now-Reads :
    (p : Platform) (now : ℕ) (r : Notification)
    → Reads p r.not_before
    → (b : Bool) × (eligible_now p now r ≡ ok b)
unfolding eligible_now
eligible_now-Reads p now r (none, q) = (true, rw (q, eligible_now) refl)
eligible_now-Reads p now r (some floor, q) = (leb floor now, rw (q, eligible_now) refl)

pub decide-Reads :
    (p : Platform) (d : Option String) (policy : ActivationPolicy)
    → Reads p d
    → (v : Verdict) × (decide p d policy ≡ ok v)
unfolding decide
decide-Reads p d policy (t, q) = elim (Bool-cases policy.unreadable) [
  | inl u ↦ (held_policy_unreadable, rw (u, decide) refl)
  | inr u ↦ elim (Option-cases policy.cutoff) [
    | inl n ↦ (send, rw (u, n, decide) refl)
    | inr (c, n) ↦ (against c t, rw (u, n, q, decide) refl)
  ]
]

IsShort-if : (b : Bool) (w : Float) → IsShort (some w) → IsShort (if b then some w else none)
IsShort-if b w h = branch IsShort b _ _ h tt

-- What the webhook's own sender makes of a response names no wait, or one of at most a quarter of an
-- hour, unless the response is a 429 whose Retry-After header reads as not a number.
pub post_webhook-IsShort :
    (p : Platform) (r : Response)
    → r ≢ http_error 429 (some nan)
    → IsShort (post_webhook p r).retry_after
unfolding post_webhook parse_retry_after
post_webhook-IsShort p (answered status) h = tt
post_webhook-IsShort p (transport_error category) h = tt
post_webhook-IsShort p (http_error status none) h = IsShort-if (status == 429) _ (omega arith)
post_webhook-IsShort p (http_error status (some (below_zero n))) h =
    IsShort-if (status == 429) _ (omega arith)
post_webhook-IsShort p (http_error status (some (finite n))) h =
    IsShort-if (status == 429) _ (ground arith)
post_webhook-IsShort p (http_error status (some infinite)) h =
    IsShort-if (status == 429) _ (omega arith)
post_webhook-IsShort p (http_error status (some nan)) h = elim (Bool-cases (status == 429)) [
  | inl q ↦ absurd (h (ap (λ n. http_error n (some nan)) ((nat_beq_iff status 429).0 q)))
  | inr q ↦ rw q tt
]
