-- ===== src/Samples/DeliveryExamples.antt =====
-- Examples for the delivery of notifications.
use smartwatch_clank.Base.{
  ℕ, ◌≡◌, ◌↔◌, ◌⊎◌, ◌≤◌, refl, true, false, String, Option, none, some, [], ◌∷◌, All, lookup, arith,
}
use smartwatch_clank.Base.Json.{Fields, end}
use smartwatch_clank.Base.Result.{Result, ok, err, value_error}
use smartwatch_clank.Store.{Notification, sent, pending}
use smartwatch_clank.Store.Outbox.{
  Intention, policy_get, is_pending, pending_notifications, notification_count,
}
use smartwatch_clank.Delivery.Policy.{
  send, ActivationPolicy, load_policy, decide, decide_iff, parse_timestamp, parse_stripped,
  trim_left, trim_right, activation_cutoff_key,
}
use smartwatch_clank.Delivery.Discord.{
  Outcome, Summary, http_error, finite, Session, drain, eligible_now, post_webhook,
  provider_discord,
}
use smartwatch_clank.Delivery.Rows.{IsOutbox, Pointwise}
use smartwatch_clank.Delivery.Safety.{KeepsRow, drain_keeps, drain_respects_cutoff}
use smartwatch_clank.Delivery.Retries.{IsBounded, drain-IsBounded}
use smartwatch_clank.Delivery.Refusals.{unreadable_policy_sends_nothing}
use smartwatch_clank.Delivery.Returns.{IsShort, IsTimely, post_webhook-IsShort}
use smartwatch_clank.Delivery.Preview.{
  CutoffEffect, cutoff_effect, delivery_preview, Preview, verdicts, provenance_gap_counts,
}
use smartwatch_clank.Delivery.Predicted.{preview_predicts_drain}
use smartwatch_clank.Delivery.Completion.{drain_delivers}
use smartwatch_clank.Samples.{host, queued, outbox_store, session}

one_row : IsOutbox (queued ∷ [])
one_row = record { unique = (tt, tt); below = (omega arith, tt) }

few_attempts : All IsBounded (queued ∷ [])
few_attempts = (
  record { most = omega arith; pending_below = λ _. omega arith; held_below = λ _. omega arith },
  tt,
)

abbrev once_more : Intention
once_more = record {
  provider = "discord";
  dedup_key = "discovery:2";
  payload = end;
  discovery_id = some 2;
  collector = none;
  identity = none;
  discovered_at = none;
  status = pending;
}

abbrev given : Option String
given = some "x"

decide_iff_example :
    ((policy : ActivationPolicy) × (load_policy host given ≡ ok policy)
      × (decide host (some "2026-01-01") policy ≡ ok send))
    ↔ ((given ≡ none)
        ⊎ ((cutoff : ℕ) × (detected : ℕ) × (parse_timestamp host given ≡ ok (some cutoff))
            × (parse_timestamp host (some "2026-01-01") ≡ ok (some detected))
            × (cutoff ≤ detected)))
decide_iff_example = decide_iff host given (some "2026-01-01")

drain_keeps_example :
    Pointwise KeepsRow (queued ∷ []) (drain host session false outbox_store).1.notifications
drain_keeps_example = drain_keeps host session outbox_store one_row

drain_respects_cutoff_example :
    Pointwise
      (λ a b.
        b.status ≡ sent
        → (a.status ≡ sent)
          ⊎ ((policy_get activation_cutoff_key outbox_store ≡ none)
              ⊎ ((cutoff : ℕ) × (detected : ℕ) × (parse_timestamp host
                      (policy_get activation_cutoff_key outbox_store)
                    ≡ ok (some cutoff))
                  × (parse_timestamp host a.discovered_at ≡ ok (some detected))
                  × (cutoff ≤ detected))))
      (queued ∷ [])
      (drain host session false outbox_store).1.notifications
drain_respects_cutoff_example = drain_respects_cutoff host session outbox_store one_row

drain-IsBounded_example : All IsBounded (drain host session true outbox_store).1.notifications
drain-IsBounded_example = drain-IsBounded host session true outbox_store one_row few_attempts

abbrev deaf : ℕ → Fields → Result Outcome
deaf id payload = err (value_error "never called")

abbrev blank_cutoff : ActivationPolicy
blank_cutoff = record { cutoff = none; raw = some ""; unreadable = true }

unreadable_policy_sends_nothing_example :
    drain host session false (record outbox_store { policy = (activation_cutoff_key, "") ∷ [] })
    ≡ drain host
        (record session { sender = deaf })
        false
        (record outbox_store { policy = (activation_cutoff_key, "") ∷ [] })
unfolding load_policy policy_get parse_timestamp parse_stripped trim_left trim_right lookup
unreadable_policy_sends_nothing_example =
    unreadable_policy_sends_nothing host session deaf
      (record outbox_store { policy = (activation_cutoff_key, "") ∷ [] }) blank_cutoff refl refl

-- every response is a 429 that asks for a wait of centuries
abbrev limited_session : Session
limited_session = record session {
  sender =
      λ id payload. ok (post_webhook host (http_error 429 (some (finite 10000000000000000000000))));
}

post_webhook-IsShort_example :
    IsShort (post_webhook host (http_error 429 (some (finite 10000000000000000000000)))).retry_after
post_webhook-IsShort_example =
    post_webhook-IsShort host (http_error 429 (some (finite 10000000000000000000000))) (λ e. cc e)

outbox-IsTimely : IsTimely host outbox_store
unfolding policy_get parse_timestamp parse_stripped trim_left trim_right lookup
outbox-IsTimely = record { cutoff = (some 7, refl); rows = (((none, refl), (some 7, refl)), tt) }

abbrev installed_policy : ActivationPolicy
installed_policy = record { cutoff = some 7; raw = some "2025-12-31"; unreadable = false }

installed_policy_loaded :
    load_policy host (policy_get activation_cutoff_key outbox_store) ≡ ok installed_policy
unfolding load_policy policy_get parse_timestamp parse_stripped trim_left trim_right lookup
installed_policy_loaded = refl

drain_delivers_example :
    Pointwise
      (λ a b.
        is_pending provider_discord a ≡ true
        → eligible_now host (session.checked_at a.id) a ≡ ok true
        → decide host a.discovered_at installed_policy ≡ ok send
        → b.status ≡ sent)
      (queued ∷ [])
      (drain host session false outbox_store).1.notifications
drain_delivers_example =
    drain_delivers host session outbox_store installed_policy refl refl (λ id payload. refl) one_row
      outbox-IsTimely.rows installed_policy_loaded

abbrev installed_effect : CutoffEffect
installed_effect = record {
  cutoff = installed_policy;
  would_send = 1;
  would_hold = 0;
  breakdown = send ∷ [];
}

abbrev shown : Preview
shown = record {
  counts_by_status =
      λ status. notification_count provider_discord status outbox_store.notifications;
  installed_policy = installed_policy;
  webhook_configured = true;
  provenance_gaps = (0, 1);
  installed_effect = some installed_effect;
  proposed_effect = none;
}

previewed : delivery_preview host outbox_store none true ≡ ok shown
unfolding delivery_preview cutoff_effect verdicts policy_get lookup load_policy decide
    parse_timestamp parse_stripped trim_left trim_right pending_notifications provenance_gap_counts
previewed = refl

none_waits :
    All
      (λ (r : Notification). eligible_now host (session.checked_at r.id) r ≡ ok true)
      (pending_notifications provider_discord outbox_store.notifications)
unfolding pending_notifications eligible_now parse_timestamp
none_waits = (refl, tt)

preview_predicts_drain_example :
    (summary : Summary) × ((drain host session false outbox_store).0 ≡ ok summary)
    × (summary.tally.sent ≡ 1)
    × (summary.tally.held ≡ 0)
    × (summary.tally.failed ≡ 0)
    × (summary.tally.deferred ≡ 0)
preview_predicts_drain_example =
    preview_predicts_drain host session outbox_store none true shown installed_effect previewed refl
      refl refl (λ id payload. refl) none_waits
