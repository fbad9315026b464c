-- ===== src/Delivery/Predicted.antt =====
-- notifications/discord.py: a drain does what the preview says.
use smartwatch_clank.Base.{
  subst, ℕ, ◌+◌, String, ◌≡◌, refl, ap, ◌∙◌, Bool, true, false, not, Option, none, some, List, [],
  ◌∷◌, All, count_if, Bool-cases, inl, inr, nat_eq, string_eq, option_eq, arith,
}
use smartwatch_clank.Base.Json.{Fields}
use smartwatch_clank.Base.Result.{ok, ok_inj}
use smartwatch_clank.Platform.{Platform}
use smartwatch_clank.Store.{Store, Notification, pending}
use smartwatch_clank.Store.Outbox.{pending_notifications, notification_count, policy_get}
use smartwatch_clank.Delivery.Policy.{
  Verdict, send, held_unknown_event_time, held_before_cutoff, held_policy_unreadable, is_held,
  ActivationPolicy, activation_cutoff_key, load_policy, decide,
}
use smartwatch_clank.Delivery.Discord.{
  Session, Effect, Tally, hold, delivered, stops, no_tally, Summary, provider_discord, eligible_now,
  selected_rows, effect, write, count_effect, drain_rows, drain_granted, drain_under, drain,
  next_row,
}
use smartwatch_clank.Delivery.Returns.{accepts, status_given, sent_or_raised-accepts}
use smartwatch_clank.Delivery.Completion.{drain-granted}
use smartwatch_clank.Delivery.Foreseen.{verdicts-split, cutoff_effect-Foresees, installed}
use smartwatch_clank.Delivery.Preview.{is_send, verdicts, Preview, CutoffEffect, delivery_preview}

sends_or_holds : (v : Verdict) → is_send v ≡ not (is_held v)
sends_or_holds send = refl
sends_or_holds held_unknown_event_time = refl
sends_or_holds held_before_cutoff = refl
sends_or_holds held_policy_unreadable = refl

-- what the loop has counted
record Counted (vs : List Verdict) (t t' : Tally) : Type 0 where
  pub sent : t'.sent ≡ t.sent + count_if is_send vs
  pub held : t'.held ≡ t.held + count_if is_held vs
  pub failed : t'.failed ≡ t.failed
  pub deferred : t'.deferred ≡ t.deferred

hold-Counted :
    (v : Verdict) (vs : List Verdict) (t t' : Tally)
    → is_held v ≡ true
    → Counted vs (count_effect (hold v) t) t'
    → Counted (v ∷ vs) t t'
unfolding count_effect
hold-Counted v vs t t' q k =
    let s = sends_or_holds v in
    record {
      sent = ground (arith, k.sent, s);
      held = ground (arith, k.held);
      failed = k.failed;
      deferred = k.deferred;
    }

delivered-Counted :
    (o : Option ℕ) (v : Verdict) (vs : List Verdict) (t t' : Tally)
    → is_held v ≡ false
    → Counted vs (count_effect (delivered o) t) t'
    → Counted (v ∷ vs) t t'
unfolding count_effect
delivered-Counted o v vs t t' q k =
    let s = sends_or_holds v in
    record {
      sent = ground (arith, k.sent, s);
      held = ground (arith, k.held);
      failed = k.failed;
      deferred = k.deferred;
    }

module _ (p : Platform) (session : Session) (policy : ActivationPolicy)
    (fine : (id : ℕ) (payload : Fields) → accepts (session.sender id payload) ≡ true) where
  held_effect :
      (r : Notification) (v : Verdict)
      → eligible_now p (session.checked_at r.id) r ≡ ok true
      → decide p r.discovered_at policy ≡ ok v
      → is_held v ≡ true
      → effect p session policy false r ≡ hold v
  unfolding effect
  held_effect r v h d q = rw (h, d, q, effect) refl

  sent_effect :
      (r : Notification) (v : Verdict)
      → eligible_now p (session.checked_at r.id) r ≡ ok true
      → decide p r.discovered_at policy ≡ ok v
      → is_held v ≡ false
      → effect p session policy false r ≡ delivered (status_given (session.sender r.id r.payload))
  unfolding effect
  sent_effect r v h d q =
      rw (h, d, q, effect)
        (sent_or_raised-accepts (session.limited_at r.id) r (session.sender r.id r.payload)
          (fine r.id r.payload))

  goes_on :
      (r : Notification) (todo : List Notification) (t : Tally) (rows : List Notification)
      (e : Effect)
      → effect p session policy false r ≡ e
      → stops e ≡ none
      → drain_rows p session policy false (r ∷ todo) t rows
        ≡ drain_rows p session policy false todo (count_effect e t) (write p session r e rows)
  unfolding drain_rows next_row
  goes_on r todo t rows e q n = rw (q, n) refl

  tally_lem :
      (todo : List Notification) (vs : List Verdict) (t : Tally) (rows : List Notification)
      → All (λ r. eligible_now p (session.checked_at r.id) r ≡ ok true) todo
      → verdicts p policy todo ≡ ok vs
      → (t' : Tally) × (rows' : List Notification) × (drain_rows p session policy false todo t rows
          ≡ (none, t', rows'))
        × Counted vs t t'
  tally_lem [] vs t rows h d = (
    t,
    rows,
    unfold drain_rows in refl,
    subst (λ ws. Counted ws t t) (ok_inj [] vs (unfold verdicts in d))
        (record { sent = omega arith; held = omega arith; failed = refl; deferred = refl }),
  )
  tally_lem (r ∷ todo) vs t rows h d =
      let (v, ws, q, k, same) = verdicts-split p policy r todo vs d in
      elim (Bool-cases (is_held v)) [
        | inl x ↦
            let (t', rows', e, c) =
              tally_lem todo ws (count_effect (hold v) t) (write p session r (hold v) rows) h.1 k in
            (
              t',
              rows',
              goes_on r todo t rows (hold v) (held_effect r v h.0 q x) refl ∙ e,
              subst (λ us. Counted us t t') same (hold-Counted v ws t t' x c),
            )
        | inr x ↦
            let o = status_given (session.sender r.id r.payload) in
            let (t', rows', e, c) =
              tally_lem todo ws (count_effect (delivered o) t)
                (write p session r (delivered o) rows) h.1 k in
            (
              t',
              rows',
              goes_on r todo t rows (delivered o) (sent_effect r v h.0 q x) refl ∙ e,
              subst (λ us. Counted us t t') same (delivered-Counted o v ws t t' x c),
            )
      ]

drained :
    (p : Platform) (session : Session) (s : Store) (policy : ActivationPolicy) (t : Tally)
    (rows : List Notification)
    → session.webhook ≡ true
    → session.grant ≡ true
    → load_policy p (policy_get activation_cutoff_key s) ≡ ok policy
    → drain_rows p session policy false
        (pending_notifications provider_discord s.notifications)
        no_tally
        s.notifications
      ≡ (none, t, rows)
    → (drain p session false s).0
      ≡ ok (record {
        tally = t;
        remaining = notification_count provider_discord pending rows;
        busy = false;
      })
drained p session s policy t rows w g q e =
    ap (λ r. r.0) (drain-granted p session s w g)
    ∙ (unfold drain_granted drain_under selected_rows in rw (q, drain_granted, e) refl)

-- Where a preview is given and a cutoff installed, the webhook works and the grant is free, no pending
-- row is waiting for its floor and the sender accepts everything, a drain without the held rows sends
-- and holds as many rows as the preview of the installed cutoff says, and none of them fails or is
-- deferred.
pub preview_predicts_drain :
    (p : Platform) (session : Session) (s : Store) (proposed : Option String) (webhook : Bool)
    (preview : Preview) (e : CutoffEffect)
    → delivery_preview p s proposed webhook ≡ ok preview
    → preview.installed_effect ≡ some e
    → session.webhook ≡ true
    → session.grant ≡ true
    → ((id : ℕ) (payload : Fields) → accepts (session.sender id payload) ≡ true)
    → All
        (λ r. eligible_now p (session.checked_at r.id) r ≡ ok true)
        (pending_notifications provider_discord s.notifications)
    → (summary : Summary) × ((drain p session false s).0 ≡ ok summary)
      × (summary.tally.sent ≡ e.would_send)
      × (summary.tally.held ≡ e.would_hold)
      × (summary.tally.failed ≡ 0)
      × (summary.tally.deferred ≡ 0)
preview_predicts_drain p session s proposed webhook preview e h i w g fine ready =
    let rows = pending_notifications provider_discord s.notifications in
    let f =
      cutoff_effect-Foresees p rows (policy_get activation_cutoff_key s) e
        (installed p s proposed webhook preview h ∙ ap ok i) in
    let (t, rows', q, k) =
      tally_lem p session f.policy fine rows f.given no_tally s.notifications ready f.judged in
    (
      record {
        tally = t;
        remaining = notification_count provider_discord pending rows';
        busy = false;
      },
      drained p session s f.policy t rows' w g f.loaded q,
      omega (arith, k.sent, f.would_send),
      omega (arith, k.held, f.would_hold),
      k.failed,
      k.deferred,
    )
