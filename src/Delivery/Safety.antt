-- ===== src/Delivery/Safety.antt =====
-- notifications/discord.py: what a drain never does to the outbox.
use smartwatch_clank.Base.{
  ℕ, String, ◌≤◌, ◌≡◌, ◌≢◌, ◌⊎◌, inl, inr, refl, sym, ap, ◌∙◌, subst, true, false, Option, none,
  some, nat_eq, string_eq, option_eq, Bool-cases, arith,
}
use smartwatch_clank.Base.Result.{Result, ok, err, Result-cases}
use smartwatch_clank.Platform.{Platform}
use smartwatch_clank.Store.{Store, Notification, pending, sent}
use smartwatch_clank.Store.Outbox.{status_eq, marked, policy_get}
use smartwatch_clank.Delivery.Policy.{
  Verdict, send, ActivationPolicy, load_policy, decide, decide_iff, parse_timestamp,
  activation_cutoff_key, is_held,
}
use smartwatch_clank.Delivery.Discord.{
  Session, Effect, skip_deferred, hold, delivered, limit_until, give_up, retry_later, crash, effect,
  eligible_now, by_verdict, drain,
}
use smartwatch_clank.Delivery.Rows.{IsOutbox, Pointwise, Pointwise-map, row_after}
use smartwatch_clank.Delivery.Selected.{drain-Pointwise}

-- What a drain without the held rows keeps of a row.
pub record KeepsRow (a b : Notification) : Type 0 where
  pub id : b.id ≡ a.id
  pub provider : b.provider ≡ a.provider
  pub dedup_key : b.dedup_key ≡ a.dedup_key
  pub payload : b.payload ≡ a.payload
  pub discovered_at : b.discovered_at ≡ a.discovered_at
  pub attempts : a.attempts ≤ b.attempts
  pub settled : a.status ≢ pending → b ≡ a

KeepsRow-same : (a : Notification) → KeepsRow a a
KeepsRow-same a = record {
  id = refl;
  provider = refl;
  dedup_key = refl;
  payload = refl;
  discovered_at = refl;
  attempts = omega arith;
  settled = λ _. refl;
}

KeepsRow-trans : (a b c : Notification) → KeepsRow a b → KeepsRow b c → KeepsRow a c
KeepsRow-trans a b c h k = record {
  id = k.id ∙ h.id;
  provider = k.provider ∙ h.provider;
  dedup_key = k.dedup_key ∙ h.dedup_key;
  payload = k.payload ∙ h.payload;
  discovered_at = k.discovered_at ∙ h.discovered_at;
  attempts = omega (arith, h.attempts, k.attempts);
  settled = λ n.
      k.settled (λ e. n (sym (ap (λ (x : Notification). x.status) (h.settled n)) ∙ e))
      ∙ h.settled n;
}

KeepsRow-after :
    (p : Platform) (session : Session) (e : Effect) (r : Notification)
    → r.status ≡ pending
    → KeepsRow r (row_after p session r.id e r)
unfolding row_after marked
KeepsRow-after p session e r h = record {
  id = ground arith;
  provider = ground arith;
  dedup_key = ground arith;
  payload = ground arith;
  discovered_at = ground arith;
  attempts = ground arith;
  settled = λ n. absurd (n h);
}

some_pending :
    {A : Type 0} (r : Notification)
    → (r.status ≡ pending) ⊎ (A × (false ≡ true))
    → r.status ≡ pending
some_pending r (inl e) = e
some_pending r (inr h) = absurd (cc h.1)

-- Where the ids of the outbox are distinct, a drain without the held rows keeps every row, with its
-- payload and the time of its discovery, never lowers a count of attempts, and leaves a row that is
-- not pending exactly as it was: what is sent, failed or held stays so.
pub drain_keeps :
    (p : Platform) (session : Session) (s : Store)
    → IsOutbox s.notifications
    → Pointwise KeepsRow s.notifications (drain p session false s).1.notifications
drain_keeps p session s o =
    drain-Pointwise p session false s KeepsRow KeepsRow-same KeepsRow-trans
      (λ r h policy q. KeepsRow-after p session _ r (some_pending r h)) o.unique

-- What the stored cutoff asks of a time of discovery.
abbrev pub Admits : Platform → Option String → Option String → Type 0
Admits p raw discovered_at =
    (raw ≡ none)
    ⊎ ((cutoff : ℕ) × (detected : ℕ) × (parse_timestamp p raw ≡ ok (some cutoff))
        × (parse_timestamp p discovered_at ≡ ok (some detected))
        × (cutoff ≤ detected))

-- A row that is sent after the drain was sent before, or the stored cutoff admits it.
record SentByPolicy (p : Platform) (raw : Option String) (a b : Notification) : Type 0 where
  pub discovered_at : b.discovered_at ≡ a.discovered_at
  pub admitted : b.status ≡ sent → (a.status ≡ sent) ⊎ Admits p raw a.discovered_at

SentByPolicy-trans :
    (p : Platform) (raw : Option String) (a b c : Notification)
    → SentByPolicy p raw a b
    → SentByPolicy p raw b c
    → SentByPolicy p raw a c
SentByPolicy-trans p raw a b c h k = record {
  discovered_at = k.discovered_at ∙ h.discovered_at;
  admitted = λ e. elim (k.admitted e) [
    | inl f ↦ h.admitted f
    | inr d ↦ inr (subst (Admits p raw) h.discovered_at d)
  ];
}

module _ (p : Platform) (policy : ActivationPolicy) where
  not_held : (v : Verdict) → is_held v ≡ false → v ≡ send
  not_held v h = ground arith

  delivered-decide :
      (session : Session) (r : Notification) (h : Option ℕ)
      → effect p session policy false r ≡ delivered h
      → decide p r.discovered_at policy ≡ ok send
  unfolding effect
  delivered-decide session r h e =
      elim (Result-cases (eligible_now p (session.checked_at r.id) r)) [
        | inl (x, q) ↦ absurd (cc (rw (q, effect) at e))
        | inr (false, q) ↦ absurd (cc (rw (q, effect) at e))
        | inr (true, q) ↦ judged (decide p r.discovered_at policy) refl (rw (q, effect) at e)
      ]
    where
      judged :
          (v : Result Verdict)
          → decide p r.discovered_at policy ≡ v
          → by_verdict session r v ≡ delivered h
          → v ≡ ok send
      judged (err x) q k = absurd (cc k)
      judged (ok v) q k = elim (Bool-cases (is_held v)) [
        | inr n ↦ ap ok (not_held v n)
        | inl n ↦ absurd (cc (rw n at k))
      ]

  sent-delivered :
      (session : Session) (e : Effect) (r : Notification)
      → (row_after p session r.id e r).status ≡ sent
      → (r.status ≡ sent) ⊎ ((h : Option ℕ) × (e ≡ delivered h))
  unfolding row_after marked
  sent-delivered session skip_deferred r h = inl h
  sent-delivered session (hold v) r h = absurd (cc h)
  sent-delivered session (delivered http_status) r h = inr (http_status, refl)
  sent-delivered session (limit_until until) r h = inl h
  sent-delivered session (give_up error http_status) r h = absurd (cc h)
  sent-delivered session (retry_later error http_status) r h = absurd (cc h)
  sent-delivered session (crash x) r h = inl h

  row_after-discovered_at :
      (session : Session) (e : Effect) (r : Notification)
      → (row_after p session r.id e r).discovered_at ≡ r.discovered_at
  unfolding row_after marked
  row_after-discovered_at session e r = ground arith

  SentByPolicy-after :
      (raw : Option String)
      → load_policy p raw ≡ ok policy
      → (session : Session) (r : Notification)
      → SentByPolicy p raw r (row_after p session r.id (effect p session policy false r) r)
  SentByPolicy-after raw q session r = record {
    discovered_at = row_after-discovered_at session _ r;
    admitted = λ e. elim (sent-delivered session _ r e) [
      | inl f ↦ inl f
      | inr (h, f) ↦
          inr ((decide_iff p raw r.discovered_at).0 (policy, q, delivered-decide session r h f))
    ];
  }

-- Where the ids of the outbox are distinct, and whatever the sender and the clock do, a row that is
-- sent after a drain without the held rows was sent before it, or no cutoff is installed, or the
-- cutoff and the time of the discovery of the row can both be read and the discovery is not before
-- the cutoff.
pub drain_respects_cutoff :
    (p : Platform) (session : Session) (s : Store)
    → IsOutbox s.notifications
    → Pointwise
        (λ a b.
          b.status ≡ sent
          → (a.status ≡ sent)
            ⊎ ((policy_get activation_cutoff_key s ≡ none)
                ⊎ ((cutoff : ℕ) × (detected : ℕ) × (parse_timestamp p
                        (policy_get activation_cutoff_key s)
                      ≡ ok (some cutoff))
                    × (parse_timestamp p a.discovered_at ≡ ok (some detected))
                    × (cutoff ≤ detected))))
        s.notifications
        (drain p session false s).1.notifications
drain_respects_cutoff p session s o =
    let raw = policy_get activation_cutoff_key s in
    Pointwise-map _ _ _ _ (λ a b h e. h.admitted e)
      (drain-Pointwise p session false s (SentByPolicy p raw)
        (λ a. record { discovered_at = refl; admitted = inl }) (SentByPolicy-trans p raw)
        (λ r h policy q. SentByPolicy-after p policy raw q session r) o.unique)
