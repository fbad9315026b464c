-- ===== src/Delivery/Retries.antt =====
-- notifications/discord.py: the attempts of a row.
use smartwatch_clank.Base.{
  ℕ, ◌+◌, ◌≤◌, ◌<◌, String, ◌≡◌, ◌≢◌, inl, inr, refl, Bool, true, false, Option, List, [], ◌∷◌,
  ◌++◌, All, All-map, All-append, any_of, nat_eq, string_eq, option_eq, Bool-cases, beq_refl, arith,
}
use smartwatch_clank.Base.Result.{Result, ok, err, Result-cases}
use smartwatch_clank.Platform.{Platform}
use smartwatch_clank.Store.{Store, Notification, pending, held}
use smartwatch_clank.Store.Outbox.{
  status_eq, marked, notification_put, notification_row, Intention, last_notification_id,
  has_dedup_key,
}
use smartwatch_clank.Delivery.Policy.{Verdict, is_held, ActivationPolicy}
use smartwatch_clank.Delivery.Discord.{
  Session, Outcome, Effect, skip_deferred, hold, delivered, limit_until, give_up, retry_later,
  crash, effect, sent_or_raised, by_verdict, eligible_now, after_send, drain, max_attempts,
}
use smartwatch_clank.Delivery.Rows.{UniqueIds, IsOutbox, Pointwise, row_after}
use smartwatch_clank.Delivery.Selected.{drain-Pointwise}

-- A row has at most the permitted attempts, and fewer while it may still be sent.
pub record IsBounded (r : Notification) : Type 0 where
  pub most : r.attempts ≤ max_attempts
  pub pending_below : r.status ≡ pending → r.attempts < max_attempts
  pub held_below : r.status ≡ held → r.attempts < max_attempts

All-Pointwise :
    (P : Notification → Type 0) (xs ys : List Notification)
    → Pointwise (λ a b. P a → P b) xs ys
    → All P xs
    → All P ys
All-Pointwise P [] [] h a = tt
All-Pointwise P (x ∷ xs) (y ∷ ys) h a = (h.0 a.0, All-Pointwise P xs ys h.1 a.1)
All-Pointwise P [] (y ∷ ys) h a = absurd h
All-Pointwise P (x ∷ xs) [] h a = absurd h

-- What an attempt that failed does next depends on the attempts so far.
retry_later-below :
    (limited_at : ℕ) (r : Notification) (o : Outcome) (e : Option String) (h : Option ℕ)
    → after_send limited_at r o ≡ retry_later e h
    → r.attempts + 1 < max_attempts
unfolding after_send
retry_later-below limited_at r o e h k = ground arith

sent_or_raised-below :
    (limited_at : ℕ) (r : Notification) (o : Result Outcome) (e : Option String) (h : Option ℕ)
    → sent_or_raised limited_at r o ≡ retry_later e h
    → r.attempts + 1 < max_attempts
sent_or_raised-below limited_at r (ok o) e h k = retry_later-below limited_at r o e h k
sent_or_raised-below limited_at r (err x) e h k = absurd (cc k)

by_verdict-below :
    (session : Session) (r : Notification) (v : Result Verdict) (e : Option String) (h : Option ℕ)
    → by_verdict session r v ≡ retry_later e h
    → r.attempts + 1 < max_attempts
by_verdict-below session r (err x) e h k = absurd (cc k)
by_verdict-below session r (ok v) e h k = elim (Bool-cases (is_held v)) [
  | inl q ↦ absurd (cc (rw q at k))
  | inr q ↦
      sent_or_raised-below (session.limited_at r.id) r (session.sender r.id r.payload) e h
        (rw q at k)
]

effect-below :
    (p : Platform) (session : Session) (policy : ActivationPolicy) (include_held : Bool)
    (r : Notification) (e : Option String) (h : Option ℕ)
    → effect p session policy include_held r ≡ retry_later e h
    → r.attempts + 1 < max_attempts
unfolding effect
effect-below p session policy include_held r e h k =
    elim (Result-cases (eligible_now p (session.checked_at r.id) r)) [
      | inl (x, q) ↦ absurd (cc (rw (q, effect) at k))
      | inr (false, q) ↦ absurd (cc (rw (q, effect) at k))
      | inr (true, q) ↦ by_verdict-below session r _ e h (rw (q, effect) at k)
    ]

after-IsBounded :
    (p : Platform) (session : Session) (e : Effect) (r : Notification)
    → r.attempts < max_attempts
    → ((x : Option String) (h : Option ℕ) → e ≡ retry_later x h → r.attempts + 1 < max_attempts)
    → IsBounded (row_after p session r.id e r)
unfolding row_after marked
after-IsBounded p session skip_deferred r l next = record {
  most = omega (arith, l);
  pending_below = λ _. l;
  held_below = λ _. l;
}
after-IsBounded p session (hold v) r l next = record {
  most = omega (arith, l);
  pending_below = λ _. omega (arith, l);
  held_below = λ _. omega (arith, l);
}
after-IsBounded p session (delivered x) r l next = record {
  most = omega (arith, l);
  pending_below = λ e. absurd (cc e);
  held_below = λ e. absurd (cc e);
}
after-IsBounded p session (limit_until x) r l next = record {
  most = omega (arith, l);
  pending_below = λ _. l;
  held_below = λ _. l;
}
after-IsBounded p session (give_up x h) r l next = record {
  most = omega (arith, l);
  pending_below = λ e. absurd (cc e);
  held_below = λ e. absurd (cc e);
}
after-IsBounded p session (retry_later x h) r l next =
    let m = next x h refl in
    record { most = omega (arith, m); pending_below = λ _. m; held_below = λ _. m }
after-IsBounded p session (crash x) r l next = record {
  most = omega (arith, l);
  pending_below = λ _. l;
  held_below = λ _. l;
}

-- Where the ids of the outbox are distinct, every row has at most five attempts, and fewer while it
-- is pending or held, a drain keeps it so, with or without the held rows and whatever the sender
-- answers.
pub drain-IsBounded :
    (p : Platform) (session : Session) (include_held : Bool) (s : Store)
    → IsOutbox s.notifications
    → All IsBounded s.notifications
    → All IsBounded (drain p session include_held s).1.notifications
drain-IsBounded p session include_held s o b =
    All-Pointwise IsBounded _ _
      (drain-Pointwise p session include_held s (λ a b. IsBounded a → IsBounded b) (λ a h. h)
        (λ a b c f g h. g (f h))
        (λ r h policy q i.
          after-IsBounded p session _ r
            (elim h [ inl e ↦ i.pending_below e | inr e ↦ i.held_below e.0 ])
            (λ x y k. effect-below p session policy include_held r x y k))
        o.unique)
      b

last-append :
    (rows : List Notification) (r : Notification) → last_notification_id (rows ++ r ∷ []) ≡ r.id
last-append [] r = refl
last-append (x ∷ []) r = refl
last-append (x ∷ y ∷ rows) r = last-append (y ∷ rows) r

UniqueIds-append :
    (rows : List Notification) (r : Notification) (n : ℕ)
    → UniqueIds rows
    → All (λ x. x.id ≤ n) rows
    → n < r.id
    → UniqueIds (rows ++ r ∷ [])
UniqueIds-append [] r n u b l = (tt, tt)
UniqueIds-append (x ∷ rows) r n u b l = (
  All-append (λ y. y.id ≢ x.id) rows _ u.0 ((λ e. omega (arith, e, b.0, l)), tt),
  UniqueIds-append rows r n u.1 b.1 l,
)

any_of-last :
    (p : Notification → Bool) (rows : List Notification) (r : Notification)
    → p r ≡ true
    → any_of p (rows ++ r ∷ []) ≡ true
any_of-last p [] r h = rw h
any_of-last p (x ∷ rows) r h = ground (arith, any_of-last p rows r h)

put-has_dedup_key :
    (i : Intention) (rows : List Notification)
    → any_of (has_dedup_key i.provider i.dedup_key) (notification_put i rows) ≡ true
unfolding notification_put
put-has_dedup_key i rows = elim (Bool-cases (any_of (has_dedup_key i.provider i.dedup_key) rows)) [
  | inl q ↦ rw q q
  | inr q ↦ rw q (
      any_of-last _ rows (notification_row (last_notification_id rows + 1) i)
        (unfold notification_row in rw (beq_refl i.provider, beq_refl i.dedup_key)))
]

put_there :
    (j : Intention) (rows : List Notification)
    → any_of (has_dedup_key j.provider j.dedup_key) rows ≡ true
    → notification_put j rows ≡ rows
unfolding notification_put
put_there j rows h = rw h

-- Enqueuing again under the same provider and key, with whatever payload, changes nothing.
pub notification_put_again :
    (i j : Intention) (rows : List Notification)
    → j.provider ≡ i.provider
    → j.dedup_key ≡ i.dedup_key
    → notification_put j (notification_put i rows) ≡ notification_put i rows
notification_put_again i j rows p d = put_there j _ (rw (p, d) (put-has_dedup_key i rows))

-- Enqueuing keeps the ids of an outbox distinct, and its counts of attempts within the bounds,
-- where they were so.
pub notification_put_lem :
    (i : Intention) (rows : List Notification)
    → IsOutbox rows
    → All IsBounded rows
    → IsOutbox (notification_put i rows) × All IsBounded (notification_put i rows)
unfolding notification_put notification_row
notification_put_lem i rows o b =
    let n = last_notification_id rows in
    let r = notification_row (n + 1) i in
    elim (Bool-cases (any_of (has_dedup_key i.provider i.dedup_key) rows)) [
      | inl q ↦ rw q (o, b)
      | inr q ↦ rw q (
        record {
          unique = UniqueIds-append rows r n o.unique o.below (omega arith);
          below = rw (last-append rows r) (
              All-append _ rows _
                (All-map _ _ rows (λ (x : Notification) h. omega (arith, h)) o.below)
                (omega arith, tt));
        },
        All-append IsBounded rows _ b (
          record {
            most = omega arith;
            pending_below = λ _. omega arith;
            held_below = λ _. omega arith;
          },
          tt,
        ),
      )
    ]
