-- ===== src/Delivery/Completion.antt =====
-- notifications/discord.py: what a drain gets done where it is not stopped.
use smartwatch_clank.Base.{
  ℕ, ◌≡◌, ◌≢◌, refl, sym, ap, ◌∙◌, Bool, true, false, not, none, List, [], ◌∷◌, map, All, All-map,
  Bool-cases, inl, inr, All-keep_if, if◌then◌else◌, ◌==◌, nat_eq, string_eq, option_eq, beq_refl,
  beq_false,
}
use smartwatch_clank.Base.Json.{Fields}
use smartwatch_clank.Base.Result.{Result, ok}
use smartwatch_clank.Platform.{Platform}
use smartwatch_clank.Store.{Store, Notification, sent}
use smartwatch_clank.Store.Outbox.{
  status_eq, is_pending, update_row, marked, pending_notifications, policy_get,
}
use smartwatch_clank.Delivery.Policy.{
  send, is_held, ActivationPolicy, load_policy, decide, activation_cutoff_key,
}
use smartwatch_clank.Delivery.Discord.{
  Session, Tally, no_tally, Summary, effect, eligible_now, write, count_effect, stops, next_row,
  drain_rows, drain, drain_granted, drain_under, selected_rows, provider_discord,
}
use smartwatch_clank.Delivery.Returns.{
  Reads, accepts, sent_or_raised-accepts, eligible_now-Reads, decide-Reads,
}
use smartwatch_clank.Delivery.Rows.{
  UniqueIds, IsOutbox, Pointwise, row_after, row_after-id, write-eq-update_row,
}

module _ (p : Platform) (session : Session) (policy : ActivationPolicy) where
  -- the effects of the selected rows on one row
  abbrev steps : List Notification → Notification → Notification
  steps [] n = n
  steps (r ∷ todo) n =
      steps todo
        (if n.id == r.id then row_after p session r.id (effect p session policy false r) n else n)

  steps-update :
      (r : Notification) (todo rows : List Notification)
      → map
          (steps todo)
          (update_row r.id (row_after p session r.id (effect p session policy false r)) rows)
        ≡ map (steps (r ∷ todo)) rows
  unfolding update_row
  steps-update r todo [] = refl
  steps-update r todo (n ∷ rows) = rw (steps-update r todo rows)

  steps_nothing : (rows : List Notification) → map (steps []) rows ≡ rows
  steps_nothing [] = refl
  steps_nothing (n ∷ rows) = rw (steps_nothing rows)

  drain_rows-steps :
      (todo : List Notification) (t : Tally) (rows : List Notification)
      → All (λ r. stops (effect p session policy false r) ≡ none) todo
      → (drain_rows p session policy false todo t rows).2 ≡ map (steps todo) rows
  unfolding drain_rows next_row
  drain_rows-steps [] t rows go = sym (steps_nothing rows)
  drain_rows-steps (r ∷ todo) t rows go =
      let e = effect p session policy false r in
      let rest = drain_rows-steps todo (count_effect e t) (write p session r e rows) go.1 in
      rw (go.0, drain_rows, next_row)
        (rest
          ∙ ap (map (steps todo)) (write-eq-update_row p session r e rows)
          ∙ steps-update r todo rows)

  steps-other :
      (todo : List Notification) (n : Notification) → All (λ r. r.id ≢ n.id) todo → steps todo n ≡ n
  steps-other [] n h = refl
  steps-other (r ∷ todo) n h = rw (beq_false n.id r.id (λ e. h.0 (sym e))) (steps-other todo n h.1)

  -- a selected row is changed by its own effect, and another row by none
  own : Notification → Notification
  own n =
      if is_pending provider_discord n
      then row_after p session n.id (effect p session policy false n) n
      else n

  steps-tail :
      (b : Bool) (r : Notification) (todo rows : List Notification)
      → All (λ n. n.id ≢ r.id) rows
      → All (λ n. steps todo n ≡ own n) rows
      → All (λ n. steps (if b then r ∷ todo else todo) n ≡ own n) rows
  steps-tail b r todo [] h k = tt
  steps-tail true r todo (n ∷ rows) h k =
      (rw (beq_false n.id r.id h.0, steps) k.0, steps-tail true r todo rows h.1 k.1)
  steps-tail false r todo (n ∷ rows) h k = k

  steps-head :
      (b : Bool) (r : Notification) (todo : List Notification)
      → is_pending provider_discord r ≡ b
      → All (λ n. n.id ≢ r.id) todo
      → steps (if b then r ∷ todo else todo) r ≡ own r
  unfolding own
  steps-head true r todo e h =
      let after = row_after p session r.id (effect p session policy false r) r in
      rw (e, beq_refl r.id, steps)
        (steps-other todo after
          (rw (row_after-id p session r.id (effect p session policy false r) r) h))
  steps-head false r todo e h = rw e (steps-other todo r h)

  steps-own :
      (rows : List Notification)
      → UniqueIds rows
      → All (λ n. steps (pending_notifications provider_discord rows) n ≡ own n) rows
  unfolding pending_notifications
  steps-own [] u = tt
  steps-own (r ∷ rows) u = (
    steps-head _ r _ refl (All-keep_if (λ n. n.id ≢ r.id) (is_pending provider_discord) rows u.0),
    steps-tail (is_pending provider_discord r) r _ rows u.0 (steps-own rows u.1),
  )

  own-sent :
      (n : Notification)
      → is_pending provider_discord n ≡ true
      → eligible_now p (session.checked_at n.id) n ≡ ok true
      → decide p n.discovered_at policy ≡ ok send
      → accepts (session.sender n.id n.payload) ≡ true
      → (own n).status ≡ sent
  unfolding own effect row_after marked
  own-sent n a b c d =
      let e =
        sent_or_raised-accepts (session.limited_at n.id) n (session.sender n.id n.payload) d in
      rw (a, own, b, effect, c, e, row_after, marked)

  abbrev Sent : Notification → Notification → Type 0
  Sent a b =
      is_pending provider_discord a ≡ true
      → eligible_now p (session.checked_at a.id) a ≡ ok true
      → decide p a.discovered_at policy ≡ ok send
      → b.status ≡ sent

  all-Sent :
      (rows : List Notification) (todo : List Notification)
      → ((id : ℕ) (payload : Fields) → accepts (session.sender id payload) ≡ true)
      → All (λ n. steps todo n ≡ own n) rows
      → Pointwise Sent rows (map (steps todo) rows)
  all-Sent [] todo fine h = tt
  all-Sent (n ∷ rows) todo fine h =
      ((λ a b c. rw h.0 (own-sent n a b c (fine n.id n.payload))), all-Sent rows todo fine h.1)

  goes_on :
      ((id : ℕ) (payload : Fields) → accepts (session.sender id payload) ≡ true)
      → (r : Notification) → Reads p r.not_before × Reads p r.discovered_at
      → stops (effect p session policy false r) ≡ none
  unfolding effect
  goes_on fine r (f, d) =
      let (b, x) = eligible_now-Reads p (session.checked_at r.id) r f in
      let (v, y) = decide-Reads p r.discovered_at policy d in
      let z =
        sent_or_raised-accepts (session.limited_at r.id) r (session.sender r.id r.payload)
          (fine r.id r.payload) in
      elim (Bool-cases b) [
        | inr n ↦ rw (x, n, effect) refl
        | inl n ↦ elim (Bool-cases (is_held v)) [
          | inl h ↦ rw (x, n, y, h, effect) refl
          | inr h ↦ rw (x, n, y, h, z, effect) refl
        ]
      ]

open_gate {ℓ} :
    {A : Type ℓ} (w g : Bool) (x y z : A)
    → w ≡ true
    → g ≡ true
    → (if not w then x else if not g then y else z) ≡ z
open_gate w g x y z a b = rw (a, b)

pub drain-granted :
    (p : Platform) (session : Session) (s : Store)
    → session.webhook ≡ true
    → session.grant ≡ true
    → drain p session false s ≡ drain_granted p session false s
unfolding drain
drain-granted p session s w g = open_gate session.webhook session.grant _ _ _ w g

granted-rows :
    (p : Platform) (session : Session) (policy : ActivationPolicy) (s : Store)
    → All
        (λ r. stops (effect p session policy false r) ≡ none)
        (pending_notifications provider_discord s.notifications)
    → load_policy p (policy_get activation_cutoff_key s) ≡ ok policy
    → (drain_granted p session false s).1.notifications
      ≡ map
          (steps p session policy (pending_notifications provider_discord s.notifications))
          s.notifications
unfolding drain_granted drain_under selected_rows
granted-rows p session policy s go e =
    rw (e, drain_granted)
      (drain_rows-steps p session policy (pending_notifications provider_discord s.notifications)
        no_tally s.notifications go)

-- Where the ids of the outbox are distinct, the webhook is configured, the grant is free, the sender
-- accepts what it is given, and the stored times are in range, a drain without the held rows sends
-- every pending row of its provider whose retry floor is past and which the policy admits.
pub drain_delivers :
    (p : Platform) (session : Session) (s : Store) (policy : ActivationPolicy)
    → session.webhook ≡ true
    → session.grant ≡ true
    → ((id : ℕ) (payload : Fields) → accepts (session.sender id payload) ≡ true)
    → IsOutbox s.notifications
    → All (λ r. Reads p r.not_before × Reads p r.discovered_at) s.notifications
    → load_policy p (policy_get activation_cutoff_key s) ≡ ok policy
    → Pointwise
        (λ a b.
          is_pending provider_discord a ≡ true
          → eligible_now p (session.checked_at a.id) a ≡ ok true
          → decide p a.discovered_at policy ≡ ok send
          → b.status ≡ sent)
        s.notifications
        (drain p session false s).1.notifications
unfolding pending_notifications
drain_delivers p session s policy w g fine o timely q =
    let selected = pending_notifications provider_discord s.notifications in
    let on : All (λ r. stops (effect p session policy false r) ≡ none) selected =
      All-map _ _ selected (goes_on p session policy fine) (
        All-keep_if (λ r. Reads p r.not_before × Reads p r.discovered_at) _ s.notifications
          timely) in
    let final : (drain p session false s).1.notifications
        ≡ map (steps p session policy selected) s.notifications =
      ap (λ (x : Result Summary × Store). x.1.notifications) (drain-granted p session s w g)
      ∙ granted-rows p session policy s on q in
    rw final (
      all-Sent p session policy s.notifications selected fine
        (steps-own p session policy s.notifications o.unique))
