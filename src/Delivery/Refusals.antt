-- ===== src/Delivery/Refusals.antt =====
-- notifications/discord.py: when a drain calls no sender.
use smartwatch_clank.Base.{
  ℕ, ◌≡◌, refl, true, false, List, [], ◌∷◌, nat_eq, string_eq, option_eq, arith,
}
use smartwatch_clank.Base.Json.{Fields}
use smartwatch_clank.Base.Result.{Result, ok}
use smartwatch_clank.Platform.{Platform}
use smartwatch_clank.Store.{Store, Notification}
use smartwatch_clank.Store.Outbox.{policy_get}
use smartwatch_clank.Delivery.Policy.{ActivationPolicy, load_policy, decide, activation_cutoff_key}
use smartwatch_clank.Delivery.Discord.{
  Session, Outcome, drain_granted, drain_under, Effect, Tally, no_tally, effect, write,
  count_effect, drain, drain_rows, selected_rows,
}

abbrev with_sender : (ℕ → Fields → Result Outcome) → Session → Session
with_sender f session = record session { sender = f }

module _ (p : Platform) (session : Session) (f : ℕ → Fields → Result Outcome)
    (policy : ActivationPolicy) where
  effect-unreadable :
      (r : Notification)
      → policy.unreadable ≡ true
      → effect p session policy false r ≡ effect p (with_sender f session) policy false r
  unfolding effect decide
  effect-unreadable r u = ground arith

  write-sender :
      (e : Effect) (r : Notification) (rows : List Notification)
      → write p session r e rows ≡ write p (with_sender f session) r e rows
  unfolding write
  write-sender e r rows = ground arith

  drain_rows-unreadable :
      (todo : List Notification) (t : Tally) (rows : List Notification)
      → policy.unreadable ≡ true
      → drain_rows p session policy false todo t rows
        ≡ drain_rows p (with_sender f session) policy false todo t rows
  unfolding drain_rows
  drain_rows-unreadable [] t rows u = refl
  drain_rows-unreadable (r ∷ todo) t rows u =
      let e = effect-unreadable r u in
      let w = write-sender (effect p (with_sender f session) policy false r) r rows in
      let e' = effect p (with_sender f session) policy false r in
      let rest =
        drain_rows-unreadable todo (count_effect e' t) (write p (with_sender f session) r e' rows)
          u in
      rw (e, w, rest, drain_rows)

-- Where the stored cutoff cannot be read, a drain without the held rows never calls the sender: what
-- it leaves and what it returns do not depend on what any sender would have answered.
pub unreadable_policy_sends_nothing :
    (p : Platform) (session : Session) (f : ℕ → Fields → Result Outcome) (s : Store)
    (policy : ActivationPolicy)
    → load_policy p (policy_get activation_cutoff_key s) ≡ ok policy
    → policy.unreadable ≡ true
    → drain p session false s ≡ drain p (record session { sender = f }) false s
unfolding drain drain_granted drain_under
unreadable_policy_sends_nothing p session f s policy q u =
    rw
      (
        q,
        drain_granted,
        drain_rows-unreadable p session f policy (selected_rows false s.notifications) no_tally
            s.notifications u,
      )
      refl
