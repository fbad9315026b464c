-- ===== src/Delivery/Selected.antt =====
-- notifications/discord.py: the rows that a drain selects, and how it relates the outbox before and after.
use smartwatch_clank.Base.{
  ◌≡◌, ◌⊎◌, inl, inr, Bool, true, false, not, List, keep_if-passes, All, All-map, All-keep_if,
  if◌then◌else◌, nat_eq, string_eq, option_eq, arith,
}
use smartwatch_clank.Base.Result.{Result, ok, Result-cases}
use smartwatch_clank.Platform.{Platform}
use smartwatch_clank.Store.{Store, Notification, pending, held}
use smartwatch_clank.Store.Outbox.{status_eq, status_beq_iff, pending_notifications, policy_get}
use smartwatch_clank.Delivery.Policy.{ActivationPolicy, load_policy, activation_cutoff_key}
use smartwatch_clank.Delivery.Discord.{
  Session, no_tally, effect, Summary, drain, drain_granted, drain_under, selected_rows,
}
use smartwatch_clank.Delivery.Rows.{
  UniqueIds, IsTheRow, Pointwise, Pointwise-same, row_after, drain_rows-Pointwise, unique-IsTheRow,
  keep_if-UniqueIds,
}

-- the rows that are selected are pending, or held where held rows are included
selected_status :
    (include_held : Bool) (rows : List Notification)
    → All
        (λ r. (r.status ≡ pending) ⊎ ((r.status ≡ held) × (include_held ≡ true)))
        (selected_rows include_held rows)
unfolding selected_rows pending_notifications
selected_status true rows =
    All-map _ _ (selected_rows true rows)
      (λ (r : Notification) h.
        ground (arith, status_beq_iff r.status pending, status_beq_iff r.status held))
      (keep_if-passes _ rows)
selected_status false rows =
    All-map _ _ (selected_rows false rows)
      (λ (r : Notification) h. ground (arith, status_beq_iff r.status pending))
      (keep_if-passes _ rows)

selected_unique :
    (include_held : Bool) (rows : List Notification)
    → UniqueIds rows
    → UniqueIds (selected_rows include_held rows)
unfolding selected_rows pending_notifications
selected_unique true rows u = keep_if-UniqueIds _ rows u
selected_unique false rows u = keep_if-UniqueIds _ rows u

selected-the :
    (include_held : Bool) (rows : List Notification)
    → UniqueIds rows
    → All (IsTheRow rows) (selected_rows include_held rows)
unfolding selected_rows pending_notifications
selected-the true rows u = All-keep_if (IsTheRow rows) _ rows (unique-IsTheRow rows u)
selected-the false rows u = All-keep_if (IsTheRow rows) _ rows (unique-IsTheRow rows u)

-- To prove of both branches what is proved of the conditional.
pub branch {ℓ} :
    {A : Type ℓ} (P : A → Type 0) (b : Bool) (x y : A) → P x → P y → P (if b then x else y)
branch P true x y h k = h
branch P false x y h k = k

-- A drain relates the rows before and after, by a relation as for its loop.
pub drain-Pointwise :
    (p : Platform) (session : Session) (include_held : Bool) (s : Store)
    (R : Notification → Notification → Type 0)
    → ((n : Notification) → R n n)
    → ((a b c : Notification) → R a b → R b c → R a c)
    → ((r : Notification)
        → ((r.status ≡ pending) ⊎ ((r.status ≡ held) × (include_held ≡ true)))
        → (policy : ActivationPolicy)
        → load_policy p (policy_get activation_cutoff_key s) ≡ ok policy
        → R r (row_after p session r.id (effect p session policy include_held r) r))
    → UniqueIds s.notifications
    → Pointwise R s.notifications (drain p session include_held s).1.notifications
unfolding drain drain_granted drain_under
drain-Pointwise p session include_held s R same trans step u =
    branch kept (not session.webhook) _ _ (Pointwise-same R s.notifications same) (
      branch kept (not session.grant) _ _ (Pointwise-same R s.notifications same)
        (elim (Result-cases (load_policy p (policy_get activation_cutoff_key s))) [
          | inl (e, q) ↦ rw (q, drain_granted) (Pointwise-same R s.notifications same)
          | inr (policy, q) ↦ rw (q, drain_granted) (all policy q)
        ]))
  where
    kept : Result Summary × Store → Type 0
    kept x = Pointwise R s.notifications x.1.notifications

    all :
        (policy : ActivationPolicy)
        → load_policy p (policy_get activation_cutoff_key s) ≡ ok policy
        → kept (drain_under p session policy include_held s)
    all policy q =
        drain_rows-Pointwise p session policy include_held R
          (selected_rows include_held s.notifications) no_tally s.notifications same trans
          (All-map _ _ (selected_rows include_held s.notifications) (λ r h. step r h policy q)
            (selected_status include_held s.notifications))
          (selected_unique include_held s.notifications u)
          (selected-the include_held s.notifications u)
