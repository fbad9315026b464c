-- ===== src/Delivery/Preview.antt =====
-- notifications/discord.py: the preview of an activation, and that a drain does what it says.
use smartwatch_clank.Base.{
  ℕ, String, Bool, true, false, not, ◌&&◌, Option, none, some, List, [], ◌∷◌, any_of, count_if,
  ◌==◌, nat_eq, string_eq, option_eq,
}
use smartwatch_clank.Base.Result.{Result, ok, ◌>>=◌}
use smartwatch_clank.Platform.{Platform}
use smartwatch_clank.Store.{Store, Notification, Status}
use smartwatch_clank.Store.Outbox.{pending_notifications, notification_count, policy_get}
use smartwatch_clank.Delivery.Policy.{
  Verdict, send, is_held, ActivationPolicy, activation_cutoff_key, load_policy, decide,
}
use smartwatch_clank.Delivery.Discord.{provider_discord}

abbrev pub is_send : Verdict → Bool
is_send send = true
is_send _ = false

-- `<label>_cutoff_effect`; of the breakdown, the verdicts that the source counts
pub record CutoffEffect : Type 0 where
  pub cutoff : ActivationPolicy
  pub would_send : ℕ
  pub would_hold : ℕ
  pub breakdown : List Verdict

-- the verdicts on the rows; the first one that cannot be given ends the preview
unfoldable pub verdicts : Platform → ActivationPolicy → List Notification → Result (List Verdict)
verdicts p policy [] = ok []
verdicts p policy (r ∷ rows) = do
  v ← decide p r.discovered_at policy
  vs ← verdicts p policy rows
  ok (v ∷ vs)

-- the body of the loop of `delivery_preview`
unfoldable pub cutoff_effect :
    Platform → List Notification → Option String → Result (Option CutoffEffect)
unfolding verdicts
cutoff_effect p rows none = ok none
cutoff_effect p rows (some raw) = do
  policy ← load_policy p (some raw)
  vs ← verdicts p policy rows
  ok (
      some (record {
        cutoff = policy;
        would_send = count_if is_send vs;
        would_hold = count_if is_held vs;
        breakdown = vs;
      }))

-- `SQLiteStore.provenance_gap_counts`: the rows without a discovery, and those whose discovery is gone
unfoldable pub provenance_gap_counts : String → Store → ℕ × ℕ
provenance_gap_counts provider s = (
  count_if (λ r. r.provider == provider && r.discovery_id == none) s.notifications,
  count_if
      (λ r. r.provider == provider && elim (r.discovery_id) [
        | none ↦ false
        | some id ↦ not (any_of (λ d. d.id == id) s.discoveries)
      ])
      s.notifications,
)

pub record Preview : Type 0 where
  pub counts_by_status : Status → ℕ
  pub installed_policy : ActivationPolicy
  pub webhook_configured : Bool
  pub provenance_gaps : ℕ × ℕ
  pub installed_effect : Option CutoffEffect
  pub proposed_effect : Option CutoffEffect

-- `delivery_preview`
unfoldable pub delivery_preview :
    Platform → Store → (proposed : Option String) → (webhook : Bool) → Result Preview
unfolding cutoff_effect provenance_gap_counts
delivery_preview p s proposed webhook = do
  let rows = pending_notifications provider_discord s.notifications
  let stored = policy_get activation_cutoff_key s
  policy ← load_policy p stored
  installed ← cutoff_effect p rows stored
  other ← cutoff_effect p rows proposed
  ok (record {
    counts_by_status = λ status. notification_count provider_discord status s.notifications;
    installed_policy = policy;
    webhook_configured = webhook;
    provenance_gaps = provenance_gap_counts provider_discord s;
    installed_effect = installed;
    proposed_effect = other;
  })
