-- ===== src/Store/Outbox.antt =====
-- core/store.py: the tables `notifications` and `delivery_policy`. The operations on the outbox take
-- and return its rows; each of them is one statement, and one transaction.
use smartwatch_clank.Base.{
  ℕ, ◌+◌, String, ◌≡◌, ◌↔◌, Bool, true, false, ◌&&◌, Option, none, some, List, [], ◌∷◌, ◌++◌, map,
  keep_if, find_first, any_of, count_if, lookup, put, if◌then◌else◌, Eq, ◌==◌, nat_eq, string_eq,
  arith,
}
use smartwatch_clank.Base.Json.{Fields}
use smartwatch_clank.Store.{Store, Notification, Status, pending, sent, failed, held}

abbrev status_beq : Status → Status → Bool
status_beq pending pending = true
status_beq sent sent = true
status_beq failed failed = true
status_beq held held = true
status_beq _ _ = false

pub status_beq_iff : (a b : Status) → (status_beq a b ≡ true) ↔ (a ≡ b)
status_beq_iff a b = ground arith

instance abbrev pub status_eq : Eq Status
status_eq = record { beq = status_beq; beq_iff = status_beq_iff }

-- rowids grow, and no row is deleted
abbrev pub last_notification_id : List Notification → ℕ
last_notification_id [] = 0
last_notification_id (r ∷ []) = r.id
last_notification_id (_ ∷ q ∷ rs) = last_notification_id (q ∷ rs)

-- The columns that the callers of `notification_put` give.
pub record Intention : Type 0 where
  pub provider : String
  pub dedup_key : String
  pub payload : Fields
  pub discovery_id : Option ℕ
  pub collector : Option String
  pub identity : Option String
  pub discovered_at : Option String
  pub status : Status

unfoldable pub notification_row : ℕ → Intention → Notification
notification_row id i = record {
  id = id;
  provider = i.provider;
  dedup_key = i.dedup_key;
  discovery_id = i.discovery_id;
  collector = i.collector;
  identity = i.identity;
  discovered_at = i.discovered_at;
  payload = i.payload;
  status = i.status;
  attempts = 0;
  last_error = none;
  http_status = none;
  not_before = none;
  last_attempt_at = none;
  sent_at = none;
}

abbrev pub has_dedup_key : String → String → Notification → Bool
has_dedup_key provider key r = r.provider == provider && r.dedup_key == key

-- `SQLiteStore.notification_put`: INSERT OR IGNORE under UNIQUE(provider, dedup_key)
unfoldable pub notification_put : Intention → List Notification → List Notification
notification_put i rows =
    if any_of (has_dedup_key i.provider i.dedup_key) rows
    then rows
    else rows ++ notification_row (last_notification_id rows + 1) i ∷ []

-- `SQLiteStore.notification_by_dedup_key`
unfoldable pub notification_by_dedup_key : String → String → List Notification → Option Notification
notification_by_dedup_key provider key rows = find_first (has_dedup_key provider key) rows

abbrev pub is_pending : String → Notification → Bool
is_pending provider r = r.provider == provider && r.status == pending

-- `SQLiteStore.pending_notifications`
unfoldable pub pending_notifications : String → List Notification → List Notification
pending_notifications provider rows = keep_if (is_pending provider) rows

-- `SQLiteStore.notification_counts` of a provider, for one status
unfoldable pub notification_count : String → Status → List Notification → ℕ
notification_count provider status rows =
    count_if (λ r. r.provider == provider && r.status == status) rows

-- UPDATE notifications SET ... WHERE id=?
unfoldable pub update_row :
    ℕ → (Notification → Notification) → List Notification → List Notification
update_row id f rows = map (λ r. if r.id == id then f r else r) rows

-- the SET clause of `mark_notification`
unfoldable pub marked :
    Status → Option String → Option ℕ → Bool → (now : ℕ) → Notification → Notification
marked status error http_status count_attempt now r = record r {
  status = status;
  last_error = error;
  http_status = http_status;
  attempts = r.attempts + (if count_attempt then 1 else 0);
  last_attempt_at = some now;
  sent_at = if status == sent then some now else r.sent_at;
}

-- `SQLiteStore.mark_notification`
unfoldable pub mark_notification :
    ℕ
    → Status
    → Option String
    → Option ℕ
    → (count_attempt : Bool) → (now : ℕ) → List Notification
    → List Notification
unfolding update_row
mark_notification id status error http_status count_attempt now rows =
    update_row id (marked status error http_status count_attempt now) rows

-- `SQLiteStore.defer_notification`
unfoldable pub defer_notification : ℕ → String → List Notification → List Notification
unfolding update_row
defer_notification id not_before rows =
    update_row id (λ r. record r { not_before = some not_before }) rows

abbrev pub requeued : Notification → Notification
requeued r = record r {
  status = pending;
  attempts = 0;
  last_error = none;
  http_status = none;
  not_before = none;
}

-- `SQLiteStore.requeue_failed_notifications`: the rows, and how many it changed
unfoldable pub requeue_failed_notifications : String → List Notification → List Notification × ℕ
requeue_failed_notifications provider rows = (
  map (λ r. if r.provider == provider && r.status == failed then requeued r else r) rows,
  count_if (λ r. r.provider == provider && r.status == failed) rows,
)

-- `SQLiteStore.policy_get` and `SQLiteStore.policy_set`
unfoldable pub policy_get : String → Store → Option String
policy_get key s = lookup key s.policy

unfoldable pub policy_set : String → String → Store → Store
policy_set key value s = record s { policy = put key value s.policy }
