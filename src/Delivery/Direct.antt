-- ===== src/Delivery/Direct.antt =====
-- notifications/discord.py: the categories of transport errors, the shapes of a sender's result, and
-- the test notification.
use Prim.Native.String.{◌++◌}
use smartwatch_clank.Base.{
  ℕ, String, Bool, true, false, not, ◌||◌, Option, none, some, if◌then◌else◌, ◌==◌, string_eq,
}
use smartwatch_clank.Base.Json.{Fields, field, end, str, int, obj, arr, cons, nil}
use smartwatch_clank.Base.Result.{Result, err, other_error, ◌>>=◌}
use smartwatch_clank.Platform.{Platform}
use smartwatch_clank.Store.{Store, Notification, pending, sent, failed}
use smartwatch_clank.Store.Outbox.{notification_put, notification_by_dedup_key, mark_notification}
use smartwatch_clank.Delivery.Discord.{Float, Outcome, provider_discord, status_category}

-- What `isinstance` tells of an exception of the transport; `reason` is that of
-- `getattr(exc, "reason", None) or exc.__cause__ or exc`.
pub record Kinds : Type 0 where
  pub http_code : Option ℕ
  pub reason_is_ssl_error : Bool
  pub reason_is_timeout : Bool
  pub reason_is_connection_error : Bool
  pub reason_is_os_error : Bool
  pub is_timeout_error : Bool
  pub is_connection_error : Bool
  pub is_os_error : Bool
  pub is_value_error : Bool
  pub is_url_error : Bool

-- `_classify_transport_error`
unfoldable pub classify_transport_error : Platform → Kinds → String
unfolding status_category
classify_transport_error p k = elim (k.http_code) [
  | some code ↦ status_category p code
  | none ↦
      if k.reason_is_ssl_error
      then "tls_error"
      else if k.reason_is_timeout || k.is_timeout_error
      then "timeout"
      else if k.reason_is_connection_error || k.is_connection_error
      then "connection_error"
      else if k.reason_is_os_error || k.is_os_error
      then "connection_error"
      else if k.is_value_error || k.is_url_error
      then "invalid_webhook_url"
      else "transport_error"
]

-- What a sender returns.
pub data SenderResult : Type 0 where
  four : Bool → Option String → Option ℕ → Option Float → SenderResult
  three : Bool → Option String → Option Float → SenderResult
  two : Bool → Option String → SenderResult
  other_shape : SenderResult

-- `_normalize_outcome`
unfoldable pub normalize_outcome : SenderResult → Result Outcome
normalize_outcome (four ok e status retry_after) =
    Result.ok (record { ok = ok; error = e; http_status = status; retry_after = retry_after })
normalize_outcome (three ok e retry_after) =
    Result.ok (record { ok = ok; error = e; http_status = none; retry_after = retry_after })
normalize_outcome (two ok e) =
    Result.ok (record { ok = ok; error = e; http_status = none; retry_after = none })
normalize_outcome other_shape = err (other_error "TypeError" "sender must return a 2/3/4-tuple")

-- `build_test_embed`
unfoldable pub build_test_embed : String → Fields
build_test_embed note =
    field "embeds"
      (arr (
        cons
          (obj (
            field "color" (int 9807270) (
              field "description"
                (str (
                  "This is a test notification confirming Discord delivery wiring. It does not represent a real discovery."
                  ++ (if note == "" then "" else "\n\n" ++ note)))
                (field "footer"
                  (obj (field "text" (str "SMARTWATCH CLANK · owner field-test notification") end))
                  (field "title" (str "SMARTWATCH CLANK — TEST") end)))))
          nil))
      end

-- what `enqueue_test` returns; `busy` is its status "delivery_busy"
pub record TestResult : Type 0 where
  pub sent : Bool
  pub error : Option String
  pub dedup_key : String
  pub busy : Bool

-- What a test notification meets: a fresh UUID, the webhook, the grant, the sender, the clock.
pub record TestSession : Type 0 where
  pub hex : String
  pub webhook : Bool
  pub grant : Bool
  pub sender : Fields → Result SenderResult
  pub now : ℕ

-- the part from the sender on: what the sender or `_normalize_outcome` raises leaves the row as it is
unfoldable pub after_test_send :
    TestSession → String → Notification → Result Outcome → Store → Result TestResult × Store
after_test_send x key row (err e) s = (err e, s)
after_test_send x key row (Result.ok o) s = (
  Result.ok (record { sent = o.ok; error = o.error; dedup_key = key; busy = false }),
  record s {
    notifications =
        mark_notification row.id (if o.ok then sent else failed) o.error o.http_status true x.now
          s.notifications;
  },
)

-- the part from the row on
unfoldable pub send_test :
    TestSession → String → Fields → Option Notification → Store → Result TestResult × Store
unfolding after_test_send normalize_outcome
send_test x key payload none s = (
  Result.ok (record { sent = false; error = some "enqueue_failed"; dedup_key = key; busy = false }),
  s,
)
send_test x key payload (some row) s =
    if not x.webhook
    then (
      Result.ok (record {
        sent = false;
        error = some "no webhook configured";
        dedup_key = key;
        busy = false;
      }),
      record s {
        notifications =
            mark_notification row.id failed (some "no webhook configured") none true x.now
              s.notifications;
      },
    )
    else if not x.grant
    then (
      Result.ok
          (record { sent = false; error = some "delivery_busy"; dedup_key = key; busy = true }),
      s,
    )
    else after_test_send x key row (x.sender payload >>= normalize_outcome) s

-- `DiscordNotifier.enqueue_test`: the result or the exception that leaves it, and the store
unfoldable pub enqueue_test : TestSession → String → Store → Result TestResult × Store
unfolding send_test build_test_embed
enqueue_test x note s =
    let key = "test:" ++ x.hex in
    let payload = build_test_embed note in
    let rows =
      notification_put
        (record {
          provider = provider_discord;
          dedup_key = key;
          payload = payload;
          discovery_id = none;
          collector = none;
          identity = none;
          discovered_at = none;
          status = pending;
        })
        s.notifications in
    send_test x key payload (notification_by_dedup_key provider_discord key rows)
      (record s { notifications = rows })
