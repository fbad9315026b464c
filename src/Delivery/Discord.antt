-- ===== src/Delivery/Discord.antt =====
-- notifications/discord.py: what a webhook answers, the enqueue gate, and the drain of the outbox.
-- What the host and the network give to a drain is a `Session`. Instants and durations are in
-- microseconds; a `Float` is one as `float` reads it.
use Prim.Native.String.{◌++◌}
use smartwatch_clank.Base.{
  ℕ, ◌+◌, ◌-◌, String, Bool, true, false, not, ◌&&◌, ◌||◌, Option, none, some, List, [], ◌∷◌,
  length, contains, keep_if, leb, ltb, if◌then◌else◌, ◌==◌, nat_eq, string_eq, option_eq,
}
use smartwatch_clank.Base.Json.{Fields}
use smartwatch_clank.Base.Result.{Exn, value_error, other_error, Result, ok, err}
use smartwatch_clank.Platform.{Platform}
use smartwatch_clank.Models.{Discovery, EditorialLevel, critical, newsworthy, monitor, noise}
use smartwatch_clank.Registry.{Collector, is_production}
use smartwatch_clank.Store.{Store, Notification, pending, sent, failed, held}
use smartwatch_clank.Store.Outbox.{
  status_eq, notification_put, pending_notifications, notification_count, mark_notification,
  defer_notification, policy_get,
}
use smartwatch_clank.Delivery.Policy.{
  Verdict, send, is_held, reason, ActivationPolicy, activation_cutoff_key, load_policy, decide,
  parse_timestamp, overflow,
}
use smartwatch_clank.Delivery.Embed.{build_embed}

abbrev pub provider_discord : String
provider_discord = "discord"

abbrev pub max_attempts : ℕ
max_attempts = 5

-- 15 * 60 and 60 seconds
abbrev pub max_retry_after : ℕ
max_retry_after = 900000000

abbrev pub default_retry_after : ℕ
default_retry_after = 60000000

-- What `float(str(value).strip())` reads.
pub data Float : Type 0 where
  below_zero : ℕ → Float
  finite : ℕ → Float
  infinite : Float
  nan : Float

-- `_status_category`
unfoldable pub status_category : Platform → ℕ → String
status_category p code =
    if code == 429
    then "http_429_rate_limited"
    else if code == 401 || code == 403
    then "http_unauthorized"
    else if code == 404
    then "http_404_webhook_not_found"
    else if leb 400 code && ltb code 500
    then "http_" ++ (p.decimal code ++ "_client_error")
    else if leb 500 code && ltb code 600
    then "http_" ++ (p.decimal code ++ "_server_error")
    else "http_" ++ p.decimal code

-- `_parse_retry_after`, from what `float` reads; `none` is no header, or a text that is no number.
-- `min(nan, n)` is nan, since no comparison with it holds.
unfoldable pub parse_retry_after : Option Float → Option Float
parse_retry_after none = none
parse_retry_after (some (below_zero n)) = none
parse_retry_after (some (finite n)) =
    some (finite (if ltb max_retry_after n then max_retry_after else n))
parse_retry_after (some infinite) = some (finite max_retry_after)
parse_retry_after (some nan) = some nan

pub record Outcome : Type 0 where
  pub ok : Bool
  pub error : Option String
  pub http_status : Option ℕ
  pub retry_after : Option Float

-- What `urlopen` does: a response, an HTTPError with its Retry-After header, or another exception,
-- whose category `_classify_transport_error` gives.
pub data Response : Type 0 where
  answered : (status : ℕ) → Response
  http_error : (status : ℕ) → (header : Option Float) → Response
  transport_error : (category : String) → Response

abbrev or_default : Option Float → Float
or_default none = finite default_retry_after
or_default (some r) = r

-- `_post_webhook`
unfoldable pub post_webhook : Platform → Response → Outcome
unfolding status_category parse_retry_after
post_webhook p (answered status) = record {
  ok = true;
  error = none;
  http_status = some status;
  retry_after = none;
}
post_webhook p (http_error status header) = record {
  ok = false;
  error = some (status_category p status);
  http_status = some status;
  retry_after = if status == 429 then some (or_default (parse_retry_after header)) else none;
}
post_webhook p (transport_error category) = record {
  ok = false;
  error = some category;
  http_status = none;
  retry_after = none;
}

-- `discovery.editorial_level in DELIVERY_ELIGIBLE_LEVELS`
abbrev pub is_eligible : EditorialLevel → Bool
is_eligible critical = true
is_eligible newsworthy = true
is_eligible monitor = false
is_eligible noise = false

-- the callback `intent` of an admitted collector
unfoldable pub enqueue : Platform → Discovery → ℕ → List Notification → List Notification
unfolding notification_put
enqueue p d discovery_id rows =
    if not (is_eligible d.editorial_level)
    then rows
    else notification_put
        (record {
          provider = provider_discord;
          dedup_key = "discovery:" ++ p.decimal discovery_id;
          payload = build_embed p d discovery_id;
          discovery_id = some discovery_id;
          collector = some d.collector;
          identity = some d.identity;
          discovered_at = some (p.isoformat d.discovered_at);
          status = pending;
        })
        rows

-- `notification_intent_factory`
unfoldable pub notification_intent :
    Platform
    → (allowlist : List String) → Collector
    → Option (Discovery → ℕ → List Notification → List Notification)
unfolding enqueue
notification_intent p allowlist c =
    if not (is_production c.tier) || not (contains allowlist c.name) then none else some (enqueue p)

-- What a drain meets: whether the webhook is configured and the delivery grant free, what the sender
-- returns for a row and its payload, as `_normalize_outcome` reads it, or what one of them raises,
-- and the clock, as it is read for each row before its attempt,
-- after it, and where the row is marked.
pub record Session : Type 0 where
  pub webhook : Bool
  pub grant : Bool
  pub sender : ℕ → Fields → Result Outcome
  pub checked_at : ℕ → ℕ
  pub limited_at : ℕ → ℕ
  pub marked_at : ℕ → ℕ

-- `_eligible_now`
unfoldable pub eligible_now : Platform → (now : ℕ) → Notification → Result Bool
unfolding parse_timestamp
eligible_now p now row = elim (parse_timestamp p row.not_before) [
  | err e ↦ err e
  | ok none ↦ ok true
  | ok (some floor) ↦ ok (leb floor now)
]

-- `datetime.max`, from the beginning of the year 1
abbrev pub last_instant : ℕ
last_instant = 315537897599999999

-- datetime.now(timezone.utc) + timedelta(seconds=wait). A wait that no timedelta holds raises an
-- OverflowError too, whose text differs.
unfoldable pub retry_floor : (now : ℕ) → Float → Result ℕ
retry_floor now (below_zero n) = if leb n now then ok (now - n) else err overflow
retry_floor now (finite n) = if leb (now + n) last_instant then ok (now + n) else err overflow
retry_floor now infinite =
    err (other_error "OverflowError" "cannot convert float infinity to integer")
retry_floor now nan = err (value_error "cannot convert float NaN to integer")

-- What the body of the loop does with a row.
pub data Effect : Type 0 where
  skip_deferred : Effect
  hold : Verdict → Effect
  delivered : Option ℕ → Effect
  limit_until : ℕ → Effect
  give_up : Option String → Option ℕ → Effect
  retry_later : Option String → Option ℕ → Effect
  crash : Exn → Effect

abbrev limited : Result ℕ → Effect
limited (ok until) = limit_until until
limited (err e) = crash e

-- the body behind the call of the sender
unfoldable pub after_send : (limited_at : ℕ) → Notification → Outcome → Effect
after_send limited_at row o =
    if o.ok
    then delivered o.http_status
    else if o.error == some "http_429_rate_limited"
    then limited (retry_floor limited_at (or_default o.retry_after))
    else if leb max_attempts (row.attempts + 1)
    then give_up o.error o.http_status
    else retry_later o.error o.http_status

abbrev pub sent_or_raised : (limited_at : ℕ) → Notification → Result Outcome → Effect
sent_or_raised limited_at row (ok o) = after_send limited_at row o
sent_or_raised limited_at row (err e) = crash e

-- the body from the verdict on
abbrev pub by_verdict : Session → Notification → Result Verdict → Effect
by_verdict session row (err e) = crash e
by_verdict session row (ok verdict) =
    if is_held verdict
    then hold verdict
    else sent_or_raised (session.limited_at row.id) row (session.sender row.id row.payload)

-- the body of the loop of `drain`, up to what it writes
unfoldable pub effect :
    Platform → Session → ActivationPolicy → (include_held : Bool) → Notification → Effect
effect p session policy include_held row = elim (eligible_now p (session.checked_at row.id) row) [
  | err e ↦ crash e
  | ok false ↦ skip_deferred
  | ok true ↦
      by_verdict session row (if include_held then ok send else decide p row.discovered_at policy)
]

-- what the body writes
unfoldable pub write :
    Platform → Session → Notification → Effect → List Notification → List Notification
unfolding mark_notification defer_notification
write p session row skip_deferred rows = rows
write p session row (hold verdict) rows =
    mark_notification row.id held (some (reason verdict)) none false (session.marked_at row.id) rows
write p session row (delivered http_status) rows =
    mark_notification row.id sent none http_status true (session.marked_at row.id) rows
write p session row (limit_until until) rows = defer_notification row.id (p.isoformat until) rows
write p session row (give_up error http_status) rows =
    mark_notification row.id failed error http_status true (session.marked_at row.id) rows
write p session row (retry_later error http_status) rows =
    mark_notification row.id pending error http_status true (session.marked_at row.id) rows
write p session row (crash e) rows = rows

pub record Tally : Type 0 where
  pub sent : ℕ
  pub failed : ℕ
  pub held : ℕ
  pub deferred : ℕ
  pub rate_limited : Bool

abbrev pub no_tally : Tally
no_tally = record { sent = 0; failed = 0; held = 0; deferred = 0; rate_limited = false }

unfoldable pub count_effect : Effect → Tally → Tally
count_effect skip_deferred t = record t { deferred = t.deferred + 1 }
count_effect (hold verdict) t = record t { held = t.held + 1 }
count_effect (delivered http_status) t = record t { sent = t.sent + 1 }
count_effect (limit_until until) t = record t { deferred = t.deferred + 1; rate_limited = true }
count_effect (give_up error http_status) t = record t { failed = t.failed + 1 }
count_effect (retry_later error http_status) t = t
count_effect (crash e) t = t

-- how the loop goes on: `none` is the next row
abbrev pub stops : Effect → Option (Option Exn)
stops (limit_until until) = some none
stops (crash e) = some (some e)
stops _ = none

-- `break`, the exception, or the rest of the loop
unfoldable pub next_row :
    Option (Option Exn)
    → Tally
    → List Notification
    → Option Exn × Tally × List Notification
    → Option Exn × Tally × List Notification
next_row none t rows rest = rest
next_row (some exn) t rows rest = (exn, t, rows)

-- the loop of `drain` over the selected rows: an exception that leaves it, the counters, the outbox
unfoldable pub drain_rows :
    Platform
    → Session
    → ActivationPolicy
    → (include_held : Bool) → List Notification
    → Tally
    → List Notification
    → Option Exn × Tally × List Notification
drain_rows p session policy include_held [] t rows = (none, t, rows)
drain_rows p session policy include_held (row ∷ todo) t rows =
    let e = effect p session policy include_held row in
    let t' = count_effect e t in
    let rows' = write p session row e rows in
    let rest = drain_rows p session policy include_held todo t' rows' in
    next_row (stops e) t' rows' rest

-- `_selected_rows`
unfoldable pub selected_rows : (include_held : Bool) → List Notification → List Notification
unfolding pending_notifications
selected_rows true rows =
    keep_if (λ r. r.provider == provider_discord && (r.status == pending || r.status == held)) rows
selected_rows false rows = pending_notifications provider_discord rows

pub record Summary : Type 0 where
  pub tally : Tally
  pub remaining : ℕ
  pub busy : Bool

abbrev pub finished : Option Exn → Summary → Result Summary
finished none summary = ok summary
finished (some e) summary = err e

-- the part of `drain` from the reading of the rows on
unfoldable pub drain_under :
    Platform → Session → ActivationPolicy → (include_held : Bool) → Store → Result Summary × Store
drain_under p session policy include_held s =
    let (exn, tally, rows) =
      drain_rows p session policy include_held (selected_rows include_held s.notifications) no_tally
        s.notifications in
    (
      finished exn (record {
        tally = tally;
        remaining = notification_count provider_discord pending rows;
        busy = false;
      }),
      record s { notifications = rows },
    )

-- the part of `drain` under the grant
unfoldable pub drain_granted :
    Platform → Session → (include_held : Bool) → Store → Result Summary × Store
drain_granted p session include_held s = elim (load_policy p (policy_get activation_cutoff_key s)) [
  | err e ↦ (err e, s)
  | ok policy ↦ drain_under p session policy include_held s
]

-- `DiscordNotifier.drain`: the summary or the exception that leaves it, and the store
unfoldable pub drain : Platform → Session → (include_held : Bool) → Store → Result Summary × Store
drain p session include_held s =
    let left = length (pending_notifications provider_discord s.notifications) in
    if not session.webhook
    then (ok (record { tally = no_tally; remaining = left; busy = false }), s)
    else if not session.grant
    then (ok (record { tally = no_tally; remaining = left; busy = true }), s)
    else drain_granted p session include_held s
