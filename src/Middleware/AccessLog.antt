-- ===== src/Middleware/AccessLog.antt =====
-- pkg/middleware/logger.go: the access log of a request, and the bounded queue of the documents that
-- one worker inserts into MongoDB.
pub mod Fifo
use golang_rest_api_template.Base.{
  ℕ, ◌+◌, ◌-◌, ◌%◌, ◌^◌, Bool, true, false, ◌||◌, Option, none, some, List, [], ◌∷◌, ◌++◌, ltb,
  ◌==◌, if◌then◌else◌, length, Bytes, lit,
}
use golang_rest_api_template.Middleware.RequestId.{get_request_id}
use golang_rest_api_template.Platform.{Variable}
use golang_rest_api_template.Errors.{Cause}
use golang_rest_api_template.Result.{Io, Result}
use golang_rest_api_template.Result.{Result, ok, err, Io}
use golang_rest_api_template.Http.{Context, Response, Handler}

abbrev pub mongo_access_log_queue_size : ℕ
mongo_access_log_queue_size = 256

abbrev mongo_access_log_drop_log_every : ℕ
mongo_access_log_drop_log_every = 100

-- The fields that `Logger` gives to zap and the document that it queues, which have the same keys.
pub record LogEntry : Type 0 where
  pub method : Bytes
  pub path : Bytes
  pub status : ℕ
  pub duration : ℕ
  pub ip : Bytes
  pub user_agent : Bytes
  pub request_id : Bytes
  -- The trace id and the span id of a valid span.
  pub span : Option (Bytes × Bytes)

-- `channel` is the buffer of `ch`, the oldest document first; `dropped` is an `atomic.Uint64`.
pub record MongoAccessLogQueue (D : Type 0) : Type 0 where
  pub channel : List D
  pub dropped : ℕ

-- The count that the warning reports, where this drop has one.
abbrev pub drop_warning : ℕ → Option ℕ
drop_warning n = if (n == 1) || (n % mongo_access_log_drop_log_every == 0) then some n else none

module _ {D : Type 0} where
  -- A nil queue for a nil collection.
  abbrev pub new_mongo_access_log_queue : Bool → Option (MongoAccessLogQueue D)
  new_mongo_access_log_queue false = none
  new_mongo_access_log_queue true = some (record { channel = []; dropped = 0 })

  -- The `select`: the send if the buffer has room, and else the default case.
  unfoldable send : MongoAccessLogQueue D → D → MongoAccessLogQueue D × Option ℕ
  send q doc =
      let n = (q.dropped + 1) % 2 ^ 64 in
      if ltb (length q.channel) mongo_access_log_queue_size
      then (record q { channel = q.channel ++ doc ∷ [] }, none)
      else (record q { dropped = n }, drop_warning n)

  unfoldable enqueue :
      Option (MongoAccessLogQueue D) → D → Option (MongoAccessLogQueue D) × Option ℕ
  unfolding send
  enqueue none doc = (none, none)
  enqueue (some q) doc = let (q', warning) = send q doc in (some q', warning)

  -- The receive of `range q.ch`: `none` while the worker waits for a document.
  unfoldable receive : MongoAccessLogQueue D → Option (D × MongoAccessLogQueue D)
  receive q = elim q.channel [ [] ↦ none | doc ∷ rest ↦ some (doc, record q { channel = rest }) ]

-- What the worker and `Logger` call: the collection, zap, the clock and the current span.
pub record Observers (W : Type 0) : Type 0 where
  pub insert_one : LogEntry → Io W Cause (Unit {0})
  pub error_failed_to_log : Cause → W → W
  pub warn_queue_full : (dropped_total : ℕ) → W → W
  pub info_request : LogEntry → W → W
  pub time_now : W → ℕ × W
  pub span_context : Context → Option (Bytes × Bytes)
  pub queue : Variable W (Option (MongoAccessLogQueue LogEntry))

module _ {W : Type 0} (o : Observers W) where
  abbrev pub report : Result Cause (Unit {0}) → W → W
  report (ok u) w = w
  report (err e) w = o.error_failed_to_log e w

  abbrev pub insert_next : Option (LogEntry × MongoAccessLogQueue LogEntry) → W → W
  insert_next none w = w
  insert_next (some (doc, q)) w =
      let (r, w') = o.insert_one doc (o.queue.put (some q) w) in report r w'

  abbrev pub work_on : Option (MongoAccessLogQueue LogEntry) → W → W
  unfolding receive
  work_on none w = w
  work_on (some q) w = insert_next (receive q) w

  -- One round of the loop of `worker`.
  unfoldable pub worker : W → W
  worker w = work_on (o.queue.get w) w

  abbrev pub warn : Option ℕ → W → W
  warn none w = w
  warn (some n) w = o.warn_queue_full n w

  unfoldable enqueue_entry : LogEntry → W → W
  unfolding enqueue
  enqueue_entry entry w =
      let (q, warning) = enqueue (o.queue.get w) entry in warn warning (o.queue.put q w)

  unfoldable pub log_entry : Context → Response → ℕ → LogEntry
  unfolding get_request_id
  log_entry c r duration = record {
    method = c.request.method;
    path = c.request.path;
    status = r.status;
    duration = duration;
    ip = c.request.client_ip;
    user_agent = c.request.header (lit "User-Agent");
    request_id = get_request_id (some c);
    span = o.span_context c;
  }

  -- `c.Next()` is the rest of the chain.
  unfoldable pub logger : Handler W → Handler W
  unfolding enqueue_entry log_entry
  logger rest c w =
      let (start, w1) = o.time_now w in
      let (r, w2) = rest c w1 in
      let (end, w3) = o.time_now w2 in
      let entry = log_entry c r (end - start) in (r, enqueue_entry entry (o.info_request entry w3))
