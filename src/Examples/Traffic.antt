-- ===== src/Examples/Traffic.antt =====
-- Requests, their log, their metrics and their events.
use golang_rest_api_template.Base.{
  ℕ, zero, suc, ◌≡◌, refl, sym, ap, ◌∙◌, true, false, Option, none, some, List, [], ◌∷◌, ◌++◌,
  arith, if◌then◌else◌, length, Bytes, lit, All, cut_prefix,
}
use golang_rest_api_template.Result.{ok, ok-injective}
use golang_rest_api_template.Http.{Context, Handler, respond, empty, next}
use golang_rest_api_template.Examples.World.{World, platform}
use golang_rest_api_template.Examples.Startup.{probe}
use golang_rest_api_template.Examples.Tokens
use golang_rest_api_template.Middleware.AccessLog.{Observers}
use golang_rest_api_template.Middleware.AccessLog.Fifo.{
  System, start, offered, Reach, here, step, offers, IsFifo, turns, Reach-IsFifo, worker_finishes,
}
use golang_rest_api_template.Middleware.Metrics.{
  Series, MetricsConfig, metrics_middleware, should_skip,
}
use golang_rest_api_template.Middleware.Metrics.Counted.{IsCounted, metrics_middleware-IsCounted}
use golang_rest_api_template.Middleware.Spans.{Tracer}
use golang_rest_api_template.Middleware.RequestId.{request_id, uuid_text}
use golang_rest_api_template.Middleware.RequestId.Correlation.{
  IsIdOf, IsUuid4, request_id-IsIdOf, uuid_text-IsUuid4,
}
use golang_rest_api_template.Kafka.{
  Envelope, Broker, Message, Producer, build_message, topic, envelope_of,
}
use golang_rest_api_template.Consumer.{Fetched, fetched, fetch_error, fresh, consume}
use golang_rest_api_template.Consumer.Once.{
  times, carries, delivered, ReadsHeader, Tells, consume_once, publish_work_once,
}
use golang_rest_api_template.Service.Events.{Event, BookPayloadV1, book_created}

abbrev two_offers : System ℕ
unfolding offered
two_offers = offered 2 (offered 1 start)

two_offers-Reach : Reach two_offers
unfolding offered two_offers
two_offers-Reach = step (step here (offers 1)) (offers 2)

Reach-IsFifo_example : IsFifo two_offers
Reach-IsFifo_example = Reach-IsFifo two_offers-Reach

worker_finishes_example : (turns 600 two_offers).finished ≡ two_offers.accepted
worker_finishes_example = worker_finishes 600 two_offers-Reach (omega arith)

abbrev metrics_config : MetricsConfig
metrics_config = record { enabled = true; path = lit "/metrics" }

abbrev some_series : Series
some_series = record { requests = []; duration = []; in_flight = 2 }

abbrev answers_ok : Handler Series
answers_ok c w = (respond c 200 empty, w)

probe_counted : should_skip metrics_config probe.request.path ≡ false
unfolding should_skip cut_prefix
probe_counted = refl

metrics_middleware-IsCounted_example :
    let (r, w) =
      metrics_middleware
        (λ v. (5, v))
        (λ c. [])
        (record { get = λ v. v; put = λ s v. s })
        (some metrics_config)
        answers_ok
        probe
        some_series in
    IsCounted (λ c. []) probe some_series r.status w
metrics_middleware-IsCounted_example =
    metrics_middleware-IsCounted (λ v. (5, v)) (λ c. []) (record { get = λ v. v; put = λ s v. s })
      (record { get-put = λ s w. refl; get-time = λ w. refl }) answers_ok (λ c v. refl)
      metrics_config probe some_series refl probe_counted

abbrev pub silent_tracer : Tracer World
silent_tracer = record {
  full_path = λ c. [];
  host = λ c. lit "localhost";
  tls = λ c. false;
  start = λ s w. w;
  set_status_code = λ n w. w;
  set_status = λ s w. w;
  last_error = λ w. none;
  record_error = λ e w. w;
  end_span = λ w. w;
}

abbrev pub silent_observers : Observers World
silent_observers = record {
  insert_one = λ e w. (ok tt, w);
  error_failed_to_log = λ e w. w;
  warn_queue_full = λ n w. w;
  info_request = λ e w. w;
  time_now = λ w. (0, w);
  span_context = λ c. none;
  queue = record { get = λ w. none; put = λ q w. w };
}

request_id-IsIdOf_example :
    (id : Bytes) × (c' : Context) × ((request_id platform probe Tokens.start).0 ≡ next c')
    × IsIdOf silent_tracer silent_observers id c'
request_id-IsIdOf_example =
    request_id-IsIdOf platform silent_tracer silent_observers probe Tokens.start

uuid_text-IsUuid4_example :
    IsUuid4
      (uuid_text (1 ∷ 2 ∷ 3 ∷ 4 ∷ 5 ∷ 6 ∷ 255 ∷ 8 ∷ 255 ∷ 10 ∷ 11 ∷ 12 ∷ 13 ∷ 14 ∷ 15 ∷ 16 ∷ []))
uuid_text-IsUuid4_example = uuid_text-IsUuid4 1 2 3 4 5 6 255 8 255 10 11 12 13 14 15 16

abbrev created : Event
created = record {
  type = book_created;
  aggregate = lit "books";
  key = lit "1";
  occurred_at = 9;
  payload = record { id = 1; owner_id = 7; title = lit "t"; author = lit "a" };
}

-- A coding of envelopes: the numbers, the lengths of four texts, then the texts.
abbrev encode : Envelope BookPayloadV1 → Bytes
encode env =
    env.occurred_at
    ∷ env.payload.id
    ∷ env.payload.owner_id
    ∷ length env.id
    ∷ length env.type
    ∷ length env.source
    ∷ length env.payload.title
    ∷ (env.id ++ (env.type ++ (env.source ++ (env.payload.title ++ env.payload.author))))

abbrev cut : ℕ → Bytes → Bytes × Bytes
cut zero s = ([], s)
cut (suc n) [] = ([], [])
cut (suc n) (b ∷ s) = let (start, rest) = cut n s in (b ∷ start, rest)

cut-append : (s t : Bytes) → cut (length s) (s ++ t) ≡ (s, t)
cut-append [] t = refl
cut-append (b ∷ s) t = ap (λ p. (b ∷ p.0, p.1)) (cut-append s t)

abbrev decode : Bytes → Option (Envelope BookPayloadV1)
decode (at ∷ id ∷ owner ∷ a ∷ b ∷ c ∷ d ∷ rest) =
    let (name, r1) = cut a rest in
    let (type, r2) = cut b r1 in
    let (source, r3) = cut c r2 in
    let (title, author) = cut d r3 in
    some (record {
      id = name;
      type = type;
      source = source;
      occurred_at = at;
      payload = record { id = id; owner_id = owner; title = title; author = author };
    })
decode _ = none

decode-encode : (env : Envelope BookPayloadV1) → decode (encode env) ≡ some env
decode-encode env = rw (cut-append env.id _) (
    rw (cut-append env.type _)
      (rw (cut-append env.source _) (rw (cut-append env.payload.title env.payload.author) refl)))

abbrev broker : Broker ℕ
broker = record {
  new_uuid = λ w. (lit "id-1", w);
  marshal = λ env. ok (encode env);
  write_messages = λ d m w. (ok tt, w);
}

decodes : ReadsHeader broker.marshal decode
decodes env value e =
    (env, (ap decode (sym (ok-injective e)) ∙ decode-encode env, (refl, (refl, (refl, refl)))))

abbrev producer : Producer
producer = record {
  prefix = lit "app";
  source = lit "books";
  cfg = record { brokers = []; topic_prefix = lit "app"; publish_timeout = 1 };
}

abbrev sent : Message
sent = record {
  topic = lit "app.books";
  key = lit "1";
  value = encode (envelope_of broker producer (lit "id-1") created);
}

sent_built : (build_message broker producer created 0).0 ≡ ok sent
unfolding build_message topic
sent_built = refl

-- The message twice, and an error in between.
abbrev deliveries : List Fetched
deliveries = fetched sent.value ∷ fetch_error ∷ fetched sent.value ∷ []

consume_once_example :
    ((id : Bytes)
      → times id (consume decode deliveries fresh).worked
        ≡ (if carries decode id (delivered deliveries) then 1 else 0))
    × ((consume decode deliveries fresh).committed ≡ sent.value ∷ sent.value ∷ [])
consume_once_example = consume_once decode deliveries

publish_work_once_example :
    (times (lit "id-1") (consume decode deliveries fresh).worked ≡ 1)
    × All
        (λ x. x.id ≡ lit "id-1" → Tells producer created (lit "id-1") x)
        (consume decode deliveries fresh).worked
publish_work_once_example =
    publish_work_once broker decode producer created 0 sent deliveries decodes sent_built refl
      (λ x read same. refl, (λ x read same. refl, tt))
