-- ===== src/Kafka.antt =====
-- pkg/events/kafka, pkg/events/driver and the envelope of pkg/events/event.go: the configuration from
-- the environment, the message of an event, and the choice of the publisher. kafka-go's writer, the
-- UUIDs and JSON coding are parameters.
pub mod Brokers
use golang_rest_api_template.Base.{
  ℕ, ◌*◌, ◌||◌, none, List, [], ◌∷◌, ◌++◌, if◌then◌else◌, Bytes, lit, ◌=s◌, is_empty, trim_space,
  to_lower,
}
use golang_rest_api_template.Base.Split.{split, trimmed_parts}
use golang_rest_api_template.Auth.Tokens.{second}
use golang_rest_api_template.Result.{Result, ok, err, Io, ◌>>=◌, map_err}
use golang_rest_api_template.Errors.{Error, Cause, message, cause}
use golang_rest_api_template.Platform.{Duration, malformed, not_positive, positive}
use golang_rest_api_template.Service.Events.{
  Event, EventType, BookPayloadV1, Publisher, nop_publisher, type_text,
}

pub record Config : Type 0 where
  pub brokers : List Bytes
  pub topic_prefix : Bytes
  pub publish_timeout : ℕ

abbrev pub default_topic_prefix : Bytes
default_topic_prefix = lit "app"

abbrev pub default_publish_timeout : ℕ
default_publish_timeout = 2 * second

abbrev pub or_default : Bytes → Bytes → Bytes
or_default default s = if is_empty s then default else s

abbrev pub timeout_from : Duration → Result Error ℕ
timeout_from (positive d) = ok d
timeout_from malformed = err (message (lit "kafka: invalid KAFKA_PUBLISH_TIMEOUT"))
timeout_from not_positive = err (message (lit "kafka: KAFKA_PUBLISH_TIMEOUT must be > 0"))

abbrev pub with_timeout : List Bytes → Bytes → Result Error ℕ → Result Error Config
with_timeout brokers prefix (ok d) =
    ok (record { brokers = brokers; topic_prefix = prefix; publish_timeout = d })
with_timeout brokers prefix (err e) = err e

abbrev pub with_brokers : List Bytes → Bytes → Result Error ℕ → Result Error Config
with_brokers [] prefix timeout =
    err (message (lit "kafka: KAFKA_BROKERS contained no valid broker addresses"))
with_brokers (b ∷ brokers) prefix timeout = with_timeout (b ∷ brokers) prefix timeout

-- The texts of the errors stop before the value that they quote.
unfoldable pub config_from_env : (Bytes → Bytes) → (Bytes → Duration) → Result Error Config
unfolding trim_space split trimmed_parts
config_from_env getenv parse_duration =
    let raw = trim_space (getenv (lit "KAFKA_BROKERS")) in
    let s = trim_space (getenv (lit "KAFKA_PUBLISH_TIMEOUT")) in
    if is_empty raw
    then err (message (lit "kafka: KAFKA_BROKERS is required when EVENTS_DRIVER=kafka"))
    else with_brokers (trimmed_parts (split 44 raw))
        (or_default default_topic_prefix (trim_space (getenv (lit "KAFKA_TOPIC_PREFIX"))))
        (if is_empty s then ok default_publish_timeout else timeout_from (parse_duration s))

-- `Envelope`; `payload` is the field `Data`, of any type: a payload where it is sent, and what
-- `json.Unmarshal` makes of it where it is received.
pub record Envelope (D : Type 0) : Type 0 where
  pub id : Bytes
  pub type : Bytes
  pub source : Bytes
  pub occurred_at : ℕ
  pub payload : D

-- `kafkago.Message`.
pub record Message : Type 0 where
  pub topic : Bytes
  pub key : Bytes
  pub value : Bytes

-- What a producer calls: `uuid.NewString`, `json.Marshal`, and the writer under a deadline.
pub record Broker (W : Type 0) : Type 0 where
  pub new_uuid : W → Bytes × W
  pub marshal : Envelope BookPayloadV1 → Result Cause Bytes
  pub write_messages : (timeout : ℕ) → Message → Io W Cause (Unit {0})

pub record Producer : Type 0 where
  pub prefix : Bytes
  pub source : Bytes
  pub cfg : Config

abbrev pub new : Config → Bytes → Producer
new cfg source = record { prefix = cfg.topic_prefix; source = source; cfg = cfg }

-- "<prefix>.<aggregate>".
unfoldable pub topic : Producer → Bytes → Bytes
topic p aggregate = p.prefix ++ (lit "." ++ aggregate)

module _ {W : Type 0} (b : Broker W) where
  abbrev pub envelope_of : Producer → Bytes → Event → Envelope BookPayloadV1
  envelope_of p id e = record {
    id = id;
    type = type_text e.type;
    source = p.source;
    occurred_at = e.occurred_at;
    payload = e.payload;
  }

  abbrev pub message_of : Producer → Event → Result Cause Bytes → Result Error Message
  unfolding topic
  message_of p e (err c) = err (message (lit "kafka: marshal event " ++ type_text e.type))
  message_of p e (ok value) =
      ok (record { topic = topic p e.aggregate; key = e.key; value = value })

  unfoldable pub build_message : Producer → Event → Io W Error Message
  unfolding topic
  build_message p e w =
      let (id, w') = b.new_uuid w in (message_of p e (b.marshal (envelope_of p id e)), w')

  unfoldable pub publish : Producer → Event → Io W Error (Unit {0})
  unfolding build_message
  publish p e = do
    msg ← build_message p e
    map_err cause (b.write_messages p.cfg.publish_timeout msg)

  abbrev pub producer_publisher : (EventType → Bytes → W → W) → Producer → Publisher W
  unfolding publish
  producer_publisher count p = record { publish = publish p; count = count }

  abbrev pub publisher_of :
      (EventType → Bytes → W → W) → Bytes → Result Error Config → Result Error (Publisher W)
  unfolding publish
  publisher_of count source (err e) = err e
  publisher_of count source (ok cfg) = ok (producer_publisher count (new cfg source))

  -- `driver.NewFromEnv`.
  unfoldable new_from_env :
      (EventType → Bytes → W → W)
      → (Bytes → Bytes)
      → (Bytes → Duration)
      → Result Error (Publisher W)
  unfolding trim_space to_lower config_from_env publish
  new_from_env count getenv parse_duration =
      let name = to_lower (trim_space (getenv (lit "EVENTS_DRIVER"))) in
      if is_empty name || name =s lit "none"
      then ok (nop_publisher count)
      else if name =s lit "kafka"
      then publisher_of count
          (or_default (lit "golang-rest-api-template") (trim_space (getenv (lit "SERVICE_NAME"))))
          (config_from_env getenv parse_duration)
      else err (message (lit "unsupported EVENTS_DRIVER"))
