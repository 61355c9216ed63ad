-- ===== src/Consumer.antt =====
-- examples/kafka-consumer/main.go: the settings, the handler that skips what it has seen, and the loop
-- that commits a message once it is handled. kafka-go's reader and `json.Unmarshal` are parameters.
pub mod Once
use golang_rest_api_template.Base.{
  Option, none, some, List, [], ◌∷◌, ◌++◌, if◌then◌else◌, any, Bytes, lit, ◌=s◌, is_empty,
  trim_space,
}
use golang_rest_api_template.Base.Split.{split, trimmed_parts}
use golang_rest_api_template.Kafka.{Envelope}

unfoldable split_and_trim : Bytes → List Bytes
unfolding split trimmed_parts
split_and_trim csv = trimmed_parts (split 44 csv)

abbrev pub env_or : (Bytes → Bytes) → (key default : Bytes) → Bytes
unfolding trim_space
env_or getenv key default = let v = trim_space (getenv key) in if is_empty v then default else v

-- The topic and the group of the reader, or none where `main` ends for want of a broker.
unfoldable reader_config : (Bytes → Bytes) → Option (List Bytes × Bytes × Bytes)
unfolding split_and_trim trim_space
reader_config getenv = elim (split_and_trim (getenv (lit "KAFKA_BROKERS"))) [
  | [] ↦ none
  | b ∷ brokers ↦ some (
    b ∷ brokers,
    env_or getenv (lit "KAFKA_TOPIC_PREFIX") (lit "app") ++ (lit "." ++ lit "books"),
    env_or getenv (lit "KAFKA_CONSUMER_GROUP") (lit "example-consumer"),
  )
]

-- What the process keeps and does: the ids in `seen`, the envelopes it worked on (the lines of the
-- log that stand for the work), and the values of the messages that it asked to commit.
pub record Progress (D : Type 0) : Type 0 where
  pub seen : List Bytes
  pub worked : List (Envelope D)
  pub committed : List Bytes

abbrev pub fresh : {D : Type 0} → Progress D
fresh = record { seen = []; worked = []; committed = [] }

-- What `FetchMessage` answers: a message with its value, an error, or one after the context is done.
pub data Fetched : Type 0 where
  fetched : (value : Bytes) → Fetched
  fetch_error : Fetched
  context_done : Fetched

module _ {D : Type 0} (unmarshal : Bytes → Option (Envelope D)) where
  abbrev pub handle_envelope : Option (Envelope D) → Progress D → Progress D
  handle_envelope none s = s
  handle_envelope (some env) s =
      if any (λ id. id =s env.id) s.seen
      then s
      else record s { worked = s.worked ++ env ∷ []; seen = env.id ∷ s.seen }

  -- It returns nil on every path, since the work cannot fail.
  unfoldable handle : Bytes → Progress D → Progress D
  handle value s = handle_envelope (unmarshal value) s

  abbrev pub commit : Bytes → Progress D → Progress D
  commit value s = record s { committed = s.committed ++ value ∷ [] }

  -- The loop of `main` over the answers of the reader.
  unfoldable pub consume : List Fetched → Progress D → Progress D
  unfolding handle
  consume [] s = s
  consume (fetched value ∷ rest) s = consume rest (commit value (handle value s))
  consume (fetch_error ∷ rest) s = consume rest s
  consume (context_done ∷ rest) s = s
