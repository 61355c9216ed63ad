-- ===== src/Service/Events.antt =====
-- pkg/events/event.go, noop.go and metrics.go: the domain events and the publisher interface.
use golang_rest_api_template.Base.{ℕ, Bytes, lit}
use golang_rest_api_template.Result.{Io, pure}
use golang_rest_api_template.Errors.{Error}

pub data EventType : Type 0 where
  book_created book_updated book_deleted : EventType

abbrev pub type_text : EventType → Bytes
type_text book_created = lit "book.created.v1"
type_text book_updated = lit "book.updated.v1"
type_text book_deleted = lit "book.deleted.v1"

abbrev pub aggregate_books : Bytes
aggregate_books = lit "books"

pub record BookPayloadV1 : Type 0 where
  pub id : ℕ
  pub owner_id : ℕ
  pub title : Bytes
  pub author : Bytes

pub record Event : Type 0 where
  pub type : EventType
  pub aggregate : Bytes
  pub key : Bytes
  pub occurred_at : ℕ
  pub payload : BookPayloadV1

-- `count` is `PublishTotal.WithLabelValues(type, result).Inc()`.
pub record Publisher (W : Type 0) : Type 0 where
  pub publish : Event → Io W Error (Unit {0})
  pub count : (type : EventType) (result : Bytes) → W → W

-- `NopPublisher`; the counter is the caller's.
abbrev pub nop_publisher : {W : Type 0} → (EventType → Bytes → W → W) → Publisher W
nop_publisher count = record { publish = λ e. pure tt; count = count }
