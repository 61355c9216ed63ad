-- ===== src/Database/Mongo.antt =====
-- pkg/database/mongo.go: the connection to the access-log collection. The MongoDB driver is a
-- parameter.
use golang_rest_api_template.Errors.{Cause}
use golang_rest_api_template.Base.{if◌then◌else◌, Bytes, lit, is_empty}
use golang_rest_api_template.Result.{Result, ok, err, Io}

-- `mongo.Connect`, `Ping`, `Disconnect`, and the collection "logs" of the database "logging".
pub record Mongo (W Client Collection : Type 0) : Type 0 where
  pub connect : (uri : Bytes) → Io W Cause Client
  pub ping : Client → Io W Cause (Unit {0})
  pub disconnect : Client → W → W
  pub logs : Client → Collection

unfoldable mongo_connection_uri : (Bytes → Bytes) → Bytes
mongo_connection_uri getenv =
    let uri = getenv (lit "MONGODB_URI") in
    if is_empty uri then lit "mongodb://localhost:27017" else uri

-- Which of the two calls failed, with its error.
pub data MongoError : Type 0 where
  mongo_connect mongo_ping : Cause → MongoError

module _ {W Client Collection : Type 0} (m : Mongo W Client Collection) where
  abbrev pub keep_answering :
      Client → Result Cause (Unit {0}) × W → Result MongoError Collection × W
  keep_answering client (ok u, w) = (ok (m.logs client), w)
  keep_answering client (err e, w) = (err (mongo_ping e), m.disconnect client w)

  abbrev pub ping_client : Result Cause Client × W → Result MongoError Collection × W
  ping_client (err e, w) = (err (mongo_connect e), w)
  ping_client (ok client, w) = keep_answering client (m.ping client w)

  unfoldable pub setup_mongo_db : (Bytes → Bytes) → Io W MongoError Collection
  unfolding mongo_connection_uri
  setup_mongo_db getenv w = ping_client (m.connect (mongo_connection_uri getenv) w)
