-- ===== src/Middleware/RequestId.antt =====
-- pkg/middleware/request_id.go.
pub mod Correlation
use golang_rest_api_template.Base.{
  ◌+◌, ◌%◌, Option, none, some, [], ◌∷◌, ◌++◌, if◌then◌else◌, Bytes, lit, is_empty, trim_space,
  hex_encode,
}
use golang_rest_api_template.Result.{Result, ok, err}
use golang_rest_api_template.Errors.{Cause}
use golang_rest_api_template.Platform.{Platform}
use golang_rest_api_template.Http.{Context, next, Middleware, set_header}

-- The random bytes as a UUID of version 4: `b[6] & 0x0f | 0x40` and `b[8] & 0x3f | 0x80`.
unfoldable pub uuid_text : Bytes → Bytes
uuid_text
      (b0 ∷ b1 ∷ b2 ∷ b3 ∷ b4 ∷ b5 ∷ b6 ∷ b7 ∷ b8 ∷ b9 ∷ b10 ∷ b11 ∷ b12 ∷ b13 ∷ b14 ∷ b15 ∷ []) =
    hex_encode (b0 ∷ b1 ∷ b2 ∷ b3 ∷ [])
    ++ (45
        ∷ (hex_encode (b4 ∷ b5 ∷ [])
            ++ (45
                ∷ (hex_encode ((b6 % 16 + 64) ∷ b7 ∷ [])
                    ++ (45
                        ∷ (hex_encode ((b8 % 64 + 128) ∷ b9 ∷ [])
                            ++ (45 ∷ hex_encode (b10 ∷ b11 ∷ b12 ∷ b13 ∷ b14 ∷ b15 ∷ []))))))))
uuid_text _ = []

abbrev pub or_unknown : Bytes → Bytes
or_unknown s = if is_empty s then lit "unknown" else s

abbrev pub with_request_id : Context → Bytes → Context
with_request_id c id = set_header (lit "X-Request-Id") id (record c { request_id = some id })

-- The value that gin's context, or the request's, holds under the key; nil has none.
unfoldable pub get_request_id : Option Context → Bytes
get_request_id none = []
get_request_id (some c) = elim c.request_id [ none ↦ [] | some id ↦ id ]

module _ {W : Type 0} (p : Platform W) where
  abbrev made : Result Cause Bytes → Bytes
  made (err e) = []
  made (ok b) = uuid_text b

  unfoldable new_request_id : W → Bytes × W
  unfolding uuid_text hex_encode
  new_request_id w = let (r, w') = p.rand_read 16 w in (made r, w')

  unfoldable pub request_id : Middleware W
  unfolding new_request_id trim_space
  request_id c w =
      let given = trim_space (c.request.header (lit "X-Request-Id")) in
      let (made_id, w') = new_request_id w in
      if is_empty given
      then (next (with_request_id c (or_unknown made_id)), w')
      else (next (with_request_id c (or_unknown given)), w)
