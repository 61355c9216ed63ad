-- ===== src/Middleware/MaxBody.antt =====
-- pkg/middleware/max_body.go.
use golang_rest_api_template.Base.{
  ℕ, Bool, false, ◌||◌, none, some, ltb, ◌==◌, if◌then◌else◌, length, Bytes, lit, ◌=s◌,
}
use golang_rest_api_template.Base.Integers.{ℤ, pos, negsuc}
use golang_rest_api_template.Result.{Result, ok, err}
use golang_rest_api_template.Errors.{Cause, other}
use golang_rest_api_template.Http.{Context, abort, next, Middleware, respond, empty}

abbrev pub default_max_request_body_bytes : ℕ
default_max_request_body_bytes = 1048576

abbrev pub has_body : Bytes → Bool
has_body method = method =s lit "POST" || (method =s lit "PUT" || method =s lit "PATCH")

abbrev pub over : ℕ → ℤ → Bool
over limit (pos n) = ltb limit n
over limit (negsuc n) = false

-- The limit of 0 stands for the non-positive ones, which mean the default.
unfoldable pub max_request_body : {W : Type 0} → ℕ → Middleware W
max_request_body max_bytes c w =
    let limit = if max_bytes == 0 then default_max_request_body_bytes else max_bytes in
    if has_body c.request.method
    then if over limit c.request.content_length
      then (abort (respond c 413 empty), w)
      else (next (record c { body_cap = some limit }), w)
    else (next c, w)

-- What a handler reads of the body behind the cap.
unfoldable pub read_body : Context → Result Cause Bytes
read_body c = elim c.body_cap [
  | none ↦ ok c.request.body
  | some limit ↦
      if ltb limit (length c.request.body)
      then err (other (lit "http: request body too large"))
      else ok c.request.body
]
