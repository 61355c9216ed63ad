-- ===== src/Http.antt =====
-- What the handlers and the middleware use of gin: the request, the values that a chain shares, the
-- response, and `AbortWithStatusJSON` of pkg/httperr and pkg/httpresp.
pub mod Guard
pub mod Onward
use golang_rest_api_template.Base.{ℕ, Option, List, [], ◌∷◌, ◌++◌, Bytes}
use golang_rest_api_template.Models.{Book}
use golang_rest_api_template.Base.Integers.{ℤ}

pub record Request : Type 0 where
  pub method : Bytes
  pub path : Bytes
  -- `c.GetHeader`: the empty string for a header that is not there.
  pub header : Bytes → Bytes
  -- `c.Param("id")`.
  pub id_param : Bytes
  -- `c.GetQuery`.
  pub query : Bytes → Option Bytes
  pub body : Bytes
  -- -1 where the length is not known.
  pub content_length : ℤ
  pub client_ip : Bytes

-- The keys that the middleware sets by `c.Set`, and the cap of `http.MaxBytesReader`.
pub record Context : Type 0 where
  pub request : Request
  pub username : Option Bytes
  pub user_id : Option ℕ
  pub role : Option Bytes
  pub jti : Option Bytes
  pub access_exp : Option ℕ
  pub request_id : Option Bytes
  pub body_cap : Option ℕ
  pub headers : List (Bytes × Bytes)

-- The "data" of a success.
pub data Payload : Type 0 where
  text : Bytes → Payload
  book : Book → Payload
  books : List Book → Payload
  tokens : (access_token refresh_token : Bytes) (expires_in : ℕ) → Payload
  admin_me : (username : Bytes) (user_id : ℕ) (role : Bytes) → Payload

pub data Body : Type 0 where
  empty : Body
  error : Bytes → Body
  success : Payload → Body
  -- `c.String`.
  plain : Bytes → Body

pub record Response : Type 0 where
  pub status : ℕ
  pub body : Body
  pub headers : List (Bytes × Bytes)

-- `c.JSON` and `c.Status`, with the headers set so far.
abbrev pub respond : Context → ℕ → Body → Response
respond c status body = record { status = status; body = body; headers = c.headers }

-- `httperr.Write` and `httperr.Abort`.
abbrev pub write_error : Context → ℕ → Bytes → Response
write_error c status message = respond c status (error message)

-- `httpresp.OK` and `httpresp.Created`.
abbrev pub ok_response : Context → Payload → Response
ok_response c payload = respond c 200 (success payload)

abbrev pub created_response : Context → Payload → Response
created_response c payload = respond c 201 (success payload)

abbrev pub set_header : Bytes → Bytes → Context → Context
set_header name value c = record c { headers = c.headers ++ (name, value) ∷ [] }

-- What a middleware does: it ends the request, or lets the chain go on.
pub data Step : Type 0 where
  abort : Response → Step
  next : Context → Step

abbrev pub Middleware : Type 0 → Type 0
Middleware W = Context → W → Step × W

abbrev pub Handler : Type 0 → Type 0
Handler W = Context → W → Response × W

module _ {W : Type 0} where
  abbrev resume : (Context → W → Response × W) → Step → W → Response × W
  resume k (abort r) w = (r, w)
  resume k (next c) w = k c w

  -- The middleware of a route in their order, then its handler.
  unfoldable pub chain : List (Middleware W) → Handler W → Handler W
  chain [] handler c w = handler c w
  chain (m ∷ ms) handler c w = resume (chain ms handler) (m c w).0 (m c w).1
