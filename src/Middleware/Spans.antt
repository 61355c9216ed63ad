-- ===== src/Middleware/Spans.antt =====
-- pkg/middleware/tracing.go: the span of a request. OpenTelemetry is a parameter: the attributes and
-- the status are what it is given.
use golang_rest_api_template.Base.{
  ℕ, Bool, Option, none, some, List, [], ◌∷◌, ◌++◌, leb, if◌then◌else◌, Bytes, lit, is_empty,
  format_uint,
}
use golang_rest_api_template.Http.{Context, Handler}
use golang_rest_api_template.Middleware.RequestId.{get_request_id}

pub record SpanStart : Type 0 where
  pub name : Bytes
  pub attributes : List (Bytes × Bytes)

-- The status of a span: unset, or an error with its text.
pub data SpanStatus : Type 0 where
  unset : SpanStatus
  error_status : (text : Bytes) → SpanStatus

-- What the middleware asks of gin and of the tracer. `full_path` and `host` are the empty text where
-- there is none, `last_error` is the last of `c.Errors`.
pub record Tracer (W : Type 0) : Type 0 where
  pub full_path : Context → Bytes
  pub host : Context → Bytes
  pub tls : Context → Bool
  pub start : SpanStart → W → W
  pub set_status_code : (status : ℕ) → W → W
  pub set_status : SpanStatus → W → W
  pub last_error : W → Option Bytes
  pub record_error : Bytes → W → W
  pub end_span : W → W

unfoldable http_status_text : ℕ → Bytes
unfolding format_uint
http_status_text code = if leb 500 code then lit "HTTP " ++ format_uint code else []

abbrev pub status_of : ℕ → SpanStatus
unfolding http_status_text
status_of status = if leb 500 status then error_status (http_status_text status) else unset

-- The attribute, if the text is not empty.
abbrev pub given : (key value : Bytes) → List (Bytes × Bytes)
given key value = if is_empty value then [] else (key, value) ∷ []

module _ {W : Type 0} (t : Tracer W) where
  unfoldable request_scheme : Context → Bytes
  request_scheme c =
      let proto = c.request.header (lit "X-Forwarded-Proto") in
      if t.tls c then lit "https" else if is_empty proto then lit "http" else proto

  -- The attributes in front of the request id.
  unfoldable pub first_attributes : Context → List (Bytes × Bytes)
  unfolding request_scheme
  first_attributes c =
      (lit "http.request.method", c.request.method)
      ∷ (lit "url.path", c.request.path)
      ∷ (lit "url.scheme", request_scheme c)
      ∷ given (lit "server.address") (t.host c)

  unfoldable pub span_of : Context → SpanStart
  unfolding first_attributes get_request_id
  span_of c = record {
    name = if is_empty (t.full_path c) then c.request.method ++ lit " unmatched" else t.full_path c;
    attributes =
        first_attributes c
        ++ (given (lit "http.request_id") (get_request_id (some c))
            ++ given (lit "http.route") (t.full_path c));
  }

  abbrev pub record_last : Option Bytes → W → W
  record_last none w = w
  record_last (some e) w = t.record_error e w

  unfoldable pub tracing : Handler W → Handler W
  unfolding span_of status_of
  tracing rest c w =
      let (r, w1) = rest c (t.start (span_of c) w) in
      let w2 = t.set_status (status_of r.status) (t.set_status_code r.status w1) in
      (r, t.end_span (record_last (t.last_error w2) w2))
