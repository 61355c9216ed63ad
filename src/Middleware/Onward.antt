-- ===== src/Middleware/Onward.antt =====
-- pkg/middleware/max_body.go, request_id.go and request_timeout.go: how the middleware end a request,
-- and how they let one go on.
use golang_rest_api_template.Base.{
  ℕ, ◌≤◌, ◌==◌, inl, inr, Bool-cases, Bytes, is_empty, arith, lit, trim_space, if◌then◌else◌,
}
use golang_rest_api_template.Http.Onward.{IsOnward}
use golang_rest_api_template.Platform.{Platform, Duration}
use golang_rest_api_template.Http.{Middleware, Response}
use golang_rest_api_template.Middleware.MaxBody.{
  default_max_request_body_bytes, max_request_body, has_body, over,
}
use golang_rest_api_template.Middleware.RequestId.{request_id}
use golang_rest_api_template.Middleware.Timeout.{
  request_context_timeout, request_context_timeout_from_env,
  request_context_timeout_duration_from_env,
}

module _ {W : Type 0} (Ending : Response → Type 0) (h : Bytes → Bytes)
    (refuses : (r : Response) → 400 ≤ r.status → Ending r) where
  pub max_request_body-IsOnward :
      (max_bytes : ℕ) → IsOnward {W = W} Ending h (max_request_body max_bytes)
  unfolding max_request_body
  max_request_body-IsOnward max_bytes c w same =
      let limit = if max_bytes == 0 then default_max_request_body_bytes else max_bytes in
      elim (Bool-cases (has_body c.request.method)) [
        | inr e ↦ rw e same
        | inl e ↦ elim (Bool-cases (over limit c.request.content_length)) [
          | inl long ↦ rw (e, long) (refuses _ (omega arith))
          | inr short ↦ rw (e, short) same
        ]
      ]

  pub request_id-IsOnward : (p : Platform W) → IsOnward Ending h (request_id p)
  unfolding request_id
  request_id-IsOnward p c w same =
      elim (Bool-cases (is_empty (trim_space (c.request.header (lit "X-Request-Id"))))) [
        | inl e ↦ rw e same
        | inr e ↦ rw e same
      ]

  pub request_context_timeout_from_env-IsOnward :
      (with_timeout : ℕ → Middleware W) (getenv : Bytes → Bytes) (parse : Bytes → Duration)
      → ((d : ℕ) → IsOnward Ending h (with_timeout d))
      → IsOnward Ending h (request_context_timeout_from_env with_timeout getenv parse)
  unfolding request_context_timeout_from_env request_context_timeout
  request_context_timeout_from_env-IsOnward with_timeout getenv parse onward c w same =
      let d = request_context_timeout_duration_from_env getenv parse in
      elim (Bool-cases (d == 0)) [ inl e ↦ rw e same | inr e ↦ rw e (onward d c w same) ]
