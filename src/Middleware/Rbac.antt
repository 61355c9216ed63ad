-- ===== src/Middleware/Rbac.antt =====
-- pkg/middleware/rbac.go.
pub mod Guard
use golang_rest_api_template.Base.{
  not, none, some, List, if◌then◌else◌, filter, any, Bytes, lit, ◌=s◌, is_empty,
}
use golang_rest_api_template.Http.{abort, next, Middleware, write_error}

abbrev allowed_set : List Bytes → List Bytes
allowed_set = filter (λ r. not (is_empty r))

unfoldable pub require_role : {W : Type 0} → List Bytes → Middleware W
require_role allowed c w = elim c.role [
  | none ↦ (abort (write_error c 403 (lit "forbidden")), w)
  | some role ↦
      if any (λ r. r =s role) (allowed_set allowed)
      then (next c, w)
      else (abort (write_error c 403 (lit "forbidden")), w)
]
