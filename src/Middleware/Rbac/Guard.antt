-- ===== src/Middleware/Rbac/Guard.antt =====
-- pkg/middleware/rbac.go: the requests that `RequireRole` lets through.
use golang_rest_api_template.Http.Guard.{IsGuard}
use golang_rest_api_template.Middleware.Rbac.{require_role}
use golang_rest_api_template.Base.{
  ◌≡◌, sym, ap, ◌∙◌, inl, inr, false, some, List, [], ◌∷◌, arith, Bool-cases, Option-cases, Bytes,
  ◌=s◌, =s_sound, is_empty,
}
use golang_rest_api_template.Http.{Context, next}

module _ {W : Type 0} where
  pub require_role-IsGuard : (roles : List Bytes) → IsGuard {W = W} (require_role roles)
  unfolding require_role
  require_role-IsGuard roles c w = elim (Option-cases c.role) [
    | inl absent ↦ rw absent (ground arith)
    | inr (r, present) ↦ rw present (ground arith)
  ]

  pub require_role-passes :
      (role : Bytes) (c c' : Context) (w : W)
      → is_empty role ≡ false
      → (require_role (role ∷ []) c w).0 ≡ next c'
      → c.role ≡ some role
  unfolding require_role
  require_role-passes role c c' w given h = elim (Option-cases c.role) [
    | inl absent ↦ absurd (cc (rw absent at h))
    | inr (r, present) ↦ elim (Bool-cases (role =s r)) [
      | inl same ↦ present ∙ ap some (sym (=s_sound role r same))
      | inr other ↦ absurd (cc (rw (present, given, other) at h))
    ]
  ]
