-- ===== src/Auth/Roles.antt =====
-- pkg/auth/roles.go.
use golang_rest_api_template.Base.{
  Bytes, lit, ◌=s◌, ◌||◌, Bool, if◌then◌else◌, is_empty, trim_space,
}
use golang_rest_api_template.Result.{Result, ok, err}
use golang_rest_api_template.Errors.{Error, message}

abbrev pub role_user : Bytes
role_user = lit "user"

abbrev pub role_admin : Bytes
role_admin = lit "admin"

unfoldable pub valid_role : Bytes → Bool
valid_role role = (role =s role_user) || (role =s role_admin)

abbrev usable_role : Bytes → Result Error Bytes
usable_role r =
    if is_empty r
    then ok role_user
    else if valid_role r
    then ok r
    else err (message (lit "invalid role"))

unfoldable pub effective_role : Bytes → Result Error Bytes
unfolding valid_role
effective_role role = usable_role (trim_space role)
