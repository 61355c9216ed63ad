-- ===== src/Api/Router/Access.antt =====
-- pkg/api/router.go: the requests that reach the handlers of the routes.
use golang_rest_api_template.Middleware.Rbac.Guard.{require_role-IsGuard, require_role-passes}
use golang_rest_api_template.Base.{
  ◌<◌, ◌≡◌, refl, sym, subst, ◌≢◌, Bool, true, false, List, [], ◌∷◌, length, lit,
}
use golang_rest_api_template.Middleware.JwtAuth.Guard.{jwt_auth-IsGuard}
use golang_rest_api_template.Middleware.ApiKey.Guard.{api_key_auth-IsGuard, api_key_auth-passes}
use golang_rest_api_template.Middleware.JwtAuth.{with_claims}
use golang_rest_api_template.Http.Guard.{chain-guard}
use golang_rest_api_template.Middleware.JwtAuth.Verified.{Verified, jwt_auth-Verified}
use golang_rest_api_template.Middleware.Rbac.{require_role}
use mathlib.Core.Option.{some-injective}
use golang_rest_api_template.Http.{Context, Middleware, Handler, chain}
use golang_rest_api_template.Api.Router.{
  Endpoint, get_root, get_books, post_books, get_book, put_book, patch_book, delete_book,
  post_login, post_register, post_refresh, post_logout, get_admin_me, Wiring, guards, handler_of,
  serve, api_key, jwt,
}

-- The routes behind `JWTAuth`, and those behind `RequireRole`.
abbrev pub needs_login : Endpoint → Bool
needs_login post_books = true
needs_login put_book = true
needs_login patch_book = true
needs_login delete_book = true
needs_login post_logout = true
needs_login get_admin_me = true
needs_login get_root = false
needs_login get_books = false
needs_login get_book = false
needs_login post_login = false
needs_login post_register = false
needs_login post_refresh = false

abbrev pub needs_admin : Endpoint → Bool
needs_admin e = elim e [ get_admin_me ↦ true | _ ↦ false ]

module _ {W : Type 0} (app : Wiring W) where
  -- What a success on a route says of the request: the API key is the secret, and on a route behind
  -- a login there is a verified bearer token, of an administrator on the admin route.
  pub record Admitted (e : Endpoint) (c : Context) (w : W) : Type 0 where
    pub key : c.request.header (lit "X-API-Key") ≡ app.api_secret.get w
    pub login :
        needs_login e ≡ true
        → (v : Verified app.platform app.denylist c w) × (needs_admin e ≡ true
            → v.claims.role ≡ lit "admin")

  module _ (c : Context) (w : W)
      (short_key : length (c.request.header (lit "X-API-Key")) < 18446744073709551616)
      (short_secret : length (app.api_secret.get w) < 18446744073709551616) where
    -- A success behind the API key.
    behind_key :
        (ms : List (Middleware W)) (handler : Handler W)
        → (chain (api_key app ∷ ms) handler c w).0.status < 400
        → (c.request.header (lit "X-API-Key") ≡ app.api_secret.get w)
          × ((chain ms handler c w).0.status < 400)
    behind_key ms handler h =
        let (c', (e, rest)) =
          chain-guard (api_key app) ms handler c w (api_key_auth-IsGuard app.api_secret) h in
        let (same, (here, world)) =
          api_key_auth-passes app.api_secret c c' w short_key short_secret e in
        let back : c' ≡ c = sym here in
        (
          same,
          subst {A = Context × W} (λ x. (chain ms handler x.0 x.1).0.status < 400)
              (λ i. (back i, world i)) rest,
        )

    behind_login :
        (ms : List (Middleware W)) (handler : Handler W)
        → (chain (jwt app ∷ ms) handler c w).0.status < 400
        → (v : Verified app.platform app.denylist c w) × ((v' : W) × ((chain ms handler
                (with_claims c v.claims)
                v').0.status
              < 400))
    behind_login ms handler h =
        let (c', (e, rest)) =
          chain-guard (jwt app) ms handler c w (jwt_auth-IsGuard app.platform app.denylist) h in
        let (v, same) = jwt_auth-Verified app.platform app.denylist c c' w e in
        (
          v,
          (
            (jwt app c w).1,
            subst (λ x. (chain ms handler x (jwt app c w).1).0.status < 400) (sym same) rest,
          ),
        )

    with_key :
        (e : Endpoint)
        → needs_login e ≡ false
        → (chain (api_key app ∷ []) (handler_of app e) c w).0.status < 400
        → Admitted e c w
    with_key e open_route h =
        let (same, rest) = behind_key [] (handler_of app e) h in
        record { key = same; login = λ x. absurd (cc (open_route, x)) }

    with_login :
        (e : Endpoint)
        → needs_admin e ≡ false
        → (chain (api_key app ∷ jwt app ∷ []) (handler_of app e) c w).0.status < 400
        → Admitted e c w
    with_login e no_admin h =
        let (same, rest) = behind_key (jwt app ∷ []) (handler_of app e) h in
        let (v, passed) = behind_login [] (handler_of app e) rest in
        record { key = same; login = λ _. (v, λ x. absurd (cc (no_admin, x))) }

    as_admin :
        (handler : Handler W)
        → (chain
            (api_key app ∷ jwt app ∷ require_role (lit "admin" ∷ []) ∷ [])
            handler
            c
            w).0.status
          < 400
        → Admitted get_admin_me c w
    as_admin handler h =
        let role = require_role (lit "admin" ∷ []) in
        let (same, rest) = behind_key (jwt app ∷ role ∷ []) handler h in
        let (v, (w', passed)) = behind_login (role ∷ []) handler rest in
        let seen = with_claims c v.claims in
        let (c', (e, done)) =
          chain-guard role [] handler seen w' (require_role-IsGuard (lit "admin" ∷ [])) passed in
        let is_admin = require_role-passes (lit "admin") seen c' w' refl e in
        record {
          key = same;
          login = λ _. (v, λ _. some-injective v.claims.role (lit "admin") is_admin);
        }

    -- On every route of `/api/v1` but its health check, an answer with a status below 400 is given
    -- only to a request whose `X-API-Key` is the secret; on the routes behind a login, only to one
    -- with a verified bearer token; and on the admin route, only to a token whose role is admin.
    -- Conditions: both the header and the secret are shorter than 2^64 bytes.
    pub serve-Admitted :
        (e : Endpoint) → e ≢ get_root → (serve app e c w).0.status < 400 → Admitted e c w
    unfolding serve guards
    serve-Admitted get_root other h = absurd (other refl)
    serve-Admitted get_books other h = with_key get_books refl h
    serve-Admitted post_books other h = with_login post_books refl h
    serve-Admitted get_book other h = with_key get_book refl h
    serve-Admitted put_book other h = with_login put_book refl h
    serve-Admitted patch_book other h = with_login patch_book refl h
    serve-Admitted delete_book other h = with_login delete_book refl h
    serve-Admitted post_login other h = with_key post_login refl h
    serve-Admitted post_register other h = with_key post_register refl h
    serve-Admitted post_refresh other h = with_key post_refresh refl h
    serve-Admitted post_logout other h = with_login post_logout refl h
    serve-Admitted get_admin_me other h = as_admin (handler_of app get_admin_me) h
