-- ===== src/Service/Users/SingleUse.antt =====
-- pkg/service/user_service.go: `Refresh` of one token, again and again.
use golang_rest_api_template.Repository.Books.{to_int64}
use golang_rest_api_template.Repository.RefreshTokens.Rotation.{Rotated-Evolves, Rotated-IsSpent}
use golang_rest_api_template.Auth.Tokens.{hash_refresh_token}
use golang_rest_api_template.Service.Users.{TokenPair}
use golang_rest_api_template.Service.Users.Rotation.{Succession, refresh_sql, refresh_ok}
use golang_rest_api_template.Repository.Tables.Tokens.{
  IsNumbered, Evolves, Evolves-trans, active_with_id,
}
use golang_rest_api_template.Repository.RefreshTokens.History.{
  StoreCall, after_calls, after_calls-Evolves,
}
use golang_rest_api_template.Repository.Tables.{Tables, count_where}
use golang_rest_api_template.Auth.Denylist.{TokenDenylist}
use golang_rest_api_template.Service.Users.Frame.{Frame}
use mathlib.Core.Option.{some-injective}
use golang_rest_api_template.Base.{◌≡◌, sym, ◌∙◌, ap, Bytes, List, arith, subst, false}
use golang_rest_api_template.Result.{ok, is_ok, never_ok}
use golang_rest_api_template.Platform.{Platform}
use golang_rest_api_template.Repository.Driver.{Driver, DriverLaws}

module _ {W : Type 0} (p : Platform W) (d : Driver W) (laws : DriverLaws d) (frame : Frame p d)
    (denylist : TokenDenylist W) where
  -- The table after a success, and any table that evolves from it, admits no second one.
  no_second :
      (plaintext : Bytes) (pair pair' : TokenPair) (t t' u u' : Tables)
      → IsNumbered t
      → Succession p d laws frame denylist plaintext pair t t'
      → Evolves t' u
      → Succession p d laws frame denylist plaintext pair' u u'
      → ⊥
  no_second plaintext pair pair' t t' u u' numbered first evolves second =
      let h = hash_refresh_token p plaintext in
      let start = Rotated-Evolves first.row.id first.now _ t t' first.rotated in
      let (r, found, aged) = (Evolves-trans start evolves).ages h first.row first.found in
      let spent =
        evolves.spent _ (Rotated-IsSpent first.row.id first.now _ t t' numbered first.rotated) in
      let same : second.row ≡ r = some-injective second.row r (sym second.found ∙ found) in
      let id : second.row.id ≡ first.row.id = ap (λ x. x.id) same ∙ aged.same_id in
      let zero = spent.none_active in
      let one =
        subst (λ i. count_where (active_with_id (to_int64 i)) u.tokens.rows ≡ 1) id
          second.rotated.was_active in
      omega arith

  -- After a `Refresh` that succeeded, with any calls of the refresh-token store following from any
  -- number of other requests, `Refresh` of the same token fails in every world with the tables
  -- that these calls leave. Conditions: the ids of the tokens are below the sequence at the start;
  -- the driver keeps its laws, whichever of its calls it fails; the clock, the random source and
  -- bcrypt do not write to the database.
  pub refresh_single_use :
      (plaintext : Bytes) (pair : TokenPair) (cs : List StoreCall) (w w' : W)
      → IsNumbered (d.tables w)
      → (refresh_sql p d laws frame denylist plaintext w).0 ≡ ok pair
      → d.tables w'
        ≡ d.tables (after_calls d cs (refresh_sql p d laws frame denylist plaintext w).1)
      → is_ok (refresh_sql p d laws frame denylist plaintext w').0 ≡ false
  refresh_single_use plaintext pair cs w w' numbered first later =
      never_ok (refresh_sql p d laws frame denylist plaintext w').0 λ pair' second.
        no_second plaintext pair pair' _ _ _ _ numbered
          (refresh_ok p d laws frame denylist plaintext w pair first)
          (subst (Evolves _) (sym later) (after_calls-Evolves d laws cs _))
          (refresh_ok p d laws frame denylist plaintext w' pair' second)
