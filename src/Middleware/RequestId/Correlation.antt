-- ===== src/Middleware/RequestId/Correlation.antt =====
-- pkg/middleware/request_id.go with tracing.go and logger.go: one id in the response, the span and
-- the access log; and the shape of an id that is made.
use golang_rest_api_template.Base.{
  ℕ, ◌+◌, ◌/◌, ◌%◌, ◌≤◌, ◌<◌, ◌≡◌, refl, ap, ◌⊎◌, inl, inr, Bool, true, false, ◌&&◌, some, List, [],
  ◌∷◌, ◌++◌, arith, ◌==◌, Bool-cases, length, any, Bytes, lit, ◌=s◌, =s_refl, is_empty, trim_space,
  hex_encode, hex_digit, get_elem?,
}
use golang_rest_api_template.Platform.{Platform}
use golang_rest_api_template.Http.{Context, next, Response}
use golang_rest_api_template.Middleware.Spans.{Tracer, span_of, given, first_attributes}
use golang_rest_api_template.Middleware.AccessLog.{Observers, log_entry}
use golang_rest_api_template.Middleware.RequestId.{
  request_id, with_request_id, or_unknown, uuid_text, get_request_id, new_request_id,
}

abbrev pub holds : (key value : Bytes) → List (Bytes × Bytes) → Bool
holds key value = any (λ a. a.0 =s key && a.1 =s value)

or_unknown-filled : (s : Bytes) → is_empty (or_unknown s) ≡ false
or_unknown-filled [] = refl
or_unknown-filled (b ∷ s) = refl

holds-append :
    (key value : Bytes) (xs ys : List (Bytes × Bytes))
    → holds key value ys ≡ true
    → holds key value (xs ++ ys) ≡ true
holds-append key value [] ys h = h
holds-append key value (a ∷ xs) ys h = elim (Bool-cases (a.0 =s key && a.1 =s value)) [
  | inl e ↦ rw e refl
  | inr e ↦ rw e (holds-append key value xs ys h)
]

holds-given :
    (key value : Bytes) (ys : List (Bytes × Bytes))
    → is_empty value ≡ false
    → holds key value (given key value ++ ys) ≡ true
holds-given key value ys h = rw h (rw (=s_refl key, =s_refl value) refl)

-- The same text is the id of a context: in the header of the response, in the log and in the span.
pub record IsIdOf {W : Type 0} (t : Tracer W) (o : Observers W) (id : Bytes) (c : Context)
    : Type 0 where
  pub filled : is_empty id ≡ false
  pub in_response : holds (lit "X-Request-Id") id c.headers ≡ true
  pub in_log : (r : Response) (duration : ℕ) → (log_entry o c r duration).request_id ≡ id
  pub in_span : holds (lit "http.request_id") id (span_of t c).attributes ≡ true

with_request_id-IsIdOf :
    {W : Type 0} (t : Tracer W) (o : Observers W) (id : Bytes) (c : Context)
    → is_empty id ≡ false
    → IsIdOf t o id (with_request_id c id)
unfolding span_of get_request_id log_entry
with_request_id-IsIdOf t o id c h = record {
  filled = h;
  in_response = holds-append (lit "X-Request-Id") id c.headers _ (rw (=s_refl id) refl);
  in_log = λ r d. refl;
  in_span =
      let c' = with_request_id c id in
      let route = given (lit "http.route") (t.full_path c') in
      holds-append (lit "http.request_id") id (first_attributes t c')
        (given (lit "http.request_id") id ++ route)
        (holds-given (lit "http.request_id") id route h);
}

module _ {W : Type 0} (p : Platform W) (t : Tracer W) (o : Observers W) where
  -- `RequestID` passes every request on with an id that is not empty, and the same id stands in
  -- the header of the response, in the access-log entry of the request and in the attributes of
  -- its span.
  pub request_id-IsIdOf :
      (c : Context) (w : W)
      → (id : Bytes) × (c' : Context) × ((request_id p c w).0 ≡ next c') × IsIdOf t o id c'
  unfolding request_id
  request_id-IsIdOf c w =
      let given_id = trim_space (c.request.header (lit "X-Request-Id")) in
      let made_id = (new_request_id p w).0 in
      elim (Bool-cases (is_empty given_id)) [
        | inl e ↦ (
          or_unknown made_id,
          with_request_id c (or_unknown made_id),
          rw e refl,
          with_request_id-IsIdOf t o _ c (or_unknown-filled made_id),
        )
        | inr e ↦ (
          or_unknown given_id,
          with_request_id c (or_unknown given_id),
          rw e refl,
          with_request_id-IsIdOf t o _ c (or_unknown-filled given_id),
        )
      ]

-- The text of a UUID of version 4 and the usual variant.
pub record IsUuid4 (s : Bytes) : Type 0 where
  pub long : length s ≡ 36
  pub hyphens :
      (get_elem? s 8 ≡ some 45)
      × (get_elem? s 13 ≡ some 45)
      × (get_elem? s 18 ≡ some 45)
      × (get_elem? s 23 ≡ some 45)
  pub version : get_elem? s 14 ≡ some 52
  pub variant : (b : ℕ) × (get_elem? s 19 ≡ some b) × (any (λ c. c == b) (lit "89ab") ≡ true)

variant_of : (n : ℕ) → 8 ≤ n → n < 12 → any (λ c. c == hex_digit n) (lit "89ab") ≡ true
variant_of n h k = elim (by_four n h k) [
  | inl e ↦ rw e refl
  | inr (inl e) ↦ rw e refl
  | inr (inr (inl e)) ↦ rw e refl
  | inr (inr (inr e)) ↦ rw e refl
]
  where
    by_four : (n : ℕ) → 8 ≤ n → n < 12 → (n ≡ 8) ⊎ ((n ≡ 9) ⊎ ((n ≡ 10) ⊎ (n ≡ 11)))
    by_four n h k = ground arith

variant_digit : (b : ℕ) → any (λ c. c == hex_digit ((b % 64 + 128) / 16)) (lit "89ab") ≡ true
variant_digit b =
    let small : (b % 64 + 128) / 16 < 12 = omega arith in
    let large : 8 ≤ (b % 64 + 128) / 16 = omega arith in
    variant_of ((b % 64 + 128) / 16) large small

version_digit : (b : ℕ) → hex_digit ((b % 16 + 64) / 16) ≡ 52
version_digit b = let four : (b % 16 + 64) / 16 ≡ 4 = omega arith in rw four refl

-- The text that `newRequestID` makes of 16 bytes has 36 characters, with hyphens at the four
-- places of a UUID, the version 4, and a variant digit that is 8, 9, a or b.
pub uuid_text-IsUuid4 :
    (b0 b1 b2 b3 b4 b5 b6 b7 b8 b9 b10 b11 b12 b13 b14 b15 : ℕ)
    → IsUuid4 (
        uuid_text (
          b0 ∷ b1 ∷ b2 ∷ b3 ∷ b4 ∷ b5 ∷ b6 ∷ b7 ∷ b8 ∷ b9 ∷ b10 ∷ b11 ∷ b12 ∷ b13 ∷ b14 ∷ b15 ∷ []))
unfolding uuid_text hex_encode
uuid_text-IsUuid4 b0 b1 b2 b3 b4 b5 b6 b7 b8 b9 b10 b11 b12 b13 b14 b15 = record {
  long = refl;
  hyphens = (refl, refl, refl, refl);
  version = ap some (version_digit b6);
  variant = (_, refl, variant_digit b8);
}
