-- ===== src/Consumer/Once.antt =====
-- examples/kafka-consumer/main.go: what the loop works on, over every sequence of deliveries.
use golang_rest_api_template.Errors.{Cause}
use golang_rest_api_template.Base.{
  ℕ, ◌+◌, ◌≡◌, refl, sym, ap, ◌∙◌, subst, All, All-append, inl, inr, Bool, true, false, Option,
  none, some, List, [], ◌∷◌, ◌++◌, arith, if◌then◌else◌, Bool-cases, any, Bytes, ◌=s◌, =s_sound,
  =s_refl,
}
use golang_rest_api_template.Result.{Result, err, ok, ok-injective}
use golang_rest_api_template.Result.{ok}
use golang_rest_api_template.Service.Events.{Event, BookPayloadV1, type_text}
use mathlib.Core.Option.{some-injective}
use mathlib.Core.List.{append_assoc, append-nil}
use golang_rest_api_template.Kafka.{
  Envelope, Broker, build_message, Producer, Message, message_of, envelope_of,
}
use golang_rest_api_template.Consumer.{
  Progress, Fetched, fetched, fetch_error, context_done, handle_envelope, consume, handle, fresh,
  commit,
}

abbrev pub times : {D : Type 0} → Bytes → List (Envelope D) → ℕ
times id [] = 0
times id (env ∷ envs) = (if env.id =s id then 1 else 0) + times id envs

-- The values that are fetched before the context is done.
abbrev pub delivered : List Fetched → List Bytes
delivered [] = []
delivered (fetched value ∷ rest) = value ∷ delivered rest
delivered (fetch_error ∷ rest) = delivered rest
delivered (context_done ∷ rest) = []

module _ {D : Type 0} (unmarshal : Bytes → Option (Envelope D)) where
  abbrev pub has_id : Bytes → Option (Envelope D) → Bool
  has_id id none = false
  has_id id (some env) = env.id =s id

  -- Whether some value that was delivered is an envelope with that id.
  abbrev pub carries : Bytes → List Bytes → Bool
  carries id = any (λ value. has_id id (unmarshal value))

  abbrev due : Bool → Bool → ℕ
  due known comes = if known then 0 else if comes then 1 else 0

  abbrev knows : Bytes → Progress D → Bool
  knows id s = any (λ i. i =s id) s.seen

  times-append :
      (id : Bytes) (envs : List (Envelope D)) (env : Envelope D)
      → times id (envs ++ env ∷ []) ≡ times id envs + (if env.id =s id then 1 else 0)
  times-append id [] env = omega arith
  times-append id (x ∷ envs) env = omega (arith, times-append id envs env)

  -- One message that is handled.
  handled :
      (id : Bytes) (o : Option (Envelope D)) (s : Progress D) (comes : Bool)
      → let t = handle_envelope unmarshal o s in
        times id t.worked + due (knows id t) comes
        ≡ times id s.worked + due (knows id s) (if has_id id o then true else comes)
  handled id none s comes = refl
  handled id (some env) s comes = elim (Bool-cases (knows env.id s)) [
    | inl dup ↦ rw dup (elim (Bool-cases (env.id =s id)) [
      | inl same ↦ let e = =s_sound env.id id same in rw (same, ← e, dup) refl
      | inr other ↦ rw other refl
    ])
    | inr new ↦
        rw (new, times-append id s.worked env)
          (elim (Bool-cases (env.id =s id)) [
            | inl same ↦ let e = =s_sound env.id id same in rw (same, ← e, new) (omega arith)
            | inr other ↦ rw other (omega arith)
          ])
  ]

  none_due :
      (id : Bytes) (s : Progress D) → times id s.worked ≡ times id s.worked + due (knows id s) false
  none_due id s = elim (Bool-cases (knows id s)) [
    | inl h ↦ rw h (omega arith)
    | inr h ↦ rw h (omega arith)
  ]

  handle-committed :
      (o : Option (Envelope D)) (s : Progress D)
      → (handle_envelope unmarshal o s).committed ≡ s.committed
  handle-committed none s = refl
  handle-committed (some env) s = elim (Bool-cases (knows env.id s)) [
    | inl h ↦ rw h refl
    | inr h ↦ rw h refl
  ]

  consume-times :
      (id : Bytes) (fs : List Fetched) (s : Progress D)
      → times id (consume unmarshal fs s).worked
        ≡ times id s.worked + due (knows id s) (carries id (delivered fs))
  unfolding consume handle
  consume-times id [] s = none_due id s
  consume-times id (fetched value ∷ rest) s =
      consume-times id rest (commit unmarshal value (handle unmarshal value s))
      ∙ handled id (unmarshal value) s (carries id (delivered rest))
  consume-times id (fetch_error ∷ rest) s = consume-times id rest s
  consume-times id (context_done ∷ rest) s = none_due id s

  consume-committed :
      (fs : List Fetched) (s : Progress D)
      → (consume unmarshal fs s).committed ≡ s.committed ++ delivered fs
  unfolding consume handle
  consume-committed [] s = sym (append-nil s.committed)
  consume-committed (fetched value ∷ rest) s =
      consume-committed rest (commit unmarshal value (handle unmarshal value s))
      ∙ ap (λ l. (l ++ value ∷ []) ++ delivered rest) (handle-committed (unmarshal value) s)
      ∙ append_assoc s.committed (value ∷ []) (delivered rest)
  consume-committed (fetch_error ∷ rest) s = consume-committed rest s
  consume-committed (context_done ∷ rest) s = sym (append-nil s.committed)

  -- The example consumer works on an envelope with an id once if some value that was fetched
  -- before the context is done decodes to an envelope with that id, and else never; and it asks to
  -- commit exactly the values that were fetched, in their order.
  pub consume_once :
      (fs : List Fetched)
      → ((id : Bytes)
          → times id (consume unmarshal fs fresh).worked
            ≡ (if carries id (delivered fs) then 1 else 0))
        × ((consume unmarshal fs fresh).committed ≡ delivered fs)
  consume_once fs = (λ id. omega (arith, consume-times id fs fresh), consume-committed fs fresh)

-- What every envelope that is worked on has, where each of those that are delivered has it.
module _ {D : Type 0} (unmarshal : Bytes → Option (Envelope D)) (P : Envelope D → Type 0) where
  abbrev Carried : Bytes → Type 0
  Carried value = (env : Envelope D) → unmarshal value ≡ some env → P env

  handled-All :
      (o : Option (Envelope D)) (s : Progress D)
      → ((env : Envelope D) → o ≡ some env → P env)
      → All P s.worked
      → All P (handle_envelope unmarshal o s).worked
  handled-All none s h k = k
  handled-All (some env) s h k = elim (Bool-cases (any (λ id. id =s env.id) s.seen)) [
    | inl dup ↦ rw dup k
    | inr new ↦ rw new (All-append P s.worked (env ∷ []) k (h env refl, tt))
  ]

  consume-All :
      (fs : List Fetched) (s : Progress D)
      → All Carried (delivered fs)
      → All P s.worked
      → All P (consume unmarshal fs s).worked
  unfolding consume handle
  consume-All [] s h k = k
  consume-All (fetched value ∷ rest) s (here, h) k =
      consume-All rest (commit unmarshal value (handle unmarshal value s)) h
        (handled-All (unmarshal value) s here k)
  consume-All (fetch_error ∷ rest) s h k = consume-All rest s h k
  consume-All (context_done ∷ rest) s h k = k

-- The envelope says what the event was, and who sent it.
pub record Tells {D : Type 0} (p : Producer) (e : Event) (id : Bytes) (env : Envelope D)
    : Type 0 where
  pub same_id : env.id ≡ id
  pub same_type : env.type ≡ type_text e.type
  pub same_source : env.source ≡ p.source
  pub same_time : env.occurred_at ≡ e.occurred_at

-- Decoding reads back the metadata of an envelope that was encoded.
abbrev pub ReadsHeader :
    {D : Type 0}
    → (Envelope BookPayloadV1 → Result Cause Bytes)
    → (Bytes → Option (Envelope D))
    → Type 0
ReadsHeader {D} marshal unmarshal =
    (sent : Envelope BookPayloadV1) (value : Bytes)
    → marshal sent ≡ ok value
    → (env : Envelope D) × ((unmarshal value ≡ some env)
        × ((env.id ≡ sent.id)
            × ((env.type ≡ sent.type)
                × ((env.source ≡ sent.source) × (env.occurred_at ≡ sent.occurred_at)))))

module _ {W D : Type 0} (b : Broker W) (unmarshal : Bytes → Option (Envelope D)) where
  carries_of_delivered :
      (id value : Bytes) (env : Envelope D) (values : List Bytes)
      → unmarshal value ≡ some env
      → env.id ≡ id
      → any (λ v. v =s value) values ≡ true
      → carries unmarshal id values ≡ true
  carries_of_delivered id value env [] u e h = cc
  carries_of_delivered id value env (v ∷ values) u e h = elim (Bool-cases (v =s value)) [
    | inl same ↦ let p = =s_sound v value same in rw (p, u, e, =s_refl id) refl
    | inr other ↦ elim (Bool-cases (has_id unmarshal id (unmarshal v))) [
      | inl hit ↦ rw hit refl
      | inr miss ↦ rw miss (carries_of_delivered id value env values u e (rw other at h))
    ]
  ]

  -- Each value with the id of the event is that of the event.
  only_event :
      (p : Producer) (e : Event) (id value : Bytes) (env : Envelope D) (values : List Bytes)
      → unmarshal value ≡ some env
      → Tells p e id env
      → All (λ v. (x : Envelope D) → unmarshal v ≡ some x → x.id ≡ id → v ≡ value) values
      → All (Carried unmarshal (λ x. x.id ≡ id → Tells p e id x)) values
  only_event p e id value env [] u tells h = tt
  only_event p e id value env (v ∷ values) u tells (one, h) = (
    λ x read same.
        (let at = some-injective _ _ (sym u ∙ ap unmarshal (sym (one x read same)) ∙ read) in
          subst (Tells p e id) at tells),
    only_event p e id value env values u tells h,
  )

  -- An event whose message was built, and whose value is fetched at least once before the context
  -- is done, is worked on exactly once by the example consumer, in whatever order and however
  -- often this and other values are delivered; and what is worked on under its id has the type and
  -- the time of the event and the name of the sender. Conditions: decoding reads back the metadata
  -- of an envelope, whatever it makes of the data; and no other value that is delivered decodes to
  -- an envelope with the id of the event, a fresh UUID.
  pub publish_work_once :
      (p : Producer) (e : Event) (w : W) (msg : Message) (fs : List Fetched)
      → ReadsHeader b.marshal unmarshal
      → (build_message b p e w).0 ≡ ok msg
      → any (λ v. v =s msg.value) (delivered fs) ≡ true
      → All
          (λ v. (x : Envelope D) → unmarshal v ≡ some x → x.id ≡ (b.new_uuid w).0 → v ≡ msg.value)
          (delivered fs)
      → (times (b.new_uuid w).0 (consume unmarshal fs fresh).worked ≡ 1)
        × All
            (λ x. x.id ≡ (b.new_uuid w).0 → Tells p e (b.new_uuid w).0 x)
            (consume unmarshal fs fresh).worked
  unfolding build_message
  publish_work_once p e w msg fs reads built arrives unique =
      let id = (b.new_uuid w).0 in
      let got = built_ok id (b.marshal (envelope_of b p id e)) built in
      let (env, (read, (i, (t, (s, at))))) = reads _ msg.value got in
      let tells : Tells p e id env = record {
        same_id = i;
        same_type = t;
        same_source = s;
        same_time = at;
      } in
      (
        (consume_once unmarshal fs).0 id
            ∙ rw (carries_of_delivered id msg.value env (delivered fs) read i arrives) refl,
        consume-All unmarshal (λ x. x.id ≡ id → Tells p e id x) fs fresh
            (only_event p e id msg.value env (delivered fs) read tells unique) tt,
      )
    where
      built_ok :
          (id : Bytes) (r : Result Cause Bytes) → message_of b p e r ≡ ok msg → r ≡ ok msg.value
      built_ok id (err c) h = cc
      built_ok id (ok value) h = ap (λ m. ok m.value) (ok-injective h)
