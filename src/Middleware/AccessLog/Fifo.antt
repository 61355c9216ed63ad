-- ===== src/Middleware/AccessLog/Fifo.antt =====
-- pkg/middleware/logger.go: the queue under every interleaving of the handlers and the worker.
use golang_rest_api_template.Base.{
  ℕ, zero, suc, ◌+◌, ◌/◌, ◌%◌, ◌^◌, ◌≤◌, ◌<◌, ◌≡◌, refl, sym, ap, ◌∙◌, inl, inr, Bool, Option, none,
  some, List, [], ◌∷◌, ◌++◌, arith, ltb, ◌==◌, if◌then◌else◌, ltb→lt, Bool-cases, Option-cases,
  length, length-append,
}
use mathlib.Core.List.{append_assoc, append-nil}
use mathlib.Core.Option.{some-injective}
use native.Mathlib.Nat.{mod-eq_of_lt}
use golang_rest_api_template.Middleware.AccessLog.{
  MongoAccessLogQueue, send, receive, mongo_access_log_queue_size, drop_warning,
}

-- `arrived` to `warned` record what happened: how many documents were given to `enqueue`, those that
-- were accepted, those that the worker is done with, the number of drops, and the warnings.
pub record System (D : Type 0) : Type 0 where
  pub queue : MongoAccessLogQueue D
  pub busy : Option D
  pub arrived : ℕ
  pub accepted : List D
  pub finished : List D
  pub drops : ℕ
  pub warned : ℕ

abbrev pub start : {D : Type 0} → System D
start = record {
  queue = record { channel = []; dropped = 0 };
  busy = none;
  arrived = 0;
  accepted = [];
  finished = [];
  drops = 0;
  warned = 0;
}

abbrev pub one_if : {A : Type 0} → Option A → ℕ
one_if none = 0
one_if (some a) = 1

-- How many warnings `n` drops have.
abbrev pub warnings_due : ℕ → ℕ
warnings_due n = if n == 0 then 0 else 1 + n / 100

throttle :
    (dropped drops warned : ℕ)
    → dropped ≡ drops % 2 ^ 64
    → drops + 1 < 2 ^ 64
    → warned ≡ warnings_due drops
    → warned + one_if (drop_warning ((dropped + 1) % 2 ^ 64)) ≡ warnings_due (drops + 1)
throttle dropped drops warned c h e =
    rw
      (
        c,
        mod-eq_of_lt {n = drops} {m = 2 ^ 64} (omega arith),
        mod-eq_of_lt {n = drops + 1} {m = 2 ^ 64} h,
      )
      (ground arith)

module _ {D : Type 0} where
  abbrev pub room : MongoAccessLogQueue D → Bool
  room q = ltb (length q.channel) mongo_access_log_queue_size

  -- A handler calls `enqueue`.
  unfoldable pub offered : D → System D → System D
  unfolding send
  offered doc s =
      let (q, warning) = send s.queue doc in
      let t = record s { queue = q; arrived = s.arrived + 1; warned = s.warned + one_if warning } in
      if room s.queue
      then record t { accepted = s.accepted ++ doc ∷ [] }
      else record t { drops = s.drops + 1 }

  -- The worker receives when it is not busy, and comes back from `InsertOne`, whatever its answer.
  pub data Step (s : System D) : System D → Type 0 where
    offers : (doc : D) → Step s (offered doc s)
    takes :
        {doc : D} {q : MongoAccessLogQueue D}
        → s.busy ≡ none
        → receive s.queue ≡ some (doc, q)
        → Step s (record s { queue = q; busy = some doc })
    finishes :
        {doc : D}
        → s.busy ≡ some doc
        → Step s (record s { busy = none; finished = s.finished ++ doc ∷ [] })

  pub data Reach : System D → Type 0 where
    here : Reach start
    step : {s t : System D} → Reach s → Step s t → Reach t

  abbrev pub held : Option D → List D
  held none = []
  held (some doc) = doc ∷ []

  pub record IsFifo (s : System D) : Type 0 where
    pub bounded : length s.queue.channel ≤ 256
    pub in_order : s.accepted ≡ s.finished ++ (held s.busy ++ s.queue.channel)
    pub accounted : length s.accepted + s.drops ≡ s.arrived
    pub counter : s.queue.dropped ≡ s.drops % 2 ^ 64
    pub throttled : s.drops < 2 ^ 64 → s.warned ≡ warnings_due s.drops

  add_last :
      (doc : D) (xs ys zs ws : List D)
      → ws ≡ xs ++ (ys ++ zs)
      → ws ++ doc ∷ [] ≡ xs ++ (ys ++ (zs ++ doc ∷ []))
  add_last doc xs ys zs ws e =
      rw e
        (append_assoc xs (ys ++ zs) (doc ∷ []) ∙ ap (λ l. xs ++ l) (append_assoc ys zs (doc ∷ [])))

  move_held : (doc : D) (xs zs : List D) → xs ++ (doc ∷ zs) ≡ (xs ++ doc ∷ []) ++ zs
  move_held doc xs zs = sym (append_assoc xs (doc ∷ []) zs)

  offered-IsFifo : (doc : D) (s : System D) → IsFifo s → IsFifo (offered doc s)
  unfolding offered send
  offered-IsFifo doc s i = elim (Bool-cases (room s.queue)) [
    | inl free ↦ rw free (record {
      bounded = omega (
        arith,
        length-append s.queue.channel (doc ∷ []),
        ltb→lt (length s.queue.channel) 256 free,
      );
      in_order = add_last doc s.finished (held s.busy) s.queue.channel s.accepted i.in_order;
      accounted = omega (arith, length-append s.accepted (doc ∷ []), i.accounted);
      counter = i.counter;
      throttled = λ h. omega (arith, i.throttled h);
    })
    | inr full ↦ rw full (record {
      bounded = i.bounded;
      in_order = i.in_order;
      accounted = omega (arith, i.accounted);
      counter = omega (arith, i.counter);
      throttled =
          λ h. throttle s.queue.dropped s.drops s.warned i.counter h (i.throttled (omega arith));
    })
  ]

  received :
      (docs : List D) (n : ℕ) {doc : D} {q : MongoAccessLogQueue D}
      → receive (record { channel = docs; dropped = n }) ≡ some (doc, q)
      → (docs ≡ doc ∷ q.channel) × (q.dropped ≡ n)
  unfolding receive
  received [] n e = cc
  received (x ∷ rest) n e =
      let same = some-injective _ _ e in
      (ap (λ p. p.0 ∷ p.1.channel) same, ap (λ p. p.1.dropped) (sym same))

  Step-IsFifo : {s t : System D} → Step s t → IsFifo s → IsFifo t
  unfolding receive
  Step-IsFifo {s} (offers doc) i = offered-IsFifo doc s i
  Step-IsFifo {s} (takes {doc} {q} idle e) i =
      let (head, count) = received s.queue.channel s.queue.dropped e in
      record {
        bounded = let fewer = ap length head in let bound = i.bounded in omega arith;
        in_order = i.in_order ∙ rw (idle, head) refl;
        accounted = i.accounted;
        counter = rw count i.counter;
        throttled = i.throttled;
      }
  Step-IsFifo {s} (finishes {doc} e) i = record {
    bounded = i.bounded;
    in_order = i.in_order ∙ rw e (move_held doc s.finished s.queue.channel);
    accounted = i.accounted;
    counter = i.counter;
    throttled = i.throttled;
  }

  start-IsFifo : IsFifo (start {D = D})
  start-IsFifo = record {
    bounded = omega arith;
    in_order = refl;
    accounted = refl;
    counter = refl;
    throttled = λ h. refl;
  }

  -- In every state that offers of documents by handlers and moves of the worker reach, in any
  -- interleaving, the queue holds at most 256 documents; the documents that were accepted are, in
  -- their order, those the worker is done with, the one it holds and those that wait; the accepted
  -- ones and the drops make up all that arrived; the counter of drops is exact up to its 64 bits;
  -- and below 2^64 drops the warnings are one for the first drop and one for each hundredth.
  pub Reach-IsFifo : {s : System D} → Reach s → IsFifo s
  Reach-IsFifo here = start-IsFifo
  Reach-IsFifo (step r st) = Step-IsFifo st (Reach-IsFifo r)

  abbrev take_next : System D → Option (D × MongoAccessLogQueue D) → System D
  take_next s none = s
  take_next s (some (doc, q)) = record s { queue = q; busy = some doc }

  -- What the worker does next by itself.
  unfoldable pub turn : System D → System D
  unfolding receive
  turn s = elim s.busy [
    | none ↦ take_next s (receive s.queue)
    | some doc ↦ record s { busy = none; finished = s.finished ++ doc ∷ [] }
  ]

  unfoldable pub turns : ℕ → System D → System D
  turns zero s = s
  turns (suc n) s = turns n (turn s)

  turn_idle : (s : System D) → s.busy ≡ none → s.queue.channel ≡ [] → turn s ≡ s
  unfolding turn
  turn_idle s idle e = rw (idle, e) refl

  turn_taken :
      (doc : D) (docs : List D) (s : System D)
      → s.busy ≡ none
      → s.queue.channel ≡ doc ∷ docs
      → turn (turn s) ≡ record s {
        queue = record s.queue { channel = docs };
        busy = none;
        finished = s.finished ++ doc ∷ [];
      }
  unfolding turn
  turn_taken doc docs s idle e = rw (idle, e) refl

  turns_idle :
      (docs : List D) (k : ℕ) (s : System D)
      → s.busy ≡ none
      → s.queue.channel ≡ docs
      → length docs + length docs ≤ k
      → (turns k s).finished ≡ s.finished ++ docs
  unfolding turns
  turns_idle [] zero s idle e h = sym (append-nil s.finished)
  turns_idle [] (suc k) s idle e h =
      ap (λ t. (turns k t).finished) (turn_idle s idle e) ∙ turns_idle [] k s idle e (omega arith)
  turns_idle (doc ∷ docs) (suc (suc k)) s idle e h =
      ap (λ t. (turns k t).finished) (turn_taken doc docs s idle e)
      ∙ turns_idle docs k _ refl refl (omega arith)
      ∙ sym (move_held doc s.finished docs)
  turns_idle (doc ∷ docs) (suc zero) s idle e h = absurd (omega arith)
  turns_idle (doc ∷ docs) zero s idle e h = absurd (omega arith)

  turn_busy :
      (doc : D) (s : System D)
      → s.busy ≡ some doc
      → turn s ≡ record s { busy = none; finished = s.finished ++ doc ∷ [] }
  unfolding turn
  turn_busy doc s e = rw e refl

  -- From every state that is reached, 513 or more turns of the worker by itself finish every
  -- document that was accepted, in the order of acceptance.
  pub worker_finishes :
      {s : System D} (k : ℕ) → Reach s → 513 ≤ k → (turns k s).finished ≡ s.accepted
  unfolding turns
  worker_finishes {s} zero r h = absurd (omega arith)
  worker_finishes {s} (suc k) r h =
      let i = Reach-IsFifo r in
      let few = i.bounded in
      elim (Option-cases s.busy) [
        | inl idle ↦
            turns_idle s.queue.channel (suc k) s idle refl (omega arith)
            ∙ sym (i.in_order ∙ rw idle refl)
        | inr (doc, e) ↦
            ap (λ t. (turns k t).finished) (turn_busy doc s e)
            ∙ turns_idle s.queue.channel k _ refl refl (omega arith)
            ∙ sym (i.in_order ∙ rw e (move_held doc s.finished s.queue.channel))
      ]
