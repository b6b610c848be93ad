-- ===== src/Platform/Rabbitmq/Kept.antt =====
-- internal/platform/messaging/rabbitmq/subscriber.go: what becomes of the messages of a queue.
use golang_microservices_eco.Prelude.{
  ◌≡◌, refl, sym, subst, ◌⊎◌, inl, inr, Bool, true, false, Option, none, some, List, [], ◌∷◌, ◌++◌,
}
use golang_microservices_eco.Platform.Messaging.{Envelope}
use golang_microservices_eco.Platform.Rabbitmq.{
  Message, Formats, envelope_from, Outcome, handled, rejected, failed, Confirmation, confirmed,
  lost, refused, Verdict, Settlement, ack, requeue, discard, settle, set_aside, handle, handle_read,
  Broker, left, after, receive_from, receive,
}

abbrev pub IsAmong : {A : Type 0} → A → List A → Type 0
IsAmong x [] = ⊥
IsAmong x (y ∷ ys) = (x ≡ y) ⊎ IsAmong x ys

module _ {A : Type 0} where
  IsAmong-left : (x : A) (xs ys : List A) → IsAmong x xs → IsAmong x (xs ++ ys)
  IsAmong-left x [] ys h = elim h [ ]
  IsAmong-left x (y ∷ xs) ys (inl e) = inl e
  IsAmong-left x (y ∷ xs) ys (inr h) = inr (IsAmong-left x xs ys h)

  IsAmong-right : (x : A) (xs ys : List A) → IsAmong x ys → IsAmong x (xs ++ ys)
  IsAmong-right x [] ys h = h
  IsAmong-right x (y ∷ xs) ys h = inr (IsAmong-right x xs ys h)

module _ {State : Type 0} (formats : Formats) (deliver : Envelope → State → Outcome × State) where
  -- Where a message can be: in the queue, in the error queue, discarded as unreadable, or handled.
  pub data IsKept (m : Message) (b : Broker State) : Type 0 where
    queued : IsAmong m b.queue → IsKept m b
    aside : IsAmong m b.error_queue → IsKept m b
    unreadable : IsAmong m b.discarded → envelope_from formats m ≡ none → IsKept m b
    done : (e : Envelope) → envelope_from formats m ≡ some e → IsAmong e b.done → IsKept m b

  -- A message behind the one that is settled stays in the queue.
  left-IsAmong :
      (settlement_lost : Bool) (settlement : Settlement) (m delivery : Message)
      (queue : List Message)
      → IsAmong m queue
      → IsAmong m (left settlement_lost settlement delivery queue)
  left-IsAmong true settlement m delivery queue h = inr h
  left-IsAmong false ack m delivery queue h = h
  left-IsAmong false requeue m delivery queue h = inr h
  left-IsAmong false discard m delivery queue h = h

  requeued :
      (settlement_lost : Bool) (delivery : Message) (queue : List Message)
      → IsAmong delivery (left settlement_lost requeue delivery queue)
  requeued true delivery queue = inl refl
  requeued false delivery queue = inl refl

  -- The message that is settled.
  settle-IsKept :
      (settlement_lost : Bool) (confirmation : Confirmation) (delivery : Message)
      (queue : List Message) (b : Broker State) (e : Envelope) (outcome : Outcome) (s : State)
      → envelope_from formats delivery ≡ some e
      → IsKept delivery (
          after formats deliver settlement_lost delivery queue b
            (settle confirmation delivery e outcome, s))
  unfolding settle set_aside
  settle-IsKept settlement_lost confirmation delivery queue b e handled s read =
      done e read (IsAmong-right e b.done (e ∷ []) (inl refl))
  settle-IsKept settlement_lost confirmed delivery queue b e rejected s read =
      aside (IsAmong-right delivery b.error_queue (delivery ∷ []) (inl refl))
  settle-IsKept settlement_lost lost delivery queue b e rejected s read =
      aside (IsAmong-right delivery b.error_queue (delivery ∷ []) (inl refl))
  settle-IsKept settlement_lost refused delivery queue b e rejected s read =
      queued (requeued settlement_lost delivery queue)
  settle-IsKept settlement_lost confirmation delivery queue b e failed s read =
      queued (requeued settlement_lost delivery queue)

  handle-IsKept :
      (settlement_lost : Bool) (confirmation : Confirmation) (delivery : Message)
      (queue : List Message) (b : Broker State) (read : Option Envelope)
      → envelope_from formats delivery ≡ read
      → IsKept delivery (
          after formats deliver settlement_lost delivery queue b
            (handle_read formats deliver confirmation delivery read b.state))
  unfolding handle_read
  handle-IsKept true confirmation delivery queue b none h = queued (inl refl)
  handle-IsKept false confirmation delivery queue b none h =
      unreadable (IsAmong-right delivery b.discarded (delivery ∷ []) (inl refl)) h
  handle-IsKept settlement_lost confirmation delivery queue b (some e) h =
      settle-IsKept settlement_lost confirmation delivery queue b e (deliver e b.state).0
        (deliver e b.state).1 h

  -- What was kept before a message was settled is kept behind it.
  after-IsKept :
      (settlement_lost : Bool) (m delivery : Message) (queue : List Message) (b : Broker State)
      (r : Verdict × State)
      → IsKept delivery (after formats deliver settlement_lost delivery queue b r)
      → b.queue ≡ delivery ∷ queue
      → IsKept m b
      → IsKept m (after formats deliver settlement_lost delivery queue b r)
  after-IsKept settlement_lost m delivery queue b r here e (aside h) =
      aside (IsAmong-left m b.error_queue r.0.copies h)
  after-IsKept settlement_lost m delivery queue b r here e (unreadable h u) =
      unreadable (IsAmong-left m b.discarded _ h) u
  after-IsKept settlement_lost m delivery queue b r here e (done envelope read h) =
      done envelope read (IsAmong-left envelope b.done r.0.done h)
  after-IsKept settlement_lost m delivery queue b r here e (queued h) =
      elim (subst (IsAmong m) e h) [
        | inl same ↦
            subst (λ n. IsKept n (after formats deliver settlement_lost delivery queue b r))
              (sym same) here
        | inr behind ↦ queued (left-IsAmong settlement_lost r.0.settlement m delivery queue behind)
      ]

  receive_from-IsKept :
      (confirmation : Confirmation) (settlement_lost : Bool) (m : Message) (queue : List Message)
      (b : Broker State)
      → b.queue ≡ queue
      → IsKept m b
      → IsKept m (receive_from formats deliver confirmation settlement_lost queue b)
  unfolding receive_from handle
  receive_from-IsKept confirmation settlement_lost m [] b e h = h
  receive_from-IsKept confirmation settlement_lost m (delivery ∷ queue) b e h =
      after-IsKept settlement_lost m delivery queue b
        (handle formats deliver confirmation delivery b.state)
        (handle-IsKept settlement_lost confirmation delivery queue b
          (envelope_from formats delivery) refl)
        e h

  -- The loop of Subscribe, over what the broker does each time.
  abbrev pub subscribe : List (Confirmation × Bool) → Broker State → Broker State
  subscribe [] b = b
  subscribe ((confirmation, settlement_lost) ∷ rounds) b =
      subscribe rounds (receive formats deliver confirmation settlement_lost b)

  subscribe_keeps :
      (rounds : List (Confirmation × Bool)) (m : Message) (b : Broker State)
      → IsKept m b
      → IsKept m (subscribe rounds b)
  unfolding receive
  subscribe_keeps [] m b h = h
  subscribe_keeps ((confirmation, settlement_lost) ∷ rounds) m b h =
      subscribe_keeps rounds m (receive formats deliver confirmation settlement_lost b)
        (receive_from-IsKept confirmation settlement_lost m b.queue b refl h)

  -- Whatever the handler reports, whichever copies the broker confirms and whichever settlements
  -- reach it, a message that was in the queue is in the queue still, or in the error queue, or its
  -- handler has reported success, or it was discarded and no envelope can be read from it.
  pub subscribe-IsKept :
      (rounds : List (Confirmation × Bool)) (m : Message) (b : Broker State)
      → IsAmong m b.queue
      → IsKept m (subscribe rounds b)
  subscribe-IsKept rounds m b h = subscribe_keeps rounds m b (queued h)
