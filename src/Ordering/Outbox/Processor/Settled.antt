-- ===== src/Ordering/Outbox/Processor/Settled.antt =====
-- internal/ordering/outbox/processor.go: messages that the broker has accepted or that have been
-- given up on, which are called settled.
use golang_microservices_eco.Prelude.{
  ℕ, ◌≡◌, refl, ◌∙◌, List, [], ◌∷◌, ◌++◌, Bool, true, false, ◌||◌, ◌==◌, arith, any, if◌then◌else◌,
}
use golang_microservices_eco.Platform.Messaging.{Envelope}
use golang_microservices_eco.Ordering.Outbox.Errors.{Result, ok, err}
use golang_microservices_eco.Ordering.Outbox.Stores.{
  Env, World, FailureRow, find_failure, count_failure, poison_failure, bound_reason, get_failure,
  record_failure, mark_poisoned, check_context, Exec, pure, and_then, ◌>>=◌, next_call, Answer,
  accepted, refused, lost, cancelled,
}
use golang_microservices_eco.Ordering.Outbox.Processor.{
  Options, note_failure, after_publish, receive, send, publish, process_messages,
}

abbrev pub is_poisoned : ℕ → List FailureRow → Bool
is_poisoned id rows = (find_failure id rows).poisoned

abbrev was_accepted : ℕ → List Envelope → Bool
was_accepted id messages = any (λ m. m.id == id) messages

abbrev pub settled : World → Envelope → Bool
settled w m = was_accepted m.id w.accepted_messages || is_poisoned m.id w.failures

pub is_poisoned-count_failure :
    (j id : ℕ) (reason : List ℕ) (rows : List FailureRow)
    → is_poisoned j (count_failure id reason rows) ≡ is_poisoned j rows
unfolding find_failure count_failure
is_poisoned-count_failure j id reason [] = ground arith
is_poisoned-count_failure j id reason (row ∷ rows) =
    ground (arith, is_poisoned-count_failure j id reason rows)

is_poisoned-poison_failure :
    (j id : ℕ) (rows : List FailureRow)
    → is_poisoned j rows ≡ true
    → is_poisoned j (poison_failure id rows) ≡ true
unfolding find_failure poison_failure
is_poisoned-poison_failure j id [] h = cc
is_poisoned-poison_failure j id (row ∷ rows) h =
    ground (arith, is_poisoned-poison_failure j id rows)

-- Marking a message that has failed poisons it.
pub poison_failure-count_failure :
    (id : ℕ) (reason : List ℕ) (rows : List FailureRow)
    → is_poisoned id (poison_failure id (count_failure id reason rows)) ≡ true
unfolding find_failure poison_failure count_failure
poison_failure-count_failure id reason [] = ground arith
poison_failure-count_failure id reason (row ∷ rows) =
    ground (arith, poison_failure-count_failure id reason rows)

any-append {ℓ} :
    {A : Type ℓ} (p : A → Bool) (xs ys : List A) → any p (xs ++ ys) ≡ (any p xs || any p ys)
any-append p [] ys = refl
any-append p (x ∷ xs) ys = ground (arith, any-append p xs ys)

-- What a step of a cycle leaves: the checkpoints as they were, and every settled message settled.
pub record Keeps (w w' : World) : Type 0 where
  pub checkpoints : w'.checkpoints ≡ w.checkpoints
  pub settled_stays : (m : Envelope) → settled w m ≡ true → settled w' m ≡ true

pub Keeps-refl : (w : World) → Keeps w w
Keeps-refl w = record { checkpoints = refl; settled_stays = λ m h. h }

pub Keeps-trans : {u v w : World} → Keeps u v → Keeps v w → Keeps u w
Keeps-trans k l = record {
  checkpoints = l.checkpoints ∙ k.checkpoints;
  settled_stays = λ m h. l.settled_stays m (k.settled_stays m h);
}

Keeps-bind :
    {A B : Type 0} (m : Exec A) (f : A → Exec B) (w : World)
    → Keeps w (m w).1
    → ((a : A) (v : World) → Keeps v (f a v).1)
    → Keeps w ((m >>= f) w).1
Keeps-bind {A} {B} m f w k l = go (m w) k
  where
    go : (r : Result A × World) → Keeps w r.1 → Keeps w (and_then r f).1
    go (ok a, v) k = Keeps-trans k (l a v)
    go (err e, v) k = k

module _ (env : Env) where
  get_failure-Keeps : (id : ℕ) (w : World) → Keeps w (get_failure env id w).1
  unfolding get_failure
  get_failure-Keeps id w = record {
    checkpoints = ground arith;
    settled_stays = λ m h. ground arith;
  }

  check_context-Keeps : (w : World) → Keeps w (check_context env w).1
  unfolding check_context
  check_context-Keeps w = record { checkpoints = ground arith; settled_stays = λ m h. ground arith }

receive-Keeps :
    (message : Envelope) (answer : Answer) (w : World) → Keeps w (receive message answer w).1
unfolding receive
receive-Keeps message accepted w = record {
  checkpoints = refl;
  settled_stays =
      λ m h. ground (arith, any-append (λ e. e.id == m.id) w.accepted_messages (message ∷ []));
}
receive-Keeps message (refused cause) w = record { checkpoints = refl; settled_stays = λ m h. h }
receive-Keeps message (lost cause) w = record {
  checkpoints = refl;
  settled_stays =
      λ m h. ground (arith, any-append (λ e. e.id == m.id) w.accepted_messages (message ∷ []));
}
receive-Keeps message cancelled w = record { checkpoints = refl; settled_stays = λ m h. h }

module _ (env : Env) (options : Options) where
  note_failure-Keeps :
      (message : Envelope) (cause : List ℕ) (w : World)
      → Keeps w (note_failure env options message cause w).1
  unfolding note_failure record_failure mark_poisoned
  note_failure-Keeps message cause w = record {
    checkpoints = ground arith;
    settled_stays = λ m h. ground (
      arith,
      is_poisoned-count_failure m.id message.id (bound_reason cause) w.failures,
      is_poisoned-poison_failure m.id message.id
          (count_failure message.id (bound_reason cause) w.failures),
    );
  }

  note_failure-settled :
      (message : Envelope) (cause : List ℕ) (w : World)
      → (note_failure env options message cause w).0 ≡ ok true
      → settled (note_failure env options message cause w).1 message ≡ true
  unfolding note_failure record_failure mark_poisoned
  note_failure-settled message cause w h =
      ground (arith, poison_failure-count_failure message.id (bound_reason cause) w.failures)

  after_publish-Keeps :
      (message : Envelope) (answer : Answer) (w : World)
      → Keeps w (after_publish env options message answer w).1
  unfolding after_publish
  after_publish-Keeps message accepted w = record { checkpoints = refl; settled_stays = λ m h. h }
  after_publish-Keeps message (refused cause) w = note_failure-Keeps message cause w
  after_publish-Keeps message (lost cause) w = note_failure-Keeps message cause w
  after_publish-Keeps message cancelled w = Keeps-refl w

  pub publish-Keeps : (message : Envelope) (w : World) → Keeps w (publish env options message w).1
  unfolding publish send
  publish-Keeps message w =
      Keeps-bind (get_failure env message.id) _ w (get_failure-Keeps env message.id w)
        λ failure v. rest failure.poisoned v
    where
      rest :
          (b : Bool) (v : World)
          → Keeps v
              ((if b
                  then pure true
                  else (send env options message >>= after_publish env options message))
                v).1
      rest true v = Keeps-refl v
      rest false v =
          Keeps-bind (send env options message) (after_publish env options message) v
            (receive-Keeps message _ v) (after_publish-Keeps message)

  -- A message that was handled is settled.
  sent-settled :
      (message : Envelope) (answer : Answer) (w : World)
      → (and_then (receive message answer w) (after_publish env options message)).0 ≡ ok true
      → settled (and_then (receive message answer w) (after_publish env options message)).1 message
        ≡ true
  unfolding receive after_publish
  sent-settled message accepted w h =
      ground (arith, any-append (λ e. e.id == message.id) w.accepted_messages (message ∷ []))
  sent-settled message (refused cause) w h = note_failure-settled message cause _ h
  sent-settled message (lost cause) w h = note_failure-settled message cause _ h
  sent-settled message cancelled w h = cc

  pub publish-settled :
      (message : Envelope) (w : World)
      → (publish env options message w).0 ≡ ok true
      → settled (publish env options message w).1 message ≡ true
  unfolding publish send get_failure
  publish-settled message w h =
      ground (arith, sent-settled message (env.broker (next_call w).calls message) (next_call w))

  pub process_messages-Keeps :
      (messages : List Envelope) (w : World) → Keeps w (process_messages env options messages w).1
  unfolding process_messages
  process_messages-Keeps [] w = Keeps-refl w
  process_messages-Keeps (message ∷ messages) w =
      Keeps-bind (check_context env) _ w (check_context-Keeps env w) λ _ v.
        Keeps-bind (publish env options message) _ v (publish-Keeps message v)
          λ handled u. rest (process_messages-Keeps messages) handled u
    where
      rest :
          ((u : World) → Keeps u (process_messages env options messages u).1)
          → (b : Bool) (u : World)
          → Keeps u ((if b then process_messages env options messages else pure false) u).1
      rest ih true u = ih u
      rest ih false u = Keeps-refl u
