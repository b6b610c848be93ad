-- ===== src/Platform/Rabbitmq.antt =====
-- internal/platform/messaging/rabbitmq: the message of a publisher, and what a subscriber does with
-- a delivery, over the queues that the broker keeps. The texts of a UUID and of an integer are
-- arguments, and so is the service's handler; the text of a rejection is left out. One delivery is
-- settled at a time, and one that was not settled stays in the queue.
pub mod Kept
pub mod Roundtrip
use golang_microservices_eco.Prelude.{
  ℕ, String, ℤ, Bool, true, false, Option, none, some, List, [], ◌∷◌, ◌++◌, if◌then◌else◌, is_empty,
}
use golang_microservices_eco.Platform.Messaging.{Envelope}

-- The value of an AMQP header: an integer of any width, a float by its whole part, a text or
-- another type.
pub data HeaderValue : Type 0 where
  whole float : ℤ → HeaderValue
  text : String → HeaderValue
  other : HeaderValue

-- What the code reads and writes of a message. A header that is not there is nothing.
pub record Message : Type 0 where
  pub message_id : String
  pub correlation_id : String
  pub type_ : String
  pub timestamp : ℕ
  pub schema_version : Option HeaderValue
  pub aggregate_id : Option HeaderValue
  pub body : List ℕ

pub record Formats : Type 0 where
  pub uuid_text : ℕ → String
  pub parse_uuid : String → Option ℕ
  pub atoi : String → Option ℤ

module _ (formats : Formats) where
  unfoldable pub message : Envelope → Message
  message envelope = record {
    message_id = formats.uuid_text envelope.id;
    correlation_id = envelope.correlation_id;
    type_ = envelope.contract.event_type;
    timestamp = envelope.occurred_on_utc;
    schema_version = some (whole envelope.contract.version);
    aggregate_id = some (text envelope.aggregate_id);
    body = envelope.payload;
  }

  unfoldable pub int_header : Option HeaderValue → Option ℤ
  int_header none = none
  int_header (some (whole n)) = some n
  int_header (some (float n)) = some n
  int_header (some (text s)) = formats.atoi s
  int_header (some other) = none

  -- A header that is no text reads as the empty text.
  unfoldable pub text_header : Option HeaderValue → String
  text_header (some (text s)) = s
  text_header _ = ""

  unfoldable pub with_version : Message → ℕ → Option ℤ → Option Envelope
  unfolding text_header
  with_version delivery id none = none
  with_version delivery id (some version) = some (record {
    id = id;
    contract = record { event_type = delivery.type_; version = version };
    aggregate_id = text_header delivery.aggregate_id;
    correlation_id = delivery.correlation_id;
    occurred_on_utc = delivery.timestamp;
    payload = delivery.body;
  })

  unfoldable pub with_id : Message → Option ℕ → Option Envelope
  unfolding with_version int_header
  with_id delivery none = none
  with_id delivery (some id) =
      if is_empty delivery.type_
      then none
      else with_version delivery id (int_header delivery.schema_version)

  -- envelopeFrom.
  unfoldable pub envelope_from : Message → Option Envelope
  unfolding with_id
  envelope_from delivery = with_id delivery (formats.parse_uuid delivery.message_id)

-- What the handler reports of a message.
pub data Outcome : Type 0 where
  handled rejected failed : Outcome

-- What the broker does with the copy of a rejected message: it confirms it, it has it although the
-- confirmation is lost, or it refuses it.
pub data Confirmation : Type 0 where
  confirmed lost refused : Confirmation

-- What the subscriber tells the broker of a delivery.
pub data Settlement : Type 0 where
  ack requeue discard : Settlement

-- The settlement, the copies that reach the error queue, and the envelopes that were handled.
pub record Verdict : Type 0 where
  pub settlement : Settlement
  pub copies : List Message
  pub done : List Envelope

-- setAside.
unfoldable pub set_aside : Confirmation → Message → Verdict
set_aside confirmed delivery = record { settlement = ack; copies = delivery ∷ []; done = [] }
set_aside lost delivery = record { settlement = requeue; copies = delivery ∷ []; done = [] }
set_aside refused delivery = record { settlement = requeue; copies = []; done = [] }

unfoldable pub settle : Confirmation → Message → Envelope → Outcome → Verdict
unfolding set_aside
settle confirmation delivery envelope handled = record {
  settlement = ack;
  copies = [];
  done = envelope ∷ [];
}
settle confirmation delivery envelope rejected = set_aside confirmation delivery
settle confirmation delivery envelope failed = record {
  settlement = requeue;
  copies = [];
  done = [];
}

module _ {State : Type 0} (formats : Formats) (deliver : Envelope → State → Outcome × State) where
  unfoldable pub handle_read : Confirmation → Message → Option Envelope → State → Verdict × State
  unfolding settle
  handle_read confirmation delivery none s =
      (record { settlement = discard; copies = []; done = [] }, s)
  handle_read confirmation delivery (some envelope) s =
      let (outcome, t) = deliver envelope s in (settle confirmation delivery envelope outcome, t)

  -- handle.
  unfoldable pub handle : Confirmation → Message → State → Verdict × State
  unfolding handle_read
  handle confirmation delivery s =
      handle_read confirmation delivery (envelope_from formats delivery) s

pub record Broker (State : Type 0) : Type 0 where
  pub queue : List Message
  pub error_queue : List Message
  pub discarded : List Message
  pub done : List Envelope
  pub state : State

-- The queue and the discarded messages behind a settlement, which may not reach the broker. What was
-- not settled is where it was.
abbrev pub left : Bool → Settlement → Message → List Message → List Message
left true settlement delivery queue = delivery ∷ queue
left false ack delivery queue = queue
left false requeue delivery queue = delivery ∷ queue
left false discard delivery queue = queue

abbrev pub thrown : Bool → Settlement → Message → List Message
thrown false discard delivery = delivery ∷ []
thrown _ _ delivery = []

module _ {State : Type 0} (formats : Formats) (deliver : Envelope → State → Outcome × State) where
  abbrev pub after : Bool → Message → List Message → Broker State → Verdict × State → Broker State
  after settlement_lost delivery queue b (verdict, s) = record {
    queue = left settlement_lost verdict.settlement delivery queue;
    error_queue = b.error_queue ++ verdict.copies;
    discarded = b.discarded ++ thrown settlement_lost verdict.settlement delivery;
    done = b.done ++ verdict.done;
    state = s;
  }

  -- The body of the loop of Subscribe, on the first message of the queue.
  unfoldable pub receive_from : Confirmation → Bool → List Message → Broker State → Broker State
  unfolding handle
  receive_from confirmation settlement_lost [] b = b
  receive_from confirmation settlement_lost (delivery ∷ queue) b =
      after settlement_lost delivery queue b (handle formats deliver confirmation delivery b.state)

  unfoldable pub receive : Confirmation → Bool → Broker State → Broker State
  unfolding receive_from
  receive confirmation settlement_lost b = receive_from confirmation settlement_lost b.queue b
