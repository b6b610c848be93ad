-- ===== src/Examples/BrokerExamples.antt =====
-- Messages in the queues of internal/platform/messaging/rabbitmq and in a partition of
-- internal/platform/messaging/kafka.
use golang_microservices_eco.Prelude.{
  ℕ, zero, suc, ◌<◌, arith, ◌≡◌, refl, sym, ap, ◌∙◌, pos, [], ◌∷◌, true, false, Option, none, some,
  inl,
}
use golang_microservices_eco.Platform.Messaging.{Envelope}
use golang_microservices_eco.Platform.Rabbitmq.{
  Formats, Message, message, Outcome, rejected, failed, confirmed, lost, refused, Broker,
}
use golang_microservices_eco.Platform.Kafka
use golang_microservices_eco.Platform.Kafka.Headers.{envelope_from-published}
use golang_microservices_eco.Platform.Kafka.Committed.{IsDocumented, pass-passes_failed}
use golang_microservices_eco.Platform.Rabbitmq.Kept.{IsKept, subscribe, subscribe-IsKept}
use golang_microservices_eco.Examples.CheckoutExamples.{announcement}

abbrev formats : Formats
formats = record { uuid_text = λ id. "9"; parse_uuid = λ s. some 9; atoi = λ s. none }

abbrev delivery : Message
delivery = record {
  message_id = "9";
  correlation_id = "request";
  type_ = "basket.checkout-submitted";
  timestamp = 0;
  schema_version = none;
  aggregate_id = none;
  body = [];
}

-- A handler that fails once and then rejects.
abbrev deliver : Envelope → ℕ → Outcome × ℕ
deliver envelope zero = (failed, 1)
deliver envelope (suc n) = (rejected, 1)

abbrev queue : Broker ℕ
queue = record {
  queue = message formats announcement ∷ delivery ∷ [];
  error_queue = [];
  discarded = [];
  done = [];
  state = 0;
}

subscribe-IsKept_example : IsKept formats deliver (message formats announcement) (
    subscribe formats deliver
      ((confirmed, false) ∷ (confirmed, true) ∷ (lost, false) ∷ (refused, false) ∷ [])
      queue)
subscribe-IsKept_example =
    subscribe-IsKept formats deliver
      ((confirmed, false) ∷ (confirmed, true) ∷ (lost, false) ∷ (refused, false) ∷ [])
      (message formats announcement) queue (inl refl)

abbrev kafka_formats : Kafka.Formats
kafka_formats = record {
  uuid_text = λ id. "9";
  parse_uuid = λ s. some 9;
  itoa = λ n. "1";
  atoi = λ s. some (pos 1);
  time_text = λ t. "now";
  parse_time = λ s. some 0;
}

envelope_from-published_example :
    Kafka.envelope_from kafka_formats (Kafka.message kafka_formats 3 announcement)
    ≡ some announcement
envelope_from-published_example =
    envelope_from-published kafka_formats 3 announcement
      (record { id = refl; version = refl; time = refl }) refl

-- A partition that never ends, read from an offset, with the offset that was committed.
abbrev reader : Kafka.Reader (ℕ × ℕ)
reader = record {
  fetch = λ p. (some (Kafka.message kafka_formats p.0 announcement), (suc p.0, p.1));
  commit = λ m p. (p.0, suc m.offset);
  committed = λ p. p.1;
}

abbrev offset_of : ℕ → Option Kafka.Message → ℕ
offset_of n none = n
offset_of n (some m) = m.offset

reader-IsDocumented : IsDocumented reader
unfolding Kafka.message
reader-IsDocumented = record {
  next = λ p. p.0;
  fetch_next = λ p q m h.
      let at = ap (λ x. offset_of 0 x.0) h in
      (omega arith, sym (ap (λ x. x.1.0) h) ∙ ap suc at, sym (ap (λ x. x.1.1) h));
  commit_records = λ m p. refl;
}

-- A handler that fails once.
abbrev deliver_twice : Envelope → ℕ → Kafka.Outcome × ℕ
deliver_twice envelope zero = (Kafka.failed, 1)
deliver_twice envelope (suc n) = (Kafka.handled, 1)

pass-passes_failed_example :
    (reader.committed (Kafka.pass kafka_formats deliver_twice reader true false 0 (0, 0)).1 ≡ 0)
    × (0
        < reader.committed
            (Kafka.pass kafka_formats deliver_twice reader true false
              (Kafka.pass kafka_formats deliver_twice reader true false 0 (0, 0)).0
              (Kafka.pass kafka_formats deliver_twice reader true false 0 (0, 0)).1).1)
unfolding Kafka.message Kafka.envelope_from Kafka.header Kafka.headers_of
pass-passes_failed_example =
    pass-passes_failed kafka_formats deliver_twice reader true false 0 1 1 (0, 0) (1, 0) (2, 0)
      (Kafka.message kafka_formats 0 announcement) (Kafka.message kafka_formats 1 announcement) _ _
      reader-IsDocumented refl refl refl refl refl refl
