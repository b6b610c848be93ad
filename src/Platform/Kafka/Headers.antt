-- ===== src/Platform/Kafka/Headers.antt =====
-- internal/platform/messaging/kafka: a message between the publisher and the subscriber.
use golang_microservices_eco.Prelude.{
  ℕ, ◌≡◌, refl, sym, ap, Bool-cases, String, some, true, false, inl, inr, is_empty,
}
use golang_microservices_eco.Platform.Messaging.{Envelope}
use golang_microservices_eco.Platform.Kafka.{Formats, message, header, headers_of, envelope_from}

-- The texts that the publisher writes are read back.
pub record AreInverse (formats : Formats) (envelope : Envelope) : Type 0 where
  pub id : formats.parse_uuid (formats.uuid_text envelope.id) ≡ some envelope.id
  pub version :
      formats.atoi (formats.itoa envelope.contract.version) ≡ some envelope.contract.version
  pub time :
      formats.parse_time (formats.time_text envelope.occurred_on_utc)
      ≡ some envelope.occurred_on_utc

empty-text : (s : String) → is_empty s ≡ true → s ≡ ""
empty-text String.[] h = refl
empty-text (String.◌∷◌ c s) h = cc

-- Where the texts of its id, version and time are read back and its event type is not empty, the
-- subscriber rebuilds the envelope that was published.
pub envelope_from-published :
    (formats : Formats) (offset : ℕ) (envelope : Envelope)
    → AreInverse formats envelope
    → is_empty envelope.contract.event_type ≡ false
    → envelope_from formats (message formats offset envelope) ≡ some envelope
unfolding envelope_from message header headers_of
envelope_from-published formats offset envelope inverse named =
    elim (Bool-cases (is_empty envelope.correlation_id)) [
      | inl absent ↦
          rw (envelope_from, inverse.id, named, inverse.version, inverse.time, absent)
            (ap (λ c. some (record envelope { correlation_id = c }))
              (sym (empty-text envelope.correlation_id absent)))
      | inr given ↦ rw (envelope_from, inverse.id, named, inverse.version, inverse.time, given) refl
    ]
