-- ===== src/Platform/Rabbitmq/Roundtrip.antt =====
-- internal/platform/messaging/rabbitmq: a message between the publisher and the subscriber.
use golang_microservices_eco.Prelude.{ℕ, ◌≡◌, refl, some, false, is_empty}
use golang_microservices_eco.Platform.Messaging.{Envelope}
use golang_microservices_eco.Platform.Rabbitmq.{
  Formats, message, int_header, text_header, with_version, with_id, envelope_from,
}

-- Where a UUID is read back from its text and the event type is not empty, the subscriber rebuilds
-- the envelope that was published, up to what the broker keeps of its time.
envelope_from-message :
    (formats : Formats) (kept : ℕ → ℕ) (envelope : Envelope)
    → formats.parse_uuid (formats.uuid_text envelope.id) ≡ some envelope.id
    → is_empty envelope.contract.event_type ≡ false
    → envelope_from formats
        (record (message formats envelope) { timestamp = kept envelope.occurred_on_utc })
      ≡ some (record envelope { occurred_on_utc = kept envelope.occurred_on_utc })
unfolding envelope_from message with_id with_version int_header text_header
envelope_from-message formats kept envelope parsed named = rw (parsed, named) refl
