-- ===== src/Platform/Messaging.antt =====
-- internal/platform/messaging: the contract, the header of an event and the envelope. What
-- encoding an event gives is an argument, with nothing where the encoder fails.
use golang_microservices_eco.Prelude.{
  ℕ, ℤ, String, List, Option, none, some, Fallible, ok, err, is_empty, if◌then◌else◌, ◌==◌,
}

pub record Contract : Type 0 where
  pub event_type : String
  pub version : ℤ

-- The metadata of an event. A time is a number of nanoseconds.
pub record Header : Type 0 where
  pub id : ℕ
  pub occurred_on_utc : ℕ
  pub correlation_id : String

-- A payload is its bytes.
pub record Envelope : Type 0 where
  pub id : ℕ
  pub contract : Contract
  pub aggregate_id : String
  pub correlation_id : String
  pub occurred_on_utc : ℕ
  pub payload : List ℕ

pub data EnvelopeError : Type 0 where
  no_aggregate_id no_id encoding : EnvelopeError

-- NewEnvelope, of an event by its contract, its header and its payload.
unfoldable pub new_envelope :
    Contract → Header → Option (List ℕ) → String → Fallible EnvelopeError Envelope
new_envelope contract header payload aggregate_id =
    if is_empty aggregate_id then err no_aggregate_id else elim payload [
      | none ↦ err encoding
      | some bytes ↦
          if header.id == 0
          then err no_id
          else ok (record {
            id = header.id;
            contract = contract;
            aggregate_id = aggregate_id;
            correlation_id = header.correlation_id;
            occurred_on_utc = header.occurred_on_utc;
            payload = bytes;
          })
    ]
