-- ===== src/Examples/RelayExamples.antt =====
-- The relay of internal/basket/outbox on a table of one message.
use golang_microservices_eco.Prelude.{◌/◌, ◌≡◌, refl, [], ◌∷◌, true, false, arith}
use golang_microservices_eco.Platform.Messaging.{Envelope}
use golang_microservices_eco.Platform.Basketv1.{checkout_contract}
use golang_microservices_eco.Platform.Backoff.{Jitter}
use golang_microservices_eco.Ordering.Outbox.Stores.{accepted}
use golang_microservices_eco.Basket.Relay.{RelayOptions, RelayEnv, RelayWorld, relay_once}
use golang_microservices_eco.Basket.Relay.Kept.{is_kept, relay_once-is_kept}

abbrev jitter : Jitter
jitter = record { share = λ d. d / 5; share_fifth = λ d. omega arith }

abbrev announcement : Envelope
announcement = record {
  id = 9;
  contract = checkout_contract;
  aggregate_id = "ada";
  correlation_id = "request";
  occurred_on_utc = 0;
  payload = [];
}

abbrev env : RelayEnv
env = record {
  database_fails = λ n. false;
  context_done = λ n. false;
  broker = λ n m. accepted;
  clock = λ n. 1000;
  jitter = jitter;
}

abbrev options : RelayOptions
options = record {
  batch_size = 50;
  max_attempts = 10;
  retry_base_delay = 1000;
  retry_max_delay = 60000;
}

abbrev recorded_one : RelayWorld
recorded_one = record {
  calls = 0;
  rows = record { envelope = announcement; attempts = 0; next_attempt = 5; poisoned = false } ∷ [];
  accepted_messages = [];
}

relay_once-is_kept_example : is_kept 9 (relay_once env options recorded_one).1 ≡ true
relay_once-is_kept_example = relay_once-is_kept env options 9 recorded_one refl
