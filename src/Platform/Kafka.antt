-- ===== src/Platform/Kafka.antt =====
-- internal/platform/messaging/kafka: the message of a publisher, and the loop of a subscriber. The
-- reader of github.com/segmentio/kafka-go is a parameter: its state, what FetchMessage returns and
-- what CommitMessages leaves. The texts of a UUID, of an integer and of a time are arguments, and so
-- is the service's handler; a rejection's text is left out.
pub mod Committed
pub mod Headers
use golang_microservices_eco.Prelude.{
  ℕ, String, ℤ, Bool, true, false, Option, none, some, List, [], ◌∷◌, ◌++◌, if◌then◌else◌, is_empty,
  str_eq,
}
use golang_microservices_eco.Platform.Messaging.{Envelope}

pub record Header : Type 0 where
  pub key : String
  pub value : String

-- A message of a partition, with its offset.
pub record Message : Type 0 where
  pub key : String
  pub value : List ℕ
  pub headers : List Header
  pub offset : ℕ

pub record Formats : Type 0 where
  pub uuid_text : ℕ → String
  pub parse_uuid : String → Option ℕ
  pub itoa : ℤ → String
  pub atoi : String → Option ℤ
  pub time_text : ℕ → String
  pub parse_time : String → Option ℕ

abbrev header_of : String → String → Header
header_of key value = record { key = key; value = value }

-- The closure `header` of envelopeFrom.
unfoldable pub header : String → List Header → String
header key [] = ""
header key (h ∷ headers) =
    let rest = header key headers in if str_eq h.key key then h.value else rest

module _ (formats : Formats) where
  -- The headers that Publish writes.
  unfoldable pub headers_of : Envelope → List Header
  headers_of envelope =
      header_of "message-id" (formats.uuid_text envelope.id)
      ∷ header_of "event-type" envelope.contract.event_type
      ∷ header_of "schema-version" (formats.itoa envelope.contract.version)
      ∷ header_of "occurred-on-utc" (formats.time_text envelope.occurred_on_utc)
      ∷ (if is_empty envelope.correlation_id
          then []
          else header_of "correlation-id" envelope.correlation_id ∷ [])

  unfoldable pub message : ℕ → Envelope → Message
  unfolding headers_of
  message offset envelope = record {
    key = envelope.aggregate_id;
    value = envelope.payload;
    headers = headers_of envelope;
    offset = offset;
  }

  -- envelopeFrom.
  unfoldable pub envelope_from : Message → Option Envelope
  envelope_from m = elim (formats.parse_uuid (header "message-id" m.headers)) [
    | none ↦ none
    | some id ↦ elim (is_empty (header "event-type" m.headers)) [
      | true ↦ none
      | false ↦ elim (formats.atoi (header "schema-version" m.headers)) [
        | none ↦ none
        | some version ↦ elim (formats.parse_time (header "occurred-on-utc" m.headers)) [
          | none ↦ none
          | some occurred_on ↦ some (record {
            id = id;
            contract = record { event_type = header "event-type" m.headers; version = version };
            aggregate_id = m.key;
            correlation_id = header "correlation-id" m.headers;
            occurred_on_utc = occurred_on;
            payload = m.value;
          })
        ]
      ]
    ]
  ]

-- What the handler reports of a message.
pub data Outcome : Type 0 where
  handled rejected failed : Outcome

-- Whether the loop goes on to commit the message that it fetched.
pub data Verdict : Type 0 where
  skipped delivered set_aside kept : Verdict

unfoldable pub commits : Verdict → Bool
commits skipped = true
commits delivered = true
commits set_aside = true
commits kept = false

-- The reader of a partition: whether a message is there, and where the group would start again.
pub record Reader (Position : Type 0) : Type 0 where
  pub fetch : Position → Option Message × Position
  pub commit : Message → Position → Position
  pub committed : Position → ℕ

-- The verdict on an outcome; `copied` is that the copy of a rejected message was written.
unfoldable pub judge : Bool → Outcome → Verdict
judge copied handled = delivered
judge copied rejected = if copied then set_aside else kept
judge copied failed = kept

module _ {State : Type 0} (formats : Formats) (deliver : Envelope → State → Outcome × State) where
  unfoldable pub judge_read : Bool → Option Envelope → State → Verdict × State
  unfolding judge
  judge_read copied none s = (skipped, s)
  judge_read copied (some envelope) s =
      let (outcome, t) = deliver envelope s in (judge copied outcome, t)

  module _ {Position : Type 0} (reader : Reader Position) where
    -- A pass through the loop of Subscribe behind its fetch. A commit that fails is logged only.
    unfoldable pub conclude : Bool → Message → Verdict × State → Position → State × Position
    unfolding commits
    conclude commit_fails m (verdict, t) p =
        (t, if commit_fails then p else if commits verdict then reader.commit m p else p)

    unfoldable pub pass_on : Bool → Bool → Option Message × Position → State → State × Position
    unfolding conclude judge_read
    pass_on copied commit_fails (none, p) s = (s, p)
    pass_on copied commit_fails (some m, p) s =
        conclude commit_fails m (judge_read copied (envelope_from formats m) s) p

    -- A pass through the loop of Subscribe: whether a copy could be written and whether the commit
    -- fails are arguments.
    unfoldable pub pass : Bool → Bool → State → Position → State × Position
    unfolding pass_on
    pass copied commit_fails s p = pass_on copied commit_fails (reader.fetch p) s
