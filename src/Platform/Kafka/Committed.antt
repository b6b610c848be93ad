-- ===== src/Platform/Kafka/Committed.antt =====
-- internal/platform/messaging/kafka/subscriber.go: which messages the group has moved past.
use golang_microservices_eco.Prelude.{
  ℕ, suc, ◌≤◌, ◌<◌, arith, ◌≡◌, refl, ap, ◌∙◌, Bool, true, false, some,
}
use golang_microservices_eco.Platform.Messaging.{Envelope}
use golang_microservices_eco.Platform.Kafka.{
  Message, Formats, envelope_from, Outcome, handled, failed, judge, judge_read, commits, Reader,
  conclude, pass_on, pass,
}

-- What kafka-go documents of a reader: FetchMessage returns the messages of the partition in the order
-- of their offsets and records nothing, and CommitMessages records that the group goes on behind a
-- message.
pub record IsDocumented {Position : Type 0} (reader : Reader Position) : Type 0 where
  pub next : Position → ℕ
  pub fetch_next :
      (p q : Position) (m : Message)
      → reader.fetch p ≡ (some m, q)
      → (next p ≤ m.offset) × (next q ≡ suc m.offset) × (reader.committed q ≡ reader.committed p)
  pub commit_records :
      (m : Message) (p : Position) → reader.committed (reader.commit m p) ≡ suc m.offset

module _ {State : Type 0} (formats : Formats) (deliver : Envelope → State → Outcome × State)
    {Position : Type 0} (reader : Reader Position) where
  pass-failed :
      (copied commit_fails : Bool) (s t : State) (p q : Position) (m : Message) (e : Envelope)
      → reader.fetch p ≡ (some m, q)
      → envelope_from formats m ≡ some e
      → deliver e s ≡ (failed, t)
      → pass formats deliver reader copied commit_fails s p ≡ (t, q)
  unfolding pass pass_on conclude judge_read judge commits
  pass-failed copied true s t p q m e fetched read outcome = rw (fetched, read, outcome) refl
  pass-failed copied false s t p q m e fetched read outcome = rw (fetched, read, outcome) refl

  pass-handled :
      (copied : Bool) (s t : State) (p q : Position) (m : Message) (e : Envelope)
      → reader.fetch p ≡ (some m, q)
      → envelope_from formats m ≡ some e
      → deliver e s ≡ (handled, t)
      → pass formats deliver reader copied false s p ≡ (t, reader.commit m q)
  unfolding pass pass_on conclude judge_read judge commits
  pass-handled copied s t p q m e fetched read outcome = rw (fetched, read, outcome) refl

  -- With a reader that behaves as documented, a pass whose message the handler fails to handle
  -- commits nothing, but the next pass fetches a message behind it, and where that one is handled
  -- and committed, the group goes on behind the failed message too, which is not read again.
  pub pass-passes_failed :
      (copied commit_fails : Bool) (s t u : State) (p q r : Position) (m n : Message)
      (e e' : Envelope)
      → IsDocumented reader
      → reader.fetch p ≡ (some m, q)
      → envelope_from formats m ≡ some e
      → deliver e s ≡ (failed, t)
      → reader.fetch q ≡ (some n, r)
      → envelope_from formats n ≡ some e'
      → deliver e' t ≡ (handled, u)
      → (reader.committed (pass formats deliver reader copied commit_fails s p).1
          ≡ reader.committed p)
        × (m.offset
            < reader.committed
                (pass formats deliver reader copied false
                  (pass formats deliver reader copied commit_fails s p).0
                  (pass formats deliver reader copied commit_fails s p).1).1)
  pass-passes_failed copied commit_fails s t u p q r m n e e' documented fetched read fails fetched'
        read' works =
      let first = pass-failed copied commit_fails s t p q m e fetched read fails in
      let second = pass-handled copied t u q r n e' fetched' read' works in
      let (_, moved, unrecorded) = documented.fetch_next p q m fetched in
      let (behind, _, _) = documented.fetch_next q r n fetched' in
      let at =
        ap (λ x. reader.committed (pass formats deliver reader copied false x.0 x.1).1) first
        ∙ (ap (λ x. reader.committed x.1) second ∙ documented.commit_records n r) in
      (ap (λ x. reader.committed x.1) first ∙ unrecorded, omega arith)
