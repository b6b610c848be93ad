-- ===== src/Platform/Inbox/Once.antt =====
-- internal/platform/messaging/inbox: runs of deliveries, and how often the work of a message is done.
use golang_microservices_eco.Prelude.{
  Write, written, lost, unconfirmed, ℕ, suc, ◌+◌, ◌≤◌, ◌≡◌, refl, String, Bool, true, false, Option,
  none, some, List, [], ◌∷◌, ◌==◌, ◌&&◌, if◌then◌else◌, Bool-cases, inl, inr, eq_iff, arith,
}
use golang_microservices_eco.Platform.Inbox.{
  Delivery, Inbox, begin, mark, complete, after_work, after_begin, idempotent,
}

abbrev pub run : String → List Delivery → Inbox → Inbox
run consumer [] s = s
run consumer (d ∷ ds) s = run consumer ds (idempotent consumer d s).1

abbrev pub empty : Inbox
empty = record { rows = λ id consumer. none; handled = [] }

abbrev pub is_processed : Option Bool → Bool
is_processed none = false
is_processed (some processed) = processed

-- How often the work of a message has been done.
abbrev pub times : ℕ → List ℕ → ℕ
times id [] = 0
times id (x ∷ xs) = let rest = times id xs in if x == id then suc rest else rest

abbrev pub marked : String → ℕ → Inbox → ℕ
marked consumer id s = if is_processed (s.rows id consumer) then 1 else 0

-- Whether a delivery can end with its work done and its row unmarked: the handler's answer is lost
-- or the completion is.
abbrev pub drops : Write → Write → Bool
drops unconfirmed completion = true
drops written lost = true
drops written written = false
drops written unconfirmed = false
drops lost completion = false

abbrev pub dropped : ℕ → List Delivery → ℕ
dropped id [] = 0
dropped id (d ∷ ds) =
    let rest = dropped id ds in
    if (d.message_id == id) && drops d.work d.completion then suc rest else rest

-- The work of a message whose row is marked has been done, and it has been done at most this much
-- more often than its row says.
abbrev pub IsDone : String → (ℕ → ℕ) → Inbox → Type 0
IsDone consumer extra s =
    (id : ℕ)
    → (marked consumer id s ≤ times id s.handled)
      × (times id s.handled ≤ marked consumer id s + extra id)

abbrev with_drop : Delivery → (ℕ → ℕ) → ℕ → ℕ
with_drop d extra id =
    if (d.message_id == id) && drops d.work d.completion then suc (extra id) else extra id

complete-IsDone :
    (consumer : String) (d : Delivery) (completion : Write) (s : Inbox) (extra : ℕ → ℕ)
    → IsDone consumer extra s
    → s.rows d.message_id consumer ≡ some false
    → d.work ≡ written
    → d.completion ≡ completion
    → IsDone consumer
        (with_drop d extra)
        (complete completion d.message_id consumer
          (record s { handled = d.message_id ∷ s.handled })).1
unfolding complete mark
complete-IsDone consumer d lost s extra h claimed e c id = rw (e, c) (ground (arith, h id, claimed))
complete-IsDone consumer d written s extra h claimed e c id =
    rw (e, c, claimed) (ground (arith, h id, claimed, eq_iff consumer consumer))
complete-IsDone consumer d unconfirmed s extra h claimed e c id =
    rw (e, c, claimed) (ground (arith, h id, claimed, eq_iff consumer consumer))

after_work-IsDone :
    (consumer : String) (d : Delivery) (work : Write) (s : Inbox) (extra : ℕ → ℕ)
    → IsDone consumer extra s
    → s.rows d.message_id consumer ≡ some false
    → d.work ≡ work
    → IsDone consumer (with_drop d extra) (after_work consumer d work s).1
unfolding after_work
after_work-IsDone consumer d lost s extra h claimed e id = rw e (ground (arith, h id))
after_work-IsDone consumer d unconfirmed s extra h claimed e id =
    rw e (ground (arith, h id, claimed))
after_work-IsDone consumer d written s extra h claimed e id =
    complete-IsDone consumer d d.completion s extra h claimed e refl id

after_begin-IsDone :
    (consumer : String) (d : Delivery) (claim : Option Bool) (s : Inbox) (extra : ℕ → ℕ)
    → IsDone consumer extra s
    → (claim ≡ some true → s.rows d.message_id consumer ≡ some false)
    → IsDone consumer (with_drop d extra) (after_begin consumer d claim s).1
unfolding after_begin
after_begin-IsDone consumer d none s extra h claimed id = ground (arith, h id)
after_begin-IsDone consumer d (some false) s extra h claimed id = ground (arith, h id)
after_begin-IsDone consumer d (some true) s extra h claimed id =
    after_work-IsDone consumer d d.work s extra h (claimed refl) refl id

begin-IsDone :
    (consumer : String) (d : Delivery) (s : Inbox) (extra : ℕ → ℕ)
    → IsDone consumer extra s
    → IsDone consumer extra (begin d.claim_fails d.state_fails d.message_id consumer s).1
unfolding begin
begin-IsDone consumer d s extra h id = ground (arith, h id, eq_iff consumer consumer)

begin-claimed :
    (consumer : String) (d : Delivery) (s : Inbox)
    → (begin d.claim_fails d.state_fails d.message_id consumer s).0 ≡ some true
    → (begin d.claim_fails d.state_fails d.message_id consumer s).1.rows d.message_id consumer
      ≡ some false
unfolding begin
begin-claimed consumer d s h = ground (arith, eq_iff consumer consumer)

idempotent-IsDone :
    (consumer : String) (d : Delivery) (s : Inbox) (extra : ℕ → ℕ)
    → IsDone consumer extra s
    → IsDone consumer (with_drop d extra) (idempotent consumer d s).1
unfolding idempotent
idempotent-IsDone consumer d s extra h id = elim (Bool-cases (d.message_id == 0)) [
  | inl nil ↦ rw nil (ground (arith, h id))
  | inr given ↦
      let (claim, t) = begin d.claim_fails d.state_fails d.message_id consumer s in
      rw given (
        after_begin-IsDone consumer d claim t extra (begin-IsDone consumer d s extra h)
          (begin-claimed consumer d s) id)
]

run-IsDone :
    (consumer : String) (ds : List Delivery) (s : Inbox) (extra : ℕ → ℕ)
    → IsDone consumer extra s
    → IsDone consumer (λ id. dropped id ds + extra id) (run consumer ds s)
run-IsDone consumer [] s extra h id = ground (arith, h id)
run-IsDone consumer (d ∷ ds) s extra h id = ground (
  arith,
  run-IsDone consumer ds (idempotent consumer d s).1 (with_drop d extra)
      (idempotent-IsDone consumer d s extra h) id,
)

-- Whatever is delivered to a consumer, in whatever order and however often, and whatever the
-- database and the handler do: where the row of a message is marked, its work has been done, and its
-- work has been done at most once where the row is marked and not at all where it is not, but for
-- one more time for each of its deliveries whose handler, if it is called, does the work and reports
-- an error, or does it and has its completion fail without effect.
pub run-empty-IsDone :
    (consumer : String) (ds : List Delivery)
    → IsDone consumer (λ id. dropped id ds) (run consumer ds empty)
run-empty-IsDone consumer ds id =
    ground (arith, run-IsDone consumer ds empty (λ k. 0) (λ k. (omega arith, omega arith)) id)
