-- ===== src/Platform/Inbox.antt =====
-- internal/platform/messaging/inbox/inbox.go over the table of internal/ordering/mssql/inbox.go. A
-- delivery carries what its calls meet: which queries fail, and what becomes of the handler's work,
-- which may be done although the handler reports an error. One delivery runs at a time. `handled` logs
-- the ids of the messages whose work was done, once for each time.
pub mod Once
use golang_microservices_eco.Prelude.{
  Write, written, lost, unconfirmed, ℕ, String, Bool, true, false, Option, none, some, List, [],
  ◌∷◌, ◌==◌, ◌&&◌, if◌then◌else◌, str_eq, negate,
}

pub data Error : Type 0 where
  without_id database handler : Error

pub record Delivery : Type 0 where
  pub message_id : ℕ
  pub claim_fails : Bool
  pub state_fails : Bool
  pub work : Write
  pub completion : Write

-- A row of InboxMessages is there or not, and processed or not.
pub record Inbox : Type 0 where
  pub rows : ℕ → String → Option Bool
  pub handled : List ℕ

abbrev set_row : ℕ → String → Bool → Inbox → Inbox
set_row id consumer processed s = record s {
  rows = λ other name.
      if (other == id) && str_eq name consumer then some processed else s.rows other name;
}

-- Begin: the claim or the error, and the table.
unfoldable pub begin : Bool → Bool → ℕ → String → Inbox → Option Bool × Inbox
begin claim_fails state_fails id consumer s =
    if claim_fails then (none, s) else elim (s.rows id consumer) [
      | none ↦ (some true, set_row id consumer false s)
      | some processed ↦ if state_fails then (none, s) else (some (negate processed), s)
    ]

-- The UPDATE of Complete.
unfoldable pub mark : ℕ → String → Option Bool → Inbox → Inbox
mark id consumer none s = s
mark id consumer (some processed) s = set_row id consumer true s

unfoldable pub complete : Write → ℕ → String → Inbox → Option Error × Inbox
unfolding mark
complete written id consumer s = (none, mark id consumer (s.rows id consumer) s)
complete lost id consumer s = (some database, s)
complete unconfirmed id consumer s = (some database, mark id consumer (s.rows id consumer) s)

-- The handler's work, and what Idempotent does with its answer.
unfoldable pub after_work : String → Delivery → Write → Inbox → Option Error × Inbox
unfolding complete
after_work consumer d written s =
    complete d.completion d.message_id consumer (record s { handled = d.message_id ∷ s.handled })
after_work consumer d lost s = (some handler, s)
after_work consumer d unconfirmed s =
    (some handler, record s { handled = d.message_id ∷ s.handled })

-- What Idempotent does with the answer of Begin.
unfoldable pub after_begin : String → Delivery → Option Bool → Inbox → Option Error × Inbox
unfolding after_work
after_begin consumer d none s = (some database, s)
after_begin consumer d (some false) s = (none, s)
after_begin consumer d (some true) s = after_work consumer d d.work s

-- The delivery that Idempotent makes of the handler: nothing is an acknowledgement.
unfoldable pub idempotent : String → Delivery → Inbox → Option Error × Inbox
unfolding begin after_begin
idempotent consumer d s =
    if d.message_id == 0
    then (some without_id, s)
    else let (claimed, t) = begin d.claim_fails d.state_fails d.message_id consumer s in
      after_begin consumer d claimed t
