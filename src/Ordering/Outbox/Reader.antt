-- ===== src/Ordering/Outbox/Reader.antt =====
-- internal/ordering/outbox/reader.go. The SQL Server behind it is the argument `server`; each of
-- its queries fails where `faults` says so. A batch size is a natural number: a negative one takes
-- the branch of 0.
pub mod Grouping
mod Sorted
pub mod Transactions
pub mod NoGap
use golang_microservices_eco.Prelude.{
  ℕ, ◌+◌, List, [], ◌∷◌, ◌++◌, map, Bool, ◌==◌, ◌&&◌, ltb, if◌then◌else◌, negate, keep, take,
  length,
}
use golang_microservices_eco.Platform.Messaging.{Envelope}
use golang_microservices_eco.Ordering.Outbox.Lsn.{Lsn, is_zero, compare, before, same, is_gt}
use golang_microservices_eco.Ordering.Outbox.Errors.{
  Result, ok, err, batch_size_not_positive, database, not_ready, checkpoint_expired, ◌>>=◌,
}

pub record Group : Type 0 where
  pub lsn : Lsn
  pub messages : List Envelope

-- changeRow.
pub record ChangeRow : Type 0 where
  pub lsn : Lsn
  pub message : Envelope

-- One entry of the change table: a row and the __$operation that wrote it.
pub record Change : Type 0 where
  pub operation : ℕ
  pub row : ChangeRow

-- The change table in the order of __$start_lsn and __$seqval, and the results of fn_cdc_get_min_lsn,
-- fn_cdc_get_max_lsn and fn_cdc_increment_lsn; NULL is the empty LSN.
pub record Server : Type 0 where
  pub changes : List Change
  pub min_lsn : Lsn
  pub max_lsn : Lsn
  pub increment_lsn : Lsn → Lsn

-- Which of the three queries of a read fail.
pub record Faults : Type 0 where
  pub bounds : Bool
  pub page : Bool
  pub transaction : Bool

abbrev pub is_insert : Change → Bool
is_insert c = c.operation == 2

abbrev pub within : Lsn → Lsn → Change → Bool
within from to c = negate (before c.row.lsn from) && negate (before to c.row.lsn)

-- The rows that the query of `changes` selects, with no limit.
unfoldable pub select : Server → Lsn → Lsn → List ChangeRow
select server from to =
    map (λ c. c.row) (keep (λ c. is_insert c && within from to c) server.changes)

-- A limit of zero reads everything in the range.
unfoldable pub changes : Server → Bool → Lsn → Lsn → ℕ → Result (List ChangeRow)
unfolding select
changes server fault from to limit =
    if fault
    then err database
    else ok (if limit == 0 then select server from to else take limit (select server from to))

-- `increment_lsn` is asked for NULL where there is no position.
unfoldable pub next_lsn : Server → Lsn → Lsn
next_lsn server after = server.increment_lsn (if is_zero after then [] else after)

-- The loop body of groupByLSN: `groups[last]` is the last group.
unfoldable pub push_row : List Group → ChangeRow → List Group
push_row [] row = record { lsn = row.lsn; messages = row.message ∷ [] } ∷ []
push_row (g ∷ []) row =
    if same g.lsn row.lsn
    then record g { messages = g.messages ++ row.message ∷ [] } ∷ []
    else g ∷ record { lsn = row.lsn; messages = row.message ∷ [] } ∷ []
push_row (g ∷ h ∷ gs) row = g ∷ push_row (h ∷ gs) row

unfoldable pub group_from : List Group → List ChangeRow → List Group
group_from groups [] = groups
group_from groups (row ∷ rows) = group_from (push_row groups row) rows

unfoldable pub group_by_lsn : List ChangeRow → List Group
unfolding group_from push_row
group_by_lsn rows = group_from [] rows

-- `rows[len(rows)-1].lsn`; the caller has rows.
unfoldable pub last_lsn : List ChangeRow → Lsn
last_lsn [] = []
last_lsn (row ∷ []) = row.lsn
last_lsn (row ∷ next ∷ rows) = last_lsn (next ∷ rows)

abbrev pub is_not_at : Lsn → ChangeRow → Bool
is_not_at lsn row = negate (same row.lsn lsn)

-- One transaction that fills the whole page and more is fetched whole.
unfoldable pub drop_partial : Server → Bool → Lsn → List ChangeRow → Result (List ChangeRow)
unfolding changes
drop_partial server fault lsn [] = changes server fault lsn lsn 0
drop_partial server fault lsn (row ∷ kept) = ok (row ∷ kept)

-- What Read does once it knows where to start: the rows of the batch.
unfoldable pub read_page : Server → Faults → Lsn → ℕ → Result (List ChangeRow)
read_page server faults from batch_size = do
  rows ← changes server faults.page from server.max_lsn (batch_size + 1)
  if ltb batch_size (length rows)
      then drop_partial server faults.transaction (last_lsn rows)
          (keep (is_not_at (last_lsn rows)) rows)
      else ok rows

abbrev pub start_of : Server → Lsn → Lsn
start_of server after = if is_zero after then server.min_lsn else next_lsn server after

-- What Read does behind its checks.
unfoldable pub read_range : Server → Faults → Lsn → ℕ → Result (List Group)
read_range server faults from batch_size =
    if is_gt (compare from server.max_lsn)
    then ok []
    else do rows ← read_page server faults from batch_size; ok (group_by_lsn rows)

-- Read: the groups of the batch.
unfoldable pub read : Server → Faults → Lsn → ℕ → Result (List Group)
read server faults after batch_size =
    if batch_size == 0
    then err batch_size_not_positive
    else if faults.bounds
    then err database
    else if is_zero server.max_lsn
    then err not_ready
    else if is_zero server.min_lsn
    then err not_ready
    else if negate (is_zero after) && before (next_lsn server after) server.min_lsn
    then err (checkpoint_expired after server.min_lsn)
    else read_range server faults (start_of server after) batch_size
