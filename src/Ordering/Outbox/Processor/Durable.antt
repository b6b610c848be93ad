-- ===== src/Ordering/Outbox/Processor/Durable.antt =====
-- internal/ordering/outbox: the checkpoint and the captured rows over a cycle of the worker.
use golang_microservices_eco.Prelude.{
  ◌≡◌, refl, sym, List, [], ◌∷◌, ◌++◌, true, false, All, All-map, All-of, inl, inr, Bool-cases,
  subst, ◌⊎◌, ◌&&◌, if◌then◌else◌,
}
use golang_microservices_eco.Platform.Messaging.{Envelope}
use golang_microservices_eco.Ordering.Outbox.Lsn.{Lsn, is_zero, before}
use golang_microservices_eco.Ordering.Outbox.Errors.{Result, ok, err}
use golang_microservices_eco.Ordering.Outbox.Reader.{Group, Change, is_insert, read}
use golang_microservices_eco.Ordering.Outbox.Reader.Grouping.{rows_of, IsStrict}
use golang_microservices_eco.Ordering.Outbox.Reader.Transactions.{IsCut, Earlier}
use golang_microservices_eco.Ordering.Outbox.Reader.NoGap.{
  IsDocumented, unread, read-IsCut, read-IsStrict,
}
use golang_microservices_eco.Ordering.Outbox.Stores.{
  Env, World, and_then, next_call, idle, processed, load, read_batch,
}
use golang_microservices_eco.Ordering.Outbox.Processor.{
  Options, process_batch, process_groups, process_once,
}
use golang_microservices_eco.Ordering.Outbox.Processor.Settled.{settled}
use golang_microservices_eco.Ordering.Outbox.Processor.Progress.{
  AllSettled, checkpoint_of, position_after, process_groups-Progress,
}
use golang_microservices_eco.Ordering.Outbox.Processor.NoLoss.{
  CoversRow, done-covers, inserts, All-unkeep, All-rekeep, All-both,
}

module _ (env : Env) (options : Options) where
  -- There is no checkpoint yet, or every captured insert up to it is settled.
  abbrev pub Covered : World → Type 0
  Covered w =
      (is_zero (checkpoint_of env options w) ≡ true)
      ⊎ All (CoversRow (checkpoint_of env options w) w) (inserts env.server.changes)

  module _ (w w' : World) (stays : (m : Envelope) → settled w m ≡ true → settled w' m ≡ true) where
    old_rows :
        Covered w
        → All
            (λ c.
              is_zero (checkpoint_of env options w) ≡ false
              → is_insert c ≡ true
              → CoversRow (checkpoint_of env options w) w' c.row)
            env.server.changes
    old_rows (inl zero) = All-of _ env.server.changes (λ c nonzero. cc)
    old_rows (inr all) =
        All-map _ _ env.server.changes (λ c h _ i k. stays c.row.message (h i k))
          (All-unkeep _ is_insert env.server.changes all)

    -- What was settled before and what the batch has settled are all there is.
    join_rows :
        (position : Lsn)
        → Covered w
        → All (CoversRow position w') (unread env.server (checkpoint_of env options w))
        → All (CoversRow position w') (inserts env.server.changes)
    join_rows position covered fresh = All-rekeep _ is_insert env.server.changes (
        All-map _ _ env.server.changes point (
          All-both _ _ env.server.changes (All-unkeep _ _ env.server.changes fresh)
            (old_rows covered)))
      where
        old : Lsn
        old = checkpoint_of env options w

        point :
            (c : Change)
            → ((is_insert c && (if is_zero old then true else before old c.row.lsn)) ≡ true
                → CoversRow position w' c.row)
              × (is_zero old ≡ false → is_insert c ≡ true → CoversRow old w' c.row)
            → is_insert c ≡ true
            → CoversRow position w' c.row
        point c h i = elim (Bool-cases (is_zero old)) [
          | inl zero ↦ h.0 (rw (i, zero) refl)
          | inr nonzero ↦ elim (Bool-cases (before old c.row.lsn)) [
            | inl later ↦ h.0 (rw (i, nonzero, later) refl)
            | inr earlier ↦ (λ _. h.1 nonzero i earlier)
          ]
        ]

    done_rows :
        (groups done left : List Group)
        → groups ≡ done ++ left
        → All (λ g. AllSettled w' g.messages) done
        → checkpoint_of env options w' ≡ position_after (checkpoint_of env options w) done
        → IsStrict groups
        → IsCut (unread env.server (checkpoint_of env options w)) (rows_of groups)
        → Covered w
        → Covered w'
    done_rows groups [] left e settled_done moved strict cut (inl zero) = inl (rw moved zero)
    done_rows groups [] left e settled_done moved strict cut (inr all) =
        inr
          (rw moved (All-map _ _ (inserts env.server.changes) (λ r h k. stays r.message (h k)) all))
    done_rows groups (g ∷ gs) left e settled_done moved strict cut covered =
        let old = checkpoint_of env options w in
        let position = position_after old (g ∷ gs) in
        let fresh =
          done-covers w' old g gs left cut.rest (subst IsStrict e strict) settled_done
            (subst (λ l. Earlier (rows_of l) cut.rest) e cut.whole) in
        let fresh' =
          subst (λ l. All (CoversRow position w') (rows_of l ++ cut.rest)) (sym e) fresh in
        inr (
          rw moved (
            join_rows position covered
              (subst (All (CoversRow position w')) (sym cut.splits) fresh')))

  process_batch-Covered :
      (groups : List Group) (w : World)
      → IsStrict groups
      → IsCut (unread env.server (checkpoint_of env options w)) (rows_of groups)
      → Covered w
      → Covered (process_batch env options groups w).1
  unfolding process_batch
  process_batch-Covered [] w strict cut covered = covered
  process_batch-Covered (g ∷ gs) w strict cut covered =
      let started : World = record w { result = record (w.result) { status = processed } } in
      let p = process_groups-Progress env options (g ∷ gs) started in
      done_rows w (process_groups env options (g ∷ gs) started).1 p.settled_stays (g ∷ gs) p.done
        p.left p.splits p.settled_done p.checkpoint strict cut covered

  module _ (documented : IsDocumented env.server) where
    after_read :
        (w v : World) (r : Result (List Group))
        → read env.server (env.read_faults v.calls) (checkpoint_of env options w) options.batch_size
          ≡ r
        → checkpoint_of env options v ≡ checkpoint_of env options w
        → Covered v
        → Covered (and_then (r, next_call v) (process_batch env options)).1
    after_read w v (err e) h same covered = covered
    after_read w v (ok groups) h same covered =
        process_batch-Covered groups (next_call v)
          (read-IsStrict env.server _ documented (env.read_faults v.calls) options.batch_size groups
            h)
          (subst (λ l. IsCut (unread env.server l) (rows_of groups)) (sym same)
            (read-IsCut env.server _ documented (env.read_faults v.calls) options.batch_size groups
              h))
          covered

    -- On a server that behaves as documented, a cycle of the worker keeps this, whatever it meets of
    -- failing queries, refusals and lost answers of the broker and a cancelled context, and however
    -- it ends: unless there is no checkpoint, every captured insert up to the checkpoint has been
    -- accepted by the broker or has been given up on.
    pub process_once-Covered : (w : World) → Covered w → Covered (process_once env options w).1
    unfolding process_once load read_batch
    process_once-Covered w covered =
        let started : World = record w {
          result = record { status = idle; published = 0; poisoned = 0 };
        } in
        elim (Bool-cases (env.database_fails w.calls)) [
          | inl fails ↦ rw fails covered
          | inr works ↦ rw works (after_read w (next_call started) _ refl refl covered)
        ]
