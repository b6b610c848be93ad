-- ===== src/Ordering/Outbox/Processor/Progress.antt =====
-- internal/ordering/outbox/processor.go: how far a batch moves the checkpoint.
use golang_microservices_eco.Prelude.{
  ◌≡◌, refl, ap, ◌∙◌, List, [], ◌∷◌, ◌++◌, Bool, true, false, arith, String, eq_iff, if◌then◌else◌,
  All, All-map,
}
use golang_microservices_eco.Platform.Messaging.{Envelope}
use golang_microservices_eco.Ordering.Outbox.Lsn.{Lsn}
use golang_microservices_eco.Ordering.Outbox.Errors.{Error, Result, ok, err}
use golang_microservices_eco.Ordering.Outbox.Reader.{Group}
use golang_microservices_eco.Ordering.Outbox.Stores.{
  Env, World, pure, and_then, ◌>>◌, Ensures, Ensures-bind, lookup_checkpoint, upsert_checkpoint,
  save, check_context, faulted,
}
use golang_microservices_eco.Ordering.Outbox.Processor.{
  Options, publish, process_messages, process_groups, set_status,
}
use golang_microservices_eco.Ordering.Outbox.Processor.Settled.{
  settled, Keeps, Keeps-refl, Keeps-trans, publish-settled, process_messages-Keeps,
}

lookup-upsert_checkpoint :
    (consumer : String) (lsn : Lsn) (rows : List (String × Lsn))
    → lookup_checkpoint consumer (upsert_checkpoint consumer lsn rows) ≡ lsn
unfolding lookup_checkpoint upsert_checkpoint
lookup-upsert_checkpoint consumer lsn [] = ground (arith, eq_iff consumer consumer)
lookup-upsert_checkpoint consumer lsn ((name, old) ∷ rows) =
    ground (arith, lookup-upsert_checkpoint consumer lsn rows)

abbrev pub AllSettled : World → List Envelope → Type 0
AllSettled w = All (λ m. settled w m ≡ true)

AllSettled-Keeps :
    {w w' : World} (ms : List Envelope) → Keeps w w' → AllSettled w ms → AllSettled w' ms
AllSettled-Keeps ms k = All-map _ _ ms (λ m h. k.settled_stays m h)

module _ (env : Env) (options : Options) where
  abbrev pub checkpoint_of : World → Lsn
  checkpoint_of w = lookup_checkpoint options.consumer_name w.checkpoints

  process_messages-settled :
      (messages : List Envelope) (w : World)
      → Ensures
          (λ handled v. handled ≡ true → AllSettled v messages)
          (process_messages env options messages w)
  unfolding process_messages
  process_messages-settled [] w = record { holds = λ b h t. tt }
  process_messages-settled (message ∷ messages) w =
      Ensures-bind (λ _ v. Unit {0}) _ (check_context env) _ w (record { holds = λ _ h. tt })
        λ _ v _.
          Ensures-bind (λ handled u. handled ≡ true → settled u message ≡ true) _
            (publish env options message) _ v
            (record { holds = λ handled h t. publish-settled env options message v (h ∙ ap ok t) })
            λ handled u sent. rest (process_messages-settled messages) handled u sent
    where
      rest :
          ((u : World)
            → Ensures
                (λ handled v. handled ≡ true → AllSettled v messages)
                (process_messages env options messages u))
          → (b : Bool) (u : World) → (b ≡ true → settled u message ≡ true)
          → Ensures
              (λ handled v. handled ≡ true → AllSettled v (message ∷ messages))
              ((if b then process_messages env options messages else pure false) u)
      rest ih true u sent = record {
        holds = λ handled h t. (
          (process_messages-Keeps env options messages u).settled_stays message (sent refl),
          (ih u).holds handled h t,
        );
      }
      rest ih false u sent = record { holds = λ handled h t. cc }

-- The position behind the groups that are done.
abbrev pub position_after : Lsn → List Group → Lsn
position_after old [] = old
position_after old (g ∷ gs) = position_after g.lsn gs

module _ (env : Env) (options : Options) where
  -- What the loop over the groups has done by the time it stops, for whatever reason.
  pub record Progress (w w' : World) (groups : List Group) : Type 0 where
    pub done : List Group
    pub left : List Group
    pub splits : groups ≡ done ++ left
    pub settled_done : All (λ g. AllSettled w' g.messages) done
    pub checkpoint :
        checkpoint_of env options w' ≡ position_after (checkpoint_of env options w) done
    pub settled_stays : (m : Envelope) → settled w m ≡ true → settled w' m ≡ true

  Progress-none : (w w' : World) (groups : List Group) → Keeps w w' → Progress w w' groups
  Progress-none w w' groups k = record {
    done = [];
    left = groups;
    splits = refl;
    settled_done = tt;
    checkpoint = ap (lookup_checkpoint options.consumer_name) k.checkpoints;
    settled_stays = k.settled_stays;
  }

  -- What saving a position does: the checkpoint moves there, or the save fails and it stays.
  record Saves (v : World) (lsn : Lsn) (r : Result (Unit {0}) × World) : Type 0 where
    moved : r.0 ≡ ok tt → checkpoint_of env options r.1 ≡ lsn
    kept : (e : Error) → r.0 ≡ err e → r.1.checkpoints ≡ v.checkpoints
    settled_stays : (m : Envelope) → settled v m ≡ true → settled r.1 m ≡ true

  save-Saves : (lsn : Lsn) (v : World) → Saves v lsn (save env options.consumer_name lsn v)
  unfolding save
  save-Saves lsn v = record {
    moved = λ h. ground (arith, lookup-upsert_checkpoint options.consumer_name lsn v.checkpoints);
    kept = λ e h. ground arith;
    settled_stays = λ m h. ground arith;
  }

  module _ (group : Group) (groups : List Group) (w : World) where
    after_save :
        (v : World) (r : Result (Unit {0}) × World)
        → Keeps w v
        → AllSettled v group.messages
        → Saves v group.lsn r
        → ((u : World) → Progress u (process_groups env options groups u).1 groups)
        → Progress w (and_then r (λ _. process_groups env options groups)).1 (group ∷ groups)
    after_save v (err e, u) k s saves ih = Progress-none w u (group ∷ groups) (
        Keeps-trans k
          (record { checkpoints = saves.kept e refl; settled_stays = saves.settled_stays }))
    after_save v (ok tt, u) k s saves ih =
        let later = ih u in
        let stays = λ (m : Envelope) (h : settled v m ≡ true).
          later.settled_stays m (saves.settled_stays m h) in
        record {
          done = group ∷ later.done;
          left = later.left;
          splits = ap (λ gs. group ∷ gs) later.splits;
          settled_done = (All-map _ _ group.messages stays s, later.settled_done);
          checkpoint = later.checkpoint ∙ ap (λ l. position_after l later.done) (saves.moved refl);
          settled_stays = λ m h. stays m (k.settled_stays m h);
        }

    after_messages :
        (r : Result Bool × World)
        → Keeps w r.1
        → Ensures (λ handled v. handled ≡ true → AllSettled v group.messages) r
        → ((u : World) → Progress u (process_groups env options groups u).1 groups)
        → Progress w
            (and_then r (λ handled.
              if handled
              then (save env options.consumer_name group.lsn >> process_groups env options groups)
              else set_status faulted)).1
            (group ∷ groups)
    after_messages (err e, v) k s ih = Progress-none w v (group ∷ groups) k
    after_messages (ok false, v) k s ih =
        Progress-none w _ (group ∷ groups)
          (Keeps-trans k (record { checkpoints = refl; settled_stays = λ m h. h }))
    after_messages (ok true, v) k s ih =
        after_save v (save env options.consumer_name group.lsn v) k (s.holds true refl refl)
          (save-Saves group.lsn v) ih

  -- Whatever the environment does, the loop over the groups moves the checkpoint over whole groups
  -- only, each of which has all its messages accepted by the broker or given up on.
  pub process_groups-Progress :
      (groups : List Group) (w : World) → Progress w (process_groups env options groups w).1 groups
  unfolding process_groups
  process_groups-Progress [] w = Progress-none w w [] (Keeps-refl w)
  process_groups-Progress (group ∷ groups) w =
      after_messages group groups w (process_messages env options group.messages w)
        (process_messages-Keeps env options group.messages w)
        (process_messages-settled env options group.messages w) (process_groups-Progress groups)
