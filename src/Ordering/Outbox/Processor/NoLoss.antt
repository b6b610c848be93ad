-- ===== src/Ordering/Outbox/Processor/NoLoss.antt =====
-- internal/ordering/outbox: the captured rows up to a position.
use golang_microservices_eco.Prelude.{
  ◌<◌, ◌≡◌, refl, sym, ap, ◌∙◌, List, [], ◌∷◌, ◌++◌, map, keep, Bool, true, false, arith, All,
  All-map, All-of, All-append, append_assoc, All-left, All-right, inl, inr, Bool-cases, subst,
  length,
}
use golang_microservices_eco.Platform.Messaging.{Envelope}
use golang_microservices_eco.Ordering.Outbox.Lsn.{Lsn, compare, before, lt}
use golang_microservices_eco.Ordering.Outbox.Reader.{Group, ChangeRow, Change, is_insert}
use golang_microservices_eco.Ordering.Outbox.Reader.Grouping.{rows_of_group, rows_of, IsStrict}
use golang_microservices_eco.Ordering.Outbox.Reader.Transactions.{Earlier}
use golang_microservices_eco.Ordering.Outbox.Stores.{World}
use golang_microservices_eco.Ordering.Outbox.Processor.Settled.{settled}
use golang_microservices_eco.Ordering.Outbox.Processor.Progress.{AllSettled, position_after}

All-rows_of_group :
    (P : ChangeRow → Type 0) (lsn : Lsn) (ms : List Envelope)
    → All (λ m. P (record { lsn = lsn; message = m })) ms
    → All P (rows_of_group lsn ms)
All-rows_of_group P lsn [] h = tt
All-rows_of_group P lsn (m ∷ ms) h = (h.0, All-rows_of_group P lsn ms h.1)

All-rows_of :
    (P : ChangeRow → Type 0) (gs : List Group)
    → All (λ g. All (λ m. P (record { lsn = g.lsn; message = m })) g.messages) gs
    → All P (rows_of gs)
All-rows_of P [] h = tt
All-rows_of P (g ∷ gs) h =
    All-append P (rows_of_group g.lsn g.messages) (rows_of gs)
      (All-rows_of_group P g.lsn g.messages h.0) (All-rows_of P gs h.1)

rows_of-append : (gs hs : List Group) → rows_of (gs ++ hs) ≡ rows_of gs ++ rows_of hs
rows_of-append [] hs = refl
rows_of-append (g ∷ gs) hs =
    ap (λ l. rows_of_group g.lsn g.messages ++ l) (rows_of-append gs hs)
    ∙ sym (append_assoc (rows_of_group g.lsn g.messages) (rows_of gs) (rows_of hs))

row_of-group :
    (P : Lsn → Type 0) (lsn : Lsn) (ms : List Envelope) (rest : List ChangeRow)
    → 0 < length ms
    → All (λ r. P r.lsn) (rows_of_group lsn ms ++ rest)
    → P lsn
row_of-group P lsn [] rest n h = absurd (omega arith)
row_of-group P lsn (m ∷ ms) rest n h = h.0

-- What holds at the position of every row holds at the last position.
position_after-row :
    (P : Lsn → Type 0) (old : Lsn) (g : Group) (gs left : List Group)
    → IsStrict (g ∷ gs ++ left)
    → All (λ r. P r.lsn) (rows_of (g ∷ gs))
    → P (position_after old (g ∷ gs))
position_after-row P old g [] left s h = row_of-group P g.lsn g.messages [] s.0 h
position_after-row P old g (g' ∷ gs) left s h =
    position_after-row P g.lsn g' gs left s.2
      (All-right _ (rows_of_group g.lsn g.messages) (rows_of (g' ∷ gs)) h)

-- The groups left are behind the last position that is done.
left-after :
    (old : Lsn) (g : Group) (gs left : List Group)
    → IsStrict (g ∷ gs ++ left)
    → All (λ h. compare (position_after old (g ∷ gs)) h.lsn ≡ lt) left
left-after old g [] left s = s.1
left-after old g (g' ∷ gs) left s = left-after g.lsn g' gs left s.2

-- A row up to the position has its message settled.
abbrev pub CoversRow : Lsn → World → ChangeRow → Type 0
CoversRow position w r = before position r.lsn ≡ false → settled w r.message ≡ true

later-CoversRow :
    (position : Lsn) (w : World) (r : ChangeRow)
    → compare position r.lsn ≡ lt
    → CoversRow position w r
later-CoversRow position w r h k = cc

pub done-covers :
    (w : World) (old : Lsn) (g : Group) (gs left : List Group) (rest : List ChangeRow)
    → IsStrict (g ∷ gs ++ left)
    → All (λ h. AllSettled w h.messages) (g ∷ gs)
    → Earlier (rows_of (g ∷ gs ++ left)) rest
    → All (CoversRow (position_after old (g ∷ gs)) w) (rows_of (g ∷ gs ++ left) ++ rest)
done-covers w old g gs left rest strict done earlier =
    let c = position_after old (g ∷ gs) in
    let split = rows_of-append (g ∷ gs) left in
    let earlier' =
      All-left _ (rows_of (g ∷ gs)) (rows_of left) (subst (λ l. Earlier l rest) split earlier) in
    All-append (CoversRow c w) (rows_of (g ∷ gs ++ left)) rest
      (subst (All (CoversRow c w)) (sym split) (
        All-append (CoversRow c w) (rows_of (g ∷ gs)) (rows_of left)
          (All-map _ _ (rows_of (g ∷ gs)) (λ r h _. h)
            (All-rows_of (λ r. settled w r.message ≡ true) (g ∷ gs) done))
          (All-rows_of (CoversRow c w) left (
            All-map _ _ left
              (λ h later.
                All-of _ h.messages
                  (λ m. later-CoversRow c w (record { lsn = h.lsn; message = m }) later))
              (left-after old g gs left strict)))))
      (All-map _ _ rest (later-CoversRow c w) (
        position_after-row (λ l. All (λ s. compare l s.lsn ≡ lt) rest) old g gs left strict
          earlier'))

-- The captured inserts.
abbrev pub inserts : List Change → List ChangeRow
inserts cs = map (λ c. c.row) (keep is_insert cs)

pub All-unkeep :
    (P : ChangeRow → Type 0) (p : Change → Bool) (cs : List Change)
    → All P (map (λ c. c.row) (keep p cs))
    → All (λ c. p c ≡ true → P c.row) cs
All-unkeep P p [] h = tt
All-unkeep P p (c ∷ cs) h = elim (Bool-cases (p c)) [
  | inl passes ↦ let h' = rw passes at h in ((λ _. h'.0), All-unkeep P p cs h'.1)
  | inr fails ↦ ((λ passes. cc), All-unkeep P p cs (rw fails at h))
]

pub All-rekeep :
    (P : ChangeRow → Type 0) (p : Change → Bool) (cs : List Change)
    → All (λ c. p c ≡ true → P c.row) cs
    → All P (map (λ c. c.row) (keep p cs))
All-rekeep P p [] h = tt
All-rekeep P p (c ∷ cs) h = elim (Bool-cases (p c)) [
  | inl passes ↦ rw passes (h.0 passes, All-rekeep P p cs h.1)
  | inr fails ↦ rw fails (All-rekeep P p cs h.1)
]

pub All-both :
    {A : Type 0} (P Q : A → Type 0) (cs : List A) → All P cs → All Q cs → All (λ c. P c × Q c) cs
All-both P Q [] h k = tt
All-both P Q (c ∷ cs) h k = ((h.0, k.0), All-both P Q cs h.1 k.1)
