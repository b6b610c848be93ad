-- ===== src/Basket/Checkout/Atomic.antt =====
-- internal/basket: the transaction of a checkout, and the messages that it records.
use golang_microservices_eco.Prelude.{
  Write, written, lost, unconfirmed, str_eq, ℕ, ◌≡◌, ◌≢◌, refl, sym, ap, ◌∙◌, String, Bool, true,
  false, Option, none, some, List, [], ◌∷◌, ◌++◌, arith, any, ◌==◌, eq_iff, inl, inr, ◌⊎◌,
  Bool-cases, Option-cases, if◌then◌else◌, subst,
}
use golang_microservices_eco.Platform.Decimal.{Decimal}
use golang_microservices_eco.Platform.Messaging.{Header, Envelope, new_envelope}
use golang_microservices_eco.Platform.Basketv1.{CheckoutSubmitted}
use golang_microservices_eco.Basket.Carts.{ShoppingCart}
use golang_microservices_eco.Basket.Checkout.{
  answered, store, Error, not_found, database, ok, BasketRow, Database, set_basket,
  CheckoutBasketCommand, get_by_user_name, found, record_checkout, clear, checkout, announce,
  prepare, checkout_id,
}

abbrev is_recorded : ℕ → List Envelope → Bool
is_recorded id messages = any (λ m. m.id == id) messages

is_recorded-append :
    (id : ℕ) (ms : List Envelope) (m : Envelope)
    → (m.id == id) ≡ true
    → is_recorded id (ms ++ m ∷ []) ≡ true
is_recorded-append id [] m h = ground arith
is_recorded-append id (x ∷ ms) m h = ground (arith, is_recorded-append id ms m h)

module _ {Amount : Type 0} where
  -- A transaction that went through: there was a basket, it is gone, the other baskets are as they
  -- were, and the announcement is behind the messages that were recorded, unless one of them has its
  -- id, and then they are all there is.
  pub record IsCheckedOut (user_name : String) (announcement : Envelope) (db db' : Database Amount)
      : Type 0 where
    pub row : BasketRow Amount
    pub was_there : db.baskets user_name ≡ some row
    pub cleared : db'.baskets user_name ≡ none
    pub others : (other : String) → other ≢ user_name → db'.baskets other ≡ db.baskets other
    pub announced :
        ((is_recorded announcement.id db.messages ≡ false)
          × (db'.messages ≡ db.messages ++ announcement ∷ []))
        ⊎ ((is_recorded announcement.id db.messages ≡ true) × (db'.messages ≡ db.messages))

  -- How the transaction of a checkout ends: it goes through, it reports an error and has changed
  -- nothing, or its answer was lost, so that it has gone through and reports an error.
  pub data CheckoutEnded (kept : Write) (user_name : String) (announcement : Envelope)
      (db : Database Amount) (end : Option Error × Database Amount) : Type 0 where
    done :
        end.0 ≡ none
        → kept ≡ written
        → IsCheckedOut user_name announcement db end.1
        → CheckoutEnded kept user_name announcement db end
    unchanged : (e : Error) → end ≡ (some e, db) → CheckoutEnded kept user_name announcement db end
    unanswered :
        end.0 ≡ some database
        → kept ≡ unconfirmed
        → IsCheckedOut user_name announcement db end.1
        → CheckoutEnded kept user_name announcement db end

  clear-lem :
      (user_name : String) (announcement : Envelope) (row : BasketRow Amount) (db : Database Amount)
      → db.baskets user_name ≡ some row
      → IsCheckedOut user_name announcement db
          (clear written user_name announcement (some row) db).1
  unfolding clear answered record_checkout
  clear-lem user_name announcement row db there = record {
    row = row;
    was_there = there;
    cleared = ground (arith, eq_iff user_name user_name);
    others = λ other differs. ground (arith, differs, eq_iff other user_name);
    announced = elim (Bool-cases (is_recorded announcement.id db.messages)) [
      | inl known ↦ inr (known, rw known refl)
      | inr new ↦ inl (new, rw new refl)
    ];
  }

  clear-CheckoutEnded :
      (kept : Write) (user_name : String) (announcement : Envelope)
      (row : Option (BasketRow Amount)) (db : Database Amount)
      → db.baskets user_name ≡ row
      → CheckoutEnded kept user_name announcement db (clear kept user_name announcement row db)
  unfolding clear answered
  clear-CheckoutEnded kept user_name announcement none db there =
      unchanged (not_found user_name) refl
  clear-CheckoutEnded written user_name announcement (some row) db there =
      done refl refl (clear-lem user_name announcement row db there)
  clear-CheckoutEnded lost user_name announcement (some row) db there = unchanged database refl
  clear-CheckoutEnded unconfirmed user_name announcement (some row) db there =
      unanswered refl refl (clear-lem user_name announcement row db there)

  -- Whatever the database does, the transaction of a checkout ends in one of three ways. It reports
  -- success and has gone through: there was a basket, it is gone, the other baskets are as they were,
  -- and the announcement is behind the recorded messages, unless one of them has its id, and then
  -- they are unchanged. Or it reports an error and has changed nothing. Or it has gone through in the
  -- same way and reports an error of the database, where the answer to its commit was lost.
  pub checkout-CheckoutEnded :
      (delete_fails : Bool) (kept : Write) (user_name : String) (announcement : Envelope)
      (db : Database Amount)
      → CheckoutEnded kept user_name announcement db
          (checkout delete_fails kept user_name announcement db)
  unfolding checkout
  checkout-CheckoutEnded true kept user_name announcement db = unchanged database refl
  checkout-CheckoutEnded false kept user_name announcement db =
      clear-CheckoutEnded kept user_name announcement (db.baskets user_name) db refl

  no_basket :
      (delete_fails : Bool) (kept : Write) (user_name : String) (announcement : Envelope)
      (db : Database Amount)
      → db.baskets user_name ≡ none
      → (e : Error) × (checkout delete_fails kept user_name announcement db ≡ (some e, db))
  unfolding checkout clear
  no_basket true kept user_name announcement db gone = (database, refl)
  no_basket false kept user_name announcement db gone = (not_found user_name, rw gone refl)

  -- A transaction that reports success has gone through.
  checked_out :
      (delete_fails : Bool) (kept : Write) (user_name : String) (announcement : Envelope)
      (db db' : Database Amount)
      → checkout delete_fails kept user_name announcement db ≡ (none, db')
      → IsCheckedOut user_name announcement db db'
  checked_out delete_fails kept user_name announcement db db' h =
      elim (checkout-CheckoutEnded delete_fails kept user_name announcement db) [
        | done _ _ out ↦ subst (IsCheckedOut user_name announcement db) (ap (λ r. r.1) h) out
        | unchanged e same ↦ cc
        | unanswered failed _ _ ↦ cc
      ]

  -- A second transaction for the same user, after one that went through and with no basket stored
  -- in between, reports an error and changes nothing, whatever it announces.
  pub checkout_again :
      (delete_fails delete_fails' : Bool) (kept kept' : Write) (user_name : String)
      (first second : Envelope) (db db' : Database Amount)
      → checkout delete_fails' kept' user_name first db ≡ (none, db')
      → (e : Error) × (checkout delete_fails kept user_name second db' ≡ (some e, db'))
  checkout_again delete_fails delete_fails' kept kept' user_name first second db db' h =
      no_basket delete_fails kept user_name second db'
        (checked_out delete_fails' kept' user_name first db db' h).cleared

  -- The messages behind a transaction that went through hold the announcement's id.
  announced_id :
      (user_name : String) (announcement : Envelope) (db db' : Database Amount)
      → IsCheckedOut user_name announcement db db'
      → is_recorded announcement.id db'.messages ≡ true
  announced_id user_name announcement db db' out = elim out.announced [
    | inl (new, there) ↦
        ap (is_recorded announcement.id) there
        ∙ is_recorded-append announcement.id db.messages announcement (ground arith)
    | inr (known, same) ↦ ap (is_recorded announcement.id) same ∙ known
  ]

  -- A transaction whose message is recorded already clears the basket that it finds.
  checkout_known :
      (user_name : String) (announcement : Envelope) (row : BasketRow Amount) (db : Database Amount)
      → db.baskets user_name ≡ some row
      → is_recorded announcement.id db.messages ≡ true
      → checkout false written user_name announcement db ≡ (none, set_basket user_name none db)
  unfolding checkout clear answered record_checkout
  checkout_known user_name announcement row db there known = rw there (rw known refl)

module _ {Amount : Type 0} ⦃d : Decimal Amount⦄ (new_sha1 : List ℕ → ℕ)
    (encode : CheckoutSubmitted Amount → Option (List ℕ)) where
  announce-id :
      (header : Header) (c : CheckoutBasketCommand) (cart : ShoppingCart Amount)
      (announcement : Envelope)
      → announce new_sha1 encode header c cart ≡ ok announcement
      → announcement.id ≡ checkout_id new_sha1 c.user_name cart.version
  unfolding announce new_envelope
  announce-id header c cart announcement h = ground arith

  prepare-id :
      (fails : Bool) (header : Header) (c : CheckoutBasketCommand) (db : Database Amount)
      (announcement : Envelope)
      → prepare new_sha1 encode fails header c db ≡ ok announcement
      → (row : BasketRow Amount) × (db.baskets c.user_name ≡ some row)
        × (announcement.id ≡ checkout_id new_sha1 c.user_name row.version)
  unfolding prepare get_by_user_name found
  prepare-id fails header c db announcement h = elim (Bool-cases fails) [
    | inl failed ↦ cc (rw failed at h)
    | inr works ↦ elim (Option-cases (db.baskets c.user_name)) [
      | inl gone ↦ cc (rw (works, gone) at h)
      | inr (row, there) ↦
          (row, there, announce-id header c _ announcement (rw (works, there) at h))
    ]
  ]

  -- Two requests that have read one basket announce one message id, whatever else they carry and
  -- whenever they were sent.
  pub prepare-same :
      (header header' : Header) (c c' : CheckoutBasketCommand) (db : Database Amount)
      (first second : Envelope)
      → c'.user_name ≡ c.user_name
      → prepare new_sha1 encode false header c db ≡ ok first
      → prepare new_sha1 encode false header' c' db ≡ ok second
      → second.id ≡ first.id
  prepare-same header header' c c' db first second e h h' =
      let (row, there, id) = prepare-id false header c db first h in
      let (row', there', id') = prepare-id false header' c' db second h' in
      let same : row' ≡ row = cc in id' ∙ (rw (e, same) (sym id))

  -- Two requests read one basket, the second checks it out, and the user fills the basket again. The
  -- first request's transaction then succeeds and clears the new basket, and no message is recorded
  -- for it: the messages are those behind the second request's transaction.
  pub checkout_late :
      (header header' : Header) (c c' : CheckoutBasketCommand) (fresh : ℕ)
      (cart : ShoppingCart Amount) (db checked_out : Database Amount) (first second : Envelope)
      → c'.user_name ≡ c.user_name
      → cart.user_name ≡ c.user_name
      → prepare new_sha1 encode false header c db ≡ ok first
      → prepare new_sha1 encode false header' c' db ≡ ok second
      → checkout false written c.user_name second db ≡ (none, checked_out)
      → ((checkout false written c.user_name first (store written fresh cart checked_out).1).0
          ≡ none)
        × ((checkout false written c.user_name first
                (store written fresh cart checked_out).1).1.baskets
              c.user_name
            ≡ none)
        × ((checkout false written c.user_name first
              (store written fresh cart checked_out).1).1.messages
            ≡ checked_out.messages)
  unfolding store answered
  checkout_late header header' c c' fresh cart db out first second same own h h' checked =
      let again = (store written fresh cart out).1 in
      let known : is_recorded first.id again.messages ≡ true =
        subst (λ id. is_recorded id out.messages ≡ true)
          (prepare-same header header' c c' db first second same h h')
          (announced_id c.user_name second db out
            (checked_out false written c.user_name second db out checked)) in
      let here : str_eq c.user_name cart.user_name ≡ true =
        (eq_iff c.user_name cart.user_name).1 (sym own) in
      let mine : str_eq c.user_name c.user_name ≡ true = (eq_iff c.user_name c.user_name).1 refl in
      let row : BasketRow Amount = record {
        items = cart.items;
        version = if cart.version == 0 then fresh else cart.version;
      } in
      let late = checkout_known c.user_name first row again (rw here refl) known in
      (
        ap (λ r. r.0) late,
        ap (λ r. r.1.baskets c.user_name) late ∙ rw mine refl,
        ap (λ r. r.1.messages) late,
      )
