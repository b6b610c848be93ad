-- ===== src/Discount/Answers.antt =====
-- internal/discount: what GetDiscount answers behind the writes of the service.
use golang_microservices_eco.Prelude.{
  Write, written, lost, unconfirmed, ◌∙◌, String, ℤ, Bool, true, false, ◌≡◌, refl, Option, none,
  some, sym, ap, if◌then◌else◌, str_eq, Fallible, ok, err, eq_iff,
}
use golang_microservices_eco.Discount.{
  Coupon, Row, RepositoryError, found, insert, replace, remove, served, row_of, Code, CouponModel,
  Coupons, create, update, delete, by_product_name, from_model, to_model, no_discount, answer,
  answer_deleted, discount_of, get_discount, create_discount, update_discount, delete_discount,
}

-- A write whose answer arrives.
abbrev pub heard : Write → Write
heard unconfirmed = written
heard lost = lost
heard written = written

-- What GetDiscount answers for a name behind a write with this answer, where it answered `before`.
abbrev pub described :
    Fallible Code CouponModel → String → Fallible Code CouponModel → Fallible Code CouponModel
described (err code) name before = before
described (ok model) name before = if str_eq model.product_name name then ok model else before

abbrev pub cleared :
    Fallible Code String → String → String → Fallible Code CouponModel → Fallible Code CouponModel
cleared (err code) product_name name before = before
cleared (ok success) product_name name before =
    if str_eq product_name name then ok (to_model no_discount) else before

answer-after : (r : Fallible RepositoryError Coupon × Coupons) → (answer r).1 ≡ r.1
unfolding answer
answer-after (ok coupon, db) = refl
answer-after (err cause, db) = refl

answer_deleted-after : (r : Fallible RepositoryError String × Coupons) → (answer_deleted r).1 ≡ r.1
unfolding answer_deleted
answer_deleted-after (ok success, db) = refl
answer_deleted-after (err cause, db) = refl

found-coupon :
    (b : Bool) (id : ℤ) (coupon : Coupon) (name : String) (row : Option Row)
    → (b ≡ true → coupon.product_name ≡ name)
    → discount_of (found name (if b then some (row_of id coupon) else row))
      ≡ (if b then ok (to_model (record coupon { id = id })) else discount_of (found name row))
unfolding discount_of found to_model
found-coupon true id coupon name row same =
    ap (λ n. ok (to_model (record coupon { id = id; product_name = n }))) (sym (same refl))
found-coupon false id coupon name row same = refl

found-none :
    (b : Bool) (name : String) (row : Option Row)
    → discount_of (found name (if b then none else row))
      ≡ (if b then ok (to_model no_discount) else discount_of (found name row))
unfolding discount_of found
found-none true name row = refl
found-none false name row = refl

insert-described :
    (id : ℤ) (coupon : Coupon) (name : String) (row : Option Row) (db : Coupons)
    → get_discount false name (answer (insert id coupon row db)).1
      ≡ described (answer (insert id coupon row db)).0 name (get_discount false name db)
unfolding insert answer get_discount by_product_name to_model
insert-described id coupon name (some row) db = refl
insert-described id coupon name none db =
    found-coupon (str_eq coupon.product_name name) id coupon name (db name)
      (eq_iff coupon.product_name name).0

replace-described :
    (coupon : Coupon) (name : String) (row : Option Row) (db : Coupons)
    → get_discount false name (answer (replace coupon row db)).1
      ≡ described (answer (replace coupon row db)).0 name (get_discount false name db)
unfolding replace answer get_discount by_product_name to_model
replace-described coupon name none db = refl
replace-described coupon name (some row) db =
    found-coupon (str_eq coupon.product_name name) row.id coupon name (db name)
      (eq_iff coupon.product_name name).0

served-described :
    (request : Fallible Code Coupon)
    (write write' : Coupon → Fallible RepositoryError Coupon × Coupons) (name : String)
    (db : Coupons)
    → ((coupon : Coupon)
        → get_discount false name (answer (write coupon)).1
          ≡ described (answer (write' coupon)).0 name (get_discount false name db))
    → get_discount false name (served request write db).1
      ≡ described (served request write' db).0 name (get_discount false name db)
unfolding served
served-described (err code) write write' name db works = refl
served-described (ok coupon) write write' name db works = works coupon

create-described :
    (kept : Write) (id : ℤ) (coupon : Coupon) (name : String) (db : Coupons)
    → get_discount false name (answer (create kept id coupon db)).1
      ≡ described (answer (create (heard kept) id coupon db)).0 name (get_discount false name db)
unfolding create answer
create-described lost id coupon name db = refl
create-described written id coupon name db =
    insert-described id coupon name (db coupon.product_name) db
create-described unconfirmed id coupon name db =
    ap (get_discount false name) (sym (answer-after (insert id coupon (db coupon.product_name) db)))
    ∙ insert-described id coupon name (db coupon.product_name) db

update-described :
    (kept : Write) (coupon : Coupon) (name : String) (db : Coupons)
    → get_discount false name (answer (update kept coupon db)).1
      ≡ described (answer (update (heard kept) coupon db)).0 name (get_discount false name db)
unfolding update answer
update-described lost coupon name db = refl
update-described written coupon name db = replace-described coupon name (db coupon.product_name) db
update-described unconfirmed coupon name db =
    ap (get_discount false name) (sym (answer-after (replace coupon (db coupon.product_name) db)))
    ∙ replace-described coupon name (db coupon.product_name) db

remove-cleared :
    (product_name name : String) (row : Option Row) (db : Coupons)
    → get_discount false name (answer_deleted (remove product_name row db)).1
      ≡ cleared
          (answer_deleted (remove product_name row db)).0
          product_name
          name
          (get_discount false name db)
unfolding remove answer_deleted get_discount by_product_name
remove-cleared product_name name none db = refl
remove-cleared product_name name (some row) db =
    found-none (str_eq product_name name) name (db name)

delete-cleared :
    (kept : Write) (product_name name : String) (db : Coupons)
    → get_discount false name (delete_discount kept product_name db).1
      ≡ cleared
          (delete_discount (heard kept) product_name db).0
          product_name
          name
          (get_discount false name db)
unfolding delete_discount delete answer_deleted
delete-cleared lost product_name name db = refl
delete-cleared written product_name name db = remove-cleared product_name name (db product_name) db
delete-cleared unconfirmed product_name name db =
    ap (get_discount false name)
      (sym (answer_deleted-after (remove product_name (db product_name) db)))
    ∙ remove-cleared product_name name (db product_name) db

-- Behind CreateDiscount, UpdateDiscount and DeleteDiscount, whatever the request and whatever becomes
-- of the write, GetDiscount answers for the product that was written what the write answers, for the
-- product that was deleted the coupon without a discount, and for every other product, and behind a
-- call that answers an error, what it answered before. Where the write was applied and its answer
-- lost, this holds of the answer that would have come: then GetDiscount shows the write although
-- the call reports an error.
pub get_discount-described :
    (kept : Write) (id : ℤ) (model : Option CouponModel) (product_name name : String) (db : Coupons)
    → (get_discount false name (create_discount kept id model db).1
        ≡ described (create_discount (heard kept) id model db).0 name (get_discount false name db))
      × (get_discount false name (update_discount kept model db).1
          ≡ described (update_discount (heard kept) model db).0 name (get_discount false name db))
      × (get_discount false name (delete_discount kept product_name db).1
          ≡ cleared
              (delete_discount (heard kept) product_name db).0
              product_name
              name
              (get_discount false name db))
unfolding create_discount update_discount
get_discount-described kept id model product_name name db = (
  served-described (from_model model) (λ coupon. create kept id coupon db)
      (λ coupon. create (heard kept) id coupon db) name db
      (λ coupon. create-described kept id coupon name db),
  served-described (from_model model) (λ coupon. update kept coupon db)
      (λ coupon. update (heard kept) coupon db) name db
      (λ coupon. update-described kept coupon name db),
  delete-cleared kept product_name name db,
)
