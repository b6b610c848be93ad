-- ===== src/Discount.antt =====
-- internal/discount: the service of internal/discount/grpcserver/server.go over the table of
-- internal/discount/sqlite. The unique index makes the table a map from product names; the id that
-- AUTOINCREMENT draws, whether a read fails and what becomes of a write are arguments. The texts of errors are left
-- out.
pub mod Answers
use golang_microservices_eco.Prelude.{
  Write, written, lost, unconfirmed, String, ℤ, Bool, true, false, pos, Option, none, some,
  if◌then◌else◌, is_empty, str_eq, Fallible, ok, err, ◌>>=◌,
}

pub record Coupon : Type 0 where
  pub id : ℤ
  pub product_name : String
  pub description : String
  pub amount : ℤ

unfoldable pub no_discount : Coupon
no_discount = record {
  id = pos 0;
  product_name = "No Discount";
  description = "No Discount Desc";
  amount = pos 0;
}

-- A row of coupons, behind its product name.
pub record Row : Type 0 where
  pub id : ℤ
  pub description : String
  pub amount : ℤ

abbrev pub Coupons : Type 0
Coupons = String → Option Row

abbrev pub set_row : String → Option Row → Coupons → Coupons
set_row product_name row db name = if str_eq product_name name then row else db name

-- What a repository reports: apperr.NotFound, apperr.Conflict or another error.
pub data RepositoryError : Type 0 where
  missing conflict database : RepositoryError

abbrev coupon_of : String → Row → Coupon
coupon_of product_name row = record {
  id = row.id;
  product_name = product_name;
  description = row.description;
  amount = row.amount;
}

-- What the SELECT by a product name finds.
unfoldable pub found : String → Option Row → Fallible RepositoryError Coupon
found product_name none = err missing
found product_name (some row) = ok (coupon_of product_name row)

unfoldable pub by_product_name : Bool → String → Coupons → Fallible RepositoryError Coupon
unfolding found
by_product_name true product_name db = err database
by_product_name false product_name db = found product_name (db product_name)

abbrev pub row_of : ℤ → Coupon → Row
row_of id coupon = record { id = id; description = coupon.description; amount = coupon.amount }

-- A statement that was executed, with an error in place of its answer.
abbrev unheard :
    {A : Type 0} → Fallible RepositoryError A × Coupons → Fallible RepositoryError A × Coupons
unheard (result, after) = (err database, after)

-- The INSERT, where the unique index has a row of the product's or none.
unfoldable pub insert :
    ℤ → Coupon → Option Row → Coupons → Fallible RepositoryError Coupon × Coupons
insert id coupon (some row) db = (err conflict, db)
insert id coupon none db =
    (ok (record coupon { id = id }), set_row coupon.product_name (some (row_of id coupon)) db)

unfoldable pub create : Write → ℤ → Coupon → Coupons → Fallible RepositoryError Coupon × Coupons
unfolding insert
create lost id coupon db = (err database, db)
create written id coupon db = insert id coupon (db coupon.product_name) db
create unconfirmed id coupon db = unheard (insert id coupon (db coupon.product_name) db)

unfoldable pub replace : Coupon → Option Row → Coupons → Fallible RepositoryError Coupon × Coupons
replace coupon none db = (err missing, db)
replace coupon (some row) db = (
  ok (record coupon { id = row.id }),
  set_row coupon.product_name (some (row_of row.id coupon)) db,
)

unfoldable pub update : Write → Coupon → Coupons → Fallible RepositoryError Coupon × Coupons
unfolding replace
update lost coupon db = (err database, db)
update written coupon db = replace coupon (db coupon.product_name) db
update unconfirmed coupon db = unheard (replace coupon (db coupon.product_name) db)

unfoldable pub remove : String → Option Row → Coupons → Fallible RepositoryError String × Coupons
remove product_name none db = (err missing, db)
remove product_name (some row) db = (ok "true", set_row product_name none db)

-- Delete; the answer is lost also where RowsAffected fails.
unfoldable pub delete : Write → String → Coupons → Fallible RepositoryError String × Coupons
unfolding remove
delete lost product_name db = (err database, db)
delete written product_name db = remove product_name (db product_name) db
delete unconfirmed product_name db = unheard (remove product_name (db product_name) db)

-- The codes of gRPC that the service answers.
pub data Code : Type 0 where
  not_found already_exists invalid_argument internal : Code

unfoldable pub fail : RepositoryError → Code
fail missing = not_found
fail conflict = already_exists
fail database = internal

-- The message of the contract, with its spelling.
pub record CouponModel : Type 0 where
  pub id : ℤ
  pub product_name : String
  pub desciption : String
  pub amount : ℤ

unfoldable pub to_model : Coupon → CouponModel
to_model coupon = record {
  id = coupon.id;
  product_name = coupon.product_name;
  desciption = coupon.description;
  amount = coupon.amount;
}

unfoldable pub from_model : Option CouponModel → Fallible Code Coupon
from_model none = err invalid_argument
from_model (some model) =
    if is_empty model.product_name
    then err invalid_argument
    else ok (record {
      id = model.id;
      product_name = model.product_name;
      description = model.desciption;
      amount = model.amount;
    })

-- GetDiscount behind its query.
unfoldable pub discount_of : Fallible RepositoryError Coupon → Fallible Code CouponModel
unfolding fail to_model no_discount
discount_of (ok coupon) = ok (to_model coupon)
discount_of (err missing) = ok (to_model no_discount)
discount_of (err conflict) = err (fail conflict)
discount_of (err database) = err (fail database)

unfoldable pub get_discount : Bool → String → Coupons → Fallible Code CouponModel
unfolding discount_of by_product_name
get_discount fails product_name db = discount_of (by_product_name fails product_name db)

-- What the service answers to a write that the repository answered.
unfoldable pub answer :
    Fallible RepositoryError Coupon × Coupons → Fallible Code CouponModel × Coupons
unfolding fail to_model
answer (err cause, db) = (err (fail cause), db)
answer (ok coupon, db) = (ok (to_model coupon), db)

-- A request is refused, or its coupon is written.
unfoldable pub served :
    Fallible Code Coupon
    → (Coupon → Fallible RepositoryError Coupon × Coupons)
    → Coupons
    → Fallible Code CouponModel × Coupons
unfolding answer
served (err code) write db = (err code, db)
served (ok coupon) write db = answer (write coupon)

unfoldable pub create_discount :
    Write → ℤ → Option CouponModel → Coupons → Fallible Code CouponModel × Coupons
unfolding from_model create served
create_discount kept id model db = served (from_model model) (λ coupon. create kept id coupon db) db

unfoldable pub update_discount :
    Write → Option CouponModel → Coupons → Fallible Code CouponModel × Coupons
unfolding from_model update served
update_discount kept model db = served (from_model model) (λ coupon. update kept coupon db) db

unfoldable pub answer_deleted :
    Fallible RepositoryError String × Coupons → Fallible Code String × Coupons
unfolding fail
answer_deleted (err cause, db) = (err (fail cause), db)
answer_deleted (ok success, db) = (ok success, db)

unfoldable pub delete_discount : Write → String → Coupons → Fallible Code String × Coupons
unfolding delete answer_deleted
delete_discount kept product_name db = answer_deleted (delete kept product_name db)
