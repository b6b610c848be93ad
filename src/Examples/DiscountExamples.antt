-- ===== src/Examples/DiscountExamples.antt =====
-- Coupons of internal/discount.
use golang_microservices_eco.Prelude.{written, unconfirmed, false, ◌≡◌, pos, some}
use golang_microservices_eco.Discount.{
  CouponModel, Coupons, get_discount, create_discount, update_discount, delete_discount,
}
use golang_microservices_eco.Discount.Answers.{described, cleared, get_discount-described}

abbrev coupon : CouponModel
coupon = record { id = pos 0; product_name = "IPhone X"; desciption = ""; amount = pos 150 }

abbrev coupons : Coupons
coupons name = some (record { id = pos 1; description = ""; amount = pos 100 })

-- The answer to the write is lost, and the coupon is there or gone.
get_discount-described_example :
    (get_discount false "IPhone X" (create_discount unconfirmed (pos 2) (some coupon) coupons).1
      ≡ described
          (create_discount written (pos 2) (some coupon) coupons).0
          "IPhone X"
          (get_discount false "IPhone X" coupons))
    × (get_discount false "IPhone X" (update_discount unconfirmed (some coupon) coupons).1
        ≡ described
            (update_discount written (some coupon) coupons).0
            "IPhone X"
            (get_discount false "IPhone X" coupons))
    × (get_discount false "IPhone X" (delete_discount unconfirmed "IPhone X" coupons).1
        ≡ cleared
            (delete_discount written "IPhone X" coupons).0
            "IPhone X"
            "IPhone X"
            (get_discount false "IPhone X" coupons))
get_discount-described_example =
    get_discount-described unconfirmed (pos 2) (some coupon) "IPhone X" "IPhone X" coupons
