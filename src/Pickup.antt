-- ===== src/Pickup.antt =====
-- Pickup codes (`backend/src/modules/orders/pickup-code.service.ts`). A `Date` is its time value in
-- milliseconds, `none` an invalid one. Asia/Shanghai is UTC+8 (as it is since 1991), so its calendar
-- date is the UTC date of the instant eight hours later.
pub mod Codes
pub mod Allocation
use ling_dian.Prelude.{
  ℕ, suc, ◌+◌, ◌-◌, ◌*◌, ◌/◌, ◌^◌, String, Bool, ◌&&◌, Option, none, some, List, ltb, if◌then◌else◌,
}
use ling_dian.Prelude.Equality.{◌==◌, string_eq, nat_eq}
use ling_dian.Prelude.Results.{Result, ok, throw, bind, conflict, type_error}
use ling_dian.Prelude.Actions.{Action, ◌>>=◌, lift, pure, throw_if}
use ling_dian.Prelude.Decimal.{to_string, pad_start}
use ling_dian.Schema.OrdersEnums.{OrderSource, order_source_eq, order_source_code}
use ling_dian.Schema.OrderRows.{PickupCodeSequence}
use ling_dian.Schema.Database.{Database}
use ling_dian.Db.{Prisma}
use Prim.Native.String

-- `PICKUP_CODE_FORMATS`.
abbrev pub prefix : OrderSource → String
prefix OrderSource.miniapp = "U-"
prefix OrderSource.meituan_waimai = "MT-"
prefix OrderSource.jd_daojia = "JD-"
prefix OrderSource.pos = "S-"
prefix OrderSource.manual = "A-"

abbrev pub width : OrderSource → ℕ
width OrderSource.miniapp = 4
width OrderSource.meituan_waimai = 5
width OrderSource.jd_daojia = 6
width OrderSource.pos = 4
width OrderSource.manual = 5

abbrev pub day_ms : ℕ
day_ms = 86400000

abbrev pub shanghai_offset_ms : ℕ
shanghai_offset_ms = 28800000

unfoldable pub to_shanghai_business_date : Option ℕ → Result ℕ
to_shanghai_business_date none = throw (type_error "fulfillmentAt must be a valid Date")
to_shanghai_business_date (some instant) = ok ((instant + shanghai_offset_ms) / day_ms * day_ms)

pub record AllocatedPickupCode : Type 0 where
  pub pickup_code : String
  pub pickup_business_date : ℕ
  pub sequence : ℕ

unfoldable pub code_text : OrderSource → ℕ → String
unfolding to_string pad_start
code_text source n = String.◌++◌ (prefix source) (pad_start (width source) (to_string n))

abbrev pub is_counter : String → ℕ → OrderSource → PickupCodeSequence → Bool
is_counter store_id date source r =
    r.store_id == store_id && (r.business_date == date && r.order_source == source)

abbrev pub first_value : String → ℕ → OrderSource → PickupCodeSequence
first_value store_id date source = record {
  store_id = store_id;
  business_date = date;
  order_source = source;
  last_value = 1;
}

abbrev pub increment : PickupCodeSequence → PickupCodeSequence
increment r = record r { last_value = r.last_value + 1 }

abbrev pub maximum : OrderSource → ℕ
maximum source = 10 ^ width source - 1

-- `tx.pickupCodeSequence.upsert(…)`: the counter after the call.
unfoldable pub next_sequence :
    Prisma → String → ℕ → OrderSource → Action Database PickupCodeSequence
next_sequence db store_id date source s =
    let result =
      db.upsert PickupCodeSequence (is_counter store_id date source)
        (first_value store_id date source) increment s.pickup_code_sequences in
    (ok result.0, record s { pickup_code_sequences = result.1 })

abbrev pub capacity_exhausted : Result AllocatedPickupCode
capacity_exhausted = throw (conflict "Pickup code capacity exhausted")

unfoldable pub issue_code : ℕ → OrderSource → PickupCodeSequence → Result AllocatedPickupCode
issue_code date source r =
    if ltb (maximum source) r.last_value
    then capacity_exhausted
    else ok (record {
      pickup_code = code_text source r.last_value;
      pickup_business_date = date;
      sequence = r.last_value;
    })

-- `fulfillment_at` is the instant given, or the current time.
unfoldable pub allocate_pickup_code :
    Prisma → String → OrderSource → Option ℕ → Action Database AllocatedPickupCode
allocate_pickup_code db store_id source fulfillment_at = do
  date ← lift (to_shanghai_business_date fulfillment_at)
  r ← next_sequence db store_id date source
  lift (issue_code date source r)
