-- ===== src/Tests/Pickup.antt =====
-- Pickup codes of a store on two days and over two channels.
use ling_dian.Prelude.{ℕ, ◌≡◌, refl, ◌+◌, some, List, [], ◌∷◌, arith}
use ling_dian.Prelude.Results.{ok}
use ling_dian.Prelude.Decimal.{size}
use ling_dian.Schema.OrdersEnums.{OrderSource}
use ling_dian.Db.{listed}
use ling_dian.Pickup.{
  AllocatedPickupCode, allocate_pickup_code, code_text, to_shanghai_business_date, next_sequence,
  issue_code, prefix, width,
}
use ling_dian.Pickup.Codes.{code_text-injective, size-code_text}
use ling_dian.Pickup.Allocation.{
  Allocated, allocate_pickup_code-Allocated, Request, AllApart, history, history-AllApart,
}
use ling_dian.Tests.Samples.{empty}

abbrev first : AllocatedPickupCode
first = record { pickup_code = "S-0001"; pickup_business_date = 0; sequence = 1 }

first_allocated : allocate_pickup_code listed "s1" OrderSource.pos (some 1000) empty ≡ (
  ok first,
  record empty {
    pickup_code_sequences =
        record {
          store_id = "s1";
          business_date = 0;
          order_source = OrderSource.pos;
          last_value = 1;
        }
        ∷ [];
  },
)
unfolding listed allocate_pickup_code to_shanghai_business_date next_sequence issue_code code_text
first_allocated = refl

allocate_pickup_code-Allocated_example :
    Allocated listed "s1" OrderSource.pos empty
      (allocate_pickup_code listed "s1" OrderSource.pos (some 1000) empty).1
      first
unfolding listed allocate_pickup_code to_shanghai_business_date next_sequence issue_code code_text
allocate_pickup_code-Allocated_example =
    allocate_pickup_code-Allocated listed "s1" OrderSource.pos (some 1000) empty
      (allocate_pickup_code listed "s1" OrderSource.pos (some 1000) empty).1 first refl

abbrev requests : List Request
requests =
    record { store = "s1"; source = OrderSource.pos; at = some 1000 }
    ∷ record { store = "s1"; source = OrderSource.miniapp; at = some 2000 }
    ∷ record { store = "s1"; source = OrderSource.pos; at = some 3000 }
    ∷ []

history-AllApart_example : AllApart (history listed requests empty)
history-AllApart_example = history-AllApart listed requests empty

abbrev ten_thousand : ℕ
ten_thousand = 10000

code_text-injective_example : (OrderSource.pos ≡ OrderSource.pos) × (ten_thousand ≡ ten_thousand)
code_text-injective_example =
    code_text-injective OrderSource.pos OrderSource.pos ten_thousand ten_thousand refl

size-code_text_example :
    size (code_text OrderSource.meituan_waimai 207)
    ≡ size (prefix OrderSource.meituan_waimai) + width OrderSource.meituan_waimai
size-code_text_example = size-code_text OrderSource.meituan_waimai 207 (omega arith)
