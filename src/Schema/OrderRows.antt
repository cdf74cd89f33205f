-- ===== src/Schema/OrderRows.antt =====
-- Orders, their items and logs, the pickup counters and the outbox
-- (`packages/db/prisma/schema.prisma`). A money column is its amount in cents, a time the
-- milliseconds since the epoch. The items of an order are a field of its row.
use ling_dian.Prelude.{ℕ, Bool, String, Option, List}
use ling_dian.Prelude.Int.{ℤ}
use ling_dian.Schema.OrdersEnums.{OrderStatus, OrderType, OrderSource, PaymentChannel}
use ling_dian.Schema.StoresEnums.{
  SelectionOptionType, IntegrationProvider, IntegrationDeliveryStatus,
}

pub record OrderItemSelection : Type 0 where
  pub selection_group_id : String
  pub selection_option_id : String
  pub group_name_snapshot : String
  pub option_name_snapshot : String
  pub option_type : SelectionOptionType
  pub referenced_sku_id : Option String
  pub referenced_sku_name : Option String
  pub price_delta : ℤ
  pub quantity : ℕ

pub record OrderItem : Type 0 where
  pub product_id : String
  pub sku_id : String
  pub product_name : String
  pub sku_name : String
  pub unit_price : ℤ
  pub quantity : ℕ
  pub subtotal : ℤ
  pub remark : Option String
  pub selections : List OrderItemSelection

pub record Order : Type 0 where
  pub id : String
  pub order_no : String
  pub store_id : String
  pub customer_user_id : Option String
  pub client_request_id : Option String
  pub customer_name : String
  pub customer_mobile : String
  pub delivery_address : Option String
  pub order_type : OrderType
  pub order_source : OrderSource
  pub pickup_code : Option String
  pub pickup_business_date : Option ℕ
  pub status : OrderStatus
  pub payment_channel : PaymentChannel
  pub total_amount : ℤ
  pub payable_amount : ℤ
  pub remark : Option String
  pub is_deleted : Bool
  pub deleted_at : Option ℕ
  pub paid_at : Option ℕ
  pub cancelled_at : Option ℕ
  pub refunding_at : Option ℕ
  pub refunded_at : Option ℕ
  pub created_at : ℕ
  pub items : List OrderItem

-- What the log of a confirmed payment refers to.
pub record PaymentReference : Type 0 where
  pub payment_no : String
  pub event_id : String

pub record OrderStatusLog : Type 0 where
  pub order_id : String
  pub from_status : Option OrderStatus
  pub to_status : OrderStatus
  pub operator_name : Option String
  pub note : Option String
  pub extra : Option PaymentReference

pub record PickupCodeSequence : Type 0 where
  pub store_id : String
  pub business_date : ℕ
  pub order_source : OrderSource
  pub last_value : ℕ

pub record IntegrationOutbox : Type 0 where
  pub id : String
  pub event_id : String
  pub provider : IntegrationProvider
  pub aggregate_id : String
  pub store_id : String
  pub status : IntegrationDeliveryStatus
  pub attempts : ℕ
  pub next_attempt_at : ℕ
  pub locked_at : Option ℕ
  pub delivered_at : Option ℕ
  pub last_error : Option String
  pub created_at : ℕ

pub record StoreIntegration : Type 0 where
  pub store_id : String
  pub provider : IntegrationProvider
  pub enabled : Bool
