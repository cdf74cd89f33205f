-- ===== src/Orders/Detail.antt =====
-- An order as the API shows it (`mapOrderDetail`, `toNumber`, `getOrderDetail` of
-- `backend/src/modules/orders/orders.service.ts`). Times stay in milliseconds and amounts in cents.
use ling_dian.Prelude.{ℕ, ◌+◌, String, Bool, ◌&&◌, Option, List, [], ◌∷◌, keep, map}
use ling_dian.Prelude.Int.{ℤ}
use ling_dian.Prelude.Equality.{◌==◌, string_eq}
use ling_dian.Prelude.Results.{Result, ok, bind, or_throw, not_found}
use ling_dian.Schema.OrdersEnums.{OrderStatus, OrderType, OrderSource, PaymentChannel}
use ling_dian.Schema.OrderRows.{Order, OrderItem, OrderItemSelection, OrderStatusLog}
use ling_dian.Schema.Database.{Database}
use ling_dian.Db.{Prisma}
use ling_dian.Orders.Scope.{OrderScope, scope_where}

pub record DetailItem : Type 0 where
  pub product_id : String
  pub sku_id : String
  pub product_name : String
  pub sku_name : String
  pub unit_price : ℤ
  pub quantity : ℕ
  pub subtotal : ℤ
  pub remark : Option String
  pub selections : List OrderItemSelection

pub record DetailLog : Type 0 where
  pub from_status : Option OrderStatus
  pub to_status : OrderStatus
  pub operator_name : Option String
  pub note : Option String

pub record OrderDetail : Type 0 where
  pub id : String
  pub order_no : String
  pub order_source : OrderSource
  pub pickup_code : Option String
  pub pickup_business_date : Option ℕ
  pub store_id : String
  pub customer_name : String
  pub customer_mobile : String
  pub delivery_address : Option String
  pub order_type : OrderType
  pub status : OrderStatus
  pub payment_channel : PaymentChannel
  pub total_amount : ℤ
  pub payable_amount : ℤ
  pub remark : Option String
  pub item_count : ℕ
  pub is_deleted : Bool
  pub deleted_at : Option ℕ
  pub paid_at : Option ℕ
  pub cancelled_at : Option ℕ
  pub refunding_at : Option ℕ
  pub refunded_at : Option ℕ
  pub created_at : ℕ
  pub items : List DetailItem
  pub status_logs : List DetailLog

pub item_count : List OrderItem → ℕ
item_count [] = 0
item_count (item ∷ items) = item.quantity + item_count items

abbrev pub detail_item : OrderItem → DetailItem
detail_item item = record {
  product_id = item.product_id;
  sku_id = item.sku_id;
  product_name = item.product_name;
  sku_name = item.sku_name;
  unit_price = item.unit_price;
  quantity = item.quantity;
  subtotal = item.subtotal;
  remark = item.remark;
  selections = item.selections;
}

abbrev pub detail_log : OrderStatusLog → DetailLog
detail_log log = record {
  from_status = log.from_status;
  to_status = log.to_status;
  operator_name = log.operator_name;
  note = log.note;
}

abbrev pub logs_of : String → List OrderStatusLog → List OrderStatusLog
logs_of id = keep (λ l. l.order_id == id)

unfoldable pub map_order_detail : List OrderStatusLog → Order → OrderDetail
map_order_detail logs o = record {
  id = o.id;
  order_no = o.order_no;
  order_source = o.order_source;
  pickup_code = o.pickup_code;
  pickup_business_date = o.pickup_business_date;
  store_id = o.store_id;
  customer_name = o.customer_name;
  customer_mobile = o.customer_mobile;
  delivery_address = o.delivery_address;
  order_type = o.order_type;
  status = o.status;
  payment_channel = o.payment_channel;
  total_amount = o.total_amount;
  payable_amount = o.payable_amount;
  remark = o.remark;
  item_count = item_count o.items;
  is_deleted = o.is_deleted;
  deleted_at = o.deleted_at;
  paid_at = o.paid_at;
  cancelled_at = o.cancelled_at;
  refunding_at = o.refunding_at;
  refunded_at = o.refunded_at;
  created_at = o.created_at;
  items = map detail_item o.items;
  status_logs = map detail_log (logs_of o.id logs);
}

abbrev pub order_missing : {A : Type 0} → Option A → Result A
order_missing o = or_throw o (not_found "Order not found")

abbrev pub find_order : Prisma → Option String → String → OrderScope → Database → Result Order
find_order db config order_id scope s =
    bind (scope_where config scope)
      λ scoped. order_missing (db.find_first Order (λ o. o.id == order_id && scoped o) s.orders)

unfoldable pub get_order_detail :
    Prisma → Option String → String → OrderScope → Database → Result OrderDetail
get_order_detail db config order_id scope s =
    bind (find_order db config order_id scope s) λ o. ok (map_order_detail s.order_status_logs o)
