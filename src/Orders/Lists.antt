-- ===== src/Orders/Lists.antt =====
-- The list of orders and its summary (`getOrders` and `getOrderSummary` of
-- `backend/src/modules/orders/orders.service.ts`). `parse` and `contains` are as in `Orders/Scope`;
-- a page number is at least 1 (the DTO sees to it).
use ling_dian.Prelude.{
  ℕ, ◌-◌, ◌*◌, String, Bool, true, ◌&&◌, Option, none, some, List, [], ◌∷◌, ◌++◌, map, take, drop,
  or_else,
}
use ling_dian.Prelude.Int.{ℤ, pos, ◌+ℤ◌}
use ling_dian.Prelude.Equality.{◌==◌, includes, string_eq}
use ling_dian.Prelude.Results.{Result, ok, bind}
use ling_dian.Schema.OrdersEnums.{
  OrderStatus, OrderType, OrderSource, PaymentChannel, order_status_eq,
}
use ling_dian.Schema.OrderRows.{Order, OrderItem}
use ling_dian.Schema.CatalogRows.{Store}
use ling_dian.Schema.Database.{Database}
use ling_dian.Db.{Prisma}
use ling_dian.Orders.Scope.{OrderScope, QueryOrders, hides_deleted, build_order_where}
use ling_dian.Orders.Detail.{item_count}

pub record SummaryItem : Type 0 where
  pub name : String
  pub sku_name : String
  pub quantity : ℕ
  pub subtotal : ℤ

pub record OrderSummary : Type 0 where
  pub id : String
  pub order_no : String
  pub order_source : OrderSource
  pub pickup_code : Option String
  pub pickup_business_date : Option ℕ
  pub store_id : String
  pub store_name : Option String
  pub customer_name : String
  pub customer_mobile : String
  pub delivery_address : Option String
  pub order_type : OrderType
  pub status : OrderStatus
  pub payment_channel : PaymentChannel
  pub total_amount : ℤ
  pub payable_amount : ℤ
  pub remark : Option String
  pub item_count : ℕ
  pub item_summary : List SummaryItem
  pub created_at : ℕ

pub record OrderPage : Type 0 where
  pub items : List OrderSummary
  pub total : ℕ
  pub page : ℕ
  pub page_size : ℕ

abbrev summary_item : OrderItem → SummaryItem
summary_item item = record {
  name = item.product_name;
  sku_name = item.sku_name;
  quantity = item.quantity;
  subtotal = item.subtotal;
}

abbrev name_of : Option Store → Option String
name_of none = none
name_of (some store) = some store.name

pub map_order_summary : Prisma → List Store → Order → OrderSummary
map_order_summary db stores o = record {
  id = o.id;
  order_no = o.order_no;
  order_source = o.order_source;
  pickup_code = o.pickup_code;
  pickup_business_date = o.pickup_business_date;
  store_id = o.store_id;
  store_name = name_of (db.find_first Store (λ r. r.id == o.store_id) stores);
  customer_name = o.customer_name;
  customer_mobile = o.customer_mobile;
  delivery_address = o.delivery_address;
  order_type = o.order_type;
  status = o.status;
  payment_channel = o.payment_channel;
  total_amount = o.total_amount;
  payable_amount = o.payable_amount;
  remark = o.remark;
  item_count = item_count o.items;
  item_summary = map summary_item o.items;
  created_at = o.created_at;
}

-- The rows of a page: `skip` and `take` on the ordered rows.
abbrev pub page_rows : Prisma → (Order → Bool) → ℕ → ℕ → List Order → List Order
page_rows db where_ page size orders =
    take size (drop ((page - 1) * size) (db.find_latest Order where_ (λ o. o.created_at) orders))

unfoldable pub get_orders :
    Prisma
    → (String → Option ℕ)
    → (String → String → Bool)
    → Option String
    → QueryOrders
    → OrderScope
    → Database
    → Result OrderPage
get_orders db parse contains config query scope s =
    bind (build_order_where parse contains config query true scope) λ where_.
      let page = or_else query.page 1 in
      let size = or_else query.page_size 50 in
      ok (record {
        items = map (map_order_summary db s.stores) (page_rows db where_ page size s.orders);
        total = db.count Order where_ s.orders;
        page = page;
        page_size = size;
      })

pub record OrderSummaryStats : Type 0 where
  pub total_count : ℕ
  pub pending_payment_count : ℕ
  pub paid_count : ℕ
  pub refunding_count : ℕ
  pub refunded_count : ℕ
  pub total_amount : ℤ

abbrev pub paid_statuses : List OrderStatus
paid_statuses =
    OrderStatus.paid ∷ OrderStatus.preparing ∷ OrderStatus.ready ∷ OrderStatus.completed ∷ []

-- `{ ...scopedWhere, status: … }`: the given statuses in place of the query's own status.
abbrev pub with_statuses : (Order → Bool) → List OrderStatus → Order → Bool
with_statuses base statuses o = base o && includes o.status statuses

abbrev sum_payable : List Order → ℤ
sum_payable [] = pos 0
sum_payable (o ∷ orders) = o.payable_amount +ℤ sum_payable orders

abbrev summary_of : Prisma → (Order → Bool) → (Order → Bool) → List Order → OrderSummaryStats
summary_of db whole base orders = record {
  total_count = db.count Order whole orders;
  pending_payment_count =
      db.count Order (with_statuses base (OrderStatus.pending_payment ∷ [])) orders;
  paid_count = db.count Order (with_statuses base paid_statuses) orders;
  refunding_count = db.count Order (with_statuses base (OrderStatus.refunding ∷ [])) orders;
  refunded_count = db.count Order (with_statuses base (OrderStatus.refunded ∷ [])) orders;
  total_amount = sum_payable (
      db.find_many Order
        (with_statuses base (paid_statuses ++ OrderStatus.refunding ∷ OrderStatus.refunded ∷ []))
        orders);
}

unfoldable pub get_order_summary :
    Prisma
    → (String → Option ℕ)
    → (String → String → Bool)
    → Option String
    → QueryOrders
    → OrderScope
    → Database
    → Result OrderSummaryStats
get_order_summary db parse contains config query scope s =
    bind (build_order_where parse contains config query true scope) λ whole.
      bind
        (build_order_where parse contains config (record query { status = none })
          (hides_deleted true query.status) scope)
        λ base. ok (summary_of db whole base s.orders)
