-- ===== src/Orders/Create.antt =====
-- Placing an order (`createOrder` and its helpers in
-- `backend/src/modules/orders/orders.service.ts`; `findOwnedAddress` of
-- `backend/src/modules/addresses/addresses.service.ts`).
use Prim.Native.String
use ling_dian.Prelude.{
  ℕ, String, Bool, false, not, ◌&&◌, ◌||◌, ◌++◌, Option, none, some, List, [], ◌∷◌, map, length,
  truthy, is_some, or_else, if◌then◌else◌,
}
use ling_dian.Prelude.Int.{ℤ, pos}
use ling_dian.Prelude.Equality.{
  same_present, ◌==◌, distinct, includes, string_eq, nat_eq, option_eq,
}
use ling_dian.Prelude.Results.{
  Result, ok, throw, bind, or_throw, bad_request, not_found, unique_violation,
}
use ling_dian.Prelude.Actions.{Action, ◌>>=◌, ◌>>◌, fail, lift, transaction}
use ling_dian.Schema.OrdersEnums.{OrderStatus, OrderType, OrderSource, PaymentChannel}
use ling_dian.Schema.StoresEnums.{StoreStatus, IntegrationProvider, store_status_eq}
use ling_dian.Schema.AuthEnums.{IdentityProvider, identity_provider_eq}
use ling_dian.Schema.AuthRows.{AuthIdentity, UserAddress}
use ling_dian.Schema.CatalogRows.{Store, ProductSku, SelectionOption}
use ling_dian.Schema.OrderRows.{Order, OrderItem, OrderStatusLog}
use ling_dian.Schema.Database.{Database}
use ling_dian.Db.{Prisma}
use ling_dian.Stores.{resolve_requested_store_id, resolve_current_store}
use ling_dian.Pickup.{AllocatedPickupCode, allocate_pickup_code}
use ling_dian.Outbox.Enqueue.{EventSeed, enqueue_order_created}
use ling_dian.Orders.Detail.{OrderDetail, map_order_detail}
use ling_dian.Orders.Pricing.{
  OrderItemDto, NormalizedItem, OrderItemSelectionDto, normalize_items, sku_map, option_map,
  price_items, from_cents,
}

pub record CreateOrder : Type 0 where
  pub client_request_id : Option String
  pub store_id : Option String
  pub order_type : OrderType
  pub address_id : Option String
  pub payment_channel : Option PaymentChannel
  pub customer_name : Option String
  pub mobile : Option String
  pub items : List OrderItemDto
  pub remark : Option String

-- What a call takes from outside: its caller, the clock and the fresh ids.
pub record Caller : Type 0 where
  pub customer_user_id : Option String
  pub order_source : OrderSource
  pub now : ℕ
  pub order_id : String
  pub order_no : String
  pub event : EventSeed

abbrev pub is_request : String → Option String → Option String → Order → Bool
is_request store_id customer request o =
    o.store_id == store_id && (o.customer_user_id == customer && o.client_request_id == request)

unfoldable pub find_idempotent_order :
    Prisma → String → Option String → Option String → Database → Option Order
find_idempotent_order db store_id customer request s =
    if not (truthy customer) || not (truthy request)
    then none
    else db.find_first Order (is_request store_id customer request) s.orders

pub record Customer : Type 0 where
  pub name : String
  pub mobile : String

pub record Delivery : Type 0 where
  pub address : UserAddress
  pub snapshot : String

abbrev joined : String → String → String
joined a b = String.◌++◌ a b

format_delivery_address : UserAddress → String
format_delivery_address a = joined a.recipient_name (
    joined " " (
      joined a.phone_number (
        joined " " (
          joined a.province_name
            (joined a.city_name (joined a.county_name (joined a.street_name a.detail_info)))))))

unfoldable pub find_owned_address : Prisma → String → String → Database → Result UserAddress
find_owned_address db user_id address_id s =
    or_throw
      (db.find_first UserAddress (λ a. a.id == address_id && a.user_id == user_id) s.user_addresses)
      (not_found "Address not found.")

abbrev address_required : Result (Option Delivery)
address_required = throw (bad_request "Delivery address is required.")

abbrev customer_required : Result (Option Delivery)
customer_required = throw (bad_request "An authenticated customer is required for delivery.")

-- `!addressId` and `!customerUserId` also hold of empty texts.
deliver_to : Prisma → Option String → Option String → Database → Result (Option Delivery)
deliver_to db none customer s = address_required
deliver_to db (some String.[]) customer s = address_required
deliver_to db (some address_id) none s = customer_required
deliver_to db (some address_id) (some String.[]) s = customer_required
deliver_to db (some address_id) (some user_id) s =
    bind (find_owned_address db user_id address_id s)
      λ a. ok (some (record { address = a; snapshot = format_delivery_address a }))

unfoldable pub resolve_delivery :
    Prisma → CreateOrder → Option String → Database → Result (Option Delivery)
unfolding deliver_to format_delivery_address
resolve_delivery db body customer s = elim body.order_type [
  | OrderType.takeout ↦ deliver_to db body.address_id customer s
  | _ ↦ ok none
]

abbrev verified_phone : String → AuthIdentity → Bool
verified_phone user_id i =
    i.user_id == user_id && (i.provider == IdentityProvider.phone && is_some i.verified_at)

abbrev phone_of : Option AuthIdentity → Option String
phone_of none = none
phone_of (some i) = i.phone_e164

guest : Option String → Option String → Result Customer
guest name mobile =
    if not (truthy name) || not (truthy mobile)
    then throw (bad_request "An authenticated customer is required.")
    else ok (record { name = or_else name ""; mobile = or_else mobile "" })

signed_in : Prisma → Option String → String → Database → Result Customer
signed_in db name user_id s =
    let phone = phone_of (db.find_first AuthIdentity (verified_phone user_id) s.auth_identities) in
    if not (truthy phone)
    then throw (bad_request "Authenticated customer has no verified phone identity.")
    else ok (record { name = or_else name "Customer"; mobile = or_else phone "" })

unfoldable pub resolve_customer :
    Prisma → CreateOrder → Option String → Option Delivery → Database → Result Customer
unfolding guest signed_in
resolve_customer db body customer (some d) s =
    ok (record { name = d.address.recipient_name; mobile = d.address.phone_number })
resolve_customer db body none none s = guest body.customer_name body.mobile
resolve_customer db body (some String.[]) none s = guest body.customer_name body.mobile
resolve_customer db body (some user_id) none s = signed_in db body.customer_name user_id s

abbrev service_enabled : OrderType → Store → Bool
service_enabled OrderType.dine_in store = store.dine_in_enabled
service_enabled OrderType.takeout store = store.takeout_enabled
service_enabled OrderType.pickup store = store.pickup_enabled

unfoldable pub check_store : OrderType → Store → Result (Unit {0})
check_store type store =
    if not (store.status == StoreStatus.open) || not (service_enabled type store)
    then throw (bad_request "Store is not available")
    else ok tt

abbrev pub wanted_skus : List NormalizedItem → List String
wanted_skus items = distinct (map (λ i. i.sku_id) items)

abbrev option_ids : List OrderItemSelectionDto → List String
option_ids selections = map (λ c. c.selection_option_id) selections

abbrev all_option_ids : List NormalizedItem → List String
all_option_ids [] = []
all_option_ids (i ∷ items) = option_ids i.selections ++ all_option_ids items

abbrev pub wanted_options : List NormalizedItem → List String
wanted_options items = distinct (all_option_ids items)

abbrev pub sellable : String → List String → ProductSku → Bool
sellable store_id ids k = includes k.id ids && (k.is_active && k.product.store_id == store_id)

abbrev pub selectable : List String → SelectionOption → Bool
selectable ids o = includes o.id ids && o.is_active

-- The rows that the items name, each of them found, and the bill by them.
unfoldable pub quote_items :
    Prisma → String → List NormalizedItem → Database → Result (List OrderItem × ℤ)
quote_items db store_id items s =
    let skus = db.find_many ProductSku (sellable store_id (wanted_skus items)) s.product_skus in
    let options =
      db.find_many SelectionOption (selectable (wanted_options items)) s.selection_options in
    if not (length skus == length (wanted_skus items))
    then throw (not_found "Some SKUs do not exist")
    else if not (length options == length (wanted_options items))
    then throw (not_found "Some selection options do not exist")
    else price_items (sku_map skus) (option_map options) (pos 0) items

abbrev pub new_order :
    CreateOrder
    → Caller
    → String
    → Option Delivery
    → Customer
    → AllocatedPickupCode
    → List OrderItem
    → ℤ
    → Order
new_order body caller store_id delivery customer pickup items total = record {
  id = caller.order_id;
  order_no = caller.order_no;
  store_id = store_id;
  customer_user_id = caller.customer_user_id;
  client_request_id = if truthy caller.customer_user_id then body.client_request_id else none;
  customer_name = customer.name;
  customer_mobile = customer.mobile;
  delivery_address = elim delivery [ none ↦ none | some d ↦ some d.snapshot ];
  order_type = body.order_type;
  order_source = caller.order_source;
  pickup_code = some pickup.pickup_code;
  pickup_business_date = some pickup.pickup_business_date;
  status = OrderStatus.pending_payment;
  payment_channel = or_else body.payment_channel PaymentChannel.cash;
  total_amount = total;
  payable_amount = total;
  remark = body.remark;
  is_deleted = false;
  deleted_at = none;
  paid_at = none;
  cancelled_at = none;
  refunding_at = none;
  refunded_at = none;
  created_at = caller.now;
  items = items;
}

-- The unique constraints of the table; an absent value clashes with nothing.
abbrev pub order_clash : Order → Order → Bool
order_clash o x =
    x.id == o.id
    || (x.order_no == o.order_no
        || ((x.store_id == o.store_id
              && (same_present o.customer_user_id x.customer_user_id
                  && same_present o.client_request_id x.client_request_id))
            || (x.store_id == o.store_id
                && (x.pickup_business_date == o.pickup_business_date
                    && same_present o.pickup_code x.pickup_code))))

abbrev pub first_logs : String → List OrderStatusLog
first_logs id =
    record {
      order_id = id;
      from_status = none;
      to_status = OrderStatus.creating;
      operator_name = none;
      note = some "Order created";
      extra = none;
    }
    ∷ record {
      order_id = id;
      from_status = some OrderStatus.creating;
      to_status = OrderStatus.pending_payment;
      operator_name = none;
      note = some "Waiting for payment";
      extra = none;
    }
    ∷ []

abbrev stored : Option (List Order) → Order → Database → Result (Unit {0}) × Database
stored none o s = (throw unique_violation, s)
stored (some orders) o s = (
  ok tt,
  record s { orders = orders; order_status_logs = s.order_status_logs ++ first_logs o.id },
)

-- `tx.order.create`, with the logs that it nests.
unfoldable pub insert_order : Prisma → Order → Action Database (Unit {0})
insert_order db o s = stored (db.create Order (order_clash o) o s.orders) o s

abbrev shown : Order → Action Database OrderDetail
shown o s = (ok (map_order_detail s.order_status_logs o), s)

-- The amounts, the pickup code, the row and the event of a new order.
unfoldable pub place_order :
    Prisma
    → Option String
    → List IntegrationProvider
    → CreateOrder
    → Caller
    → String
    → Option Delivery
    → Customer
    → List OrderItem
    → ℤ
    → Action Database OrderDetail
place_order db config providers body caller store_id delivery customer items total = do
  pickup ← allocate_pickup_code db store_id caller.order_source (some caller.now)
  amount ← lift (from_cents total)
  let o = new_order body caller store_id delivery customer pickup items amount
  insert_order db o
  enqueue_order_created db config providers caller.event o
  shown o

-- The checks of the transaction, in its order; they change nothing.
unfoldable pub accept_order :
    Prisma
    → Option String
    → CreateOrder
    → Caller
    → String
    → Option Delivery
    → List NormalizedItem
    → Database
    → Result (Customer × (List OrderItem × ℤ))
accept_order db config body caller store_id delivery items s =
    bind (resolve_customer db body caller.customer_user_id delivery s) λ customer.
      bind (resolve_current_store db config s) λ store.
        bind (check_store body.order_type store)
          λ _. bind (quote_items db store_id items s) λ bill. ok (customer, bill)

-- `snapshot` is what the reads of the transaction see: what other calls commit later is in the
-- database that it writes to, but not there.
abbrev pub create_new :
    Prisma
    → Option String
    → List IntegrationProvider
    → CreateOrder
    → Caller
    → String
    → Option Delivery
    → List NormalizedItem
    → Database
    → Action Database OrderDetail
create_new db config providers body caller store_id delivery items snapshot s =
    (do
      accepted ← lift (accept_order db config body caller store_id delivery items snapshot)
      place_order db config providers body caller store_id delivery accepted.0 accepted.1.0
          accepted.1.1)
      s

abbrev pub or_new :
    Database → Option Order → Action Database OrderDetail → Action Database OrderDetail
or_new seen none m = m
or_new seen (some o) m = λ s. (ok (map_order_detail seen.order_status_logs o), s)

-- The transaction's body.
unfoldable pub create_in_transaction :
    Prisma
    → Option String
    → List IntegrationProvider
    → CreateOrder
    → Caller
    → String
    → Option Delivery
    → List NormalizedItem
    → Database
    → Action Database OrderDetail
create_in_transaction db config providers body caller store_id delivery items snapshot =
    or_new snapshot
      (find_idempotent_order db store_id caller.customer_user_id body.client_request_id snapshot)
      (create_new db config providers body caller store_id delivery items snapshot)

-- The `catch`: a unique violation may mean that another call has placed the order meanwhile.
abbrev pub recover :
    (Database → Option Order) → Result OrderDetail × Database → Result OrderDetail × Database
recover find (ok d, s) = (ok d, s)
recover find (throw unique_violation, s) = or_new s (find s) (fail unique_violation) s
recover find (throw e, s) = (throw e, s)

-- What the transaction takes from the part before it.
pub record Prepared : Type 0 where
  pub store_id : String
  pub delivery : Option Delivery
  pub items : List NormalizedItem

pub data Start : Type 0 where
  known : OrderDetail → Start
  prepared : Prepared → Start

abbrev pub prepare : Prisma → CreateOrder → Caller → String → Database → Result Start
prepare db body caller store_id s =
    bind (resolve_delivery db body caller.customer_user_id s) λ delivery.
      bind (normalize_items body.items)
        λ items. ok (prepared (record { store_id = store_id; delivery = delivery; items = items }))

abbrev pub known_or_prepared :
    Prisma → CreateOrder → Caller → String → Option Order → Database → Result Start
known_or_prepared db body caller store_id (some o) s =
    ok (known (map_order_detail s.order_status_logs o))
known_or_prepared db body caller store_id none s = prepare db body caller store_id s

-- The part before the transaction: the order of an earlier request, or what the transaction needs.
unfoldable pub begin_order : Prisma → Option String → CreateOrder → Caller → Database → Result Start
begin_order db config body caller s =
    bind (resolve_requested_store_id config body.store_id) λ store_id.
      known_or_prepared db body caller store_id
        (find_idempotent_order db store_id caller.customer_user_id body.client_request_id s) s

-- The transaction and its `catch`.
unfoldable pub commit_order :
    Prisma
    → Option String
    → List IntegrationProvider
    → CreateOrder
    → Caller
    → Prepared
    → Database
    → Action Database OrderDetail
commit_order db config providers body caller p snapshot s =
    recover (find_idempotent_order db p.store_id caller.customer_user_id body.client_request_id) (
      transaction
        (create_in_transaction db config providers body caller p.store_id p.delivery p.items
          snapshot)
        s)

abbrev pub finish_order :
    Prisma
    → Option String
    → List IntegrationProvider
    → CreateOrder
    → Caller
    → Start
    → Action Database OrderDetail
finish_order db config providers body caller (known d) s = (ok d, s)
finish_order db config providers body caller (prepared p) s =
    commit_order db config providers body caller p s s

-- The whole call, where nothing runs between its parts.
unfoldable pub create_order :
    Prisma
    → Option String
    → List IntegrationProvider
    → CreateOrder
    → Caller
    → Action Database OrderDetail
create_order db config providers body caller = do
  start ← λ s. (begin_order db config body caller s, s)
  finish_order db config providers body caller start
