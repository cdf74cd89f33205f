-- ===== src/Tests/Samples.antt =====
-- A small shop: one store, one product with a required choice, and the calls that the tests make.
use ling_dian.Prelude.{String, true, false, Option, none, some, [], ◌∷◌}
use ling_dian.Prelude.Int.{pos}
use ling_dian.Schema.OrdersEnums.{OrderStatus, OrderType, OrderSource, PaymentChannel}
use ling_dian.Schema.StoresEnums.{StoreStatus, ProductStatus, SelectionMode, SelectionOptionType}
use ling_dian.Schema.OrderRows.{Order}
use ling_dian.Schema.CatalogRows.{Store, SelectionGroup, ProductSku, SelectionOption}
use ling_dian.Schema.Database.{Database}
use ling_dian.Outbox.Enqueue.{EventSeed}
use ling_dian.Orders.Scope.{OrderScope}
use ling_dian.Orders.Pricing.{OrderItemSelectionDto, NormalizedItem, text}
use ling_dian.Orders.Create.{CreateOrder, Caller}

abbrev pub config : Option String
config = some "s1"

abbrev pub store : Store
store = record {
  id = "s1";
  code = "main";
  name = "Ling Dian";
  status = StoreStatus.open;
  dine_in_enabled = true;
  takeout_enabled = true;
  pickup_enabled = true;
}

abbrev sweetness : SelectionGroup
sweetness = record {
  id = "g1";
  name = "Sweetness";
  selection_mode = SelectionMode.single;
  min_select = 1;
  max_select = 1;
  is_required = true;
  is_active = true;
}

abbrev pub tea : ProductSku
tea = record {
  id = "k1";
  product_id = "p1";
  sku_name = "Large";
  price = pos 1850;
  is_active = true;
  product = record {
    id = "p1";
    store_id = "s1";
    name = "Milk tea";
    status = ProductStatus.active;
    selection_bindings = record { group_id = "g1"; is_enabled = true; group = sweetness } ∷ [];
  };
  selection_bindings = [];
}

abbrev pub half_sugar : SelectionOption
half_sugar = record {
  id = "o1";
  group_id = "g1";
  name = "Half sugar";
  option_type = SelectionOptionType.value;
  price_delta = pos 50;
  is_active = true;
  group = sweetness;
  referenced_sku_id = none;
  referenced_sku_name = none;
}

abbrev pub empty : Database
empty = record {
  orders = [];
  order_status_logs = [];
  pickup_code_sequences = [];
  integration_outbox = [];
  store_integrations = [];
  stores = store ∷ [];
  product_skus = tea ∷ [];
  selection_options = half_sugar ∷ [];
  payment_accounts = [];
  payment_intents = [];
  payment_transactions = [];
  payment_webhook_events = [];
  users = [];
  auth_identities = [];
  auth_sessions = [];
  verification_codes = [];
  auth_audit_logs = [];
  user_addresses = [];
}

abbrev pub line : OrderItemSelectionDto
line = record { selection_group_id = some "g1"; selection_option_id = "o1"; quantity = none }

abbrev pub tea_twice : NormalizedItem
tea_twice = record { sku_id = "k1"; quantity = 2; remark = none; selections = line ∷ [] }

abbrev pub body : CreateOrder
body = record {
  client_request_id = some "r1";
  store_id = none;
  order_type = OrderType.pickup;
  address_id = none;
  payment_channel = none;
  customer_name = some "Li";
  mobile = some "13800000000";
  items =
      record {
        legacy_sku_id = none;
        sku_id = some (text "k1");
        quantity = 2;
        remark = none;
        selections = line ∷ [];
      }
      ∷ [];
  remark = none;
}

abbrev seed : EventSeed
seed = record { now = 1000; event_id = "e1"; row_id = λ p. "x1" }

abbrev pub walk_in : Caller
walk_in = record {
  customer_user_id = none;
  order_source = OrderSource.pos;
  now = 1000;
  order_id = "order1";
  order_no = "LD1";
  event = seed;
}

-- An order that waits for its payment in cash.
abbrev pub waiting : Order
waiting = record {
  id = "order1";
  order_no = "LD1";
  store_id = "s1";
  customer_user_id = some "u1";
  client_request_id = some "r1";
  customer_name = "Li";
  customer_mobile = "13800000000";
  delivery_address = none;
  order_type = OrderType.pickup;
  order_source = OrderSource.pos;
  pickup_code = some "S-0001";
  pickup_business_date = some 0;
  status = OrderStatus.pending_payment;
  payment_channel = PaymentChannel.cash;
  total_amount = pos 3800;
  payable_amount = pos 3800;
  remark = none;
  is_deleted = false;
  deleted_at = none;
  paid_at = none;
  cancelled_at = none;
  refunding_at = none;
  refunded_at = none;
  created_at = 1000;
  items = [];
}

abbrev pub anyone : OrderScope
anyone = record { store_ids = none; customer_user_id = none }
