-- ===== src/Schema/OrdersEnums.antt =====
-- The enumerations of `packages/db/prisma/schema.prisma` (orders).
use ling_dian.Prelude.{ℕ, ◌≡◌, arith}
use ling_dian.Prelude.Equality.{Eq, eq_by}

pub data OrderStatus : Type 0 where
  creating pending_payment paid preparing ready completed timed_out refunding refunded cancelled
        failed deleted :
      OrderStatus

abbrev pub order_status_code : OrderStatus → ℕ
order_status_code OrderStatus.creating = 0
order_status_code OrderStatus.pending_payment = 1
order_status_code OrderStatus.paid = 2
order_status_code OrderStatus.preparing = 3
order_status_code OrderStatus.ready = 4
order_status_code OrderStatus.completed = 5
order_status_code OrderStatus.timed_out = 6
order_status_code OrderStatus.refunding = 7
order_status_code OrderStatus.refunded = 8
order_status_code OrderStatus.cancelled = 9
order_status_code OrderStatus.failed = 10
order_status_code OrderStatus.deleted = 11

pub order_status_code-injective :
    (a b : OrderStatus) → order_status_code a ≡ order_status_code b → a ≡ b
order_status_code-injective a b h = ground arith

instance abbrev pub order_status_eq : Eq OrderStatus
order_status_eq = eq_by order_status_code order_status_code-injective

pub data OrderType : Type 0 where
  dine_in takeout pickup : OrderType

abbrev pub order_type_code : OrderType → ℕ
order_type_code OrderType.dine_in = 0
order_type_code OrderType.takeout = 1
order_type_code OrderType.pickup = 2

pub order_type_code-injective : (a b : OrderType) → order_type_code a ≡ order_type_code b → a ≡ b
order_type_code-injective a b h = ground arith

instance abbrev pub order_type_eq : Eq OrderType
order_type_eq = eq_by order_type_code order_type_code-injective

pub data OrderSource : Type 0 where
  miniapp meituan_waimai jd_daojia pos manual : OrderSource

abbrev pub order_source_code : OrderSource → ℕ
order_source_code OrderSource.miniapp = 0
order_source_code OrderSource.meituan_waimai = 1
order_source_code OrderSource.jd_daojia = 2
order_source_code OrderSource.pos = 3
order_source_code OrderSource.manual = 4

pub order_source_code-injective :
    (a b : OrderSource) → order_source_code a ≡ order_source_code b → a ≡ b
order_source_code-injective a b h = ground arith

instance abbrev pub order_source_eq : Eq OrderSource
order_source_eq = eq_by order_source_code order_source_code-injective

pub data PaymentChannel : Type 0 where
  cash wechat alipay unionpay stripe paypal customer_scan other : PaymentChannel

abbrev pub payment_channel_code : PaymentChannel → ℕ
payment_channel_code PaymentChannel.cash = 0
payment_channel_code PaymentChannel.wechat = 1
payment_channel_code PaymentChannel.alipay = 2
payment_channel_code PaymentChannel.unionpay = 3
payment_channel_code PaymentChannel.stripe = 4
payment_channel_code PaymentChannel.paypal = 5
payment_channel_code PaymentChannel.customer_scan = 6
payment_channel_code PaymentChannel.other = 7

pub payment_channel_code-injective :
    (a b : PaymentChannel) → payment_channel_code a ≡ payment_channel_code b → a ≡ b
payment_channel_code-injective a b h = ground arith

instance abbrev pub payment_channel_eq : Eq PaymentChannel
payment_channel_eq = eq_by payment_channel_code payment_channel_code-injective
