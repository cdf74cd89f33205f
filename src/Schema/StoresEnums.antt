-- ===== src/Schema/StoresEnums.antt =====
-- The enumerations of `packages/db/prisma/schema.prisma` (stores).
use ling_dian.Prelude.{ℕ, ◌≡◌, arith}
use ling_dian.Prelude.Equality.{Eq, eq_by}

pub data StoreStatus : Type 0 where
  «open» closed resting : StoreStatus

abbrev pub store_status_code : StoreStatus → ℕ
store_status_code StoreStatus.«open» = 0
store_status_code StoreStatus.closed = 1
store_status_code StoreStatus.resting = 2

pub store_status_code-injective :
    (a b : StoreStatus) → store_status_code a ≡ store_status_code b → a ≡ b
store_status_code-injective a b h = ground arith

instance abbrev pub store_status_eq : Eq StoreStatus
store_status_eq = eq_by store_status_code store_status_code-injective

pub data ProductStatus : Type 0 where
  draft active sold_out archived : ProductStatus

abbrev pub product_status_code : ProductStatus → ℕ
product_status_code ProductStatus.draft = 0
product_status_code ProductStatus.active = 1
product_status_code ProductStatus.sold_out = 2
product_status_code ProductStatus.archived = 3

pub product_status_code-injective :
    (a b : ProductStatus) → product_status_code a ≡ product_status_code b → a ≡ b
product_status_code-injective a b h = ground arith

instance abbrev pub product_status_eq : Eq ProductStatus
product_status_eq = eq_by product_status_code product_status_code-injective

pub data SelectionMode : Type 0 where
  single multiple : SelectionMode

abbrev pub selection_mode_code : SelectionMode → ℕ
selection_mode_code SelectionMode.single = 0
selection_mode_code SelectionMode.multiple = 1

pub selection_mode_code-injective :
    (a b : SelectionMode) → selection_mode_code a ≡ selection_mode_code b → a ≡ b
selection_mode_code-injective a b h = ground arith

instance abbrev pub selection_mode_eq : Eq SelectionMode
selection_mode_eq = eq_by selection_mode_code selection_mode_code-injective

pub data SelectionOptionType : Type 0 where
  value variant : SelectionOptionType

pub data IntegrationProvider : Type 0 where
  cashier receipt_printer meituan_waimai jd_daojia : IntegrationProvider

abbrev pub integration_provider_code : IntegrationProvider → ℕ
integration_provider_code IntegrationProvider.cashier = 0
integration_provider_code IntegrationProvider.receipt_printer = 1
integration_provider_code IntegrationProvider.meituan_waimai = 2
integration_provider_code IntegrationProvider.jd_daojia = 3

pub integration_provider_code-injective :
    (a b : IntegrationProvider) → integration_provider_code a ≡ integration_provider_code b → a ≡ b
integration_provider_code-injective a b h = ground arith

instance abbrev pub integration_provider_eq : Eq IntegrationProvider
integration_provider_eq = eq_by integration_provider_code integration_provider_code-injective

pub data IntegrationDeliveryStatus : Type 0 where
  pending processing delivered dead_letter : IntegrationDeliveryStatus

abbrev pub integration_delivery_status_code : IntegrationDeliveryStatus → ℕ
integration_delivery_status_code IntegrationDeliveryStatus.pending = 0
integration_delivery_status_code IntegrationDeliveryStatus.processing = 1
integration_delivery_status_code IntegrationDeliveryStatus.delivered = 2
integration_delivery_status_code IntegrationDeliveryStatus.dead_letter = 3

pub integration_delivery_status_code-injective :
    (a b : IntegrationDeliveryStatus)
    → integration_delivery_status_code a ≡ integration_delivery_status_code b
    → a ≡ b
integration_delivery_status_code-injective a b h = ground arith

instance abbrev pub integration_delivery_status_eq : Eq IntegrationDeliveryStatus
integration_delivery_status_eq =
    eq_by integration_delivery_status_code integration_delivery_status_code-injective
