-- ===== src/Schema/PaymentsEnums.antt =====
-- The enumerations of `packages/db/prisma/schema.prisma` (payments).
use ling_dian.Prelude.{ℕ, ◌≡◌, arith}
use ling_dian.Prelude.Equality.{Eq, eq_by}

pub data PaymentProvider : Type 0 where
  wechat_pay alipay unionpay stripe paypal : PaymentProvider

abbrev pub payment_provider_code : PaymentProvider → ℕ
payment_provider_code PaymentProvider.wechat_pay = 0
payment_provider_code PaymentProvider.alipay = 1
payment_provider_code PaymentProvider.unionpay = 2
payment_provider_code PaymentProvider.stripe = 3
payment_provider_code PaymentProvider.paypal = 4

pub payment_provider_code-injective :
    (a b : PaymentProvider) → payment_provider_code a ≡ payment_provider_code b → a ≡ b
payment_provider_code-injective a b h = ground arith

instance abbrev pub payment_provider_eq : Eq PaymentProvider
payment_provider_eq = eq_by payment_provider_code payment_provider_code-injective

pub data PaymentAccountStatus : Type 0 where
  active disabled : PaymentAccountStatus

abbrev pub payment_account_status_code : PaymentAccountStatus → ℕ
payment_account_status_code PaymentAccountStatus.active = 0
payment_account_status_code PaymentAccountStatus.disabled = 1

pub payment_account_status_code-injective :
    (a b : PaymentAccountStatus)
    → payment_account_status_code a ≡ payment_account_status_code b
    → a ≡ b
payment_account_status_code-injective a b h = ground arith

instance abbrev pub payment_account_status_eq : Eq PaymentAccountStatus
payment_account_status_eq = eq_by payment_account_status_code payment_account_status_code-injective

pub data PaymentIntentStatus : Type 0 where
  created pending processing succeeded failed cancelled expired : PaymentIntentStatus

abbrev pub payment_intent_status_code : PaymentIntentStatus → ℕ
payment_intent_status_code PaymentIntentStatus.created = 0
payment_intent_status_code PaymentIntentStatus.pending = 1
payment_intent_status_code PaymentIntentStatus.processing = 2
payment_intent_status_code PaymentIntentStatus.succeeded = 3
payment_intent_status_code PaymentIntentStatus.failed = 4
payment_intent_status_code PaymentIntentStatus.cancelled = 5
payment_intent_status_code PaymentIntentStatus.expired = 6

pub payment_intent_status_code-injective :
    (a b : PaymentIntentStatus)
    → payment_intent_status_code a ≡ payment_intent_status_code b
    → a ≡ b
payment_intent_status_code-injective a b h = ground arith

instance abbrev pub payment_intent_status_eq : Eq PaymentIntentStatus
payment_intent_status_eq = eq_by payment_intent_status_code payment_intent_status_code-injective

pub data PaymentReconciliationStatus : Type 0 where
  pending matched late_payment manual_review : PaymentReconciliationStatus

abbrev pub payment_reconciliation_status_code : PaymentReconciliationStatus → ℕ
payment_reconciliation_status_code PaymentReconciliationStatus.pending = 0
payment_reconciliation_status_code PaymentReconciliationStatus.matched = 1
payment_reconciliation_status_code PaymentReconciliationStatus.late_payment = 2
payment_reconciliation_status_code PaymentReconciliationStatus.manual_review = 3

pub payment_reconciliation_status_code-injective :
    (a b : PaymentReconciliationStatus)
    → payment_reconciliation_status_code a ≡ payment_reconciliation_status_code b
    → a ≡ b
payment_reconciliation_status_code-injective a b h = ground arith

instance abbrev pub payment_reconciliation_status_eq : Eq PaymentReconciliationStatus
payment_reconciliation_status_eq =
    eq_by payment_reconciliation_status_code payment_reconciliation_status_code-injective

pub data PaymentTransactionType : Type 0 where
  payment refund reversal : PaymentTransactionType

abbrev pub payment_transaction_type_code : PaymentTransactionType → ℕ
payment_transaction_type_code PaymentTransactionType.payment = 0
payment_transaction_type_code PaymentTransactionType.refund = 1
payment_transaction_type_code PaymentTransactionType.reversal = 2

pub payment_transaction_type_code-injective :
    (a b : PaymentTransactionType)
    → payment_transaction_type_code a ≡ payment_transaction_type_code b
    → a ≡ b
payment_transaction_type_code-injective a b h = ground arith

instance abbrev pub payment_transaction_type_eq : Eq PaymentTransactionType
payment_transaction_type_eq =
    eq_by payment_transaction_type_code payment_transaction_type_code-injective
