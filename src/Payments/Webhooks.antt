-- ===== src/Payments/Webhooks.antt =====
-- Webhook deliveries (`handleWebhook`, `markWebhookError` of
-- `backend/src/modules/payments/payments.service.ts`). The signature check of the gateway
-- (`verifyWebhook`), the hash of the body and `new Date(text)` are parameters.
use ling_dian.Prelude.{
  ℕ, String, Bool, true, false, not, ◌&&◌, ◌||◌, ◌++◌, Option, none, some, List, [], ◌∷◌, is_some,
  if◌then◌else◌,
}
use ling_dian.Prelude.Int.{int_beq}
use ling_dian.Prelude.Equality.{◌==◌, same_present, string_eq, nat_eq, option_eq}
use ling_dian.Prelude.Results.{
  Result, ok, throw, or_throw, bad_request, conflict, not_found, unique_violation,
}
use ling_dian.Prelude.Actions.{Action, ◌>>=◌, lift}
use ling_dian.Schema.OrdersEnums.{OrderStatus, order_status_eq}
use ling_dian.Schema.PaymentsEnums.{
  PaymentProvider, PaymentIntentStatus, PaymentReconciliationStatus, PaymentTransactionType,
  payment_provider_eq, payment_intent_status_eq, payment_transaction_type_eq,
}
use ling_dian.Schema.OrderRows.{Order, OrderStatusLog}
use ling_dian.Schema.PaymentRows.{
  PaymentAccount, PaymentIntent, PaymentTransaction, PaymentWebhookEvent,
}
use ling_dian.Schema.Database.{Database}
use ling_dian.Db.{Prisma}
use ling_dian.Stores.{primary_store_id}
use ling_dian.Payments.Rules.{PaymentWebhookPayload, validate_payload, is_succeeded}
use Prim.Native.String

pub record Connector : Type 0 where
  pub verify_webhook : PaymentAccount → String → Result PaymentWebhookPayload
  pub hash : String → String
  pub parse_date : String → Option ℕ

-- The clock and the fresh number of a transaction.
pub record WebhookSeed : Type 0 where
  pub now : ℕ
  pub transaction_no : String

pub record Delivery : Type 0 where
  pub provider : PaymentProvider
  pub account_id : String
  pub raw_body : String

pub record Accepted : Type 0 where
  pub duplicate : Bool

abbrev pub is_event : Delivery → String → PaymentWebhookEvent → Bool
is_event w event_id e =
    e.provider == w.provider && (e.account_id == w.account_id && e.event_id == event_id)

abbrev pub new_event : Delivery → String → String → PaymentWebhookEvent
new_event w event_id hash = record {
  provider = w.provider;
  account_id = w.account_id;
  event_id = event_id;
  payload_hash = hash;
  processed_at = none;
  processing_error = none;
}

-- What reserving the event says: go on, or the delivery has been processed before.
pub data Reservation : Type 0 where
  proceed processed : Reservation

abbrev pub earlier : Option PaymentWebhookEvent → String → Result Reservation
earlier none hash = throw (conflict "Webhook event id was reused with a different payload")
earlier (some e) hash =
    if not (e.payload_hash == hash)
    then throw (conflict "Webhook event id was reused with a different payload")
    else ok (if is_some e.processed_at then processed else proceed)

abbrev pub reserved :
    Option (List PaymentWebhookEvent) → Result Reservation → Action Database Reservation
reserved none found s = (found, s)
reserved (some events) found s = (ok proceed, record s { payment_webhook_events = events })

unfoldable pub reserve_event : Prisma → Delivery → String → String → Action Database Reservation
reserve_event db w event_id hash s =
    reserved
      (db.create PaymentWebhookEvent (is_event w event_id) (new_event w event_id hash)
        s.payment_webhook_events)
      (earlier (db.find_first PaymentWebhookEvent (is_event w event_id) s.payment_webhook_events)
        hash)
      s

unfoldable pub mark_event :
    Prisma → Delivery → String → (PaymentWebhookEvent → PaymentWebhookEvent) → Database → Database
mark_event db w event_id f s = record s {
  payment_webhook_events =
      (db.update_many PaymentWebhookEvent (is_event w event_id) f s.payment_webhook_events).0;
}

abbrev pub processed_now : ℕ → PaymentWebhookEvent → PaymentWebhookEvent
processed_now now e = record e { processed_at = some now }

abbrev failed_with : String → PaymentWebhookEvent → PaymentWebhookEvent
failed_with error e = record e { processing_error = some error }

-- The attempt that a payload names, with its order; `none` where one of the references differs.
abbrev pub agrees : PaymentAccount → PaymentWebhookPayload → PaymentIntent → Order → Bool
agrees account p i o =
    i.account_id == account.id
    && (p.account_external_id == account.external_account_id
        && (o.store_id == account.store_id
            && (int_beq p.amount_minor i.amount_minor
                && (p.currency == i.currency
                    && some p.provider_intent_id == i.provider_intent_id))))

abbrev with_order : PaymentIntent → Option Order → Option (PaymentIntent × Order)
with_order i none = none
with_order i (some o) = some (i, o)

abbrev find_intent : Prisma → PaymentWebhookPayload → Database → Option (PaymentIntent × Order)
find_intent db p s =
    elim (db.find_first PaymentIntent (λ i. i.payment_no == p.payment_no) s.payment_intents) [
      | none ↦ none
      | some i ↦ with_order i (db.find_first Order (λ o. o.id == i.order_id) s.orders)
    ]

abbrev if_agrees :
    PaymentAccount
    → PaymentWebhookPayload
    → Option (PaymentIntent × Order)
    → Option (PaymentIntent × Order)
if_agrees account p none = none
if_agrees account p (some x) = if agrees account p x.0 x.1 then some x else none

unfoldable pub match_intent :
    Prisma → PaymentAccount → PaymentWebhookPayload → Database → Option (PaymentIntent × Order)
match_intent db account p s = if_agrees account p (find_intent db p s)

abbrev pub same_transaction : String → String → PaymentTransaction → Bool
same_transaction intent_id key t =
    t.payment_intent_id == intent_id
    && (t.type == PaymentTransactionType.payment && t.idempotency_key == key)

abbrev new_transaction :
    WebhookSeed → PaymentWebhookPayload → PaymentIntent → ℕ → PaymentTransaction
new_transaction seed p i occurred = record {
  transaction_no = seed.transaction_no;
  payment_intent_id = i.id;
  type = PaymentTransactionType.payment;
  amount_minor = i.amount_minor;
  currency = i.currency;
  provider_transaction_id = p.provider_transaction_id;
  idempotency_key = p.event_id;
  occurred_at = some occurred;
}

abbrev pub awaits_payment : String → String → Order → Bool
awaits_payment order_id store_id o =
    o.id == order_id && (o.store_id == store_id && o.status == OrderStatus.pending_payment)

abbrev pub paid : ℕ → Order → Order
paid occurred o = record o { status = OrderStatus.paid; paid_at = some occurred }

abbrev pub provider_text : PaymentProvider → String
provider_text PaymentProvider.wechat_pay = "WECHAT_PAY"
provider_text PaymentProvider.alipay = "ALIPAY"
provider_text PaymentProvider.unionpay = "UNIONPAY"
provider_text PaymentProvider.stripe = "STRIPE"
provider_text PaymentProvider.paypal = "PAYPAL"

-- `payment:${provider}`
abbrev payment_operator : PaymentProvider → String
payment_operator provider = String.◌++◌ "payment:" (provider_text provider)

abbrev pub payment_log : PaymentProvider → String → PaymentIntent → OrderStatusLog
payment_log provider event_id i = record {
  order_id = i.order_id;
  from_status = some OrderStatus.pending_payment;
  to_status = OrderStatus.paid;
  operator_name = some (payment_operator provider);
  note = some "Payment confirmed by verified webhook";
  extra = some (record { payment_no = i.payment_no; event_id = event_id });
}

-- The order's part: the rows that still await the payment are paid, and one that did is logged.
unfoldable pub pay_order :
    Prisma → PaymentProvider → String → PaymentIntent → String → ℕ → Database → Database
pay_order db provider event_id i store_id occurred s =
    let changed =
      db.update_many Order (awaits_payment i.order_id store_id) (paid occurred) s.orders in
    record s {
      orders = changed.0;
      order_status_logs =
          if changed.1 == 1
          then s.order_status_logs ++ payment_log provider event_id i ∷ []
          else s.order_status_logs;
    }

abbrev settled : Bool → ℕ → PaymentIntent → PaymentIntent
settled can_be_paid occurred i = record i {
  status = PaymentIntentStatus.succeeded;
  paid_at = some occurred;
  reconciliation_status =
      if can_be_paid
      then PaymentReconciliationStatus.matched
      else PaymentReconciliationStatus.late_payment;
}

-- The attempt's part: its new status and its money movement, written once for each event.
unfoldable pub settle_intent :
    Prisma → WebhookSeed → PaymentWebhookPayload → PaymentIntent → Bool → ℕ → Database → Database
settle_intent db seed p i can_be_paid occurred s = record s {
  payment_intents =
      (db.update_many PaymentIntent (λ x. x.id == i.id) (settled can_be_paid occurred)
        s.payment_intents).0;
  payment_transactions =
      (db.upsert PaymentTransaction (same_transaction i.id p.event_id)
        (new_transaction seed p i occurred) (λ t. t) s.payment_transactions).1;
}

abbrev pub confirm :
    Prisma
    → WebhookSeed
    → Delivery
    → PaymentAccount
    → PaymentWebhookPayload
    → PaymentIntent
    → Order
    → ℕ
    → Database
    → Database
confirm db seed w account p i o occurred s =
    let can_be_paid = o.status == OrderStatus.pending_payment in
    let after = settle_intent db seed p i can_be_paid occurred s in
    if can_be_paid
    then pay_order db w.provider p.event_id i account.store_id occurred after
    else after

abbrev progressed : PaymentWebhookPayload → PaymentIntent → PaymentIntent
progressed p i = record i {
  status =
      if p.event_type == "PAYMENT_PROCESSING"
      then PaymentIntentStatus.processing
      else PaymentIntentStatus.failed;
  failure_code = p.failure_code;
}

unfoldable pub progress_intent :
    Prisma → PaymentWebhookPayload → PaymentIntent → Database → Database
progress_intent db p i s = record s {
  payment_intents =
      (db.update_many PaymentIntent
        (λ x. x.id == i.id && not (x.status == PaymentIntentStatus.succeeded)) (progressed p)
        s.payment_intents).0;
}

-- What the transaction writes, where its upsert goes through.
unfoldable pub apply_event :
    Prisma
    → WebhookSeed
    → Delivery
    → PaymentAccount
    → PaymentWebhookPayload
    → PaymentIntent
    → Order
    → ℕ
    → Database
    → Database
apply_event db seed w account p i o occurred s =
    mark_event db w p.event_id (processed_now seed.now) (
      if is_succeeded p
      then if i.status == PaymentIntentStatus.succeeded
        then s
        else confirm db seed w account p i o occurred s
      else progress_intent db p i s)

-- The unique constraints of the table.
abbrev transaction_clash : PaymentTransaction → PaymentTransaction → Bool
transaction_clash t x =
    x.transaction_no == t.transaction_no
    || (x.payment_intent_id == t.payment_intent_id
        && same_present t.provider_transaction_id x.provider_transaction_id)

-- The upsert of the transaction would create a row that clashes with another.
unfoldable pub is_refused :
    Prisma → WebhookSeed → PaymentWebhookPayload → PaymentIntent → ℕ → Database → Bool
is_refused db seed p i occurred s =
    is_succeeded p
    && (not (i.status == PaymentIntentStatus.succeeded)
        && (not (
              is_some (
                db.find_first PaymentTransaction (same_transaction i.id p.event_id)
                  s.payment_transactions))
            && is_some (
                db.find_first PaymentTransaction
                  (transaction_clash (new_transaction seed p i occurred)) s.payment_transactions)))

-- The transaction, with the attempt and the order as they were read before it. A unique violation
-- undoes it.
unfoldable pub commit_event :
    Prisma
    → WebhookSeed
    → Delivery
    → PaymentAccount
    → PaymentWebhookPayload
    → ℕ
    → PaymentIntent × Order
    → Action Database Accepted
commit_event db seed w account p occurred read s =
    if is_refused db seed p read.0 occurred s then (throw unique_violation, s) else (
      ok (record { duplicate = false }),
      apply_event db seed w account p read.0 read.1 occurred s,
    )

abbrev pub applied :
    Prisma
    → WebhookSeed
    → Delivery
    → PaymentAccount
    → PaymentWebhookPayload
    → ℕ
    → Option (PaymentIntent × Order)
    → Action Database Accepted
applied db seed w account p occurred none s = (
  throw (conflict "Webhook payment reference, recipient, or amount mismatch"),
  mark_event db w p.event_id (failed_with "PAYMENT_REFERENCE_MISMATCH") s,
)
applied db seed w account p occurred (some x) s = commit_event db seed w account p occurred x s

unfoldable pub process :
    Prisma
    → WebhookSeed
    → Delivery
    → PaymentAccount
    → PaymentWebhookPayload
    → ℕ
    → Reservation
    → Action Database Accepted
process db seed w account p occurred processed s = (ok (record { duplicate = true }), s)
process db seed w account p occurred proceed s =
    applied db seed w account p occurred (match_intent db account p s) s

-- A payload that the gateway has verified.
unfoldable pub receive :
    Prisma
    → Connector
    → WebhookSeed
    → Delivery
    → PaymentAccount
    → PaymentWebhookPayload
    → Action Database Accepted
receive db c seed w account p = do
  _ ← lift (validate_payload p)
  occurred ←
      lift (or_throw (c.parse_date p.occurred_at) (bad_request "Invalid webhook occurrence time"))
  step ← reserve_event db w p.event_id (c.hash w.raw_body)
  process db seed w account p occurred step

abbrev pub own_account : Delivery → String → PaymentAccount → Bool
own_account w store_id a =
    a.id == w.account_id && (a.provider == w.provider && a.store_id == store_id)

unfoldable pub handle_webhook :
    Prisma → Option String → Connector → WebhookSeed → Delivery → Action Database Accepted
handle_webhook db config c seed w = do
  store_id ← lift (primary_store_id config)
  account ← λ s. (
    or_throw (db.find_first PaymentAccount (own_account w store_id) s.payment_accounts)
        (not_found "Payment account not found"),
    s,
  )
  p ← lift (c.verify_webhook account w.raw_body)
  receive db c seed w account p
