-- ===== src/Payments/Intents.antt =====
-- Starting a payment (`createIntent` of
-- `backend/src/modules/payments/payments.service.ts`). The steps are not one transaction: what was
-- written before an error stays. The gateway (`payment.gateway.ts`, a signed HTTP call to the
-- connector) is a parameter.
use ling_dian.Prelude.{
  ℕ, ◌+◌, String, Bool, not, ◌&&◌, ◌||◌, Option, none, some, List, [], ◌∷◌, is_some, if◌then◌else◌,
}
use ling_dian.Prelude.Int.{ℤ, int_beq}
use ling_dian.Prelude.Equality.{◌==◌, includes, string_eq, option_eq}
use ling_dian.Prelude.Results.{
  Exception, Result, ok, throw, bind, or_throw, bad_request, conflict, not_found, unique_violation,
}
use ling_dian.Prelude.Actions.{Action, ◌>>=◌, lift, throw_if}
use ling_dian.Schema.OrdersEnums.{OrderStatus, PaymentChannel, order_status_eq, payment_channel_eq}
use ling_dian.Schema.PaymentsEnums.{
  PaymentProvider, PaymentAccountStatus, PaymentIntentStatus, PaymentReconciliationStatus,
  payment_provider_eq, payment_account_status_eq, payment_intent_status_eq,
}
use ling_dian.Schema.OrderRows.{Order}
use ling_dian.Schema.PaymentRows.{PaymentAccount, PaymentIntent}
use ling_dian.Schema.Database.{Database}
use ling_dian.Db.{Prisma}
use ling_dian.Stores.{primary_store_id}
use ling_dian.Payments.Rules.{
  provider_channel, to_minor, not_positive, PaymentIntentView, map_intent,
}

pub record CreatePaymentIntent : Type 0 where
  pub provider : PaymentProvider
  pub channel : PaymentChannel
  pub client_request_id : String

pub record GatewayRequest : Type 0 where
  pub payment_no : String
  pub order_no : String
  pub amount_minor : ℤ
  pub currency : String
  pub expires_at : ℕ

pub record GatewayIntent : Type 0 where
  pub provider_intent_id : String
  pub status : PaymentIntentStatus
  pub account_external_id : String
  pub amount_minor : ℤ
  pub currency : String
  pub client_action : Option String

abbrev pub Gateway : Type 0
Gateway = PaymentAccount → GatewayRequest → Result GatewayIntent

-- The clock and the fresh ids of a call.
pub record IntentSeed : Type 0 where
  pub now : ℕ
  pub intent_id : String
  pub payment_no : String

abbrev pub own_order : String → String → String → Order → Bool
own_order order_id customer store_id o =
    o.id == order_id
    && (o.customer_user_id == some customer && (o.store_id == store_id && not o.is_deleted))

abbrev pub same_attempt : String → String → PaymentIntent → Bool
same_attempt order_id request i = i.order_id == order_id && i.client_request_id == request

abbrev pub active_statuses : List PaymentIntentStatus
active_statuses =
    PaymentIntentStatus.created ∷ PaymentIntentStatus.pending ∷ PaymentIntentStatus.processing
    ∷ PaymentIntentStatus.succeeded ∷ []

abbrev pub is_active : String → PaymentIntent → Bool
is_active order_id i = i.order_id == order_id && includes i.status active_statuses

abbrev receiving : String → CreatePaymentIntent → PaymentAccount → Bool
receiving store_id body a =
    a.store_id == store_id && (a.provider == body.provider && a.channel == body.channel)

abbrev check_account : Option PaymentAccount → Result PaymentAccount
check_account none =
    throw (bad_request "The store has no active receiving account for this payment method")
check_account (some a) =
    if a.status == PaymentAccountStatus.active
    then ok a
    else throw (bad_request "The store has no active receiving account for this payment method")

-- The checks for a new attempt: the amount and the account, or the reason against it.
unfoldable pub check_new_attempt :
    Prisma → CreatePaymentIntent → Order → Database → Result (ℤ × PaymentAccount)
check_new_attempt db body o s =
    if not (o.status == OrderStatus.pending_payment)
    then throw (conflict "Order is not awaiting payment")
    else bind (to_minor o.payable_amount) λ amount.
      if not_positive amount
      then throw (bad_request "Payment amount must be positive")
      else bind
          (check_account
            (db.find_first PaymentAccount (receiving o.store_id body) s.payment_accounts))
          λ account.
            if is_some (db.find_first PaymentIntent (is_active o.id) s.payment_intents)
            then throw (conflict "Order already has an active payment")
            else ok (amount, account)

abbrev unpaid_order : String → String → String → Order → Bool
unpaid_order order_id customer store_id o =
    o.id == order_id
    && (o.customer_user_id == some customer
        && (o.store_id == store_id && o.status == OrderStatus.pending_payment))

unfoldable pub set_channel :
    Prisma → String → String → String → PaymentChannel → Database → Database
set_channel db order_id customer store_id channel s = record s {
  orders =
      (db.update_many Order (unpaid_order order_id customer store_id)
        (λ o. record o { payment_channel = channel }) s.orders).0;
}

abbrev pub new_intent :
    IntentSeed → CreatePaymentIntent → String → ℤ → PaymentAccount → PaymentIntent
new_intent seed body order_id amount account = record {
  id = seed.intent_id;
  payment_no = seed.payment_no;
  order_id = order_id;
  account_id = account.id;
  provider = body.provider;
  channel = body.channel;
  status = PaymentIntentStatus.created;
  reconciliation_status = PaymentReconciliationStatus.pending;
  amount_minor = amount;
  currency = "CNY";
  client_request_id = body.client_request_id;
  provider_intent_id = none;
  client_action = none;
  failure_code = none;
  failure_message = none;
  expires_at = seed.now + 900000;
  paid_at = none;
}

abbrev pub intent_clash : PaymentIntent → PaymentIntent → Bool
intent_clash i x =
    x.id == i.id || (x.payment_no == i.payment_no || same_attempt i.order_id i.client_request_id x)

abbrev update_intent :
    Prisma → (PaymentIntent → Bool) → (PaymentIntent → PaymentIntent) → Database → Database
update_intent db p f s = record s {
  payment_intents = (db.update_many PaymentIntent p f s.payment_intents).0;
}

abbrev mismatched : ℤ → PaymentAccount → GatewayIntent → Bool
mismatched amount account r =
    not (r.account_external_id == account.external_account_id)
    || (not (int_beq r.amount_minor amount) || not (r.currency == "CNY"))

abbrev pub has_intent_id : String → PaymentIntent → Bool
has_intent_id id i = i.id == id

abbrev connector_failed : PaymentIntent → PaymentIntent
connector_failed i = record i {
  status = PaymentIntentStatus.failed;
  failure_code = some "CONNECTOR_ERROR";
  failure_message = some "Payment provider is temporarily unavailable";
}

abbrev response_mismatch : PaymentIntent → PaymentIntent
response_mismatch i = record i {
  status = PaymentIntentStatus.failed;
  reconciliation_status = PaymentReconciliationStatus.manual_review;
  failure_code = some "CONNECTOR_RESPONSE_MISMATCH";
}

abbrev opened : GatewayIntent → PaymentIntent → PaymentIntent
opened r i = record i {
  provider_intent_id = some r.provider_intent_id;
  status = r.status;
  client_action = r.client_action;
}

-- Another attempt at the same provider has the number that the gateway gave.
abbrev opened_clash : PaymentIntent → GatewayIntent → PaymentIntent → Bool
opened_clash i r x =
    not (x.id == i.id)
    && (x.provider == i.provider && x.provider_intent_id == some r.provider_intent_id)

-- The `catch` of the gateway call: an attempt that is still `CREATED` has failed.
abbrev give_up : Prisma → String → Exception → Action Database PaymentIntentView
give_up db id e s = (
  throw e,
  update_intent db (λ i. has_intent_id id i && i.status == PaymentIntentStatus.created)
      connector_failed s,
)

-- The gateway's answer.
unfoldable pub open_intent :
    Prisma
    → ℤ
    → PaymentAccount
    → PaymentIntent
    → Result GatewayIntent
    → Action Database PaymentIntentView
open_intent db amount account i (throw e) s = give_up db i.id e s
open_intent db amount account i (ok r) s =
    if mismatched amount account r
    then give_up db i.id (conflict "Payment connector returned mismatched recipient or amount")
        (update_intent db (has_intent_id i.id) response_mismatch s)
    else if is_some (db.find_first PaymentIntent (opened_clash i r) s.payment_intents)
    then give_up db i.id unique_violation s
    else (map_intent (opened r i), update_intent db (has_intent_id i.id) (opened r) s)

abbrev repeated : Option PaymentIntent → Action Database PaymentIntentView
repeated none s = (throw unique_violation, s)
repeated (some i) s = (map_intent i, s)

-- The new row, or, after a unique violation, the attempt with the same request id.
unfoldable pub store_intent :
    Prisma
    → Gateway
    → Order
    → ℤ
    → PaymentAccount
    → PaymentIntent
    → Action Database PaymentIntentView
store_intent db gateway o amount account i s =
    elim (db.create PaymentIntent (intent_clash i) i s.payment_intents) [
      | none ↦
          repeated
            (db.find_first PaymentIntent (same_attempt i.order_id i.client_request_id)
              s.payment_intents)
            s
      | some intents ↦
          open_intent db amount account i
            (gateway account (record {
              payment_no = i.payment_no;
              order_no = o.order_no;
              amount_minor = amount;
              currency = "CNY";
              expires_at = i.expires_at;
            }))
            (record s { payment_intents = intents })
    ]

unfoldable pub attempt_intent :
    Prisma
    → Gateway
    → IntentSeed
    → String
    → CreatePaymentIntent
    → String
    → Order
    → Action Database PaymentIntentView
attempt_intent db gateway seed customer body store_id o = do
  checked ← λ s. (check_new_attempt db body o s, s)
  λ s.
      store_intent db gateway o checked.0 checked.1 (new_intent seed body o.id checked.0 checked.1)
        (set_channel db o.id customer store_id body.channel s)

unfoldable pub create_intent :
    Prisma
    → Option String
    → Gateway
    → IntentSeed
    → String
    → String
    → CreatePaymentIntent
    → Action Database PaymentIntentView
create_intent db config gateway seed order_id customer body = do
  store_id ← lift (primary_store_id config)
  throw_if (not (provider_channel body.provider == body.channel))
      (bad_request "Payment provider does not support the requested channel")
      do
        o ← λ s. (
          or_throw (db.find_first Order (own_order order_id customer store_id) s.orders)
              (not_found "Order not found"),
          s,
        )
        λ s.
            elim (db.find_first PaymentIntent (same_attempt o.id body.client_request_id)
              s.payment_intents) [
                | some i ↦ (map_intent i, s)
                | none ↦ attempt_intent db gateway seed customer body store_id o s
              ]
