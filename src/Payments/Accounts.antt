-- ===== src/Payments/Accounts.antt =====
-- The customer's view of a payment, and the receiving accounts (`getCustomerIntent`, `upsertAccount`
-- and `listAccounts` of `backend/src/modules/payments/payments.service.ts`).
use ling_dian.Prelude.{String, Bool, not, ◌&&◌, Option, some, List, any, or_else}
use ling_dian.Prelude.Equality.{◌==◌, includes, string_eq, option_eq}
use ling_dian.Prelude.Results.{Result, ok, bind, or_throw, bad_request, not_found}
use ling_dian.Prelude.Actions.{Action, ◌>>=◌, lift, throw_if}
use ling_dian.Schema.OrdersEnums.{PaymentChannel, payment_channel_eq}
use ling_dian.Schema.PaymentsEnums.{
  PaymentProvider, PaymentAccountStatus, payment_provider_eq, payment_provider_code,
}
use ling_dian.Schema.OrderRows.{Order}
use ling_dian.Schema.PaymentRows.{PaymentAccount, PaymentIntent}
use ling_dian.Schema.Database.{Database}
use ling_dian.Db.{Prisma}
use ling_dian.Stores.{primary_store_id, resolve_requested_store_id, resolve_store_ids}
use ling_dian.Payments.Rules.{provider_channel, PaymentIntentView, map_intent}

abbrev pub order_of_customer : String → String → String → Order → Bool
order_of_customer order_id customer store_id o =
    o.id == order_id && (o.customer_user_id == some customer && o.store_id == store_id)

-- The intent's order is of the customer and the store.
abbrev pub intent_of_customer : String → String → String → List Order → PaymentIntent → Bool
intent_of_customer payment_no customer store_id orders i =
    i.payment_no == payment_no && any (order_of_customer i.order_id customer store_id) orders

unfoldable pub get_customer_intent :
    Prisma → Option String → String → String → Database → Result PaymentIntentView
get_customer_intent db config payment_no customer s = bind (primary_store_id config) λ store_id.
    bind
      (or_throw
        (db.find_first PaymentIntent (intent_of_customer payment_no customer store_id s.orders)
          s.payment_intents)
        (not_found "Payment not found"))
      map_intent

-- `UpsertPaymentAccountDto`.
pub record UpsertPaymentAccount : Type 0 where
  pub store_id : String
  pub provider : PaymentProvider
  pub channel : PaymentChannel
  pub external_account_id : String
  pub connector_config_key : String
  pub status : Option PaymentAccountStatus

abbrev pub same_account : String → UpsertPaymentAccount → PaymentAccount → Bool
same_account store_id body a =
    a.store_id == store_id && (a.provider == body.provider && a.channel == body.channel)

abbrev pub new_account : String → String → UpsertPaymentAccount → PaymentAccount
new_account id store_id body = record {
  id = id;
  store_id = store_id;
  provider = body.provider;
  channel = body.channel;
  external_account_id = body.external_account_id;
  connector_config_key = body.connector_config_key;
  status = or_else body.status PaymentAccountStatus.active;
}

abbrev pub changed_account : UpsertPaymentAccount → PaymentAccount → PaymentAccount
changed_account body a = record a {
  external_account_id = body.external_account_id;
  connector_config_key = body.connector_config_key;
  status = or_else body.status a.status;
}

abbrev put_account :
    Prisma → String → UpsertPaymentAccount → String → Action Database PaymentAccount
put_account db id body store_id s =
    let stored =
      db.upsert PaymentAccount (same_account store_id body) (new_account id store_id body)
        (changed_account body) s.payment_accounts in
    (ok stored.0, record s { payment_accounts = stored.1 })

-- `id` is the id of the row if it is new.
unfoldable pub upsert_account :
    Prisma → Option String → String → UpsertPaymentAccount → Action Database PaymentAccount
upsert_account db config id body =
    throw_if (not (provider_channel body.provider == body.channel))
      (bad_request "Provider/channel mismatch")
      do
        store_id ← lift (resolve_requested_store_id config (some body.store_id))
        put_account db id body store_id

-- The answer of the resolver is one store, so the order is that of the providers.
unfoldable pub list_accounts :
    Prisma → Option String → Option (List String) → Database → Result (List PaymentAccount)
list_accounts db config store_ids s = bind (resolve_store_ids config store_ids) λ effective. ok (
    db.find_ordered PaymentAccount (λ a. includes a.store_id effective)
      (λ a. payment_provider_code a.provider) s.payment_accounts)
