-- ===== src/Tests/NewOrders.antt =====
-- Placing orders in the small shop: the bill, the new rows, and a request sent twice.
use ling_dian.Prelude.{
  trim, true, Member, inl, ◌⊎◌, ◌≢◌, ◌≡◌, refl, String, some, none, List, [], ◌∷◌,
}
use ling_dian.Prelude.Int.{ℤ, pos, ◌+ℤ◌, ◌*ℤ◌}
use ling_dian.Prelude.Results.{Exception, Result, ok, throw, unique_violation}
use ling_dian.Prelude.Actions.{transaction}
use ling_dian.Schema.AuthEnums.{IdentityProvider}
use ling_dian.Schema.OrderRows.{Order, OrderItem}
use ling_dian.Schema.Database.{Database}
use ling_dian.Db.{listed}
use ling_dian.Stores.{primary_store_id, resolve_requested_store_id, resolve_current_store}
use ling_dian.Pickup.{
  allocate_pickup_code, code_text, to_shanghai_business_date, next_sequence, issue_code,
}
use ling_dian.Outbox.Enqueue.{enqueue_order_created}
use ling_dian.Orders.Detail.{OrderDetail, map_order_detail}
use ling_dian.Orders.Audit.{Audited}
use ling_dian.Orders.Pricing.{
  item_sku_id, normalize_items, price_items, price_item, sku_map, option_map, allowed_groups,
  choose_option, choose_options, check_groups, selection_cents, to_cents, from_cents,
  price_subtotal, price_chosen,
}
use ling_dian.Orders.Amounts.{sum_subtotals}
use ling_dian.Orders.Bill.{AllBilled, price_items-AllBilled}
use ling_dian.Orders.Contest.{commit_order-once}
use ling_dian.Orders.Create.{
  Caller, Prepared, commit_order, begin_order, is_request, create_order, create_new,
  create_in_transaction, accept_order, place_order, insert_order, quote_items, check_store,
  resolve_customer, resolve_delivery, find_idempotent_order,
}
use ling_dian.Orders.NewOrder.{IsNewOrder, create_new-IsNewOrder, create_order-Audited}
use ling_dian.Orders.Retry.{IsKnown, create_order-retry}
use ling_dian.Tests.Samples.{config, empty, tea, half_sugar, tea_twice, body, walk_in, waiting}

abbrev bill : Result (List OrderItem × ℤ)
bill = price_items (sku_map (tea ∷ [])) (option_map (half_sugar ∷ [])) (pos 0) (tea_twice ∷ [])

abbrev lines_of : Result (List OrderItem × ℤ) → List OrderItem × ℤ
lines_of (ok b) = b
lines_of (throw e) = ([], pos 0)

billed : bill ≡ ok (lines_of bill)
unfolding price_items price_item allowed_groups choose_options choose_option check_groups
    price_chosen selection_cents to_cents from_cents price_subtotal ◌+ℤ◌ ◌*ℤ◌
billed = refl

-- Two teas of 18.50 with a choice of 0.50 cost 38.00.
total_test : (lines_of bill).1 ≡ pos 3800
unfolding price_items price_item allowed_groups choose_options choose_option check_groups
    price_chosen selection_cents to_cents from_cents price_subtotal ◌+ℤ◌ ◌*ℤ◌
total_test = refl

price_items-AllBilled_example :
    AllBilled (sku_map (tea ∷ [])) (option_map (half_sugar ∷ [])) (tea_twice ∷ []) (lines_of bill).0
    × ((lines_of bill).1 ≡ pos 0 +ℤ sum_subtotals (lines_of bill).0)
price_items-AllBilled_example =
    price_items-AllBilled (sku_map (tea ∷ [])) (option_map (half_sugar ∷ [])) (pos 0)
      (tea_twice ∷ []) (lines_of bill) billed

abbrev detail_of : Result OrderDetail → OrderDetail
detail_of (ok d) = d
detail_of (throw e) = map_order_detail [] waiting

abbrev walk_in_made : Result OrderDetail × Database
walk_in_made = create_new listed config [] body walk_in "s1" none (tea_twice ∷ []) empty empty

walk_in_ok : walk_in_made ≡ (ok (detail_of walk_in_made.0), walk_in_made.1)
unfolding listed accept_order resolve_customer resolve_current_store primary_store_id trim
    check_store quote_items price_items price_item allowed_groups choose_options choose_option
    check_groups price_chosen selection_cents to_cents from_cents price_subtotal place_order
    allocate_pickup_code to_shanghai_business_date next_sequence issue_code code_text insert_order
    enqueue_order_created resolve_requested_store_id ◌+ℤ◌ ◌*ℤ◌
walk_in_ok = refl

create_new-IsNewOrder_example :
    IsNewOrder listed config [] body walk_in "s1" none
      (tea_twice ∷ [])
      empty
      empty
      walk_in_made.1
      (detail_of walk_in_made.0)
create_new-IsNewOrder_example =
    create_new-IsNewOrder listed config [] body walk_in "s1" none (tea_twice ∷ []) empty empty
      walk_in_made.1 (detail_of walk_in_made.0) walk_in_ok

-- A customer with a verified phone.
abbrev member_shop : Database
member_shop = record empty {
  auth_identities =
      record {
        user_id = "u1";
        provider = IdentityProvider.phone;
        phone_e164 = some "+8613800000000";
        verified_at = some 1;
      }
      ∷ [];
}

abbrev member : Caller
member = record walk_in { customer_user_id = some "u1" }

abbrev made : Result OrderDetail × Database
made = create_order listed config [] body member member_shop

made_ok : made ≡ (ok (detail_of made.0), made.1)
unfolding listed create_order begin_order commit_order find_idempotent_order resolve_delivery
    normalize_items item_sku_id transaction create_in_transaction accept_order resolve_customer
    resolve_current_store primary_store_id trim check_store quote_items price_items price_item
    allowed_groups choose_options choose_option check_groups price_chosen selection_cents to_cents
    from_cents price_subtotal place_order allocate_pickup_code to_shanghai_business_date
    next_sequence issue_code code_text insert_order enqueue_order_created resolve_requested_store_id
    ◌+ℤ◌ ◌*ℤ◌
made_ok = refl

member_audited : Audited member_shop
member_audited = record { unique = tt; trails = tt; owned = tt }

create_order-Audited_example : Audited made.1
create_order-Audited_example =
    create_order-Audited listed config [] body member member_shop made.1 (detail_of made.0) made_ok
      member_audited

abbrev later : Caller
later = record member { now = 9000; order_id = "order2"; order_no = "LD2" }

create_order-retry_example :
    (store_id : String) × (o : Order) × IsKnown listed config [] body member later refl refl refl
      made.1 store_id o
    × (create_order listed config [] body later made.1
        ≡ (ok (map_order_detail made.1.order_status_logs o), made.1))
create_order-retry_example =
    create_order-retry listed config [] body member later refl refl refl member_shop made.1
      (detail_of made.0) made_ok

-- The same request twice at once: the second call saw the shop before the order of the first.
abbrev prepared_later : Prepared
prepared_later = record { store_id = "s1"; delivery = none; items = tea_twice ∷ [] }

abbrev first_of : List Order → Order
first_of [] = waiting
first_of (o ∷ orders) = o

abbrev rival : Order
rival = first_of made.1.orders

not_seen :
    find_idempotent_order listed "s1" later.customer_user_id body.client_request_id member_shop
    ≡ none
unfolding listed find_idempotent_order
not_seen = refl

rival_stored :
    Member rival made.1.orders
    × (is_request "s1" later.customer_user_id body.client_request_id rival ≡ true)
unfolding listed create_order begin_order commit_order find_idempotent_order resolve_delivery
    normalize_items item_sku_id transaction create_in_transaction accept_order resolve_customer
    resolve_current_store primary_store_id trim check_store quote_items price_items price_item
    allowed_groups choose_options choose_option check_groups price_chosen selection_cents to_cents
    from_cents price_subtotal place_order allocate_pickup_code to_shanghai_business_date
    next_sequence issue_code code_text insert_order enqueue_order_created resolve_requested_store_id
    ◌+ℤ◌ ◌*ℤ◌
rival_stored = (inl refl, refl)

abbrev contested : Result OrderDetail × Database
contested = commit_order listed config [] body later prepared_later member_shop made.1

commit_order-once_example :
    (contested.1 ≡ made.1)
    × (((o : Order) × Member o made.1.orders
          × (is_request "s1" later.customer_user_id body.client_request_id o ≡ true)
          × (contested.0 ≡ ok (map_order_detail made.1.order_status_logs o)))
        ⊎ ((e : Exception) × (e ≢ unique_violation) × (contested.0 ≡ throw e)))
commit_order-once_example =
    commit_order-once listed config [] body later refl refl prepared_later member_shop made.1 rival
      not_seen rival_stored.0 rival_stored.1
