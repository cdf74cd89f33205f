-- ===== src/Tests/Lists.antt =====
-- Listing the orders of a shop that has one.
use Prim.Native.Nat.{min}
use ling_dian.Prelude.{
  trim, ◌≡◌, refl, ℕ, ◌+◌, ◌-◌, ◌*◌, ◌≤◌, String, Bool, false, some, none, Option, [], ◌∷◌, length,
  or_else,
}
use ling_dian.Prelude.Results.{Result, ok, throw}
use ling_dian.Prelude.Int.{pos}
use ling_dian.Schema.Database.{Database}
use ling_dian.Db.{listed}
use ling_dian.Stores.{resolve_store_ids, primary_store_id}
use ling_dian.Orders.Scope.{
  QueryOrders, build_order_where, build_date_range, scope_where, query_filter,
}
use ling_dian.Orders.Lists.{OrderPage, OrderSummaryStats, get_orders, get_order_summary}
use ling_dian.Orders.Pages.{get_orders-length, get_order_summary-total}
use ling_dian.Tests.Samples.{config, empty, waiting, anyone}

abbrev shop : Database
shop = record empty { orders = waiting ∷ [] }

abbrev everything : QueryOrders
everything = record {
  page = none;
  page_size = some 10;
  status = none;
  order_type = none;
  payment_channel = none;
  keyword = none;
  start_date = none;
  end_date = none;
}

abbrev no_date : String → Option ℕ
no_date text = none

abbrev never : String → String → Bool
never a b = false

abbrev page_of : Result OrderPage → OrderPage
page_of (ok p) = p
page_of (throw e) = record { items = []; total = 0; page = 0; page_size = 0 }

abbrev listing : Result OrderPage
listing = get_orders listed no_date never config everything anyone shop

listed_once : listing ≡ ok (page_of listing)
unfolding listed get_orders build_order_where build_date_range scope_where query_filter
    resolve_store_ids primary_store_id trim
listed_once = refl

total_test : (page_of listing).total ≡ 1
unfolding listed get_orders build_order_where build_date_range scope_where query_filter
    resolve_store_ids primary_store_id trim
total_test = refl

get_orders-length_example :
    ((page_of listing).page ≡ or_else everything.page 1)
    × ((page_of listing).page_size ≡ or_else everything.page_size 50)
    × (length (page_of listing).items
        ≡ min
            (page_of listing).page_size
            ((page_of listing).total - ((page_of listing).page - 1) * (page_of listing).page_size))
get_orders-length_example =
    get_orders-length listed no_date never config everything anyone shop (page_of listing)
      listed_once

abbrev stats_of : Result OrderSummaryStats → OrderSummaryStats
stats_of (ok x) = x
stats_of (throw e) = record {
  total_count = 0;
  pending_payment_count = 0;
  paid_count = 0;
  refunding_count = 0;
  refunded_count = 0;
  total_amount = pos 0;
}

abbrev summary : Result OrderSummaryStats
summary = get_order_summary listed no_date never config everything anyone shop

summed : summary ≡ ok (stats_of summary)
unfolding listed get_order_summary build_order_where build_date_range scope_where query_filter
    resolve_store_ids primary_store_id trim
summed = refl

get_order_summary-total_example :
    (stats_of summary).pending_payment_count
      + (stats_of summary).paid_count
      + (stats_of summary).refunding_count
      + (stats_of summary).refunded_count
    ≤ (stats_of summary).total_count
get_order_summary-total_example =
    get_order_summary-total listed no_date never config everything anyone shop (stats_of summary)
      refl summed
