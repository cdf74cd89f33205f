-- ===== src/Orders/Scope.antt =====
-- Which orders a caller may see, and the filters of the order list (`scopeWhere`, `buildOrderWhere`
-- and `buildDateRange` of `backend/src/modules/orders/orders.service.ts`). `parse` stands for
-- `new Date(text)` (`none` where the time value is NaN), `contains` for the database's text search.
use ling_dian.Prelude.{
  ℕ, String, Bool, true, false, not, ◌&&◌, ◌||◌, Option, none, some, List, truthy, leb, trim,
  non_empty, if◌then◌else◌,
}
use ling_dian.Prelude.Equality.{◌==◌, includes, string_eq, option_eq}
use ling_dian.Prelude.Results.{Result, ok, throw, bind, bad_request}
use ling_dian.Schema.OrdersEnums.{
  OrderStatus, OrderType, PaymentChannel, order_status_eq, order_type_eq, payment_channel_eq,
}
use ling_dian.Schema.OrderRows.{Order}
use ling_dian.Stores.{resolve_store_ids}

pub record OrderScope : Type 0 where
  pub store_ids : Option (List String)
  pub customer_user_id : Option String

abbrev pub in_scope : OrderScope → List String → Order → Bool
in_scope scope ids o =
    includes o.store_id ids
    && (if truthy scope.customer_user_id
        then o.customer_user_id == scope.customer_user_id
        else true)

unfoldable pub scope_where : Option String → OrderScope → Result (Order → Bool)
scope_where config scope =
    bind (resolve_store_ids config scope.store_ids) λ ids. ok (in_scope scope ids)

pub record QueryOrders : Type 0 where
  pub page : Option ℕ
  pub page_size : Option ℕ
  pub status : Option OrderStatus
  pub order_type : Option OrderType
  pub payment_channel : Option PaymentChannel
  pub keyword : Option String
  pub start_date : Option String
  pub end_date : Option String

-- One end of the range: no filter without a date, and an error if it does not parse.
abbrev bound : (String → Option ℕ) → Option String → String → Result (Option ℕ)
bound parse none message = ok none
bound parse (some text) message =
    if non_empty text
    then (elim (parse text) [ none ↦ throw (bad_request message) | some t ↦ ok (some t) ])
    else ok none

abbrev at_least : Option ℕ → ℕ → Bool
at_least none t = true
at_least (some low) t = leb low t

abbrev at_most : Option ℕ → ℕ → Bool
at_most none t = true
at_most (some high) t = leb t high

unfoldable pub build_date_range :
    (String → Option ℕ) → Option String → Option String → Result (ℕ → Bool)
build_date_range parse start_date end_date =
    bind (bound parse start_date "Invalid startDate") λ low.
      bind (bound parse end_date "Invalid endDate")
        λ high. ok (λ t. at_least low t && at_most high t)

-- `if (query.x) where.x = query.x`.
abbrev wanted : {A : Type 0} → (A → A → Bool) → Option A → A → Bool
wanted same none a = true
wanted same (some w) a = same w a

abbrev text_contains : (String → String → Bool) → Option String → String → Bool
text_contains contains none keyword = false
text_contains contains (some text) keyword = contains text keyword

matches_keyword : (String → String → Bool) → Order → String → Bool
matches_keyword contains o keyword =
    contains o.order_no keyword
    || (text_contains contains o.pickup_code keyword
        || (contains o.customer_name keyword
            || (contains o.customer_mobile keyword || text_contains contains o.remark keyword)))

abbrev keyword_filter : (String → String → Bool) → Option String → Order → Bool
keyword_filter contains none o = true
keyword_filter contains (some keyword) o =
    if non_empty (trim keyword) then matches_keyword contains o (trim keyword) else true

-- Deleted orders are left out, unless they are asked for by their status.
abbrev pub hides_deleted : Bool → Option OrderStatus → Bool
hides_deleted exclude none = exclude
hides_deleted exclude (some status) = if status == OrderStatus.deleted then false else exclude

unfoldable pub query_filter :
    (String → String → Bool) → QueryOrders → Bool → (ℕ → Bool) → Order → Bool
unfolding matches_keyword
query_filter contains query exclude_deleted created o =
    (if hides_deleted exclude_deleted query.status then not o.is_deleted else true)
    && (wanted (λ a b. a == b) query.status o.status
        && (wanted (λ a b. a == b) query.order_type o.order_type
            && (wanted (λ a b. a == b) query.payment_channel o.payment_channel
                && (created o.created_at && keyword_filter contains query.keyword o))))

unfoldable pub build_order_where :
    (String → Option ℕ)
    → (String → String → Bool)
    → Option String
    → QueryOrders
    → Bool
    → OrderScope
    → Result (Order → Bool)
build_order_where parse contains config query exclude_deleted scope =
    bind (build_date_range parse query.start_date query.end_date) λ created.
      bind (scope_where config scope)
        λ scoped. ok (λ o. scoped o && query_filter contains query exclude_deleted created o)
