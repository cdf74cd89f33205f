-- ===== src/Orders/Status.antt =====
-- Changing the status of an order (`updateOrderStatus` and `deleteOrder` of
-- `backend/src/modules/orders/orders.service.ts`). Each reads the order first and changes it later,
-- in a transaction, on the condition that its status is still the one read; `begin_` is the first
-- part and `commit_` the second, so that other calls may run in between.
use ling_dian.Prelude.{
  none, ℕ, String, Bool, true, not, ◌&&◌, ◌||◌, ◌++◌, Option, some, [], ◌∷◌, if◌then◌else◌,
}
use ling_dian.Prelude.Equality.{◌==◌, includes, string_eq, nat_eq}
use ling_dian.Prelude.Results.{Result, ok, throw, bind, bad_request, conflict}
use ling_dian.Prelude.Actions.{Action, ◌>>=◌, ◌>>◌, pure, lift, throw_if, transaction}
use ling_dian.Schema.OrdersEnums.{OrderStatus, PaymentChannel, order_status_eq, payment_channel_eq}
use ling_dian.Schema.OrderRows.{Order, OrderStatusLog}
use ling_dian.Schema.Database.{Database}
use ling_dian.Db.{Prisma}
use ling_dian.Orders.Scope.{OrderScope, scope_where}
use ling_dian.Orders.Detail.{OrderDetail, find_order, get_order_detail}
use ling_dian.Orders.Transitions.{
  editable_transitions, deletable_statuses, build_status_timestamp_patch,
}

pub record UpdateOrderStatus : Type 0 where
  pub status : OrderStatus
  pub operator_name : Option String
  pub note : Option String

-- What the first part decides: nothing to do, or a change from the status that it read.
pub data Decision : Type 0 where
  unchanged : Decision
  change_from : OrderStatus → Decision

unfoldable pub decide_update : OrderStatus → Order → Result Decision
decide_update target o =
    if o.is_deleted || o.status == OrderStatus.deleted
    then throw (bad_request "Deleted orders cannot be updated")
    else if o.status == target
    then ok unchanged
    else if target == OrderStatus.paid && not (o.payment_channel == PaymentChannel.cash)
    then throw (bad_request "Online payments can only be marked paid by a verified payment webhook")
    else if not (includes target (editable_transitions o.status))
    then throw (bad_request "Order status cannot change")
    else ok (change_from o.status)

unfoldable pub decide_delete : Order → Result Decision
decide_delete o =
    if o.is_deleted || o.status == OrderStatus.deleted
    then ok unchanged
    else if not (includes o.status deletable_statuses)
    then throw (
        bad_request
          "Only completed, refunded, cancelled, timed-out, or failed orders can be deleted")
    else ok (change_from o.status)

unfoldable pub begin_update :
    Prisma → Option String → String → OrderStatus → OrderScope → Database → Result Decision
begin_update db config order_id target scope s =
    bind (find_order db config order_id scope s) (decide_update target)

unfoldable pub begin_delete :
    Prisma → Option String → String → OrderScope → Database → Result Decision
begin_delete db config order_id scope s = bind (find_order db config order_id scope s) decide_delete

-- `{ id: orderId, status: order.status, isDeleted: false, ...scopeWhere(scope) }`.
abbrev pub still_at : String → OrderStatus → (Order → Bool) → Order → Bool
still_at order_id from scoped o =
    o.id == order_id && (o.status == from && (not o.is_deleted && scoped o))

-- Both commits: `updateMany` guarded by the status, a check that it hit one row, and a log entry.
unfoldable pub change_row :
    Prisma
    → String
    → OrderStatus
    → (Order → Bool)
    → (Order → Order)
    → OrderStatusLog
    → Action Database (Unit {0})
change_row db order_id from scoped patch log s =
    let updated = db.update_many Order (still_at order_id from scoped) patch s.orders in
    throw_if (not (updated.1 == 1)) (conflict "Order changed concurrently. Reload and try again.")
      (λ t. (ok tt, record t { order_status_logs = t.order_status_logs ++ log ∷ [] }))
      (record s { orders = updated.0 })

abbrev pub status_log :
    String → OrderStatus → OrderStatus → Option String → Option String → OrderStatusLog
status_log order_id from to operator note = record {
  order_id = order_id;
  from_status = some from;
  to_status = to;
  operator_name = operator;
  note = note;
  extra = none;
}

abbrev pub set_status : OrderStatus → ℕ → Order → Order
set_status target now o = record (build_status_timestamp_patch target now o) { status = target }

abbrev pub soft_delete : ℕ → Order → Order
soft_delete now o = record o {
  status = OrderStatus.deleted;
  is_deleted = true;
  deleted_at = some now;
}

unfoldable pub commit_update :
    Prisma
    → Option String
    → ℕ
    → String
    → OrderStatus
    → UpdateOrderStatus
    → OrderScope
    → Action Database (Unit {0})
commit_update db config now order_id from body scope = transaction do
  scoped ← lift (scope_where config scope)
  change_row db order_id from scoped (set_status body.status now)
      (status_log order_id from body.status body.operator_name body.note)

unfoldable pub commit_delete :
    Prisma
    → Option String
    → ℕ
    → String
    → OrderStatus
    → Option String
    → OrderScope
    → Action Database (Unit {0})
commit_delete db config now order_id from operator scope = transaction do
  scoped ← lift (scope_where config scope)
  change_row db order_id from scoped (soft_delete now)
      (status_log order_id from OrderStatus.deleted operator (some "Soft deleted"))

-- The first part's decision, carried out.
abbrev pub carry_out :
    Decision → (OrderStatus → Action Database (Unit {0})) → Action Database (Unit {0})
carry_out unchanged commit = pure tt
carry_out (change_from from) commit = commit from

-- The whole calls, where nothing runs in between.
unfoldable pub update_order_status :
    Prisma
    → Option String
    → ℕ
    → String
    → UpdateOrderStatus
    → OrderScope
    → Action Database OrderDetail
update_order_status db config now order_id body scope s =
    (do
      decision ← lift (begin_update db config order_id body.status scope s)
      carry_out decision (λ from. commit_update db config now order_id from body scope)
      λ t. (get_order_detail db config order_id scope t, t))
      s

unfoldable pub delete_order :
    Prisma → Option String → ℕ → String → Option String → OrderScope → Action Database OrderDetail
delete_order db config now order_id operator scope s =
    (do
      decision ← lift (begin_delete db config order_id scope s)
      carry_out decision (λ from. commit_delete db config now order_id from operator scope)
      λ t. (get_order_detail db config order_id scope t, t))
      s
