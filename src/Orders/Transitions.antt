-- ===== src/Orders/Transitions.antt =====
-- The status machine of an order (`editableTransitions`, `deletableStatuses` and
-- `buildStatusTimestampPatch` of `backend/src/modules/orders/orders.service.ts`).
use ling_dian.Prelude.{
  ℕ, ◌<◌, Bool, true, false, ◌||◌, ◌&&◌, ◌≡◌, ◌⊎◌, Option, none, some, List, [], ◌∷◌, arith,
}
use ling_dian.Prelude.Equality.{◌==◌, includes}
use ling_dian.Schema.OrdersEnums.{OrderStatus, order_status_eq}
use ling_dian.Schema.OrderRows.{Order}

unfoldable pub editable_transitions : OrderStatus → List OrderStatus
editable_transitions OrderStatus.creating =
    OrderStatus.pending_payment ∷ OrderStatus.cancelled ∷ OrderStatus.failed ∷ []
editable_transitions OrderStatus.pending_payment =
    OrderStatus.paid ∷ OrderStatus.timed_out ∷ OrderStatus.cancelled ∷ OrderStatus.failed ∷ []
editable_transitions OrderStatus.paid =
    OrderStatus.preparing ∷ OrderStatus.ready ∷ OrderStatus.completed ∷ OrderStatus.refunding
    ∷ OrderStatus.refunded ∷ []
editable_transitions OrderStatus.preparing =
    OrderStatus.ready ∷ OrderStatus.completed ∷ OrderStatus.refunding ∷ OrderStatus.refunded ∷ []
editable_transitions OrderStatus.ready =
    OrderStatus.completed ∷ OrderStatus.refunding ∷ OrderStatus.refunded ∷ []
editable_transitions OrderStatus.completed = OrderStatus.refunding ∷ OrderStatus.refunded ∷ []
editable_transitions OrderStatus.refunding = OrderStatus.refunded ∷ OrderStatus.failed ∷ []
editable_transitions _ = []

unfoldable pub deletable_statuses : List OrderStatus
deletable_statuses =
    OrderStatus.cancelled ∷ OrderStatus.timed_out ∷ OrderStatus.failed ∷ OrderStatus.refunded
    ∷ OrderStatus.completed ∷ []

unfoldable pub build_status_timestamp_patch : OrderStatus → ℕ → Order → Order
build_status_timestamp_patch OrderStatus.paid now o = record o { paid_at = some now }
build_status_timestamp_patch OrderStatus.cancelled now o = record o { cancelled_at = some now }
build_status_timestamp_patch OrderStatus.refunding now o = record o { refunding_at = some now }
build_status_timestamp_patch OrderStatus.refunded now o = record o { refunded_at = some now }
build_status_timestamp_patch _ now o = o

-- A change of status that some operation of the program makes: an edit, a soft deletion, or the
-- creation of an order.
unfoldable pub is_legal : Option OrderStatus → OrderStatus → Bool
unfolding editable_transitions deletable_statuses
is_legal none to = to == OrderStatus.creating
is_legal (some from) to =
    includes to (editable_transitions from)
    || (includes from deletable_statuses && to == OrderStatus.deleted)

pub is_legal-edit :
    (from to : OrderStatus)
    → includes to (editable_transitions from) ≡ true
    → is_legal (some from) to ≡ true
unfolding is_legal
is_legal-edit from to h = rw h

pub is_legal-delete :
    (from : OrderStatus)
    → includes from deletable_statuses ≡ true
    → is_legal (some from) OrderStatus.deleted ≡ true
unfolding is_legal
is_legal-delete from h = ground (arith, h)

-- How far an order has come; no legal change goes back.
abbrev pub progress : OrderStatus → ℕ
progress OrderStatus.creating = 0
progress OrderStatus.pending_payment = 1
progress OrderStatus.paid = 2
progress OrderStatus.preparing = 3
progress OrderStatus.ready = 4
progress OrderStatus.completed = 5
progress OrderStatus.refunding = 6
progress OrderStatus.refunded = 7
progress OrderStatus.failed = 7
progress OrderStatus.timed_out = 7
progress OrderStatus.cancelled = 7
progress OrderStatus.deleted = 8

-- Every legal change of status goes forward, so no order comes back to a status that it has left.
pub is_legal-progress :
    (from to : OrderStatus) → is_legal (some from) to ≡ true → progress from < progress to
unfolding is_legal
is_legal-progress OrderStatus.creating to h = ground arith
is_legal-progress _ to h = ground arith

-- An order that leaves the unpaid statuses without being paid has timed out, was cancelled or failed.
abbrev pub is_unpaid : OrderStatus → Bool
is_unpaid OrderStatus.creating = true
is_unpaid OrderStatus.pending_payment = true
is_unpaid _ = false

abbrev pub is_closed : OrderStatus → Bool
is_closed OrderStatus.timed_out = true
is_closed OrderStatus.cancelled = true
is_closed OrderStatus.failed = true
is_closed _ = false

-- From an unpaid status the only change to a status that is neither unpaid nor closed is the payment.
pub is_legal-paid :
    (from to : OrderStatus)
    → is_legal (some from) to ≡ true
    → is_unpaid from ≡ true
    → (is_unpaid to ≡ true)
      ⊎ (is_closed to ≡ true)
      ⊎ ((from ≡ OrderStatus.pending_payment) × (to ≡ OrderStatus.paid))
unfolding is_legal
is_legal-paid OrderStatus.creating to h u = ground arith
is_legal-paid _ to h u = ground arith
