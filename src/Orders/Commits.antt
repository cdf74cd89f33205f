-- ===== src/Orders/Commits.antt =====
-- What a status change that went through did, on what condition, and what it leaves to a rival.
use mathlib.Core.Path.{subst}
use ling_dian.Prelude.{
  ℕ, String, Bool, true, false, not, ◌≡◌, ◌≢◌, sym, ap, ◌++◌, Option, some, [], ◌∷◌, count_where,
  arith,
}
use ling_dian.Prelude.Equality.{◌==◌, string_eq, nat_eq, eq_of_beq}
use ling_dian.Prelude.Results.{ok}
use ling_dian.Prelude.Actions.{throw_if-eq-ok, continue-eq-ok, transaction-eq-ok}
use ling_dian.Schema.OrdersEnums.{OrderStatus, PaymentChannel, order_status_eq, payment_channel_eq}
use ling_dian.Schema.OrderRows.{Order, OrderStatusLog}
use ling_dian.Schema.Database.{Database}
use ling_dian.Db.{Prisma, update_where}
use ling_dian.Orders.Scope.{OrderScope, scope_where}
use ling_dian.Orders.Transitions.{is_legal, is_legal-edit, is_legal-delete}
use ling_dian.Orders.Status.{
  UpdateOrderStatus, change_from, decide_update, decide_delete, still_at, change_row, status_log,
  set_status, soft_delete, commit_update, commit_delete,
}

-- A change of one row that is still at the status that was read, with its log entry.
pub record Moved (id : String) (from : OrderStatus) (patch : Order → Order) (log : OrderStatusLog)
    (s t : Database) : Type 0 where
  pub scoped : Order → Bool
  pub one : count_where (still_at id from scoped) s.orders ≡ 1
  pub after : t ≡ record s {
    orders = update_where (still_at id from scoped) patch s.orders;
    order_status_logs = s.order_status_logs ++ log ∷ [];
  }

change_row-Moved :
    (db : Prisma) (id : String) (from : OrderStatus) (scoped : Order → Bool) (patch : Order → Order)
    (log : OrderStatusLog) (s t : Database)
    → change_row db id from scoped patch log s ≡ (ok tt, t)
    → Moved id from patch log s t
unfolding change_row
change_row-Moved db id from scoped patch log s t h =
    let k = rw (db.update_many_rows Order (still_at id from scoped) patch s.orders) at h in
    let (one, after) =
      throw_if-eq-ok (not (count_where (still_at id from scoped) s.orders == 1)) _ _ _ k in
    record {
      scoped = scoped;
      one = eq_of_beq (count_where (still_at id from scoped) s.orders) 1 (ground (arith, one));
      after = sym (ap (λ r. r.1) after);
    }

module _ (db : Prisma) (config : Option String) (now : ℕ) (id : String) (from : OrderStatus) where
  pub commit_update-Moved :
      (body : UpdateOrderStatus) (scope : OrderScope) (s t : Database)
      → commit_update db config now id from body scope s ≡ (ok tt, t)
      → Moved id from
          (set_status body.status now)
          (status_log id from body.status body.operator_name body.note)
          s
          t
  unfolding commit_update
  commit_update-Moved body scope s t h =
      let (scoped, s', same, changed) =
        continue-eq-ok (scope_where config scope, s) _ (transaction-eq-ok _ s h) in
      subst
        (λ u.
          Moved id from (set_status body.status now)
            (status_log id from body.status body.operator_name body.note) u t)
        (sym (ap (λ r. r.1) same)) (change_row-Moved db id from scoped _ _ s' t changed)

  pub commit_delete-Moved :
      (operator : Option String) (scope : OrderScope) (s t : Database)
      → commit_delete db config now id from operator scope s ≡ (ok tt, t)
      → Moved id from
          (soft_delete now)
          (status_log id from OrderStatus.deleted operator (some "Soft deleted"))
          s
          t
  unfolding commit_delete
  commit_delete-Moved operator scope s t h =
      let (scoped, s', same, changed) =
        continue-eq-ok (scope_where config scope, s) _ (transaction-eq-ok _ s h) in
      subst
        (λ u.
          Moved id from (soft_delete now)
            (status_log id from OrderStatus.deleted operator (some "Soft deleted")) u t)
        (sym (ap (λ r. r.1) same)) (change_row-Moved db id from scoped _ _ s' t changed)

-- An edit is decided on only if it is a legal change of an order that is not deleted, and a
-- payment only for cash.
pub decide_update-legal :
    (target from : OrderStatus) (o : Order)
    → decide_update target o ≡ ok (change_from from)
    → (from ≡ o.status)
      × (is_legal (some from) target ≡ true)
      × (target ≢ from)
      × (o.is_deleted ≡ false)
      × (target ≡ OrderStatus.paid → o.payment_channel ≡ PaymentChannel.cash)
unfolding decide_update
decide_update-legal target from o h = (
  ground arith,
  is_legal-edit from target (ground arith),
  ground arith,
  ground arith,
  ground arith,
)

-- A deletion is decided on only if it is a legal change of an order that is not deleted.
pub decide_delete-legal :
    (from : OrderStatus) (o : Order)
    → decide_delete o ≡ ok (change_from from)
    → (from ≡ o.status) × (is_legal (some from) OrderStatus.deleted ≡ true) × (o.is_deleted ≡ false)
unfolding decide_delete
decide_delete-legal from o h = (ground arith, is_legal-delete from (ground arith), ground arith)
