-- ===== src/Tests/Orders.antt =====
-- Placing, paying, preparing and deleting an order of the small shop.
use ling_dian.Prelude.{trim, ◌≡◌, ◌⊎◌, refl, ◌<◌, true, some, none, [], ◌∷◌, arith}
use ling_dian.Prelude.Results.{ok}
use ling_dian.Schema.OrdersEnums.{OrderStatus}
use ling_dian.Schema.Database.{Database}
use ling_dian.Db.{listed}
use ling_dian.Stores.{resolve_store_ids, primary_store_id}
use ling_dian.Prelude.Actions.{transaction}
use ling_dian.Orders.Scope.{scope_where}
use ling_dian.Orders.Transitions.{
  editable_transitions, deletable_statuses, is_legal, is_legal-progress, is_legal-paid, progress,
  is_unpaid, is_closed, build_status_timestamp_patch,
}
use ling_dian.Orders.Status.{
  UpdateOrderStatus, change_from, decide_update, decide_delete, begin_update, begin_delete,
  change_row, commit_update, commit_delete, status_log,
}
use ling_dian.Orders.Rivals.{lost, commit_update_excludes, commit_delete_excludes}
use ling_dian.Orders.Audit.{Audited, commit_update-Audited, commit_delete-Audited}
use ling_dian.Tests.Samples.{config, empty, waiting, anyone}

-- One order with its two logs.
abbrev pub open_shop : Database
open_shop = record empty {
  orders = waiting ∷ [];
  order_status_logs =
      record {
        order_id = "order1";
        from_status = none;
        to_status = OrderStatus.creating;
        operator_name = none;
        note = none;
        extra = none;
      }
      ∷ status_log "order1" OrderStatus.creating OrderStatus.pending_payment none none
      ∷ [];
}

abbrev pub audited : Audited open_shop
unfolding is_legal
audited = record {
  unique = (tt, tt);
  trails = ((refl, refl, (refl, refl, refl)), tt);
  owned = (refl, (refl, tt));
}

abbrev pay : UpdateOrderStatus
pay = record { status = OrderStatus.paid; operator_name = some "Wang"; note = none }

abbrev cancel : UpdateOrderStatus
cancel = record { status = OrderStatus.cancelled; operator_name = none; note = none }

abbrev paid_shop : Database
unfolding listed commit_update transaction scope_where resolve_store_ids primary_store_id trim
    change_row build_status_timestamp_patch
paid_shop =
    (commit_update listed config 2000 "order1" OrderStatus.pending_payment pay anyone open_shop).1

payment_made :
    commit_update listed config 2000 "order1" OrderStatus.pending_payment pay anyone open_shop
    ≡ (ok tt, paid_shop)
unfolding listed commit_update transaction scope_where resolve_store_ids primary_store_id trim
    change_row build_status_timestamp_patch
payment_made = refl

pay_begun :
    begin_update listed config "order1" OrderStatus.paid anyone open_shop
    ≡ ok (change_from OrderStatus.pending_payment)
unfolding listed begin_update scope_where resolve_store_ids primary_store_id trim decide_update
    editable_transitions
pay_begun = refl

is_legal-progress_example : progress OrderStatus.paid < progress OrderStatus.preparing
unfolding is_legal
is_legal-progress_example = is_legal-progress OrderStatus.paid OrderStatus.preparing refl

is_legal-paid_example :
    (is_unpaid OrderStatus.paid ≡ true)
    ⊎ (is_closed OrderStatus.paid ≡ true)
    ⊎ ((OrderStatus.pending_payment ≡ OrderStatus.pending_payment)
        × (OrderStatus.paid ≡ OrderStatus.paid))
unfolding is_legal
is_legal-paid_example = is_legal-paid OrderStatus.pending_payment OrderStatus.paid refl refl

commit_update-Audited_example : Audited paid_shop
commit_update-Audited_example =
    commit_update-Audited listed config 2000 "order1" OrderStatus.pending_payment pay anyone
      open_shop open_shop paid_shop pay_begun payment_made audited

commit_update_excludes_example :
    (commit_update listed config 2001 "order1" OrderStatus.pending_payment cancel anyone paid_shop
      ≡ (lost, paid_shop))
    × (commit_delete listed config 2001 "order1" OrderStatus.pending_payment none anyone paid_shop
        ≡ (lost, paid_shop))
unfolding scope_where resolve_store_ids primary_store_id trim
commit_update_excludes_example =
    commit_update_excludes listed config config 2000 2001 "order1" OrderStatus.pending_payment pay
      cancel none anyone anyone _ open_shop paid_shop (tt, tt) (λ h. ground (arith, h)) refl
      payment_made

-- A cancelled order, which may be deleted.
abbrev closed_shop : Database
closed_shop = record open_shop {
  orders = record waiting { status = OrderStatus.cancelled } ∷ [];
  order_status_logs =
      record {
        order_id = "order1";
        from_status = none;
        to_status = OrderStatus.creating;
        operator_name = none;
        note = none;
        extra = none;
      }
      ∷ status_log "order1" OrderStatus.creating OrderStatus.pending_payment none none
      ∷ status_log "order1" OrderStatus.pending_payment OrderStatus.cancelled none none
      ∷ [];
}

closed_audited : Audited closed_shop
unfolding is_legal editable_transitions
closed_audited = record {
  unique = (tt, tt);
  trails = ((refl, refl, (refl, refl, (refl, refl, refl))), tt);
  owned = (refl, (refl, (refl, tt)));
}

delete_begun :
    begin_delete listed config "order1" anyone closed_shop ≡ ok (change_from OrderStatus.cancelled)
unfolding listed begin_delete scope_where resolve_store_ids primary_store_id trim decide_delete
    deletable_statuses
delete_begun = refl

abbrev deleted_shop : Database
deleted_shop =
    (commit_delete listed config 3000 "order1" OrderStatus.cancelled none anyone closed_shop).1

deleted :
    commit_delete listed config 3000 "order1" OrderStatus.cancelled none anyone closed_shop
    ≡ (ok tt, deleted_shop)
unfolding listed commit_delete transaction scope_where resolve_store_ids primary_store_id trim
    change_row
deleted = refl

commit_delete-Audited_example : Audited deleted_shop
commit_delete-Audited_example =
    commit_delete-Audited listed config 3000 "order1" OrderStatus.cancelled none anyone closed_shop
      closed_shop deleted_shop delete_begun deleted closed_audited

commit_delete_excludes_example :
    (commit_update listed config 3001 "order1" OrderStatus.cancelled pay anyone deleted_shop
      ≡ (lost, deleted_shop))
    × (commit_delete listed config 3001 "order1" OrderStatus.cancelled none anyone deleted_shop
        ≡ (lost, deleted_shop))
unfolding scope_where resolve_store_ids primary_store_id trim
commit_delete_excludes_example =
    commit_delete_excludes listed config config 3000 3001 "order1" OrderStatus.cancelled pay none
      none anyone anyone _ closed_shop deleted_shop (tt, tt) (λ h. ground (arith, h)) refl deleted
