-- ===== src/Orders/Audit.antt =====
-- Status changes keep the audit trail, whatever runs between their two parts.
use ling_dian.Prelude.{ℕ, String, ◌≡◌, refl, sym, ap, Option, some, Bool, true, arith}
use ling_dian.Prelude.Equality.{string_eq, eq_of_beq}
use mathlib.Core.Path.{subst}
use ling_dian.Prelude.Results.{ok, bind-eq-ok}
use ling_dian.Schema.OrdersEnums.{OrderStatus, order_status_eq}
use ling_dian.Schema.OrderRows.{Order}
use ling_dian.Schema.Database.{Database}
use ling_dian.Db.{Prisma}
use ling_dian.Orders.Scope.{OrderScope}
use ling_dian.Orders.Detail.{find_order}
use ling_dian.Orders.Transitions.{is_legal, build_status_timestamp_patch}
use ling_dian.Orders.Trail.{TrailInv, move-TrailInv}
use ling_dian.Orders.Status.{
  UpdateOrderStatus, change_from, begin_update, begin_delete, still_at, status_log, set_status,
  soft_delete, commit_update, commit_delete,
}
use ling_dian.Orders.Commits.{
  Moved, commit_update-Moved, commit_delete-Moved, decide_update-legal, decide_delete-legal,
}

abbrev pub Audited : Database → Type 0
Audited s = TrailInv s.orders s.order_status_logs

still_at-selects :
    (id : String) (from : OrderStatus) (scoped : Order → Bool) (o : Order)
    → still_at id from scoped o ≡ true
    → (o.id ≡ id) × (some from ≡ some o.status)
still_at-selects id from scoped o h =
    (eq_of_beq o.id id (ground arith), ap some (sym (eq_of_beq o.status from (ground arith))))

Moved-Audited :
    (id : String) (from to : OrderStatus) (patch : Order → Order) (operator note : Option String)
    (s t : Database)
    → ((o : Order) → ((patch o).id ≡ o.id) × ((patch o).status ≡ to))
    → is_legal (some from) to ≡ true
    → Moved id from patch (status_log id from to operator note) s t
    → Audited s
    → Audited t
Moved-Audited id from to patch operator note s t moves legal m v = rw (m.after) (
    move-TrailInv (still_at id from m.scoped) patch (status_log id from to operator note)
      (still_at-selects id from m.scoped) moves (λ x e. subst (λ y. is_legal y to ≡ true) e legal)
      s.orders s.order_status_logs m.one v)

set_status_moves :
    (target : OrderStatus) (now : ℕ) (o : Order)
    → ((set_status target now o).id ≡ o.id) × ((set_status target now o).status ≡ target)
unfolding build_status_timestamp_patch
set_status_moves target now o = (ground arith, refl)

-- An edit that was decided on in some earlier state of the database, and that goes through now,
-- keeps every order's status logs a chain of legal changes from its creation to its status.
pub commit_update-Audited :
    (db : Prisma) (config : Option String) (now : ℕ) (id : String) (from : OrderStatus)
    (body : UpdateOrderStatus) (scope : OrderScope) (earlier s t : Database)
    → begin_update db config id body.status scope earlier ≡ ok (change_from from)
    → commit_update db config now id from body scope s ≡ (ok tt, t)
    → Audited s
    → Audited t
unfolding begin_update
commit_update-Audited db config now id from body scope earlier s t begun h v =
    let (o, found, decided) = bind-eq-ok (find_order db config id scope earlier) _ begun in
    let (_, legal, _, _, _) = decide_update-legal body.status from o decided in
    Moved-Audited id from body.status (set_status body.status now) body.operator_name body.note s t
      (set_status_moves body.status now) legal
      (commit_update-Moved db config now id from body scope s t h) v

-- So does a soft deletion.
pub commit_delete-Audited :
    (db : Prisma) (config : Option String) (now : ℕ) (id : String) (from : OrderStatus)
    (operator : Option String) (scope : OrderScope) (earlier s t : Database)
    → begin_delete db config id scope earlier ≡ ok (change_from from)
    → commit_delete db config now id from operator scope s ≡ (ok tt, t)
    → Audited s
    → Audited t
unfolding begin_delete
commit_delete-Audited db config now id from operator scope earlier s t begun h v =
    let (o, found, decided) = bind-eq-ok (find_order db config id scope earlier) _ begun in
    let (_, legal, _) = decide_delete-legal from o decided in
    Moved-Audited id from OrderStatus.deleted (soft_delete now) operator (some "Soft deleted") s t
      (λ o. (refl, refl)) legal (commit_delete-Moved db config now id from operator scope s t h) v
