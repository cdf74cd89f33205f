-- ===== src/Outbox/Soundness.antt =====
-- What the status of an outbox row says of its other columns, and that every operation keeps it.
use mathlib.Core.Path.{subst}
use ling_dian.Prelude.{
  ℕ, ◌+◌, ◌≤◌, ◌<◌, String, true, ◌≡◌, refl, inl, inr, Option, none, some, List, [], ◌∷◌, All,
  All-append, any, is_some, leb, Bool-cases, arith, or_else,
}
use ling_dian.Prelude.Equality.{string_eq, nat_eq, eq_of_beq}
use ling_dian.Prelude.Results.{Result, ok, throw}
use ling_dian.Prelude.Actions.{continue}
use ling_dian.Schema.StoresEnums.{
  IntegrationProvider, IntegrationDeliveryStatus, integration_delivery_status_eq,
}
use ling_dian.Schema.OrderRows.{Order, IntegrationOutbox, StoreIntegration}
use ling_dian.Schema.Database.{Database}
use ling_dian.Db.{Prisma, All-update_where}
use ling_dian.Stores.{primary_store_id, resolve_requested_store_id}
use ling_dian.Outbox.Enqueue.{
  EventSeed, create_rows, rows_for, same_event, write_rows, enqueue_order_created,
}
use ling_dian.Outbox.Delivery.{
  max_attempts, is_claimable, claimed_row, claim, has_row_id, outcome_row, finish, is_abandoned,
  released_row, recover_abandoned_claims,
}

-- What each status says of a row.
abbrev pub SoundAs : IntegrationDeliveryStatus → IntegrationOutbox → Type 0
SoundAs IntegrationDeliveryStatus.pending r = (r.attempts < max_attempts) × (r.locked_at ≡ none)
SoundAs IntegrationDeliveryStatus.processing r =
    (r.attempts < max_attempts) × (is_some r.locked_at ≡ true)
SoundAs IntegrationDeliveryStatus.delivered r =
    (r.attempts ≤ max_attempts) × (r.locked_at ≡ none) × (is_some r.delivered_at ≡ true)
SoundAs IntegrationDeliveryStatus.dead_letter r =
    (r.attempts ≡ max_attempts) × (r.locked_at ≡ none) × (is_some r.last_error ≡ true)

abbrev pub IsSound : IntegrationOutbox → Type 0
IsSound r = SoundAs r.status r

-- A row that was read while it was pending.
abbrev pub HasTries : IntegrationOutbox → Type 0
HasTries r = r.attempts < max_attempts

pub sound_at :
    (st : IntegrationDeliveryStatus) (r : IntegrationOutbox)
    → r.status ≡ st
    → IsSound r
    → SoundAs st r
sound_at st r e h = subst (λ x. SoundAs x r) e h

attempts_le :
    (st : IntegrationDeliveryStatus) (r : IntegrationOutbox)
    → SoundAs st r
    → r.attempts ≤ max_attempts
attempts_le IntegrationDeliveryStatus.pending r h = omega arith
attempts_le IntegrationDeliveryStatus.processing r h = omega arith
attempts_le IntegrationDeliveryStatus.delivered r h = omega arith
attempts_le IntegrationDeliveryStatus.dead_letter r h = omega arith

pending_of :
    (id : String) (r : IntegrationOutbox)
    → is_claimable id r ≡ true
    → r.status ≡ IntegrationDeliveryStatus.pending
pending_of id r h = eq_of_beq r.status IntegrationDeliveryStatus.pending (ground arith)

claim-IsSound :
    (id : String) (now : ℕ) (r : IntegrationOutbox)
    → is_claimable id r ≡ true
    → IsSound r
    → IsSound (claimed_row now r)
claim-IsSound id now r h v = ((sound_at _ r (pending_of id r h) v).0, refl)

pub outcome-IsSound :
    (outcome : Option String) (attempts now : ℕ) (r : IntegrationOutbox)
    → attempts < max_attempts
    → IsSound r
    → IsSound (outcome_row outcome attempts now r)
outcome-IsSound none attempts now r h v = (attempts_le r.status r v, refl, refl)
outcome-IsSound (some message) attempts now r h v =
    elim (Bool-cases (leb max_attempts (attempts + 1))) [
      | inl e ↦ rw e (ground arith, refl, refl)
      | inr e ↦ rw e (ground arith, refl)
    ]

release-IsSound :
    (store_id : String) (now : ℕ) (r : IntegrationOutbox)
    → is_abandoned store_id now r ≡ true
    → IsSound r
    → IsSound (released_row r)
release-IsSound store_id now r h v = (
  (sound_at IntegrationDeliveryStatus.processing r (eq_of_beq r.status _ (ground arith)) v).0,
  refl,
)

-- Rows are written unless they are there already.
module _ (db : Prisma) (P : IntegrationOutbox → Type 0) where
  create-All :
      (r : IntegrationOutbox) (t : List IntegrationOutbox)
      → P r
      → All P t
      → All P (or_else (db.create IntegrationOutbox (same_event r) r t) t)
  create-All r t h v =
      rw (db.create_row IntegrationOutbox (same_event r) r t)
        (elim (Bool-cases (any (same_event r) t)) [
          | inl e ↦ rw e v
          | inr e ↦ rw e (All-append P t (r ∷ []) v (h, tt))
        ])

  create_rows-All :
      (rows t : List IntegrationOutbox) → All P rows → All P t → All P (create_rows db rows t)
  unfolding create_rows
  create_rows-All [] t h v = v
  create_rows-All (r ∷ rows) t h v = create_rows-All rows _ h.1 (create-All r t h.0 v)

rows_for-IsSound :
    (seed : EventSeed) (o : Order) (store_id : String) (enabled : List StoreIntegration)
    → All IsSound (rows_for seed o store_id enabled)
rows_for-IsSound seed o store_id [] = tt
rows_for-IsSound seed o store_id (i ∷ enabled) =
    ((omega arith, refl), rows_for-IsSound seed o store_id enabled)

abbrev pub Outbox : Database → Type 0
Outbox s = All IsSound s.integration_outbox

module _ (db : Prisma) (config : Option String) where
  write_rows-Outbox :
      (providers : List IntegrationProvider) (seed : EventSeed) (o : Order) (store_id : String)
      (s : Database)
      → Outbox s
      → Outbox (write_rows db seed o providers store_id s).1
  write_rows-Outbox [] seed o store_id s v = v
  write_rows-Outbox (p ∷ ps) seed o store_id s v =
      create_rows-All db IsSound _ s.integration_outbox (rows_for-IsSound seed o store_id _) v

  pub enqueue-Outbox :
      (providers : List IntegrationProvider) (seed : EventSeed) (o : Order) (s : Database)
      → Outbox s
      → Outbox (enqueue_order_created db config providers seed o s).1
  unfolding enqueue_order_created
  enqueue-Outbox providers seed o s v = go (resolve_requested_store_id config (some o.store_id))
    where
      go :
          (r : Result String)
          → Outbox (continue (r, s) (λ store_id. write_rows db seed o providers store_id)).1
      go (ok store_id) = write_rows-Outbox providers seed o store_id s v
      go (throw e) = v

  pub claim-Outbox :
      (now : ℕ) (row : IntegrationOutbox) (s : Database) → Outbox s → Outbox (claim db now row s).1
  unfolding claim
  claim-Outbox now row s v =
      rw
        (db.update_many_rows IntegrationOutbox (is_claimable row.id) (claimed_row now)
          s.integration_outbox)
        (All-update_where IsSound (is_claimable row.id) (claimed_row now) s.integration_outbox
          (claim-IsSound row.id now) v)

  pub finish-Outbox :
      (now : ℕ) (row : IntegrationOutbox) (outcome : Option String) (s : Database)
      → HasTries row
      → Outbox s
      → Outbox (finish db now row outcome s)
  unfolding finish
  finish-Outbox now row outcome s h v =
      rw
        (db.update_many_rows IntegrationOutbox (has_row_id row.id)
          (outcome_row outcome row.attempts now) s.integration_outbox)
        (All-update_where IsSound (has_row_id row.id) (outcome_row outcome row.attempts now)
          s.integration_outbox (λ r _. outcome-IsSound outcome row.attempts now r h) v)

  pub recover-Outbox :
      (now : ℕ) (s : Database) → Outbox s → Outbox (recover_abandoned_claims db config now s).1
  unfolding recover_abandoned_claims
  recover-Outbox now s v = go (primary_store_id config)
    where
      release :
          (store_id : String)
          → All IsSound
              (db.update_many IntegrationOutbox
                (is_abandoned store_id now)
                released_row
                s.integration_outbox).0
      release store_id =
          rw
            (db.update_many_rows IntegrationOutbox (is_abandoned store_id now) released_row
              s.integration_outbox)
            (All-update_where IsSound (is_abandoned store_id now) released_row s.integration_outbox
              (release-IsSound store_id now) v)

      go :
          (r : Result String)
          → Outbox
              (continue
                (r, s)
                (λ store_id t.
                  let updated =
                    db.update_many IntegrationOutbox
                      (is_abandoned store_id now)
                      released_row
                      t.integration_outbox in
                  (ok updated.1, record t { integration_outbox = updated.0 }))).1
      go (ok store_id) = release store_id
      go (throw e) = v
