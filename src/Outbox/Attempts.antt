-- ===== src/Outbox/Attempts.antt =====
-- Attempts come to an end, and the wait between them grows within its bounds.
use ling_dian.Prelude.{
  ℕ, String, Bool, true, ◌≡◌, refl, inl, inr, Option, none, some, List, [], ◌∷◌, Member, Bool-cases,
  arith,
}
use ling_dian.Prelude.Equality.{string_eq, nat_eq, eq_of_beq}
use ling_dian.Schema.StoresEnums.{IntegrationDeliveryStatus, integration_delivery_status_eq}
use ling_dian.Schema.OrderRows.{IntegrationOutbox}
use ling_dian.Schema.Database.{Database}
use ling_dian.Db.{Prisma, update_where, UniqueBy, exactly_one}
use ling_dian.Outbox.Delivery.{
  Connectors, is_claimable, claimed_row, claim, has_row_id, attempt, outcome_row, finish,
  deliver_one,
}

-- Writing the outcome over the claim is the same as writing it over the row.
update_where_absorb :
    (p q : IntegrationOutbox → Bool) (f g : IntegrationOutbox → IntegrationOutbox)
    (t : List IntegrationOutbox)
    → ((r : IntegrationOutbox) → p (g r) ≡ p r)
    → ((r : IntegrationOutbox) → f (g r) ≡ f r)
    → ((r : IntegrationOutbox) → q r ≡ true → p r ≡ true)
    → update_where p f (update_where q g t) ≡ update_where p f t
update_where_absorb p q f g [] same over within = refl
update_where_absorb p q f g (r ∷ t) same over within = elim (Bool-cases (q r)) [
  | inl e ↦ rw e (
      rw (same r)
        (rw (within r e) (rw (over r) (rw (update_where_absorb p q f g t same over within)))))
  | inr e ↦ rw e (rw (update_where_absorb p q f g t same over within))
]

outcome-claimed :
    (outcome : Option String) (attempts now : ℕ) (r : IntegrationOutbox)
    → outcome_row outcome attempts now (claimed_row now r) ≡ outcome_row outcome attempts now r
outcome-claimed none attempts now r = refl
outcome-claimed (some message) attempts now r = refl

pub claimable-id : (id : String) (r : IntegrationOutbox) → is_claimable id r ≡ true → r.id ≡ id
claimable-id id r h = eq_of_beq r.id id (ground arith)

pub claimable-status :
    (id : String) (r : IntegrationOutbox)
    → is_claimable id r ≡ true
    → r.status ≡ IntegrationDeliveryStatus.pending
claimable-status id r h = eq_of_beq r.status IntegrationDeliveryStatus.pending (ground arith)

abbrev pub IdsDiffer : Database → Type 0
IdsDiffer s = UniqueBy (λ (r : IntegrationOutbox). r.id) s.integration_outbox

module _ (db : Prisma) where
  -- Where nothing runs in between, delivering a waiting row of the table, by claim, connector and
  -- final write, is one write of the connector's outcome to that row, and changes nothing else.
  pub deliver_one_lem :
      (connectors : Connectors) (now : ℕ) (row : IntegrationOutbox) (s : Database)
      → IdsDiffer s
      → Member row s.integration_outbox
      → is_claimable row.id row ≡ true
      → deliver_one db connectors now row s ≡ record s {
        integration_outbox =
            update_where
              (has_row_id row.id)
              (outcome_row (attempt connectors row) row.attempts now)
              s.integration_outbox;
      }
  unfolding deliver_one claim finish
  deliver_one_lem connectors now row s u m h =
      let one =
        exactly_one (λ (r : IntegrationOutbox). r.id) (is_claimable row.id) row.id
          (claimable-id row.id) s.integration_outbox row u m h in
      rw
        (db.update_many_rows IntegrationOutbox (is_claimable row.id) (claimed_row now)
          s.integration_outbox)
        (rw one (
          rw
            (db.update_many_rows IntegrationOutbox (has_row_id row.id)
              (outcome_row (attempt connectors row) row.attempts now)
              (update_where (is_claimable row.id) (claimed_row now) s.integration_outbox))
            (rw (
              update_where_absorb (has_row_id row.id) (is_claimable row.id)
                (outcome_row (attempt connectors row) row.attempts now) (claimed_row now)
                s.integration_outbox (λ r. refl)
                (outcome-claimed (attempt connectors row) row.attempts now)
                (λ r e. ground arith)))))
