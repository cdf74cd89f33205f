-- ===== src/Outbox/Interleavings.antt =====
-- The outbox under several processes: any of them may enqueue, read a batch, claim a row that it has
-- read, write the outcome of a row that it has claimed, or recover abandoned claims, in any order.
use mathlib.Core.Path.{subst}
use ling_dian.Prelude.{
  ℕ, zero, suc, String, true, ◌≡◌, Option, List, [], ◌∷◌, ◌++◌, All, All-append, All-member, Member,
  take, arith,
}
use ling_dian.Prelude.Equality.{string_eq, nat_eq, eq_of_beq}
use ling_dian.Schema.StoresEnums.{
  IntegrationProvider, IntegrationDeliveryStatus, integration_delivery_status_eq,
}
use ling_dian.Schema.OrderRows.{Order, IntegrationOutbox}
use ling_dian.Schema.Database.{Database}
use ling_dian.Db.{Prisma, update_where, count-update_where_none}
use ling_dian.Outbox.Enqueue.{EventSeed, enqueue_order_created}
use ling_dian.Outbox.Delivery.{
  batch_size, is_claimable, claimed_row, claim, finish, is_due, due_rows, recover_abandoned_claims,
}
use ling_dian.Outbox.Soundness.{
  IsSound, HasTries, Outbox, sound_at, enqueue-Outbox, claim-Outbox, finish-Outbox, recover-Outbox,
}

-- The database, the rows that some process has read in a batch, and those that one has claimed and
-- not yet finished. A read row is kept as it was read.
pub record World : Type 0 where
  pub database : Database
  pub seen : List IntegrationOutbox
  pub claimed : List IntegrationOutbox

module _ (db : Prisma) (config : Option String) where
  pub data Step (v w : World) : Type 0 where
    enqueue_step :
        (providers : List IntegrationProvider) (seed : EventSeed) (o : Order)
        → w
          ≡ record v { database = (enqueue_order_created db config providers seed o v.database).1 }
        → Step v w
    read_step :
        (store_id : String) (now : ℕ)
        → w ≡ record v { seen = v.seen ++ due_rows db store_id now v.database }
        → Step v w
    claim_step :
        (now : ℕ) (row : IntegrationOutbox)
        → Member row v.seen
        → (claim db now row v.database).0 ≡ 1
        → w ≡ record v { database = (claim db now row v.database).1; claimed = row ∷ v.claimed }
        → Step v w
    lose_step :
        (now : ℕ) (row : IntegrationOutbox)
        → Member row v.seen
        → w ≡ record v { database = (claim db now row v.database).1 }
        → Step v w
    finish_step :
        (now : ℕ) (row : IntegrationOutbox) (outcome : Option String)
        (before after : List IntegrationOutbox)
        → v.claimed ≡ before ++ row ∷ after
        → w
          ≡ record v { database = finish db now row outcome v.database; claimed = before ++ after }
        → Step v w
    recover_step :
        (now : ℕ)
        → w ≡ record v { database = (recover_abandoned_claims db config now v.database).1 }
        → Step v w

  pub data Reach (v : World) : World → Type 0 where
    here : Reach v v
    next : {w x : World} → Reach v w → Step w x → Reach v x

  pub record IsConsistent (w : World) : Type 0 where
    pub sound : Outbox w.database
    pub read_with_tries : All HasTries w.seen
    pub claimed_with_tries : All HasTries w.claimed

  due_HasTries :
      (store_id : String) (now : ℕ) (s : Database) (rows : List IntegrationOutbox)
      → Outbox s
      → All (λ r. (is_due store_id now r ≡ true) × Member r s.integration_outbox) rows
      → All HasTries rows
  due_HasTries store_id now s [] v h = tt
  due_HasTries store_id now s (r ∷ rows) v h =
      let status : r.status ≡ IntegrationDeliveryStatus.pending =
        eq_of_beq r.status _ (ground arith) in
      (
        (sound_at IntegrationDeliveryStatus.pending r status
            (All-member IsSound r s.integration_outbox v h.0.1)).0,
        due_HasTries store_id now s rows v h.1,
      )

  take-All :
      (P : IntegrationOutbox → Type 0) (n : ℕ) (rows : List IntegrationOutbox)
      → All P rows
      → All P (take n rows)
  take-All P zero rows h = tt
  take-All P (suc n) [] h = tt
  take-All P (suc n) (r ∷ rows) h = (h.0, take-All P n rows h.1)

  due_rows-HasTries :
      (store_id : String) (now : ℕ) (s : Database)
      → Outbox s
      → All HasTries (due_rows db store_id now s)
  unfolding due_rows
  due_rows-HasTries store_id now s v = take-All HasTries batch_size _ (
      due_HasTries store_id now s _ v (
        db.find_ordered_found IntegrationOutbox (is_due store_id now) (λ r. r.created_at)
          s.integration_outbox))

  All-split :
      (P : IntegrationOutbox → Type 0) (before : List IntegrationOutbox) (row : IntegrationOutbox)
      (after : List IntegrationOutbox)
      → All P (before ++ row ∷ after)
      → P row × All P (before ++ after)
  All-split P [] row after h = h
  All-split P (r ∷ before) row after h =
      let (pr, rest) = All-split P before row after h.1 in (pr, (h.0, rest))

  Step-IsConsistent : {v w : World} → Step v w → IsConsistent v → IsConsistent w
  Step-IsConsistent {v} (enqueue_step providers seed o e) c = rw e (record {
    sound = enqueue-Outbox db config providers seed o v.database c.sound;
    read_with_tries = c.read_with_tries;
    claimed_with_tries = c.claimed_with_tries;
  })
  Step-IsConsistent {v} (read_step store_id now e) c = rw e (record {
    sound = c.sound;
    read_with_tries =
        All-append HasTries v.seen _ c.read_with_tries
          (due_rows-HasTries store_id now v.database c.sound);
    claimed_with_tries = c.claimed_with_tries;
  })
  Step-IsConsistent {v} (claim_step now row m one e) c = rw e (record {
    sound = claim-Outbox db config now row v.database c.sound;
    read_with_tries = c.read_with_tries;
    claimed_with_tries = (All-member HasTries row v.seen c.read_with_tries m, c.claimed_with_tries);
  })
  Step-IsConsistent {v} (lose_step now row m e) c = rw e (record {
    sound = claim-Outbox db config now row v.database c.sound;
    read_with_tries = c.read_with_tries;
    claimed_with_tries = c.claimed_with_tries;
  })
  Step-IsConsistent {v} (finish_step now row outcome before after split e) c =
      let (tries, rest) =
        All-split HasTries before row after (subst (All HasTries) split c.claimed_with_tries) in
      rw e (record {
        sound = finish-Outbox db config now row outcome v.database tries c.sound;
        read_with_tries = c.read_with_tries;
        claimed_with_tries = rest;
      })
  Step-IsConsistent {v} (recover_step now e) c = rw e (record {
    sound = recover-Outbox db config now v.database c.sound;
    read_with_tries = c.read_with_tries;
    claimed_with_tries = c.claimed_with_tries;
  })

  -- Whatever the processes do, in whatever order, from a consistent state: each row's columns stay
  -- what its status says of them (a waiting or claimed row has had fewer than 8 attempts, only a
  -- claimed row is locked, a dead letter has had exactly 8 and keeps an error), and a process holds
  -- only rows that had attempts left when it read them.
  pub Reach-IsConsistent : {v w : World} → Reach v w → IsConsistent v → IsConsistent w
  Reach-IsConsistent here c = c
  Reach-IsConsistent (next r st) c = Step-IsConsistent st (Reach-IsConsistent r c)

  -- A row that one process has claimed cannot be claimed by another that read it as well, even if
  -- it read the row earlier: the second claim changes no row.
  pub claim_excludes :
      (now now' : ℕ) (row row' : IntegrationOutbox) (s : Database)
      → row'.id ≡ row.id
      → (claim db now' row' (claim db now row s).1).0 ≡ 0
  unfolding claim
  claim_excludes now now' row row' s same =
      rw
        (db.update_many_rows IntegrationOutbox (is_claimable row.id) (claimed_row now)
          s.integration_outbox)
        (rw
          (db.update_many_rows IntegrationOutbox (is_claimable row'.id) (claimed_row now')
            (update_where (is_claimable row.id) (claimed_row now) s.integration_outbox))
          (rw same (
            count-update_where_none (is_claimable row.id) (is_claimable row.id) (claimed_row now)
              s.integration_outbox (λ r h. ground arith) (λ r h. h))))
