-- ===== src/Outbox/Settling.antt =====
-- A row of the outbox does not wait for ever: eight attempts settle it.
use mathlib.Core.Path.{subst}
use ling_dian.Prelude.{
  ℕ, suc, ◌+◌, ◌≤◌, ◌<◌, String, true, false, ◌≡◌, ◌≢◌, ◌⊎◌, refl, sym, inl, inr, Option, none,
  some, List, [], ◌∷◌, All, All-member, Member, leb, length, Bool-cases, Option-cases, arith,
}
use ling_dian.Prelude.Equality.{string_eq, nat_eq, beq_refl}
use ling_dian.Schema.StoresEnums.{IntegrationDeliveryStatus, integration_delivery_status_eq}
use ling_dian.Schema.OrderRows.{IntegrationOutbox}
use ling_dian.Schema.Database.{Database}
use ling_dian.Db.{Prisma, update_where, update_where-UniqueBy}
use ling_dian.Outbox.Delivery.{
  Connectors, max_attempts, is_claimable, has_row_id, attempt, outcome_row, deliver_one,
}
use ling_dian.Outbox.Soundness.{IsSound, SoundAs, Outbox, sound_at, outcome-IsSound}
use ling_dian.Outbox.Attempts.{IdsDiffer, deliver_one_lem, claimable-id, claimable-status}

-- The passes that come to a row: each delivers it, if it is waiting, with the connectors and the
-- clock of that pass.
abbrev pub Pass : Type 0
Pass = Connectors × ℕ

abbrev pub deliver_found : Prisma → Pass → Option IntegrationOutbox → Database → Database
deliver_found db pass none s = s
deliver_found db pass (some row) s = deliver_one db pass.0 pass.1 row s

abbrev pub deliver_next : Prisma → String → Pass → Database → Database
deliver_next db id pass s =
    deliver_found db pass (db.find_first IntegrationOutbox (is_claimable id) s.integration_outbox) s

pub deliver_rounds : Prisma → String → List Pass → Database → Database
deliver_rounds db id [] s = s
deliver_rounds db id (pass ∷ passes) s = deliver_rounds db id passes (deliver_next db id pass s)

abbrev pub IsFinal : IntegrationDeliveryStatus → Type 0
IsFinal st =
    (st ≡ IntegrationDeliveryStatus.delivered) ⊎ (st ≡ IntegrationDeliveryStatus.dead_letter)

abbrev pub IsFree : IntegrationOutbox → Type 0
IsFree r = r.status ≢ IntegrationDeliveryStatus.processing

-- A row is not claimed, and if it waits it has had `k` attempts.
abbrev Tried : ℕ → IntegrationOutbox → Type 0
Tried k r = IsFree r × (r.status ≡ IntegrationDeliveryStatus.pending → k ≤ r.attempts)

outcome-Tried :
    (outcome : Option String) (k attempts now : ℕ) (r : IntegrationOutbox)
    → k ≤ attempts
    → Tried (suc k) (outcome_row outcome attempts now r)
outcome-Tried none k attempts now r h = (λ e. ground arith, λ e. ground arith)
outcome-Tried (some message) k attempts now r h =
    elim (Bool-cases (leb max_attempts (attempts + 1))) [
      | inl e ↦ rw e (λ q. ground arith, λ q. ground arith)
      | inr e ↦ rw e (λ q. ground arith, λ q. omega arith)
    ]

module _ (db : Prisma) (id : String) where
  record Progress (k : ℕ) (s : Database) : Type 0 where
    differ : IdsDiffer s
    sound : Outbox s
    tried : All (λ r. r.id ≡ id → Tried k r) s.integration_outbox

  -- The table after one write to the rows with the id.
  module _ (outcome : Option String) (k attempts now : ℕ) (most : k ≤ attempts)
      (left : attempts < max_attempts) where
    update-Tried :
        (t : List IntegrationOutbox)
        → All
            (λ r. r.id ≡ id → Tried (suc k) r)
            (update_where (has_row_id id) (outcome_row outcome attempts now) t)
    update-Tried [] = tt
    update-Tried (r ∷ t) = elim (Bool-cases (has_row_id id r)) [
      | inl e ↦ rw e (λ _. outcome-Tried outcome k attempts now r most, update-Tried t)
      | inr e ↦ rw e (λ q. absurd (ground (arith, beq_refl id, q, e)), update-Tried t)
    ]

    update-Outbox :
        (t : List IntegrationOutbox)
        → All IsSound t
        → All IsSound (update_where (has_row_id id) (outcome_row outcome attempts now) t)
    update-Outbox [] v = tt
    update-Outbox (r ∷ t) v = elim (Bool-cases (has_row_id id r)) [
      | inl e ↦ rw e (outcome-IsSound outcome attempts now r left v.0, update-Outbox t v.1)
      | inr e ↦ rw e (v.0, update-Outbox t v.1)
    ]

  outcome-id :
      (outcome : Option String) (attempts now : ℕ) (r : IntegrationOutbox)
      → (outcome_row outcome attempts now r).id ≡ r.id
  outcome-id none attempts now r = refl
  outcome-id (some message) attempts now r = refl

  no_more :
      (k : ℕ) (t : List IntegrationOutbox)
      → All (λ r. is_claimable id r ≡ false) t
      → All (λ r. r.id ≡ id → Tried k r) t
      → All (λ r. r.id ≡ id → Tried (suc k) r) t
  no_more k [] h v = tt
  no_more k (r ∷ t) h v =
      (λ e. ((v.0 e).0, λ w. absurd (ground (arith, h.0, e, w, beq_refl id))), no_more k t h.1 v.1)

  deliver_one-Progress :
      (k : ℕ) (connectors : Connectors) (now : ℕ) (row : IntegrationOutbox) (s : Database)
      → Member row s.integration_outbox
      → is_claimable id row ≡ true
      → Progress k s
      → Progress (suc k) (deliver_one db connectors now row s)
  deliver_one-Progress k connectors now row s m h v =
      let same = claimable-id id row h in
      let waits = claimable-status id row h in
      let left =
        (sound_at IntegrationDeliveryStatus.pending row waits
          (All-member IsSound row _ v.sound m)).0 in
      let most = (All-member (λ r. r.id ≡ id → Tried k r) row _ v.tried m same).1 waits in
      let outcome = attempt connectors row in
      rw
        (deliver_one_lem db connectors now row s v.differ m
          (subst (λ x. is_claimable x row ≡ true) (sym same) h))
        (subst
          (λ x. Progress (suc k) (record s {
            integration_outbox =
                update_where (has_row_id x) (outcome_row outcome row.attempts now)
                  s.integration_outbox;
          }))
          (sym same)
          (record {
            differ =
                update_where-UniqueBy _ (has_row_id id) (outcome_row outcome row.attempts now)
                  (outcome-id outcome row.attempts now) s.integration_outbox v.differ;
            sound = update-Outbox outcome k row.attempts now most left s.integration_outbox v.sound;
            tried = update-Tried outcome k row.attempts now most left s.integration_outbox;
          }))

  deliver_next-Progress :
      (k : ℕ) (pass : Pass) (s : Database)
      → Progress k s
      → Progress (suc k) (deliver_next db id pass s)
  deliver_next-Progress k pass s v =
      elim (Option-cases (db.find_first IntegrationOutbox (is_claimable id) s.integration_outbox)) [
        | inl e ↦ rw e (record {
          differ = v.differ;
          sound = v.sound;
          tried =
              no_more k _ (db.find_first_missing IntegrationOutbox (is_claimable id) _ e) v.tried;
        })
        | inr (row, e) ↦
            let (h, m) = db.find_first_found IntegrationOutbox (is_claimable id) _ row e in
            rw e (deliver_one-Progress k pass.0 pass.1 row s m h v)
      ]

  deliver_rounds-Progress :
      (k : ℕ) (passes : List Pass) (s : Database)
      → Progress k s
      → Progress (k + length passes) (deliver_rounds db id passes s)
  unfolding deliver_rounds
  deliver_rounds-Progress k [] s v = let e : k + 0 ≡ k = omega arith in rw e v
  deliver_rounds-Progress k (pass ∷ passes) s v =
      let e : k + suc (length passes) ≡ suc k + length passes = omega arith in
      rw e (deliver_rounds-Progress (suc k) passes _ (deliver_next-Progress k pass s v))

  settled :
      (st : IntegrationDeliveryStatus) (r : IntegrationOutbox)
      → r.status ≡ st
      → SoundAs st r
      → Tried max_attempts r
      → IsFinal st
  settled IntegrationDeliveryStatus.pending r e v t = let k = t.1 e in absurd (omega arith)
  settled IntegrationDeliveryStatus.processing r e v t = absurd (t.0 e)
  settled IntegrationDeliveryStatus.delivered r e v t = inl refl
  settled IntegrationDeliveryStatus.dead_letter r e v t = inr refl

  All-settled :
      (t : List IntegrationOutbox)
      → All IsSound t
      → All (λ r. r.id ≡ id → Tried max_attempts r) t
      → All (λ r. r.id ≡ id → IsFinal r.status) t
  All-settled [] v h = tt
  All-settled (r ∷ t) v h = (λ e. settled r.status r refl v.0 (h.0 e), All-settled t v.1 h.1)

  first-Tried :
      (t : List IntegrationOutbox)
      → All (λ r. r.id ≡ id → IsFree r) t
      → All (λ r. r.id ≡ id → Tried 0 r) t
  first-Tried [] h = tt
  first-Tried (r ∷ t) h = (λ e. (h.0 e, λ _. omega arith), first-Tried t h.1)

  -- After eight passes that come to a row which no process holds, each with whatever connectors and
  -- whatever answer, the row is delivered or a dead letter.
  pub deliver_rounds-settles :
      (passes : List Pass) (s : Database)
      → length passes ≡ max_attempts
      → IdsDiffer s
      → Outbox s
      → All (λ r. r.id ≡ id → IsFree r) s.integration_outbox
      → All (λ r. r.id ≡ id → IsFinal r.status) (deliver_rounds db id passes s).integration_outbox
  deliver_rounds-settles passes s eight differ sound free =
      let p = deliver_rounds-Progress 0 passes s (record {
        differ = differ;
        sound = sound;
        tried = first-Tried s.integration_outbox free;
      }) in
      let e : 0 + length passes ≡ max_attempts = omega (arith, eight) in
      All-settled _ p.sound (
        subst
          (λ n. All (λ r. r.id ≡ id → Tried n r) (deliver_rounds db id passes s).integration_outbox)
          e p.tried)
