-- ===== src/Outbox/Delivery.antt =====
-- The delivery of the outbox (`flush`, `deliverOne`, `recoverAbandonedClaims`, `retryDelayMs` and
-- `safeErrorMessage` of `backend/src/modules/integrations/integration-outbox.service.ts`). The
-- connectors (`IntegrationCatalogService.adapter` and the adapters' HTTP calls) are a parameter: a
-- provider has an adapter or none, and a delivery succeeds (`none`) or fails with a message.
use Prim.Native.Char.{Char, code}
use Prim.Native.Nat.{min}
use ling_dian.Prelude.{
  ℕ, zero, suc, ◌+◌, ◌-◌, ◌*◌, ◌^◌, String, Bool, false, ◌&&◌, ◌||◌, Option, none, some, List, [],
  ◌∷◌, take, ltb, leb, if◌then◌else◌,
}
use ling_dian.Prelude.Equality.{◌==◌, string_eq, nat_eq}
use ling_dian.Prelude.Results.{ok}
use ling_dian.Prelude.Actions.{Action, ◌>>=◌, lift}
use ling_dian.Schema.StoresEnums.{
  IntegrationProvider, IntegrationDeliveryStatus, integration_delivery_status_eq,
}
use ling_dian.Schema.OrderRows.{IntegrationOutbox}
use ling_dian.Schema.Database.{Database}
use ling_dian.Db.{Prisma}
use ling_dian.Stores.{primary_store_id}

abbrev pub max_attempts : ℕ
max_attempts = 8

abbrev pub batch_size : ℕ
batch_size = 20

abbrev pub Connectors : Type 0
Connectors = IntegrationProvider → Option (IntegrationOutbox → Option String)

unfoldable pub retry_delay_ms : ℕ → ℕ
retry_delay_ms attempt = min 3600000 (5000 * 2 ^ (attempt - 1))

-- A line break or a tab becomes a space.
printable : Char → Char
printable c = if code c == 10 || (code c == 13 || code c == 9) then " " else c

first_chars : ℕ → String → String
first_chars zero s = String.[]
first_chars (suc n) String.[] = String.[]
first_chars (suc n) (String.◌∷◌ c s) = String.◌∷◌ (printable c) (first_chars n s)

unfoldable pub safe_error_message : String → String
unfolding first_chars printable
safe_error_message message = first_chars 500 message

abbrev pub has_row_id : String → IntegrationOutbox → Bool
has_row_id id r = r.id == id

abbrev pub is_claimable : String → IntegrationOutbox → Bool
is_claimable id r = r.id == id && r.status == IntegrationDeliveryStatus.pending

abbrev pub claimed_row : ℕ → IntegrationOutbox → IntegrationOutbox
claimed_row now r = record r { status = IntegrationDeliveryStatus.processing; locked_at = some now }

-- The claim: how many rows it changed, and the state after it.
unfoldable pub claim : Prisma → ℕ → IntegrationOutbox → Database → ℕ × Database
claim db now row s =
    let updated =
      db.update_many IntegrationOutbox (is_claimable row.id) (claimed_row now)
        s.integration_outbox in
    (updated.1, record s { integration_outbox = updated.0 })

-- The connector's answer; without an adapter there is an error, too.
unfoldable pub attempt : Connectors → IntegrationOutbox → Option String
attempt connectors row = elim (connectors row.provider) [
  | none ↦ some "Connector adapter is unavailable"
  | some deliver ↦ deliver row
]

abbrev pub delivered_row : ℕ → IntegrationOutbox → IntegrationOutbox
delivered_row now r = record r {
  status = IntegrationDeliveryStatus.delivered;
  delivered_at = some now;
  locked_at = none;
  last_error = none;
}

-- `attempts` is the number of the row as it was read, plus one.
abbrev pub failed_row : ℕ → ℕ → String → IntegrationOutbox → IntegrationOutbox
failed_row attempts now message r = record r {
  status =
      if leb max_attempts attempts
      then IntegrationDeliveryStatus.dead_letter
      else IntegrationDeliveryStatus.pending;
  attempts = attempts;
  next_attempt_at = now + retry_delay_ms attempts;
  locked_at = none;
  last_error = some (safe_error_message message);
}

abbrev pub outcome_row : Option String → ℕ → ℕ → IntegrationOutbox → IntegrationOutbox
outcome_row none attempts now = delivered_row now
outcome_row (some message) attempts now = failed_row (attempts + 1) now message

-- The write after an attempt, by the row's id alone.
unfoldable pub finish : Prisma → ℕ → IntegrationOutbox → Option String → Database → Database
finish db now row outcome s = record s {
  integration_outbox =
      (db.update_many IntegrationOutbox (has_row_id row.id) (outcome_row outcome row.attempts now)
        s.integration_outbox).0;
}

unfoldable pub deliver_one : Prisma → Connectors → ℕ → IntegrationOutbox → Database → Database
deliver_one db connectors now row s =
    let claimed = claim db now row s in
    if claimed.0 == 1 then finish db now row (attempt connectors row) claimed.1 else claimed.1

unfoldable pub deliver_all : Prisma → Connectors → ℕ → List IntegrationOutbox → Database → Database
deliver_all db connectors now [] s = s
deliver_all db connectors now (row ∷ rows) s =
    deliver_all db connectors now rows (deliver_one db connectors now row s)

abbrev pub is_due : String → ℕ → IntegrationOutbox → Bool
is_due store_id now r =
    r.store_id == store_id
    && (r.status == IntegrationDeliveryStatus.pending && leb r.next_attempt_at now)

-- The rows that a pass reads, the oldest first.
unfoldable pub due_rows : Prisma → String → ℕ → Database → List IntegrationOutbox
due_rows db store_id now s = take batch_size (
    db.find_ordered IntegrationOutbox (is_due store_id now) (λ r. r.created_at)
      s.integration_outbox)

-- A pass. The flag `flushing` keeps two passes of one process apart; here a pass runs by itself.
unfoldable pub flush : Prisma → Option String → Connectors → ℕ → Action Database (Unit {0})
flush db config connectors now = do
  store_id ← lift (primary_store_id config)
  λ s. (ok tt, deliver_all db connectors now (due_rows db store_id now s) s)

abbrev locked_before : ℕ → Option ℕ → Bool
locked_before limit none = false
locked_before limit (some t) = ltb t limit

-- `new Date(Date.now() - 5 * 60_000)`; the clock is past the first five minutes of 1970.
abbrev pub is_abandoned : String → ℕ → IntegrationOutbox → Bool
is_abandoned store_id now r =
    r.store_id == store_id
    && (r.status == IntegrationDeliveryStatus.processing
        && locked_before (now - 300000) r.locked_at)

abbrev pub released_row : IntegrationOutbox → IntegrationOutbox
released_row r = record r { status = IntegrationDeliveryStatus.pending; locked_at = none }

unfoldable pub recover_abandoned_claims : Prisma → Option String → ℕ → Action Database ℕ
recover_abandoned_claims db config now = do
  store_id ← lift (primary_store_id config)
  λ s.
      let updated =
        db.update_many IntegrationOutbox (is_abandoned store_id now) released_row
          s.integration_outbox in
      (ok updated.1, record s { integration_outbox = updated.0 })
