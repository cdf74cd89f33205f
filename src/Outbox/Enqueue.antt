-- ===== src/Outbox/Enqueue.antt =====
-- `enqueueOrderCreated`: the work for the enabled connectors, written in the transaction of the
-- order. `providers` are the connectors of the deployment (`enabledDeploymentProviders`), `event_id`
-- the random id of the event; the payload is the order itself, kept by its id.
use ling_dian.Prelude.{
  ℕ, String, Bool, ◌&&◌, Option, none, some, List, [], ◌∷◌, or_else, ◌≡◌, refl, sym, ap,
}
use ling_dian.Prelude.Equality.{◌==◌, includes, string_eq}
use mathlib.Core.Path.{subst}
use ling_dian.Prelude.Results.{ok}
use ling_dian.Prelude.Actions.{Action, ◌>>=◌, lift, continue-eq-ok}
use ling_dian.Schema.StoresEnums.{
  IntegrationProvider, IntegrationDeliveryStatus, integration_provider_eq,
}
use ling_dian.Schema.OrderRows.{Order, IntegrationOutbox, StoreIntegration}
use ling_dian.Schema.Database.{Database}
use ling_dian.Db.{Prisma}
use ling_dian.Stores.{resolve_requested_store_id}

-- What a pass or a write takes from outside: the time and fresh ids.
pub record EventSeed : Type 0 where
  pub now : ℕ
  pub event_id : String
  pub row_id : IntegrationProvider → String

abbrev pub outbox_row : EventSeed → Order → String → IntegrationProvider → IntegrationOutbox
outbox_row seed o store_id provider = record {
  id = seed.row_id provider;
  event_id = seed.event_id;
  provider = provider;
  aggregate_id = o.id;
  store_id = store_id;
  status = IntegrationDeliveryStatus.pending;
  attempts = 0;
  next_attempt_at = seed.now;
  locked_at = none;
  delivered_at = none;
  last_error = none;
  created_at = seed.now;
}

abbrev pub same_event : IntegrationOutbox → IntegrationOutbox → Bool
same_event r x = x.provider == r.provider && x.event_id == r.event_id

-- `createMany` with `skipDuplicates`.
unfoldable pub create_rows :
    Prisma → List IntegrationOutbox → List IntegrationOutbox → List IntegrationOutbox
create_rows db [] t = t
create_rows db (r ∷ rows) t =
    create_rows db rows (or_else (db.create IntegrationOutbox (same_event r) r t) t)

abbrev pub rows_for : EventSeed → Order → String → List StoreIntegration → List IntegrationOutbox
rows_for seed o store_id [] = []
rows_for seed o store_id (i ∷ enabled) =
    outbox_row seed o store_id i.provider ∷ rows_for seed o store_id enabled

abbrev enabled_here : String → List IntegrationProvider → StoreIntegration → Bool
enabled_here store_id providers i =
    i.store_id == store_id && (i.enabled && includes i.provider providers)

abbrev pub write_rows :
    Prisma → EventSeed → Order → List IntegrationProvider → String → Action Database (Unit {0})
write_rows db seed o [] store_id s = (ok tt, s)
write_rows db seed o (p ∷ ps) store_id s = (
  ok tt,
  record s {
    integration_outbox =
        create_rows db
          (rows_for seed o store_id
            (db.find_many StoreIntegration (enabled_here store_id (p ∷ ps)) s.store_integrations))
          s.integration_outbox;
  },
)

unfoldable pub enqueue_order_created :
    Prisma
    → Option String
    → List IntegrationProvider
    → EventSeed
    → Order
    → Action Database (Unit {0})
enqueue_order_created db config providers seed o = do
  store_id ← lift (resolve_requested_store_id config (some o.store_id))
  write_rows db seed o providers store_id

-- Only the outbox changes.
pub enqueue-rest :
    (db : Prisma) (config : Option String) (providers : List IntegrationProvider) (seed : EventSeed)
    (o : Order) (s t : Database)
    → enqueue_order_created db config providers seed o s ≡ (ok tt, t)
    → t ≡ record s { integration_outbox = t.integration_outbox }
unfolding enqueue_order_created
enqueue-rest db config providers seed o s t h =
    let (store_id, s', same, k) =
      continue-eq-ok (resolve_requested_store_id config (some o.store_id), s) _ h in
    go providers store_id (
      subst (λ u. write_rows db seed o providers store_id u ≡ (ok tt, t)) (sym (ap (λ r. r.1) same))
        k)
  where
    go :
        (ps : List IntegrationProvider) (store_id : String)
        → write_rows db seed o ps store_id s ≡ (ok tt, t)
        → t ≡ record s { integration_outbox = t.integration_outbox }
    go [] store_id k =
        subst (λ u. u ≡ record s { integration_outbox = u.integration_outbox }) (ap (λ r. r.1) k)
          refl
    go (p ∷ ps) store_id k =
        subst (λ u. u ≡ record s { integration_outbox = u.integration_outbox }) (ap (λ r. r.1) k)
          refl
