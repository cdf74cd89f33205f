-- ===== src/Tests/Outbox.antt =====
-- Two processes and a row of the outbox, and a connector that is never there.
use ling_dian.Prelude.{◌≡◌, refl, none, some, List, [], ◌∷◌, All, inl, arith}
use ling_dian.Schema.StoresEnums.{IntegrationProvider, IntegrationDeliveryStatus}
use ling_dian.Schema.OrderRows.{IntegrationOutbox}
use ling_dian.Schema.Database.{Database}
use ling_dian.Db.{listed}
use ling_dian.Outbox.Delivery.{Connectors, retry_delay_ms, claim, finish}
use ling_dian.Outbox.Soundness.{Outbox}
use ling_dian.Outbox.Interleavings.{
  World, claim_step, finish_step, lose_step, Reach, here, next, IsConsistent, Reach-IsConsistent,
  claim_excludes,
}
use ling_dian.Outbox.Settling.{Pass, IsFinal, deliver_rounds, deliver_rounds-settles}
use ling_dian.Tests.Samples.{config, empty}

abbrev waiting_row : IntegrationOutbox
waiting_row = record {
  id = "x1";
  event_id = "e1";
  provider = IntegrationProvider.meituan_waimai;
  aggregate_id = "order1";
  store_id = "s1";
  status = IntegrationDeliveryStatus.pending;
  attempts = 0;
  next_attempt_at = 1000;
  locked_at = none;
  delivered_at = none;
  last_error = none;
  created_at = 1000;
}

abbrev queue : Database
queue = record empty { integration_outbox = waiting_row ∷ [] }

abbrev queue-Outbox : Outbox queue
queue-Outbox = ((omega arith, refl), tt)

abbrev no_connectors : Connectors
no_connectors p = none

abbrev start : World
start = record { database = queue; seen = waiting_row ∷ []; claimed = [] }

abbrev start-IsConsistent : IsConsistent listed config start
start-IsConsistent = record {
  sound = queue-Outbox;
  read_with_tries = (omega arith, tt);
  claimed_with_tries = tt;
}

abbrev claimed_world : World
claimed_world = record start {
  database = (claim listed 2000 waiting_row queue).1;
  claimed = waiting_row ∷ [];
}

claimed_once : (claim listed 2000 waiting_row queue).0 ≡ 1
unfolding listed claim
claimed_once = refl

-- One process claims the row, another one comes too late, and the first reports a failure.
abbrev late_world : World
late_world = record claimed_world {
  database = (claim listed 2001 waiting_row claimed_world.database).1;
}

abbrev failed_world : World
failed_world = record late_world {
  database = finish listed 3000 waiting_row (some "timeout") late_world.database;
  claimed = [];
}

abbrev a_run : Reach listed config start failed_world
a_run =
    next
      (next (next here (claim_step 2000 waiting_row (inl refl) claimed_once refl))
        (lose_step 2001 waiting_row (inl refl) refl))
      (finish_step 3000 waiting_row (some "timeout") [] [] refl refl)

Reach-IsConsistent_example : IsConsistent listed config failed_world
Reach-IsConsistent_example = Reach-IsConsistent listed config a_run start-IsConsistent

claim_excludes_example :
    (claim listed 2001 waiting_row (claim listed 2000 waiting_row queue).1).0 ≡ 0
claim_excludes_example = claim_excludes listed config 2000 2001 waiting_row waiting_row queue refl

delay_test : retry_delay_ms 3 ≡ 20000
unfolding retry_delay_ms
delay_test = refl

abbrev eight_passes : List Pass
eight_passes =
    (no_connectors, 1000)
    ∷ (no_connectors, 2000)
    ∷ (no_connectors, 3000)
    ∷ (no_connectors, 4000)
    ∷ (no_connectors, 5000)
    ∷ (no_connectors, 6000)
    ∷ (no_connectors, 7000)
    ∷ (no_connectors, 8000)
    ∷ []

deliver_rounds-settles_example :
    All
      (λ r. r.id ≡ "x1" → IsFinal r.status)
      (deliver_rounds listed "x1" eight_passes queue).integration_outbox
deliver_rounds-settles_example =
    deliver_rounds-settles listed "x1" eight_passes queue refl (tt, tt) queue-Outbox
      (λ _. λ e. ground arith, tt)
