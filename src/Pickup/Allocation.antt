-- ===== src/Pickup/Allocation.antt =====
-- How the counters move, and why no two codes of a store and a business date are alike.
use mathlib.Core.Path.{subst}
use native.Mathlib.Nat.{le_trans, le_of_eq}
use ling_dian.Prelude.{
  ℕ, suc, ◌+◌, ◌*◌, ◌/◌, ◌≤◌, String, Option, none, some, List, [], ◌∷◌, ◌≡◌, ◌≢◌, refl, sym, ap,
  ◌∙◌, inl, inr, if◌then◌else◌, arith, All, Bool-cases,
}
use ling_dian.Prelude.Equality.{string_eq, nat_eq, beq_refl}
use ling_dian.Prelude.Results.{Result, ok, throw}
use ling_dian.Prelude.Actions.{transaction, transaction_undone, transaction-eq-ok}
use ling_dian.Schema.OrdersEnums.{OrderSource, order_source_eq}
use ling_dian.Schema.OrderRows.{PickupCodeSequence}
use ling_dian.Schema.Database.{Database}
use ling_dian.Db.{Prisma, upsert_where}
use ling_dian.Pickup.{
  AllocatedPickupCode, allocate_pickup_code, next_sequence, issue_code, is_counter, first_value,
  increment, maximum, to_shanghai_business_date, code_text, day_ms, shanghai_offset_ms,
}
use ling_dian.Pickup.Codes.{code_text-injective}

-- The value of a counter, 0 before its first use.
abbrev pub last_value : String → ℕ → OrderSource → List PickupCodeSequence → ℕ
last_value store date source [] = 0
last_value store date source (r ∷ t) =
    let rest = last_value store date source t in
    if is_counter store date source r then r.last_value else rest

-- The counter that is asked for moves by one and is the one returned.
upsert-last_value :
    (store : String) (date : ℕ) (source : OrderSource) (t : List PickupCodeSequence)
    → let u =
        upsert_where (is_counter store date source) (first_value store date source) increment t in
      (u.0.last_value ≡ suc (last_value store date source t))
      × (last_value store date source u.1 ≡ suc (last_value store date source t))
upsert-last_value store date source [] =
    (refl, ground (arith, beq_refl store, beq_refl date, beq_refl source))
upsert-last_value store date source (r ∷ t) =
    let (x, y) = upsert-last_value store date source t in
    elim (Bool-cases (is_counter store date source r)) [
      | inl e ↦ rw e (omega arith, rw e (omega arith))
      | inr e ↦ rw e (x, rw e y)
    ]

-- No counter moves back.
upsert-last_value_mono :
    (store store' : String) (date date' : ℕ) (source source' : OrderSource)
    (t : List PickupCodeSequence)
    → last_value store' date' source' t
      ≤ last_value store' date' source'
          (upsert_where
            (is_counter store date source)
            (first_value store date source)
            increment
            t).1
upsert-last_value_mono store store' date date' source source' [] = omega arith
upsert-last_value_mono store store' date date' source source' (r ∷ t) =
    let ih = upsert-last_value_mono store store' date date' source source' t in
    elim (Bool-cases (is_counter store date source r)) [
      | inl e ↦ rw e (ground arith)
      | inr e ↦ rw e (ground arith)
    ]

-- A successful allocation took the next number of its counter, within the capacity, and wrote
-- nothing else than the counter.
pub record Allocated (db : Prisma) (store : String) (source : OrderSource) (s t : Database)
    (a : AllocatedPickupCode) : Type 0 where
  pub text : a.pickup_code ≡ code_text source a.sequence
  pub number :
      a.sequence ≡ suc (last_value store a.pickup_business_date source s.pickup_code_sequences)
  pub within : a.sequence ≤ maximum source
  pub counter : last_value store a.pickup_business_date source t.pickup_code_sequences ≡ a.sequence
  pub others :
      (store' : String) (date' : ℕ) (source' : OrderSource)
      → last_value store' date' source' s.pickup_code_sequences
        ≤ last_value store' date' source' t.pickup_code_sequences
  pub rest : t ≡ record s { pickup_code_sequences = t.pickup_code_sequences }

module _ (db : Prisma) (store : String) (source : OrderSource) where
  issue_code-ok :
      (date : ℕ) (r : PickupCodeSequence) (a : AllocatedPickupCode)
      → issue_code date source r ≡ ok a
      → (a.pickup_code ≡ code_text source r.last_value)
        × (a.pickup_business_date ≡ date)
        × (a.sequence ≡ r.last_value)
        × (r.last_value ≤ maximum source)
  unfolding issue_code
  issue_code-ok date r a h = ground arith

  next_sequence_lem :
      (date : ℕ) (s : Database)
      → next_sequence db store date source s ≡ (
          let u =
            upsert_where
              (is_counter store date source)
              (first_value store date source)
              increment
              s.pickup_code_sequences in
          (ok u.0, record s { pickup_code_sequences = u.1 }))
  unfolding next_sequence
  next_sequence_lem date s = rw (
      db.upsert_row PickupCodeSequence (is_counter store date source)
        (first_value store date source) increment s.pickup_code_sequences)

  Allocated-issued :
      (date : ℕ) (s : Database) (a : AllocatedPickupCode)
      → let u =
          upsert_where
            (is_counter store date source)
            (first_value store date source)
            increment
            s.pickup_code_sequences in
        issue_code date source u.0 ≡ ok a
        → Allocated db store source s (record s { pickup_code_sequences = u.1 }) a
  Allocated-issued date s a h =
      let (text, day, number, within) = issue_code-ok date _ a h in
      let (next, stored) = upsert-last_value store date source s.pickup_code_sequences in
      record {
        text = rw number text;
        number = rw day (number ∙ next);
        within = rw number within;
        counter = rw day (stored ∙ sym next ∙ sym number);
        others = λ store' date' source'.
            upsert-last_value_mono store store' date date' source source' s.pickup_code_sequences;
        rest = refl;
      }

  -- An allocation that succeeds took the next number of its counter, within the capacity, gave the
  -- text of that number, moved no counter back, and wrote nothing else than the counters.
  pub allocate_pickup_code-Allocated :
      (at : Option ℕ) (s t : Database) (a : AllocatedPickupCode)
      → allocate_pickup_code db store source at s ≡ (ok a, t)
      → Allocated db store source s t a
  unfolding allocate_pickup_code to_shanghai_business_date
  allocate_pickup_code-Allocated none s t a h = cc
  allocate_pickup_code-Allocated (some now) s t a h =
      let date : ℕ = (now + shanghai_offset_ms) / day_ms * day_ms in
      let k = rw (next_sequence_lem date s) at h in
      subst (λ t'. Allocated db store source s t' a) (ap (λ p. p.1) k)
        (Allocated-issued date s a (ap (λ p. p.0) k))

-- A request of a history, each served in a transaction of its own.
pub record Request : Type 0 where
  pub store : String
  pub source : OrderSource
  pub at : Option ℕ

pub record Issued : Type 0 where
  pub store : String
  pub source : OrderSource
  pub allocated : AllocatedPickupCode

abbrev note_issued : Request → Result AllocatedPickupCode → List Issued → List Issued
note_issued q (throw e) log = log
note_issued q (ok a) log = record { store = q.store; source = q.source; allocated = a } ∷ log

-- The codes that a series of requests is given, the latest first.
serve : Prisma → List Request → Database → List Issued → List Issued
serve db [] s log = log
serve db (q ∷ qs) s log =
    let r = transaction (allocate_pickup_code db q.store q.source q.at) s in
    serve db qs r.1 (note_issued q r.0 log)

-- Two codes of one store and one business date are different texts.
abbrev pub Apart : Issued → Issued → Type 0
Apart i j =
    i.store ≡ j.store
    → i.allocated.pickup_business_date ≡ j.allocated.pickup_business_date
    → i.allocated.pickup_code ≢ j.allocated.pickup_code

abbrev pub AllApart : List Issued → Type 0
AllApart [] = Unit
AllApart (i ∷ log) = All (Apart i) log × AllApart log

-- A code stands for its number, which its counter has reached.
IsCounted : Database → Issued → Type 0
IsCounted s i =
    (i.allocated.pickup_code ≡ code_text i.source i.allocated.sequence)
    × (i.allocated.sequence
        ≤ last_value i.store i.allocated.pickup_business_date i.source s.pickup_code_sequences)

All-IsCounted_mono :
    (s t : Database) (log : List Issued)
    → ((store : String) (date : ℕ) (source : OrderSource)
        → last_value store date source s.pickup_code_sequences
          ≤ last_value store date source t.pickup_code_sequences)
    → All (IsCounted s) log
    → All (IsCounted t) log
unfolding IsCounted
All-IsCounted_mono s t [] up h = tt
All-IsCounted_mono s t (i ∷ log) up h = (
  (h.0.0, le_trans h.0.1 (up i.store i.allocated.pickup_business_date i.source)),
  All-IsCounted_mono s t log up h.1,
)

module _ (db : Prisma) (s t : Database) (q : Request) (a : AllocatedPickupCode)
    (v : Allocated db q.store q.source s t a) where
  new_Apart :
      (j : Issued)
      → IsCounted s j
      → Apart (record { store = q.store; source = q.source; allocated = a }) j
  unfolding IsCounted
  new_Apart j (text, below) same_store same_date same_code =
      let (channel, number) =
        code_text-injective q.source j.source a.sequence j.allocated.sequence
          (sym v.text ∙ same_code ∙ text) in
      let key =
        ap (λ x. last_value x a.pickup_business_date q.source s.pickup_code_sequences) same_store
        ∙ ap (λ d. last_value j.store d q.source s.pickup_code_sequences) same_date
        ∙ ap (λ c. last_value j.store j.allocated.pickup_business_date c s.pickup_code_sequences)
            channel in
      absurd (omega (arith, v.number, key, number, below))

  All-new_Apart :
      (log : List Issued)
      → All (IsCounted s) log
      → All (Apart (record { store = q.store; source = q.source; allocated = a })) log
  All-new_Apart [] h = tt
  All-new_Apart (j ∷ log) h = (new_Apart j h.0, All-new_Apart log h.1)

served :
    (db : Prisma) (q : Request) (s : Database) (log : List Issued)
    (r : Result AllocatedPickupCode × Database)
    → transaction (allocate_pickup_code db q.store q.source q.at) s ≡ r
    → All (IsCounted s) log
    → AllApart log
    → All (IsCounted r.1) (note_issued q r.0 log) × AllApart (note_issued q r.0 log)
served db q s log (throw e, t) h counted apart =
    let undone =
      transaction_undone (allocate_pickup_code db q.store q.source q.at) s e (ap (λ p. p.0) h) in
    (subst (λ u. All (IsCounted u) log) (sym undone ∙ ap (λ p. p.1) h) counted, apart)
served db q s log (ok a, t) h counted apart =
    let v =
      allocate_pickup_code-Allocated db q.store q.source q.at s t a
        (transaction-eq-ok (allocate_pickup_code db q.store q.source q.at) s h) in
    (
      (
        unfold IsCounted in (v.text, le_of_eq (sym v.counter)),
        All-IsCounted_mono s t log v.others counted,
      ),
      (All-new_Apart db s t q a v log counted, apart),
    )

serve-AllApart :
    (db : Prisma) (qs : List Request) (s : Database) (log : List Issued)
    → All (IsCounted s) log
    → AllApart log
    → AllApart (serve db qs s log)
unfolding serve
serve-AllApart db [] s log counted apart = apart
serve-AllApart db (q ∷ qs) s log counted apart =
    let r = transaction (allocate_pickup_code db q.store q.source q.at) s in
    let (counted', apart') = served db q s log r refl counted apart in
    serve-AllApart db qs r.1 (note_issued q r.0 log) counted' apart'

-- The codes of a history that starts with none.
pub history : Prisma → List Request → Database → List Issued
history db qs s = serve db qs s []

-- Requests for pickup codes, each in a transaction of its own and in any order, from any state of
-- the counters: no two codes of one store and one business date are alike, whatever their channels.
pub history-AllApart : (db : Prisma) (qs : List Request) (s : Database) → AllApart (history db qs s)
unfolding history
history-AllApart db qs s = serve-AllApart db qs s [] tt tt
