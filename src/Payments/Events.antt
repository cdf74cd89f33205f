-- ===== src/Payments/Events.antt =====
-- The recorded events of a webhook delivery: what reserving and processing one leaves in the table
-- (`handleWebhook` of `backend/src/modules/payments/payments.service.ts`): proofs.
use ling_dian.Prelude.{
  ℕ, String, Bool, true, false, ◌≡◌, refl, sym, ap, ◌∙◌, inl, inr, Option, none, some, List, [],
  ◌∷◌, ◌++◌, All, Member, any, is_some, Bool-cases, not_both,
}
use mathlib.Core.Path.{subst}
use ling_dian.Prelude.Equality.{◌==◌, string_eq, nat_eq, beq_refl, eq_of_beq}
use ling_dian.Prelude.Results.{Result, ok}
use ling_dian.Schema.OrdersEnums.{order_status_eq}
use ling_dian.Schema.PaymentsEnums.{payment_intent_status_eq}
use ling_dian.Schema.PaymentRows.{PaymentWebhookEvent}
use ling_dian.Schema.Database.{Database}
use ling_dian.Db.{Prisma, update_where, All-of_member}
use ling_dian.Payments.Webhooks.{
  Delivery, Reservation, proceed, processed, is_event, earlier, new_event, processed_now,
  reserve_event, reserved,
}

any_none : {A : Type 0} (p : A → Bool) (xs : List A) → All (λ x. p x ≡ false) xs → any p xs ≡ false
any_none p [] h = refl
any_none p (x ∷ xs) h = rw (h.0) (any_none p xs h.1)

All-Member : {A : Type 0} (P : A → Type 0) (x : A) (xs : List A) → All P xs → Member x xs → P x
All-Member P x [] h m = elim m [ ]
All-Member P x (y ∷ ys) h (inl e) = subst P (sym e) h.0
All-Member P x (y ∷ ys) h (inr m) = All-Member P x ys h.1 m

-- A row of its kind is added to a list that has none.
first_of_kind :
    {A : Type 0} (p : A → Bool) (Q : A → Type 0) (x : A) (xs : List A)
    → any p xs ≡ false
    → p x ≡ true
    → Q x
    → All (λ y. p y ≡ true → Q y) (xs ++ x ∷ []) × (any p (xs ++ x ∷ []) ≡ true)
first_of_kind p Q x [] h px qx = (((λ k. qx), tt), rw px refl)
first_of_kind p Q x (y ∷ ys) h px qx = elim (Bool-cases (p y)) [
  | inl k ↦ let bad : true ≡ false = (rw k at h) in cc
  | inr k ↦
      let rest = first_of_kind p Q x ys (rw k at h) px qx in
      (((λ j. absurd (not_both (p y) j k)), rest.0), rw k (rest.1))
]

module _ (db : Prisma) (w : Delivery) (id hash : String) where
  abbrev pub Kept : List PaymentWebhookEvent → Type 0
  Kept es =
      All (λ e. is_event w id e ≡ true → e.payload_hash ≡ hash) es × (any (is_event w id) es ≡ true)

  abbrev pub Done : List PaymentWebhookEvent → Type 0
  Done es =
      All (λ e. is_event w id e ≡ true → (e.payload_hash ≡ hash) × (is_some e.processed_at ≡ true))
        es
      × (any (is_event w id) es ≡ true)

  abbrev pub Alike : List PaymentWebhookEvent → Type 0
  Alike es =
      (a b : PaymentWebhookEvent)
      → Member a es
      → Member b es
      → is_event w id a ≡ true
      → is_event w id b ≡ true
      → a ≡ b

  pub mark-Done :
      (now : ℕ) (es : List PaymentWebhookEvent)
      → All (λ e. is_event w id e ≡ true → e.payload_hash ≡ hash) es
      → All
          (λ e. is_event w id e ≡ true → (e.payload_hash ≡ hash) × (is_some e.processed_at ≡ true))
          (update_where (is_event w id) (processed_now now) es)
  mark-Done now [] h = tt
  mark-Done now (e ∷ es) h = elim (Bool-cases (is_event w id e)) [
    | inl k ↦ rw k ((λ j. (h.0 k, refl)), mark-Done now es h.1)
    | inr k ↦ rw k ((λ j. absurd (not_both (is_event w id e) j k)), mark-Done now es h.1)
  ]

  pub any-update_where :
      (now : ℕ) (es : List PaymentWebhookEvent)
      → any (is_event w id) (update_where (is_event w id) (processed_now now) es)
        ≡ any (is_event w id) es
  any-update_where now [] = refl
  any-update_where now (e ∷ es) = elim (Bool-cases (is_event w id e)) [
    | inl k ↦ rw k (rw k refl)
    | inr k ↦ rw k (rw k (any-update_where now es))
  ]

  -- A processed event is known when it comes again.
  pub reserve_event-Done :
      (t : Database)
      → Done t.payment_webhook_events
      → reserve_event db w id hash t ≡ (ok processed, t)
  unfolding reserve_event
  reserve_event-Done t d =
      rw
        (db.create_row PaymentWebhookEvent (is_event w id) (new_event w id hash)
          t.payment_webhook_events)
        (rw (d.1) (found _ refl))
    where
      found :
          (e : Option PaymentWebhookEvent)
          → db.find_first PaymentWebhookEvent (is_event w id) t.payment_webhook_events ≡ e
          → ◌≡◌ {A = Result Reservation × Database} (earlier e hash, t) (ok processed, t)
      found none q = absurd (
          not_both (any (is_event w id) t.payment_webhook_events) (d.1) (
            any_none (is_event w id) t.payment_webhook_events (
              db.find_first_missing PaymentWebhookEvent (is_event w id) t.payment_webhook_events
                q)))
      found (some e) q =
          let (k, m) =
            db.find_first_found PaymentWebhookEvent (is_event w id) t.payment_webhook_events e q in
          let (same, known) =
            All-Member
              (λ x.
                is_event w id x ≡ true → (x.payload_hash ≡ hash) × (is_some x.processed_at ≡ true))
              e t.payment_webhook_events d.0 m k in
          rw same (rw (beq_refl hash) (rw known refl))

  -- An event that is to be processed is in the table, with this payload.
  pub reserve_event-Kept :
      (s s1 : Database)
      → Alike s.payment_webhook_events
      → reserve_event db w id hash s ≡ (ok proceed, s1)
      → Kept s1.payment_webhook_events × (s1.payment_accounts ≡ s.payment_accounts)
  unfolding reserve_event
  reserve_event-Kept s s1 alike h =
      elim (Bool-cases (any (is_event w id) s.payment_webhook_events)) [
        | inl a ↦ known _ refl a (
            rw
              (
                db.create_row PaymentWebhookEvent (is_event w id) (new_event w id hash)
                    s.payment_webhook_events,
                a,
              )
              at h)
        | inr a ↦ added a (
            rw
              (
                db.create_row PaymentWebhookEvent (is_event w id) (new_event w id hash)
                    s.payment_webhook_events,
                a,
              )
              at h)
      ]
    where
      known :
          (found : Option PaymentWebhookEvent)
          → db.find_first PaymentWebhookEvent (is_event w id) s.payment_webhook_events ≡ found
          → any (is_event w id) s.payment_webhook_events ≡ true
          → ◌≡◌ {A = Result Reservation × Database} (earlier found hash, s) (ok proceed, s1)
          → Kept s1.payment_webhook_events × (s1.payment_accounts ≡ s.payment_accounts)
      known none q a k = cc
      known (some e) q a k = elim (Bool-cases (e.payload_hash == hash)) [
        | inl same ↦
            let (pe, me) =
              db.find_first_found PaymentWebhookEvent (is_event w id) s.payment_webhook_events e
                q in
            subst (λ x. Kept x.payment_webhook_events × (x.payment_accounts ≡ s.payment_accounts))
              (ap (λ x. x.1) k)
              (
                (
                  All-of_member (λ x. is_event w id x ≡ true → x.payload_hash ≡ hash)
                      s.payment_webhook_events
                      (λ x mx px.
                        ap (λ y. y.payload_hash) (alike x e mx me px pe)
                        ∙ eq_of_beq e.payload_hash hash same),
                  a,
                ),
                refl,
              )
        | inr other ↦ let k2 = (rw other at k) in cc
      ]

      added :
          any (is_event w id) s.payment_webhook_events ≡ false
          → ◌≡◌ {A = Result Reservation × Database}
              (
                ok proceed,
                record s {
                  payment_webhook_events = s.payment_webhook_events ++ new_event w id hash ∷ [];
                },
              )
              (ok proceed, s1)
          → Kept s1.payment_webhook_events × (s1.payment_accounts ≡ s.payment_accounts)
      added a k =
          subst (λ x. Kept x.payment_webhook_events × (x.payment_accounts ≡ s.payment_accounts))
            (ap (λ x. x.1) k)
            (
              first_of_kind (is_event w id) (λ e. e.payload_hash ≡ hash) (new_event w id hash)
                  s.payment_webhook_events a
                  (rw (beq_refl w.provider, beq_refl w.account_id, beq_refl id) refl) refl,
              refl,
            )

  pub reserve_event-processed :
      (s s1 : Database) → reserve_event db w id hash s ≡ (ok processed, s1) → s ≡ s1
  unfolding reserve_event
  reserve_event-processed s s1 h =
      go
        (db.create PaymentWebhookEvent (is_event w id) (new_event w id hash)
          s.payment_webhook_events)
        (earlier (db.find_first PaymentWebhookEvent (is_event w id) s.payment_webhook_events) hash)
        h
    where
      go :
          (events : Option (List PaymentWebhookEvent)) (found : Result Reservation)
          → reserved events found s ≡ (ok processed, s1)
          → s ≡ s1
      go none found k = ap (λ x. x.1) k
      go (some events) found k = cc
