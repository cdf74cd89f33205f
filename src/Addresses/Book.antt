-- ===== src/Addresses/Book.antt =====
-- The address book keeps at most 20 addresses for each user, one of them the default.
use mathlib.Core.Path.{subst}
use Prim.Native.Nat.{min}
use ling_dian.Prelude.{
  ℕ, zero, suc, ◌+◌, ◌≤◌, String, Bool, true, false, not, ◌&&◌, ◌≡◌, ◌≢◌, refl, sym, ap, ◌∙◌, inl,
  inr, Option, none, some, List, [], ◌∷◌, ◌++◌, any, leb, All, count_where, Bool-cases,
  Option-cases, arith,
}
use ling_dian.Prelude.Equality.{◌==◌, string_eq, nat_eq, eq_of_beq, beq_refl}
use ling_dian.Prelude.Results.{Exception, Result, ok, throw}
use ling_dian.Prelude.Actions.{Action, transaction, throw_if-eq-ok}
use ling_dian.Schema.AuthRows.{UserAddress}
use ling_dian.Schema.Database.{Database}
use ling_dian.Db.{Prisma}
use ling_dian.Addresses.{
  AddressInput, AddressSeed, AddressView, owned_by, default_of, has_address_id, new_address,
  insert_address, same_address, create_body, create_address, transaction_with_retry, again, commit,
  next, later, max_addresses_per_user, transaction_max_attempts, is_retryable, normalize_address,
}

abbrev pub UniqueAddresses : List UserAddress → Type 0
UniqueAddresses [] = Unit
UniqueAddresses (a ∷ rows) = All (λ b. b.id ≢ a.id) rows × UniqueAddresses rows

-- The rows of a well-kept book.
pub record AddressBook (rows : List UserAddress) : Type 0 where
  pub unique : UniqueAddresses rows
  pub within : (u : String) → count_where (owned_by u) rows ≤ max_addresses_per_user
  pub one_default :
      (u : String) → count_where (default_of u) rows ≡ min 1 (count_where (owned_by u) rows)

abbrev one : Bool → ℕ
one true = 1
one false = 0

count-snoc :
    (p : UserAddress → Bool) (rows : List UserAddress) (a : UserAddress)
    → count_where p (rows ++ a ∷ []) ≡ count_where p rows + one (p a)
count-snoc p [] a = ground arith
count-snoc p (b ∷ rows) a = ground (arith, count-snoc p rows a)

fresh_apart :
    (rows : List UserAddress) (a b : UserAddress)
    → a.id ≢ b.id
    → All (λ x. x.id ≢ b.id) rows
    → All (λ x. x.id ≢ b.id) (rows ++ a ∷ [])
fresh_apart [] a b ne h = (ne, tt)
fresh_apart (x ∷ rows) a b ne h = (h.0, fresh_apart rows a b ne h.1)

snoc-UniqueAddresses :
    (rows : List UserAddress) (a : UserAddress)
    → any (has_address_id a.id) rows ≡ false
    → UniqueAddresses rows
    → UniqueAddresses (rows ++ a ∷ [])
snoc-UniqueAddresses [] a fresh u = (tt, tt)
snoc-UniqueAddresses (x ∷ rows) a fresh u = (
  fresh_apart rows a x (λ e. ground (arith, fresh, e, beq_refl a.id)) u.0,
  snoc-UniqueAddresses rows a (ground arith) u.1,
)

module _ (rows : List UserAddress) (seed : AddressSeed) (user_id : String) (i : AddressInput)
    (u : String) where
  snoc-within :
      (d : Bool)
      → leb max_addresses_per_user (count_where (owned_by user_id) rows) ≡ false
      → count_where (owned_by u) rows ≤ max_addresses_per_user
      → count_where (owned_by u) (rows ++ new_address seed user_id i d ∷ [])
        ≤ max_addresses_per_user
  snoc-within d room below = elim (Bool-cases (user_id == u)) [
    | inl e ↦
        let room' : leb max_addresses_per_user (count_where (owned_by u) rows) ≡ false =
          subst (λ x. leb max_addresses_per_user (count_where (owned_by x) rows) ≡ false)
            (eq_of_beq user_id u e) room in
        rw (count-snoc (owned_by u) rows (new_address seed user_id i d))
          (rw e (ground (arith, room')))
    | inr e ↦
        rw (count-snoc (owned_by u) rows (new_address seed user_id i d))
          (rw e (omega (arith, below)))
  ]

  snoc-one_default :
      (d : Bool)
      → d ≡ (count_where (default_of user_id) rows == 0)
      → count_where (default_of u) rows ≡ min 1 (count_where (owned_by u) rows)
      → count_where (default_of u) (rows ++ new_address seed user_id i d ∷ [])
        ≡ min 1 (count_where (owned_by u) (rows ++ new_address seed user_id i d ∷ []))
  snoc-one_default d flag kept = elim (Bool-cases (user_id == u)) [
    | inl e ↦
        let flag' : d ≡ (count_where (default_of u) rows == 0) =
          subst (λ x. d ≡ (count_where (default_of x) rows == 0)) (eq_of_beq user_id u e) flag in
        rw
          (
            count-snoc (default_of u) rows (new_address seed user_id i d),
            count-snoc (owned_by u) rows (new_address seed user_id i d),
            e,
          )
          (elim (Bool-cases d) [
            | inl on ↦ rw on (
                let zero_ = eq_of_beq (count_where (default_of u) rows) 0 (sym flag' ∙ on) in
                omega (arith, kept, zero_))
            | inr off ↦ rw off (
                let nonzero : (count_where (default_of u) rows == 0) ≡ false = sym flag' ∙ off in
                ground (arith, kept, nonzero))
          ])
    | inr e ↦
        rw
          (
            count-snoc (default_of u) rows (new_address seed user_id i d),
            count-snoc (owned_by u) rows (new_address seed user_id i d),
            e,
          )
          (omega (arith, kept))
  ]

-- A new address of a user with room for it, the default if it is the first.
snoc-AddressBook :
    (rows : List UserAddress) (seed : AddressSeed) (user_id : String) (i : AddressInput) (d : Bool)
    → d ≡ (count_where (default_of user_id) rows == 0)
    → any (has_address_id seed.address_id) rows ≡ false
    → leb max_addresses_per_user (count_where (owned_by user_id) rows) ≡ false
    → AddressBook rows
    → AddressBook (rows ++ new_address seed user_id i d ∷ [])
snoc-AddressBook rows seed user_id i d flag fresh room v = record {
  unique = snoc-UniqueAddresses rows (new_address seed user_id i d) fresh v.unique;
  within = λ u. snoc-within rows seed user_id i u d room (v.within u);
  one_default = λ u. snoc-one_default rows seed user_id i u d flag (v.one_default u);
}

-- What a try leaves behind is what the transaction left, or nothing.
abbrev pub Kept : Database → Database → Type 0
Kept s t = AddressBook s.user_addresses → AddressBook t.user_addresses

module _ {A : Type 0} (m : Action Database A)
    (keeps : (s t : Database) (a : A) → m s ≡ (ok a, t) → Kept s t) where
  commit-Kept : (abort : Option Exception) (s : Database) → Kept s (commit abort m s).1
  unfolding transaction
  commit-Kept (some e) s v = v
  commit-Kept none s v = go (m s) refl
    where
      go : (r : Result A × Database) → m s ≡ r → AddressBook (transaction m s).1.user_addresses
      go (ok a, t) h = rw h (keeps s t a h v)
      go (throw e, t) h = rw h v

  pub transaction_with_retry-Kept :
      (left : ℕ) (aborts : List (Option Exception)) (s : Database)
      → Kept s (transaction_with_retry left aborts m s).1
  unfolding transaction_with_retry
  transaction_with_retry-Kept zero aborts s v = v
  transaction_with_retry-Kept (suc left) aborts s v =
      go (commit (next aborts) m s) (transaction_with_retry-Kept left (later aborts))
        (commit-Kept (next aborts) s v)
    where
      go :
          (r : Result A × Database)
          → ((t : Database) → Kept t (transaction_with_retry left (later aborts) m t).1)
          → AddressBook r.1.user_addresses
          → AddressBook
              (again left r (transaction_with_retry left (later aborts) m)).1.user_addresses
      go (ok a, t) rest k = k
      go (throw e, t) rest k = elim (Bool-cases (is_retryable e && not (left == 0))) [
        | inl more ↦ rw more (rest t k)
        | inr last ↦ rw last k
      ]

insert_address-ok :
    (db : Prisma) (a : UserAddress) (s t : Database) (out : AddressView)
    → insert_address db a s ≡ (ok out, t)
    → (any (has_address_id a.id) s.user_addresses ≡ false)
      × (t.user_addresses ≡ s.user_addresses ++ a ∷ [])
insert_address-ok db a s t out h =
    let k = rw (db.create_row UserAddress (has_address_id a.id) a s.user_addresses) at h in
    elim (Bool-cases (any (has_address_id a.id) s.user_addresses)) [
      | inl e ↦ let l = rw e at k in cc
      | inr e ↦ let l = rw e at k in (e, ap (λ u. u.user_addresses) (sym (ap (λ r. r.1) l)))
    ]

create_body-Kept :
    (db : Prisma) (seed : AddressSeed) (user_id : String) (i : AddressInput) (s t : Database)
    (out : AddressView)
    → create_body db seed user_id i s ≡ (ok out, t)
    → Kept s t
unfolding create_body
create_body-Kept db seed user_id i s t out h v =
    elim (Option-cases (db.find_first UserAddress (same_address user_id i) s.user_addresses)) [
      | inr (x, e) ↦
          let k = rw e at h in subst (λ u. AddressBook u.user_addresses) (ap (λ r. r.1) k) v
      | inl e ↦
          let k = rw e at h in
          let k1 = rw (db.count_rows UserAddress (owned_by user_id) s.user_addresses) at k in
          let k2 = rw (db.count_rows UserAddress (default_of user_id) s.user_addresses) at k1 in
          let (room, inserted) = throw_if-eq-ok _ _ _ s k2 in
          let (fresh, rows) = insert_address-ok db _ s t out inserted in
          rw rows (
            snoc-AddressBook s.user_addresses seed user_id i
              (count_where (default_of user_id) s.user_addresses == 0) refl fresh room v)
    ]

-- Adding an address, whatever the call returns, however often its transaction is given up, and for
-- whichever user, keeps the book: ids are unique, no user has more than 20 addresses, and a user
-- with any address has exactly one default.
pub create_address-AddressBook :
    (db : Prisma) (aborts : List (Option Exception)) (seed : AddressSeed) (user_id : String)
    (i : AddressInput) (s : Database)
    → AddressBook s.user_addresses
    → AddressBook (create_address db aborts seed user_id i s).1.user_addresses
unfolding create_address
create_address-AddressBook db aborts seed user_id i s v =
    transaction_with_retry-Kept (create_body db seed user_id (normalize_address i))
      (create_body-Kept db seed user_id (normalize_address i)) transaction_max_attempts aborts s v
