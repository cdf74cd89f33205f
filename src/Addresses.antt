-- ===== src/Addresses.antt =====
-- The address book (`backend/src/modules/addresses/addresses.service.ts`). Each change runs in a
-- serializable transaction that is tried again after a conflict; `aborts` says, try by try, which
-- error the database gives up with, `none` if with none.
pub mod Book
use ling_dian.Prelude.{
  ℕ, zero, suc, String, Bool, true, false, not, ◌&&◌, ◌||◌, Option, none, some, List, [], ◌∷◌, trim,
  leb, is_some, map, if◌then◌else◌,
}
use ling_dian.Prelude.Equality.{◌==◌, string_eq, nat_eq}
use ling_dian.Prelude.Results.{
  Exception, Result, ok, throw, bind, or_throw, bad_request, not_found, unique_violation,
  write_conflict, other_error,
}
use ling_dian.Prelude.Actions.{Action, ◌>>=◌, pure, lift, throw_if, transaction}
use ling_dian.Schema.AuthRows.{UserAddress}
use ling_dian.Schema.Database.{Database}
use ling_dian.Db.{Prisma}

abbrev pub max_addresses_per_user : ℕ
max_addresses_per_user = 20

abbrev pub transaction_max_attempts : ℕ
transaction_max_attempts = 3

pub record AddressInput : Type 0 where
  pub recipient_name : String
  pub phone_number : String
  pub province_name : String
  pub city_name : String
  pub county_name : String
  pub street_name : String
  pub detail_info : String
  pub postal_code : String
  pub national_code : String

pub normalize_address : AddressInput → AddressInput
normalize_address i = record {
  recipient_name = trim i.recipient_name;
  phone_number = trim i.phone_number;
  province_name = trim i.province_name;
  city_name = trim i.city_name;
  county_name = trim i.county_name;
  street_name = trim i.street_name;
  detail_info = trim i.detail_info;
  postal_code = trim i.postal_code;
  national_code = trim i.national_code;
}

-- `toContract`: the row without its user.
pub record AddressView : Type 0 where
  pub id : String
  pub address : AddressInput
  pub is_default : Bool
  pub updated_at : ℕ

abbrev pub fields_of : UserAddress → AddressInput
fields_of a = record {
  recipient_name = a.recipient_name;
  phone_number = a.phone_number;
  province_name = a.province_name;
  city_name = a.city_name;
  county_name = a.county_name;
  street_name = a.street_name;
  detail_info = a.detail_info;
  postal_code = a.postal_code;
  national_code = a.national_code;
}

abbrev pub to_contract : UserAddress → AddressView
to_contract a = record {
  id = a.id;
  address = fields_of a;
  is_default = a.is_default;
  updated_at = a.updated_at;
}

abbrev pub owned_by : String → UserAddress → Bool
owned_by user_id a = a.user_id == user_id

abbrev pub default_of : String → UserAddress → Bool
default_of user_id a = a.user_id == user_id && a.is_default

abbrev pub has_address_id : String → UserAddress → Bool
has_address_id id a = a.id == id

same_fields : AddressInput → AddressInput → Bool
same_fields i j =
    i.recipient_name == j.recipient_name
    && (i.phone_number == j.phone_number
        && (i.province_name == j.province_name
            && (i.city_name == j.city_name
                && (i.county_name == j.county_name
                    && (i.street_name == j.street_name
                        && (i.detail_info == j.detail_info
                            && (i.postal_code == j.postal_code
                                && i.national_code == j.national_code)))))))

unfoldable pub same_address : String → AddressInput → UserAddress → Bool
unfolding same_fields
same_address user_id i a = owned_by user_id a && same_fields (fields_of a) i

-- The clock and the fresh id of a call.
pub record AddressSeed : Type 0 where
  pub now : ℕ
  pub address_id : String

abbrev pub new_address : AddressSeed → String → AddressInput → Bool → UserAddress
new_address seed user_id i is_default = record {
  id = seed.address_id;
  user_id = user_id;
  recipient_name = i.recipient_name;
  phone_number = i.phone_number;
  province_name = i.province_name;
  city_name = i.city_name;
  county_name = i.county_name;
  street_name = i.street_name;
  detail_info = i.detail_info;
  postal_code = i.postal_code;
  national_code = i.national_code;
  is_default = is_default;
  updated_at = seed.now;
}

abbrev pub written : UserAddress → Option (List UserAddress) → Action Database AddressView
written a none s = (throw unique_violation, s)
written a (some rows) s = (ok (to_contract a), record s { user_addresses = rows })

abbrev pub insert_address : Prisma → UserAddress → Action Database AddressView
insert_address db a s = written a (db.create UserAddress (has_address_id a.id) a s.user_addresses) s

abbrev pub known_or_new :
    Option UserAddress → Action Database AddressView → Action Database AddressView
known_or_new none m = m
known_or_new (some a) m = pure (to_contract a)

-- The body of `create`'s transaction.
unfoldable pub create_body :
    Prisma → AddressSeed → String → AddressInput → Action Database AddressView
create_body db seed user_id i s =
    known_or_new (db.find_first UserAddress (same_address user_id i) s.user_addresses)
      (throw_if
        (leb max_addresses_per_user (db.count UserAddress (owned_by user_id) s.user_addresses))
        (bad_request "A user can save at most 20 addresses.")
        (insert_address db (
          new_address seed user_id i
            (db.count UserAddress (default_of user_id) s.user_addresses == 0))))
      s

abbrev pub find_owned : Prisma → String → String → Database → Result UserAddress
find_owned db user_id address_id s =
    or_throw
      (db.find_first UserAddress (λ a. a.id == address_id && a.user_id == user_id) s.user_addresses)
      (not_found "Address not found.")

abbrev pub other_default : String → String → UserAddress → Bool
other_default user_id address_id a = default_of user_id a && not (a.id == address_id)

abbrev pub set_flag : Bool → ℕ → UserAddress → UserAddress
set_flag flag now a = record a { is_default = flag; updated_at = now }

abbrev pub make_default : Prisma → ℕ → String → String → List UserAddress → List UserAddress
make_default db now user_id address_id rows =
    (db.update_many UserAddress (has_address_id address_id) (set_flag true now)
      (db.update_many UserAddress (other_default user_id address_id) (set_flag false now) rows).0).0

-- The body of `setDefault`'s transaction.
unfoldable pub set_default_body : Prisma → ℕ → String → String → Action Database AddressView
set_default_body db now user_id address_id s =
    (do
      owned ← lift (find_owned db user_id address_id s)
      λ t. (
        ok (to_contract (set_flag true now owned)),
        record t { user_addresses = make_default db now user_id address_id t.user_addresses },
      ))
      s

abbrev pub first_of : List UserAddress → Option UserAddress
first_of [] = none
first_of (a ∷ rows) = some a

-- The address changed last becomes the default, if any is left.
abbrev pub promote : Prisma → ℕ → Option UserAddress → List UserAddress → List UserAddress
promote db now none rows = rows
promote db now (some a) rows =
    (db.update_many UserAddress (has_address_id a.id) (set_flag true now) rows).0

abbrev pub without_owned : Prisma → ℕ → String → UserAddress → List UserAddress → List UserAddress
without_owned db now user_id owned rows =
    let left = db.delete_many UserAddress (has_address_id owned.id) rows in
    if owned.is_default
    then promote db now
        (first_of (db.find_latest UserAddress (owned_by user_id) (λ a. a.updated_at) left)) left
    else left

-- The body of `remove`'s transaction.
unfoldable pub remove_body : Prisma → ℕ → String → String → Action Database (Unit {0})
remove_body db now user_id address_id s =
    (do
      owned ← lift (find_owned db user_id address_id s)
      λ t. (
        ok tt,
        record t { user_addresses = without_owned db now user_id owned t.user_addresses },
      ))
      s

abbrev pub is_retryable : Exception → Bool
is_retryable write_conflict = true
is_retryable unique_violation = true
is_retryable _ = false

abbrev pub next : List (Option Exception) → Option Exception
next [] = none
next (a ∷ aborts) = a

abbrev pub later : List (Option Exception) → List (Option Exception)
later [] = []
later (a ∷ aborts) = aborts

module _ {A : Type 0} where
  abbrev pub commit : Option Exception → Action Database A → Action Database A
  commit none m s = transaction m s
  commit (some e) m s = (throw e, s)

  abbrev pub again : ℕ → Result A × Database → Action Database A → Result A × Database
  again left (ok a, t) retry = (ok a, t)
  again left (throw e, t) retry =
      if is_retryable e && not (left == 0) then retry t else (throw e, t)

  unfoldable pub transaction_with_retry :
      ℕ → List (Option Exception) → Action Database A → Action Database A
  transaction_with_retry zero aborts m s =
      (throw (other_error "Address transaction retry limit reached."), s)
  transaction_with_retry (suc left) aborts m s =
      let retry = transaction_with_retry left (later aborts) m in
      again left (commit (next aborts) m s) retry

unfoldable pub create_address :
    Prisma
    → List (Option Exception)
    → AddressSeed
    → String
    → AddressInput
    → Action Database AddressView
create_address db aborts seed user_id i =
    transaction_with_retry transaction_max_attempts aborts
      (create_body db seed user_id (normalize_address i))

unfoldable pub set_default :
    Prisma → List (Option Exception) → ℕ → String → String → Action Database AddressView
set_default db aborts now user_id address_id =
    transaction_with_retry transaction_max_attempts aborts
      (set_default_body db now user_id address_id)

unfoldable pub remove_address :
    Prisma → List (Option Exception) → ℕ → String → String → Action Database (Unit {0})
remove_address db aborts now user_id address_id =
    transaction_with_retry transaction_max_attempts aborts (remove_body db now user_id address_id)
