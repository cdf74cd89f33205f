-- ===== src/Tests/Addresses.antt =====
-- An address added to an empty book, at the second try.
use ling_dian.Prelude.{some, [], ◌∷◌, arith}
use ling_dian.Prelude.Results.{write_conflict}
use ling_dian.Db.{listed}
use ling_dian.Addresses.{AddressInput, AddressSeed, create_address}
use ling_dian.Addresses.Book.{AddressBook, create_address-AddressBook}
use ling_dian.Tests.Samples.{empty}

abbrev home : AddressInput
home = record {
  recipient_name = "Li";
  phone_number = "13800000000";
  province_name = "Guangdong";
  city_name = "Shenzhen";
  county_name = "Nanshan";
  street_name = "Yuehai";
  detail_info = "1";
  postal_code = "518000";
  national_code = "440305";
}

abbrev seed : AddressSeed
seed = record { now = 1000; address_id = "a1" }

empty_book : AddressBook empty.user_addresses
empty_book = record { unique = tt; within = λ u. omega arith; one_default = λ u. omega arith }

create_address-AddressBook_example :
    AddressBook
      (create_address listed (some write_conflict ∷ []) seed "u1" home empty).1.user_addresses
create_address-AddressBook_example =
    create_address-AddressBook listed (some write_conflict ∷ []) seed "u1" home empty empty_book
