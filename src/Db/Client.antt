-- ===== src/Db/Client.antt =====
-- The database client (Prisma over MySQL, `backend/src/prisma/prisma.service.ts`): the calls that
-- the services make on a table, as an interface. A table is the list of its rows; a `where` clause
-- is a test on rows, a `data` clause a function on rows. The laws state the client's documented
-- behaviour. Which of several matching rows `findFirst` picks is left open.
use ling_dian.Db.Tables.{update_where, upsert_where, Ascends, Descends}
use ling_dian.Prelude.{
  keep, not, ℕ, Bool, true, false, ◌≡◌, Option, none, some, List, [], ◌∷◌, ◌++◌, any, count_where,
  Member, All, length, if◌then◌else◌,
}

pub record Prisma : Type 1 where
  pub find_first : (Row : Type 0) → (Row → Bool) → List Row → Option Row
  pub find_many : (Row : Type 0) → (Row → Bool) → List Row → List Row
  -- With `orderBy`: ascending by the key.
  pub find_ordered : (Row : Type 0) → (Row → Bool) → (Row → ℕ) → List Row → List Row
  -- Descending.
  pub find_latest : (Row : Type 0) → (Row → Bool) → (Row → ℕ) → List Row → List Row
  pub count : (Row : Type 0) → (Row → Bool) → List Row → ℕ
  pub update_many : (Row : Type 0) → (Row → Bool) → (Row → Row) → List Row → List Row × ℕ
  -- The first argument says which rows a unique constraint holds to clash with the new one.
  pub create : (Row : Type 0) → (Row → Bool) → Row → List Row → Option (List Row)
  pub upsert : (Row : Type 0) → (Row → Bool) → Row → (Row → Row) → List Row → Row × List Row
  -- A row that `findFirst` or `findUnique` returns is in the table and meets the `where` clause.
  pub find_first_found :
      (Row : Type 0) (p : Row → Bool) (t : List Row) (r : Row)
      → find_first Row p t ≡ some r
      → (p r ≡ true) × Member r t
  -- It returns `null` only if no row does.
  pub find_first_missing :
      (Row : Type 0) (p : Row → Bool) (t : List Row)
      → find_first Row p t ≡ none
      → All (λ r. p r ≡ false) t
  -- `findMany` returns rows of the table that meet the `where` clause, as many as there are.
  pub find_many_found :
      (Row : Type 0) (p : Row → Bool) (t : List Row)
      → All (λ r. (p r ≡ true) × Member r t) (find_many Row p t)
  pub find_many_count :
      (Row : Type 0) (p : Row → Bool) (t : List Row) → length (find_many Row p t) ≡ count_where p t
  -- With `orderBy` it returns the same rows, ordered by the key.
  pub find_ordered_found :
      (Row : Type 0) (p : Row → Bool) (key : Row → ℕ) (t : List Row)
      → All (λ r. (p r ≡ true) × Member r t) (find_ordered Row p key t)
  pub find_ordered_count :
      (Row : Type 0) (p : Row → Bool) (key : Row → ℕ) (t : List Row)
      → length (find_ordered Row p key t) ≡ count_where p t
  pub find_ordered_ascends :
      (Row : Type 0) (p : Row → Bool) (key : Row → ℕ) (t : List Row)
      → Ascends key (find_ordered Row p key t)
  pub find_latest_found :
      (Row : Type 0) (p : Row → Bool) (key : Row → ℕ) (t : List Row)
      → All (λ r. (p r ≡ true) × Member r t) (find_latest Row p key t)
  pub find_latest_count :
      (Row : Type 0) (p : Row → Bool) (key : Row → ℕ) (t : List Row)
      → length (find_latest Row p key t) ≡ count_where p t
  pub find_latest_descends :
      (Row : Type 0) (p : Row → Bool) (key : Row → ℕ) (t : List Row)
      → Descends key (find_latest Row p key t)
  pub count_rows : (Row : Type 0) (p : Row → Bool) (t : List Row) → count Row p t ≡ count_where p t
  -- `updateMany` changes the rows that meet the `where` clause, and returns their number.
  pub update_many_rows :
      (Row : Type 0) (p : Row → Bool) (f : Row → Row) (t : List Row)
      → update_many Row p f t ≡ (update_where p f t, count_where p t)
  -- `create` fails (P2002) if a row clashes, and otherwise adds the row.
  pub create_row :
      (Row : Type 0) (clash : Row → Bool) (r : Row) (t : List Row)
      → create Row clash r t ≡ (if any clash t then none else some (t ++ r ∷ []))
  -- `upsert` changes the row that meets the `where` clause or adds a row, and returns that row.
  pub upsert_row :
      (Row : Type 0) (p : Row → Bool) (r : Row) (f : Row → Row) (t : List Row)
      → upsert Row p r f t ≡ upsert_where p r f t
  pub delete_many : (Row : Type 0) → (Row → Bool) → List Row → List Row
  -- `delete` and `deleteMany` remove the rows that meet the `where` clause.
  pub delete_many_rows :
      (Row : Type 0) (p : Row → Bool) (t : List Row) → delete_many Row p t ≡ keep (λ r. not (p r)) t
