-- ===== src/SpentStore/Sqlite.antt =====
-- `SqliteSpentStore`: one row for each token, under a primary key. The database is a parameter.
use decision_os_min.Prelude.{String, ◌⧺◌, ◌≡◌, ◌≢◌, refl, Bool, true, false}
use decision_os_min.Py.Exc.{Exc, ok, raise, Exn}
use decision_os_min.SpentStore.Protocol.{SpentStore, IsAtomic}

-- How connecting and the INSERT end.
pub data Inserted : Type 0 where
  inserted violates_key : Inserted
  database_error : String → Inserted

pub record Database : Type 1 where
  pub State : Type 0
  pub insert_token : String → State → Inserted × State

-- What SQL documents of a primary key, and that an INSERT removes no row.
pub record IsKeyed (D : Database) : Type 0 where
  pub has_row : D.State → String → Bool
  pub inserts :
      (token : String) (s : D.State)
      → (D.insert_token token s).0 ≡ Inserted.inserted
      → (has_row s token ≡ false) × (has_row (D.insert_token token s).1 token ≡ true)
  pub excludes :
      (token : String) (s : D.State)
      → has_row s token ≡ true
      → (D.insert_token token s).0 ≢ Inserted.inserted
  pub keeps :
      (token other : String) (s : D.State)
      → has_row s other ≡ true
      → has_row (D.insert_token token s).1 other ≡ true

unfoldable pub answer_insert : Inserted → Exc Bool
answer_insert Inserted.inserted = ok true
answer_insert Inserted.violates_key = ok false
answer_insert (Inserted.database_error e) =
    raise (Exn.spent_store_unavailable ("sqlite spent-store unreachable: " ⧺ e))

answer_insert-first : (i : Inserted) → answer_insert i ≡ ok true → i ≡ Inserted.inserted
unfolding answer_insert
answer_insert-first Inserted.inserted h = refl
answer_insert-first Inserted.violates_key h = cc
answer_insert-first (Inserted.database_error e) h = cc

module _ (D : Database) where
  unfoldable pub spend_in_table : String → D.State → Exc Bool × D.State
  spend_in_table token s = (answer_insert (D.insert_token token s).0, (D.insert_token token s).1)

  abbrev pub sqlite_store : SpentStore
  sqlite_store = record { State = D.State; try_spend = spend_in_table }

  -- On a table that keeps its primary key, the store is atomic, a token being spent when it has a
  -- row.
  pub sqlite_store-IsAtomic : IsKeyed D → IsAtomic sqlite_store
  unfolding spend_in_table
  sqlite_store-IsAtomic K = record {
    is_spent = K.has_row;
    first = λ t s h. K.inserts t s (answer_insert-first (D.insert_token t s).0 h);
    replay = λ t s h e. K.excludes t s h (answer_insert-first (D.insert_token t s).0 e);
    kept = K.keeps;
  }
