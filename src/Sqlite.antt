-- ===== src/Sqlite.antt =====
-- storage/src/sqlite_backend.cpp and the sql_script of storage/src/sql_resources.h. SQLite is a
-- parameter of the model: what a connection does with a text of SQL. What the logger is told is
-- left out.
pub mod Statements
pub mod Transactions
pub mod Migrations
pub mod Resources
mod Tests
use divoom_dev.Prelude.{
  ℕ, String, Bool, true, false, not, ◌&&◌, Option, none, some, List, [], ◌∷◌, ◌++◌, map,
  if◌then◌else◌,
}
use divoom_dev.Prelude.Int.{ℤ, pos, leb_ℤ, eq_ℤ}
use divoom_dev.Prelude.Text.{Text, codes, is_empty}
use divoom_dev.Json.{◌>>=◌}
use divoom_dev.Sqlite.Statements.{
  upsert_account_sql, get_account_sql, list_accounts_sql, delete_account_sql, upsert_source_sql,
  list_sources_sql, remove_source_sql, set_meta_sql, get_meta_sql, list_meta_sql, delete_meta_sql,
}
use divoom_dev.Storage.{Account, CalendarSource}

-- What sqlite3_bind_text and sqlite3_bind_int are given.
pub data Value : Type 0 where
  text_value : Text → Value
  int_value : ℤ → Value

-- A connection `S` and its rows `R`.
pub record Engine (S R : Type 0) : Type 0 where
  -- sqlite3_exec, and whether it returned SQLITE_OK
  pub exec : Text → S → S × Bool
  -- sqlite3_prepare_v2
  pub prepares : Text → S → Bool
  -- The first sqlite3_step of a statement that changes data.
  pub run : Text → List Value → S → S
  -- The rows that sqlite3_step delivers before it returns anything but SQLITE_ROW.
  pub rows : Text → List Value → S → List R
  pub column_text : R → ℕ → Text
  pub column_int : R → ℕ → ℤ

pub record SqlScript : Type 0 where
  pub version : ℤ
  pub sql : Text

-- A function that returns, or throws std::runtime_error.
pub data Outcome (S : Type 0) : Type 0 where
  done : S → Outcome S
  threw : S → Outcome S

abbrev pub first {ℓ} : {A : Type ℓ} → List A → Option A
first [] = none
first (x ∷ xs) = some x

module _ {S R : Type 0} (db : Engine S R) where
  unfoldable pub current_version : S → ℤ
  current_version s =
      let sql = codes "PRAGMA user_version;" in
      if db.prepares sql s
      then elim (first (db.rows sql [] s)) [ none ↦ pos 0 | some row ↦ db.column_int row 0 ]
      else pos 0

  -- After a failure of a statement, its ROLLBACK and `false`.
  abbrev pub roll_back : S → S × Bool
  roll_back s = ((db.exec (codes "ROLLBACK;") s).0, false)

  abbrev pub commit : S × Bool → S × Bool
  commit (s, true) = (s, true)
  commit (s, false) = roll_back s

  abbrev pub after_script : S × Bool → S × Bool
  after_script (s, true) = commit (db.exec (codes "COMMIT;") s)
  after_script (s, false) = roll_back s

  abbrev pub after_begin : Text → S × Bool → S × Bool
  after_begin sql (s, true) = after_script (db.exec sql s)
  after_begin sql (s, false) = (s, false)

  unfoldable pub run_in_transaction : Text → S → S × Bool
  run_in_transaction sql s = after_begin sql (db.exec (codes "BEGIN;") s)

  -- The loop over the migrations, from the version that was reached.
  unfoldable pub migrate : List SqlScript → ℤ → S → Outcome S
  unfolding run_in_transaction
  migrate [] version s = done s
  migrate (m ∷ ms) version s =
      let applied = run_in_transaction m.sql s in
      let skipped = migrate ms version s in
      let next = migrate ms m.version applied.0 in
      if leb_ℤ m.version version
      then skipped
      else if is_empty m.sql
      then skipped
      else if applied.1
      then next
      else threw applied.0

  abbrev pub baseline_applied : List SqlScript → S × Bool → Outcome S
  baseline_applied migrations (s, true) = migrate migrations (current_version s) s
  baseline_applied migrations (s, false) = threw s

  unfoldable pub apply_migrations : Text → List SqlScript → S → Outcome S
  unfolding current_version migrate run_in_transaction
  apply_migrations baseline migrations s =
      if eq_ℤ (current_version s) (pos 0)
      then if is_empty baseline
        then threw s
        else baseline_applied migrations (run_in_transaction baseline s)
      else migrate migrations (current_version s) s

  abbrev pragma : String → S → S
  pragma sql s = (db.exec (codes sql) s).0

  -- `open`, given what sqlite3_open_v2 returned; its failure throws.
  unfoldable pub open_connection : Text → List SqlScript → Option S → Option (Outcome S)
  unfolding apply_migrations
  open_connection baseline migrations none = none
  open_connection baseline migrations (some s) = some (
      apply_migrations baseline migrations (
        pragma "PRAGMA busy_timeout=5000;"
          (pragma "PRAGMA foreign_keys=ON;" (pragma "PRAGMA journal_mode=WAL;" s))))

  -- A statement is prepared, its parameters are bound, and it is stepped once.
  abbrev pub execute : Text → List Value → S → S
  execute sql args s = if db.prepares sql s then db.run sql args s else s

  abbrev pub query : Text → List Value → S → List R
  query sql args s = if db.prepares sql s then db.rows sql args s else []

  abbrev pub to_account : R → Account
  to_account row = record {
    service = db.column_text row 0;
    login = db.column_text row 1;
    password = db.column_text row 2;
  }

  abbrev pub to_source : R → CalendarSource
  to_source row = record {
    url = db.column_text row 0;
    priority = db.column_int row 1;
    enabled = not (eq_ℤ (db.column_int row 2) (pos 0));
  }

  unfoldable pub upsert_account : Account → S → S
  upsert_account acc =
      execute upsert_account_sql
        (text_value acc.service ∷ text_value acc.login ∷ text_value acc.password ∷ [])

  unfoldable pub get_account : Text → S → Option Account
  get_account service s = do
    row ← first (query get_account_sql (text_value service ∷ []) s)
    some (to_account row)

  unfoldable pub list_accounts : S → List Account
  list_accounts s = map to_account (query list_accounts_sql [] s)

  unfoldable pub delete_account : Text → S → S
  delete_account service = execute delete_account_sql (text_value service ∷ [])

  unfoldable pub upsert_calendar_source : CalendarSource → S → S
  upsert_calendar_source src = execute upsert_source_sql (
      text_value src.url
      ∷ int_value src.priority
      ∷ int_value (if src.enabled then pos 1 else pos 0)
      ∷ [])

  unfoldable pub list_calendar_sources : S → List CalendarSource
  list_calendar_sources s = map to_source (query list_sources_sql [] s)

  unfoldable pub remove_calendar_source : Text → S → S
  remove_calendar_source url = execute remove_source_sql (text_value url ∷ [])

  unfoldable pub set_meta : Text → Text → S → S
  set_meta key value = execute set_meta_sql (text_value key ∷ text_value value ∷ [])

  unfoldable pub get_meta : Text → S → Option Text
  get_meta key s = do
    row ← first (query get_meta_sql (text_value key ∷ []) s)
    some (db.column_text row 0)

  unfoldable pub list_meta : S → List (Text × Text)
  list_meta s = map (λ row. (db.column_text row 0, db.column_text row 1)) (query list_meta_sql [] s)

  unfoldable pub delete_meta : Text → S → S
  delete_meta key = execute delete_meta_sql (text_value key ∷ [])

  -- `&&`: the next text is executed where the one before it was.
  abbrev pub also : Text → S × Bool → S × Bool
  also sql (s, true) = db.exec sql s
  also sql (s, false) = (s, false)

  abbrev pub clear_tables : S → S × Bool
  clear_tables s =
      also (codes "DELETE FROM meta;")
        (also (codes "DELETE FROM calendar_sources;") (db.exec (codes "DELETE FROM accounts;") s))

  abbrev pub after_clear : S × Bool → S
  after_clear (s, true) = (db.exec (codes "COMMIT;") s).0
  after_clear (s, false) = (db.exec (codes "ROLLBACK;") s).0

  abbrev pub clear_begun : S × Bool → S
  clear_begun (s, true) = after_clear (clear_tables s)
  clear_begun (s, false) = s

  unfoldable pub clear : S → S
  clear s = clear_begun (db.exec (codes "BEGIN;") s)
