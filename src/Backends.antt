-- ===== src/Backends.antt =====
-- The two implementations of storage/i_storage.h, side by side: what the service reads of each, and
-- the same changes on each; and `open_storage` of storage/src/storage.cpp.
pub mod Tables
pub mod Order
pub mod Documents
pub mod Agree
pub mod Reads
pub mod Listing
pub mod Sample
mod Tests
use divoom_dev.Prelude.{Bool, true, Option, none, some, List, [], ◌∷◌}
use divoom_dev.Prelude.Text.{Text, codes}
use divoom_dev.Service.Cycle.{Settings}
use divoom_dev.Sqlite as Sqlite
use divoom_dev.Sqlite.{Engine, Outcome, done, threw, open_connection}
use divoom_dev.Sqlite.Resources.{migrations}
use divoom_dev.Storage as Storage
use divoom_dev.Storage.{Json, Backend, File, Opened, opened, cannot_create, invalid_file}
use divoom_dev.Storage.Reopen.{Change, change}

module _ {J : Type 0} (json : Json J) where
  unfoldable pub settings_of_json : Backend J → Settings
  settings_of_json b = record {
    get_account = λ service. Storage.get_account json service b;
    get_meta = λ key. Storage.get_meta json key b;
    list_calendar_sources = Storage.list_calendar_sources json b;
  }

  -- The changes in turn, each with whether the file can be written.
  abbrev pub json_changes : List (Bool × Change) → Backend J → Backend J
  json_changes [] b = b
  json_changes ((writable, c) ∷ changes) b = json_changes changes (change json writable c b)

module _ {S R : Type 0} (db : Engine S R) where
  unfoldable pub settings_of_sqlite : S → Settings
  settings_of_sqlite s = record {
    get_account = λ service. Sqlite.get_account db service s;
    get_meta = λ key. Sqlite.get_meta db key s;
    list_calendar_sources = Sqlite.list_calendar_sources db s;
  }

  abbrev pub sqlite_change : Change → S → S
  sqlite_change (Change.account a) s = Sqlite.upsert_account db a s
  sqlite_change (Change.no_account service) s = Sqlite.delete_account db service s
  sqlite_change (Change.source src) s = Sqlite.upsert_calendar_source db src s
  sqlite_change (Change.no_source url) s = Sqlite.remove_calendar_source db url s
  sqlite_change (Change.meta k v) s = Sqlite.set_meta db k v s
  sqlite_change (Change.no_meta k) s = Sqlite.delete_meta db k s
  sqlite_change Change.everything s = Sqlite.clear db s

  abbrev pub sqlite_changes : List (Bool × Change) → S → S
  sqlite_changes [] s = s
  sqlite_changes ((writable, c) ∷ changes) s = sqlite_changes changes (sqlite_change c s)

pub data BackendType : Type 0 where
  sqlite json_file : BackendType

-- to_string of storage/include/storage/backend.h
abbrev pub to_string : BackendType → Text
to_string sqlite = codes "sqlite"
to_string json_file = codes "json_file"

-- What open_storage returns, if not a null pointer.
pub data Store (J S : Type 0) : Type 0 where
  json_store : Backend J → Store J S
  sqlite_store : S → Store J S

module _ {J S R : Type 0} (json : Json J) (db : Engine S R) where
  abbrev pub store_of_json : Opened J → Option (Store J S)
  store_of_json (opened b) = some (json_store b)
  store_of_json cannot_create = none
  store_of_json invalid_file = none

  abbrev pub store_of_sqlite : Option (Outcome S) → Option (Store J S)
  store_of_sqlite none = none
  store_of_sqlite (some (done s)) = some (sqlite_store s)
  store_of_sqlite (some (threw s)) = none

  -- The connection that sqlite3_open_v2 makes of the path; whether the file at the path can be
  -- written, and the file. What a constructor throws is caught.
  unfoldable pub open_storage : BackendType → Text → Option S → Bool → File J → Option (Store J S)
  open_storage sqlite baseline connection writable file =
      store_of_sqlite (open_connection db baseline migrations connection)
  open_storage json_file baseline connection writable file =
      store_of_json (Storage.load json writable file)

  abbrev pub settings_of : Store J S → Settings
  settings_of (json_store b) = settings_of_json json b
  settings_of (sqlite_store s) = settings_of_sqlite db s
