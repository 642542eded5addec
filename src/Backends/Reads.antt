-- ===== src/Backends/Reads.antt =====
-- What the service reads of the two backends (service/src/core/service.cpp, storage/i_storage.h).
use divoom_dev.Prelude.{◌≡◌, ap, Bool, true, false, Option, some, [], arith}
use divoom_dev.Prelude.Text.{Text, text_eq, text_lt_total}
use divoom_dev.Backends.{json_file, json_store, store_of_json, open_storage}
use divoom_dev.Backends.Agree.{KeepsSources, Agree}
use divoom_dev.Backends.Tables.{Relational}
use divoom_dev.Sqlite as Sqlite
use divoom_dev.Sqlite.{Engine}
use divoom_dev.Json.{◌>>=◌}
use divoom_dev.Storage as Storage
use divoom_dev.Storage.{CalendarSource, Json, Document, Backend, source_before}
use divoom_dev.Storage.Accounts.{KeepsAccounts}
use divoom_dev.Storage.Reopen.{IsSaved, load-change_all}

pub source_before_total :
    (a b : CalendarSource)
    → text_eq a.url b.url ≡ false
    → source_before a b ≡ false
    → source_before b a ≡ true
source_before_total a b n h = ground (arith, text_lt_total a.url b.url n)

module _ {J S R : Type 0} (json : Json J) (keeps_accounts : KeepsAccounts json)
    (keeps_sources : KeepsSources json) (db : Engine S R) (laws : Relational db) where
  -- A JSON file that a backend was left with opens as a store of that backend.
  open_storage-saved :
      (baseline : Text) (connection : Option S) (w : Bool) (b : Backend J)
      → IsSaved json b
      → open_storage json db json_file baseline connection w b.file ≡ some (json_store b)
  unfolding open_storage
  open_storage-saved baseline connection w b saved =
      ap (store_of_json json db) ((load-change_all json).2 [] w b saved)
