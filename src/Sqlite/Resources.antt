-- ===== src/Sqlite/Resources.antt =====
-- storage/src/sql_resources.cpp: the scripts that the backend is built with. The text of
-- sql/sqlite/db.sql is embedded or, with MSVC, read from the disk when it is first wanted; it is a
-- parameter of the model.
use divoom_dev.Prelude.{◌≡◌, refl, Bool, true, Option, none, some, List, [], if◌then◌else◌}
use divoom_dev.Prelude.Int.{pos, eq_ℤ}
use divoom_dev.Prelude.Text.{Text}
use divoom_dev.Sqlite.{Engine, SqlScript, done, threw, current_version, apply_migrations, migrate}

-- The content of a file, if it can be opened.
unfoldable pub read_file : Option Text → Text
read_file none = []
read_file (some content) = content

-- With MSVC the text is read; elsewhere it was embedded.
unfoldable pub baseline_schema : Bool → Text → Option Text → Text
unfolding read_file
baseline_schema msvc embedded on_disk = if msvc then read_file on_disk else embedded

-- No migration is registered.
abbrev pub migrations : List SqlScript
migrations = []

module _ {S R : Type 0} (db : Engine S R) where
  -- Without the file of the baseline, a program that was built with MSVC cannot make a database, but
  -- it opens each one that has a version, and leaves it as it is.
  apply_migrations-missing :
      (embedded : Text) (s : S)
      → apply_migrations db (baseline_schema true embedded none) migrations s
        ≡ (if eq_ℤ (current_version db s) (pos 0) then threw s else done s)
  unfolding apply_migrations baseline_schema read_file migrate current_version
  apply_migrations-missing embedded s = refl
