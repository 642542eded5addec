-- ===== src/Sqlite/Statements.antt =====
-- The texts of SQL of storage/src/sqlite_backend.cpp that read or change a table.
use divoom_dev.Prelude.{◌++◌}
use divoom_dev.Prelude.Text.{Text, codes}

abbrev pub upsert_account_sql : Text
upsert_account_sql =
    codes "INSERT INTO accounts(service, login, password) VALUES(?1,?2,?3) "
    ++ codes "ON CONFLICT(service) DO UPDATE SET "
    ++ codes "login=excluded.login, password=excluded.password, "
    ++ codes "updated_at=strftime('%Y-%m-%dT%H:%M:%SZ','now');"

abbrev pub get_account_sql : Text
get_account_sql = codes "SELECT service, login, password FROM accounts WHERE service=?1;"

abbrev pub list_accounts_sql : Text
list_accounts_sql = codes "SELECT service, login, password FROM accounts ORDER BY service;"

abbrev pub delete_account_sql : Text
delete_account_sql = codes "DELETE FROM accounts WHERE service=?1;"

abbrev pub upsert_source_sql : Text
upsert_source_sql =
    codes "INSERT INTO calendar_sources(url, priority, enabled) VALUES(?1,?2,?3) "
    ++ codes "ON CONFLICT(url) DO UPDATE SET priority=excluded.priority, enabled=excluded.enabled;"

abbrev pub list_sources_sql : Text
list_sources_sql =
    codes "SELECT url, priority, enabled FROM calendar_sources ORDER BY priority DESC, url;"

abbrev pub remove_source_sql : Text
remove_source_sql = codes "DELETE FROM calendar_sources WHERE url=?1;"

abbrev pub set_meta_sql : Text
set_meta_sql =
    codes "INSERT INTO meta(key, value) VALUES(?1, ?2) "
    ++ codes "ON CONFLICT(key) DO UPDATE SET value=excluded.value;"

abbrev pub get_meta_sql : Text
get_meta_sql = codes "SELECT value FROM meta WHERE key=?1;"

abbrev pub list_meta_sql : Text
list_meta_sql = codes "SELECT key, value FROM meta ORDER BY key;"

abbrev pub delete_meta_sql : Text
delete_meta_sql = codes "DELETE FROM meta WHERE key=?1;"
