-- ===== src/Backends/Tables.antt =====
-- What SQLite documents of the statements of storage/src/sqlite_backend.cpp, over a connection on
-- which nothing fails: each text is prepared, an upsert or a deletion changes the row of its key
-- alone, and a SELECT delivers the row of the key, or every row once and in its order.
use divoom_dev.Prelude.{◌≡◌, Bool, true, not, Option, none, some, List, [], ◌∷◌, if◌then◌else◌, map}
use divoom_dev.Prelude.Int.{ℤ, eq_ℤ, ltb_ℤ}
use divoom_dev.Prelude.Map.{lookup}
use divoom_dev.Prelude.Sort.{IsSorted}
use divoom_dev.Prelude.Text.{Text, codes, text_eq, text_lt}
use divoom_dev.Sqlite.{Engine, text_value, int_value, to_account}
use divoom_dev.Sqlite.Statements.{
  upsert_account_sql, get_account_sql, delete_account_sql, upsert_source_sql, list_sources_sql,
  remove_source_sql, set_meta_sql, get_meta_sql, delete_meta_sql,
}
use divoom_dev.Storage.{Account, find_item}
use divoom_dev.Storage.Accounts.{IsDistinct}

-- A row of calendar_sources.
pub record SourceRow : Type 0 where
  pub url : Text
  pub priority : ℤ
  pub enabled : ℤ

-- The three tables.
pub record Tables : Type 0 where
  pub accounts : List Account
  pub sources : List SourceRow
  pub metas : List (Text × Text)

-- ORDER BY priority DESC, url
abbrev pub row_before : SourceRow → SourceRow → Bool
row_before a b =
    if not (eq_ℤ a.priority b.priority) then ltb_ℤ b.priority a.priority else text_lt a.url b.url

-- A table with a unique key, after a row was put into it or the row of a key was deleted.
module _ {A : Type 0} (key : A → Text) where
  abbrev pub IsUpserted : A → List A → List A → Type 0
  IsUpserted a old new =
      ((k : Text)
        → find_item key k new ≡ (if text_eq (key a) k then some a else find_item key k old))
      × (IsDistinct key old → IsDistinct key new)

  abbrev pub IsDeleted : Text → List A → List A → Type 0
  IsDeleted gone old new =
      IsDistinct key old
      → ((k : Text) → find_item key k new ≡ (if text_eq gone k then none else find_item key k old))
        × IsDistinct key new

-- What a SELECT of one row delivers.
abbrev pub at_most : {A : Type 0} → Option A → List A
at_most none = []
at_most (some a) = a ∷ []

-- The tables before and after a statement that touches one of them.
abbrev pub OnAccounts : (List Account → List Account → Type 0) → Tables → Tables → Type 0
OnAccounts P old new =
    P old.accounts new.accounts × (new.sources ≡ old.sources) × (new.metas ≡ old.metas)

abbrev pub OnSources : (List SourceRow → List SourceRow → Type 0) → Tables → Tables → Type 0
OnSources P old new =
    P old.sources new.sources × (new.accounts ≡ old.accounts) × (new.metas ≡ old.metas)

abbrev pub OnMetas : (List (Text × Text) → List (Text × Text) → Type 0) → Tables → Tables → Type 0
OnMetas P old new =
    P old.metas new.metas × (new.accounts ≡ old.accounts) × (new.sources ≡ old.sources)

module _ {S R : Type 0} (db : Engine S R) where
  abbrev pub source_row : R → SourceRow
  source_row r = record {
    url = db.column_text r 0;
    priority = db.column_int r 1;
    enabled = db.column_int r 2;
  }

  pub record Relational : Type 0 where
    pub tables : S → Tables
    pub upserts_account :
        (a : Account) (s : S)
        → (db.prepares upsert_account_sql s ≡ true)
          × OnAccounts (IsUpserted (λ x. x.service) a) (tables s) (
              tables (
                db.run upsert_account_sql
                  (text_value a.service ∷ text_value a.login ∷ text_value a.password ∷ [])
                  s))
    pub deletes_account :
        (k : Text) (s : S)
        → (db.prepares delete_account_sql s ≡ true)
          × OnAccounts
              (IsDeleted (λ x. x.service) k)
              (tables s)
              (tables (db.run delete_account_sql (text_value k ∷ []) s))
    pub selects_account :
        (k : Text) (s : S)
        → (db.prepares get_account_sql s ≡ true)
          × (map (to_account db) (db.rows get_account_sql (text_value k ∷ []) s)
              ≡ at_most (find_item (λ x. x.service) k (tables s).accounts))
    pub upserts_source :
        (row : SourceRow) (s : S)
        → (db.prepares upsert_source_sql s ≡ true)
          × OnSources (IsUpserted (λ x. x.url) row) (tables s) (
              tables (
                db.run upsert_source_sql
                  (text_value row.url ∷ int_value row.priority ∷ int_value row.enabled ∷ [])
                  s))
    pub deletes_source :
        (k : Text) (s : S)
        → (db.prepares remove_source_sql s ≡ true)
          × OnSources
              (IsDeleted (λ x. x.url) k)
              (tables s)
              (tables (db.run remove_source_sql (text_value k ∷ []) s))
    -- UNIQUE(url) is kept by the statements, and every row is delivered once.
    pub selects_sources :
        (s : S)
        → IsDistinct (λ x. x.url) (tables s).sources
        → (db.prepares list_sources_sql s ≡ true)
          × IsSorted row_before (map source_row (db.rows list_sources_sql [] s))
          × IsDistinct (λ x. x.url) (map source_row (db.rows list_sources_sql [] s))
          × ((k : Text)
              → find_item (λ x. x.url) k (map source_row (db.rows list_sources_sql [] s))
                ≡ find_item (λ x. x.url) k (tables s).sources)
    pub upserts_meta :
        (k v : Text) (s : S)
        → (db.prepares set_meta_sql s ≡ true)
          × OnMetas
              (λ old new.
                (j : Text) → lookup j new ≡ (if text_eq k j then some v else lookup j old))
              (tables s)
              (tables (db.run set_meta_sql (text_value k ∷ text_value v ∷ []) s))
    pub deletes_meta :
        (k : Text) (s : S)
        → (db.prepares delete_meta_sql s ≡ true)
          × OnMetas
              (λ old new. (j : Text) → lookup j new ≡ (if text_eq k j then none else lookup j old))
              (tables s)
              (tables (db.run delete_meta_sql (text_value k ∷ []) s))
    pub selects_meta :
        (k : Text) (s : S)
        → (db.prepares get_meta_sql s ≡ true)
          × (map (λ r. db.column_text r 0) (db.rows get_meta_sql (text_value k ∷ []) s)
              ≡ at_most (lookup k (tables s).metas))
    pub begins :
        (s : S)
        → ((db.exec (codes "BEGIN;") s).1 ≡ true)
          × (tables (db.exec (codes "BEGIN;") s).0 ≡ tables s)
    pub commits :
        (s : S)
        → ((db.exec (codes "COMMIT;") s).1 ≡ true)
          × (tables (db.exec (codes "COMMIT;") s).0 ≡ tables s)
    pub empties_accounts :
        (s : S)
        → ((db.exec (codes "DELETE FROM accounts;") s).1 ≡ true)
          × (tables (db.exec (codes "DELETE FROM accounts;") s).0
              ≡ record (tables s) { accounts = [] })
    pub empties_sources :
        (s : S)
        → ((db.exec (codes "DELETE FROM calendar_sources;") s).1 ≡ true)
          × (tables (db.exec (codes "DELETE FROM calendar_sources;") s).0
              ≡ record (tables s) { sources = [] })
    pub empties_metas :
        (s : S)
        → ((db.exec (codes "DELETE FROM meta;") s).1 ≡ true)
          × (tables (db.exec (codes "DELETE FROM meta;") s).0 ≡ record (tables s) { metas = [] })
