-- ===== src/Backends/Agree.antt =====
-- Both backends give the service the same settings.
use divoom_dev.Prelude.{
  ◌∷◌, ◌≡◌, refl, sym, ap, ◌∙◌, subst, inl, inr, Bool, true, false, not, Option, none, some, List,
  [], map, arith, if◌then◌else◌, Bool-cases,
}
use divoom_dev.Prelude.Int.{pos, eq_ℤ}
use divoom_dev.Prelude.Map.{lookup, lookup-insert, lookup-erase}
use divoom_dev.Prelude.Text.{Text, codes, text_eq}
use divoom_dev.Backends.{sqlite_change}
use divoom_dev.Backends.Documents.{map_option, put_item-map, drop_item-map, doc_change}
use divoom_dev.Backends.Tables.{SourceRow, Tables, Relational, IsUpserted, IsDeleted}
use divoom_dev.Sqlite as Sqlite
use divoom_dev.Sqlite.{Engine}
use divoom_dev.Storage.{
  Account, CalendarSource, Json, Document, empty_document, put_item, find_item, drop_item,
}
use divoom_dev.Storage.Accounts.{
  KeepsAccounts, IsDistinct, find_item-put_item, put_item-IsDistinct, find_item-drop_item,
  drop_item-IsDistinct,
}
use divoom_dev.Storage.Reopen.{Change}

-- What the code relies on: what is made of a source is read as that source, with its url.
pub record KeepsSources {J : Type 0} (json : Json J) : Type 0 where
  pub source : (c : CalendarSource) → json.to_source (json.of_source c) ≡ c
  pub url : (c : CalendarSource) → json.url_of (json.of_source c) ≡ c.url

pub map-to_source :
    {J : Type 0} (json : Json J)
    → KeepsSources json
    → (models : List CalendarSource) → map json.to_source (map json.of_source models) ≡ models
map-to_source json keeps [] = refl
map-to_source json keeps (c ∷ models) =
    ground (arith, keeps.source c, map-to_source json keeps models)

-- The source that a row holds, and back.
abbrev pub of_row : SourceRow → CalendarSource
of_row r = record { url = r.url; priority = r.priority; enabled = not (eq_ℤ r.enabled (pos 0)) }

abbrev pub to_row : CalendarSource → SourceRow
to_row c = record {
  url = c.url;
  priority = c.priority;
  enabled = if c.enabled then pos 1 else pos 0;
}

of_row-to_row : (c : CalendarSource) → of_row (to_row c) ≡ c
of_row-to_row c = elim (Bool-cases c.enabled) [
  | inl e ↦ ap (λ b. record { url = c.url; priority = c.priority; enabled = b }) (rw (e) refl)
  | inr e ↦ ap (λ b. record { url = c.url; priority = c.priority; enabled = b }) (rw (e) refl)
]

-- The items of the document are made of a list of models without two of a key; and what is found
-- in the table, read as a model, is what is found in the list.
pub record AgreeOn {J A X : Type 0} (of : A → J) (key : A → Text) (read : X → A)
    (row_key : X → Text) (items : List J) (rows : List X) : Type 0 where
  pub models : List A
  pub items_lem : items ≡ map of models
  pub found : (k : Text) → map_option read (find_item row_key k rows) ≡ find_item key k models
  pub distinct : IsDistinct key models
  pub rows_distinct : IsDistinct row_key rows

map_option-if {ℓ κ} :
    {A : Type ℓ} {B : Type κ} (f : A → B) (t : Bool) (x y : Option A)
    → map_option f (if t then x else y) ≡ (if t then map_option f x else map_option f y)
map_option-if f true x y = refl
map_option-if f false x y = refl

module _ {J A X : Type 0} (of : A → J) (key : A → Text) (read : X → A) (row_key : X → Text)
    (key_of : J → Text) (keeps : (a : A) → key_of (of a) ≡ key a) where
  AgreeOn-put :
      (a : A) (x : X) (items : List J) (old new : List X)
      → read x ≡ a
      → row_key x ≡ key a
      → IsUpserted row_key x old new
      → AgreeOn of key read row_key items old
      → AgreeOn of key read row_key (put_item key_of (key a) (of a) items) new
  unfolding map_option
  AgreeOn-put a x items old new same e u h = record {
    models = put_item key (key a) a h.models;
    items_lem =
        ap (put_item key_of (key a) (of a)) h.items_lem
        ∙ put_item-map of key_of key keeps (key a) a h.models;
    found = λ k.
        ap (map_option read) (u.0 k)
        ∙ map_option-if read (text_eq (row_key x) k) (some x) (find_item row_key k old)
        ∙ ground (arith, e, same, h.found k, find_item-put_item key (key a) k a h.models refl);
    distinct = put_item-IsDistinct key (key a) a h.models refl h.distinct;
    rows_distinct = u.1 h.rows_distinct;
  }

  AgreeOn-drop :
      (k : Text) (items : List J) (old new : List X)
      → IsDeleted row_key k old new
      → AgreeOn of key read row_key items old
      → AgreeOn of key read row_key (drop_item key_of k items) new
  unfolding map_option
  AgreeOn-drop k items old new u h = record {
    models = drop_item key k h.models;
    items_lem = ap (drop_item key_of k) h.items_lem ∙ drop_item-map of key_of key keeps k h.models;
    found = λ j.
        ap (map_option read) ((u h.rows_distinct).0 j)
        ∙ map_option-if read (text_eq k j) none (find_item row_key j old)
        ∙ ground (arith, h.found j, find_item-drop_item key k j h.models h.distinct);
    distinct = drop_item-IsDistinct key k h.models h.distinct;
    rows_distinct = (u h.rows_distinct).1;
  }

module _ {J A X : Type 0} (of : A → J) (key : A → Text) (read : X → A) (row_key : X → Text) where
  AgreeOn-empty : AgreeOn of key read row_key [] []
  unfolding map_option find_item
  AgreeOn-empty = record {
    models = [];
    items_lem = refl;
    found = λ k. refl;
    distinct = tt;
    rows_distinct = tt;
  }

abbrev pub AgreeAccounts : {J : Type 0} → Json J → List J → List Account → Type 0
AgreeAccounts json items rows =
    AgreeOn json.of_account (λ x. x.service) (λ a. a) (λ x. x.service) items rows

abbrev pub AgreeSources : {J : Type 0} → Json J → List J → List SourceRow → Type 0
AgreeSources json items rows = AgreeOn json.of_source (λ x. x.url) of_row (λ x. x.url) items rows

-- The document and the tables hold the same accounts, sources and metadata, none twice.
pub record Agree {J : Type 0} (json : Json J) (d : Document J) (t : Tables) : Type 0 where
  pub accounts : AgreeAccounts json d.accounts t.accounts
  pub sources : AgreeSources json d.calendar_sources t.sources
  pub metas : (k : Text) → lookup k t.metas ≡ lookup k d.meta

pub Agree-empty :
    {J : Type 0} {json : Json J}
    → Agree json empty_document (record { accounts = []; sources = []; metas = [] })
Agree-empty {J} {json} = record {
  accounts = AgreeOn-empty json.of_account (λ x. x.service) (λ a. a) (λ x. x.service);
  sources = AgreeOn-empty json.of_source (λ x. x.url) of_row (λ x. x.url);
  metas = λ k. refl;
}

module _ {S R : Type 0} (db : Engine S R) (laws : Relational db) where
  also-succeeded : (sql : Text) (p : S × Bool) → p.1 ≡ true → Sqlite.also db sql p ≡ db.exec sql p.0
  also-succeeded sql (s, true) h = refl
  also-succeeded sql (s, false) h = ground arith

  after_clear-succeeded :
      (p : S × Bool) → p.1 ≡ true → Sqlite.after_clear db p ≡ (db.exec (codes "COMMIT;") p.0).0
  after_clear-succeeded (s, true) h = refl
  after_clear-succeeded (s, false) h = ground arith

  clear_begun-succeeded :
      (p : S × Bool)
      → p.1 ≡ true
      → (Sqlite.clear_tables db p.0).1 ≡ true
      → Sqlite.clear_begun db p ≡ (db.exec (codes "COMMIT;") (Sqlite.clear_tables db p.0).0).0
  clear_begun-succeeded (s, true) h k = after_clear-succeeded (Sqlite.clear_tables db s) k
  clear_begun-succeeded (s, false) h k = ground arith

  tables-clear :
      (s : S) → laws.tables (Sqlite.clear db s) ≡ record { accounts = []; sources = []; metas = [] }
  unfolding Sqlite.clear
  tables-clear s =
      let begun = (db.exec (codes "BEGIN;") s).0 in
      let one = (db.exec (codes "DELETE FROM accounts;") begun).0 in
      let two = (db.exec (codes "DELETE FROM calendar_sources;") one).0 in
      let all : Sqlite.clear_tables db begun ≡ db.exec (codes "DELETE FROM meta;") two =
        ap (Sqlite.also db (codes "DELETE FROM meta;"))
          (also-succeeded (codes "DELETE FROM calendar_sources;") _ (laws.empties_accounts begun).0)
        ∙ also-succeeded (codes "DELETE FROM meta;") _ (laws.empties_sources one).0 in
      ap laws.tables (
        clear_begun-succeeded _ (laws.begins s).0 (ap (λ p. p.1) all ∙ (laws.empties_metas two).0)
        ∙ ap (λ p. (db.exec (codes "COMMIT;") p.0).0) all)
      ∙ (laws.commits _).1
      ∙ (laws.empties_metas two).1
      ∙ ap {A = Tables} (λ t. record t { metas = [] })
          ((laws.empties_sources one).1
            ∙ ap {A = Tables} (λ t. record t { sources = [] }) ((laws.empties_accounts begun).1))

module _ {J S R : Type 0} (json : Json J) (keeps_accounts : KeepsAccounts json)
    (keeps_sources : KeepsSources json) (db : Engine S R) (laws : Relational db) where
  pub Agree-change :
      (c : Change) (d : Document J) (s : S)
      → Agree json d (laws.tables s)
      → Agree json (doc_change json c d) (laws.tables (sqlite_change db c s))
  unfolding Sqlite.upsert_account Sqlite.delete_account Sqlite.upsert_calendar_source
      Sqlite.remove_calendar_source Sqlite.set_meta Sqlite.delete_meta
  Agree-change (Change.account a) d s h =
      let law = laws.upserts_account a s in
      rw (law.0) (record {
        accounts =
            AgreeOn-put json.of_account (λ x. x.service) (λ x. x) (λ x. x.service) json.service_of
              keeps_accounts.service a a d.accounts _ _ refl refl law.1.0 h.accounts;
        sources = subst (AgreeSources json d.calendar_sources) (sym law.1.1) h.sources;
        metas = λ k. ap (lookup k) law.1.2 ∙ h.metas k;
      })
  Agree-change (Change.no_account k) d s h =
      let law = laws.deletes_account k s in
      rw (law.0) (record {
        accounts =
            AgreeOn-drop json.of_account (λ x. x.service) (λ x. x) (λ x. x.service) json.service_of
              keeps_accounts.service k d.accounts _ _ law.1.0 h.accounts;
        sources = subst (AgreeSources json d.calendar_sources) (sym law.1.1) h.sources;
        metas = λ j. ap (lookup j) law.1.2 ∙ h.metas j;
      })
  Agree-change (Change.source c) d s h =
      let law = laws.upserts_source (to_row c) s in
      rw (law.0) (record {
        accounts = subst (AgreeAccounts json d.accounts) (sym law.1.1) h.accounts;
        sources =
            AgreeOn-put json.of_source (λ x. x.url) of_row (λ x. x.url) json.url_of
              keeps_sources.url c (to_row c) d.calendar_sources _ _ (of_row-to_row c) refl law.1.0
              h.sources;
        metas = λ j. ap (lookup j) law.1.2 ∙ h.metas j;
      })
  Agree-change (Change.no_source k) d s h =
      let law = laws.deletes_source k s in
      rw (law.0) (record {
        accounts = subst (AgreeAccounts json d.accounts) (sym law.1.1) h.accounts;
        sources =
            AgreeOn-drop json.of_source (λ x. x.url) of_row (λ x. x.url) json.url_of
              keeps_sources.url k d.calendar_sources _ _ law.1.0 h.sources;
        metas = λ j. ap (lookup j) law.1.2 ∙ h.metas j;
      })
  Agree-change (Change.meta k v) d s h =
      let law = laws.upserts_meta k v s in
      rw (law.0) (record {
        accounts = subst (AgreeAccounts json d.accounts) (sym law.1.1) h.accounts;
        sources = subst (AgreeSources json d.calendar_sources) (sym law.1.2) h.sources;
        metas = λ j. ground (arith, law.1.0 j, h.metas j, lookup-insert k j v d.meta);
      })
  Agree-change (Change.no_meta k) d s h =
      let law = laws.deletes_meta k s in
      rw (law.0) (record {
        accounts = subst (AgreeAccounts json d.accounts) (sym law.1.1) h.accounts;
        sources = subst (AgreeSources json d.calendar_sources) (sym law.1.2) h.sources;
        metas = λ j. ground (arith, law.1.0 j, h.metas j, lookup-erase k j d.meta);
      })
  Agree-change Change.everything d s h =
      subst (Agree json empty_document) (sym (tables-clear db laws s)) Agree-empty
