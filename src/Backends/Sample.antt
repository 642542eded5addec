-- ===== src/Backends/Sample.antt =====
-- A database of lists that knows the statements of the backend.
use divoom_dev.Prelude.{
  ◌≡◌, refl, sym, ap, ◌∙◌, subst, ℕ, zero, suc, true, Option, none, some, List, [], ◌∷◌, map,
  if◌then◌else◌,
}
use divoom_dev.Prelude.Int.{ℤ, pos}
use divoom_dev.Prelude.Map.{insert, erase, lookup, lookup-insert, lookup-erase}
use divoom_dev.Prelude.Sort.{sort, IsSorted, sort-IsSorted}
use divoom_dev.Prelude.Text.{Text, codes, text_eq}
use divoom_dev.Backends.Agree.{of_row}
use divoom_dev.Backends.Order.{find_item-sort, sort-IsDistinct}
use divoom_dev.Backends.Tables.{SourceRow, Tables, Relational, row_before, at_most, source_row}
use divoom_dev.Sqlite.{Engine, Value, text_value, int_value, to_account}
use divoom_dev.Sqlite.Statements.{
  upsert_account_sql, get_account_sql, delete_account_sql, upsert_source_sql, list_sources_sql,
  remove_source_sql, set_meta_sql, get_meta_sql, delete_meta_sql,
}
use divoom_dev.Storage.{Account, put_item, find_item, drop_item}
use divoom_dev.Storage.Accounts.{
  IsDistinct, find_item-put_item, put_item-IsDistinct, find_item-drop_item, drop_item-IsDistinct,
}
use divoom_dev.Storage.Sources.{source_before_asym, source_before_later}

pub data Statement : Type 0 where
  put_account drop_account select_account put_source drop_source select_sources put_meta drop_meta
        select_meta all_accounts all_sources all_metas other :
      Statement

abbrev pub known : List (Text × Statement)
known =
    (upsert_account_sql, put_account)
    ∷ (delete_account_sql, drop_account)
    ∷ (get_account_sql, select_account)
    ∷ (upsert_source_sql, put_source)
    ∷ (remove_source_sql, drop_source)
    ∷ (list_sources_sql, select_sources)
    ∷ (set_meta_sql, put_meta)
    ∷ (delete_meta_sql, drop_meta)
    ∷ (get_meta_sql, select_meta)
    ∷ (codes "DELETE FROM accounts;", all_accounts)
    ∷ (codes "DELETE FROM calendar_sources;", all_sources)
    ∷ (codes "DELETE FROM meta;", all_metas)
    ∷ []

unfoldable pub parse_in : List (Text × Statement) → Text → Statement
unfolding text_eq
parse_in [] sql = other
parse_in ((t, k) ∷ ks) sql = if text_eq t sql then k else parse_in ks sql

abbrev pub text_at : List Value → Text
text_at (text_value t ∷ vs) = t
text_at vs = []

abbrev pub int_at : List Value → ℤ
int_at (int_value t ∷ vs) = t
int_at vs = pos 0

abbrev pub rest : List Value → List Value
rest [] = []
rest (v ∷ vs) = vs

abbrev pub account_in : List Value → Account
account_in vs = record {
  service = text_at vs;
  login = text_at (rest vs);
  password = text_at (rest (rest vs));
}

abbrev pub source_in : List Value → SourceRow
source_in vs = record {
  url = text_at vs;
  priority = int_at (rest vs);
  enabled = int_at (rest (rest vs));
}

unfoldable pub run_statement : Statement → List Value → Tables → Tables
run_statement put_account vs t = record t {
  accounts = put_item (λ a. a.service) (text_at vs) (account_in vs) t.accounts;
}
run_statement drop_account vs t = record t {
  accounts = drop_item (λ a. a.service) (text_at vs) t.accounts;
}
run_statement put_source vs t = record t {
  sources = put_item (λ a. a.url) (text_at vs) (source_in vs) t.sources;
}
run_statement drop_source vs t = record t {
  sources = drop_item (λ a. a.url) (text_at vs) t.sources;
}
run_statement put_meta vs t = record t { metas = insert (text_at vs) (text_at (rest vs)) t.metas }
run_statement drop_meta vs t = record t { metas = erase (text_at vs) t.metas }
run_statement all_accounts vs t = record t { accounts = [] }
run_statement all_sources vs t = record t { sources = [] }
run_statement all_metas vs t = record t { metas = [] }
run_statement k vs t = t

abbrev pub account_row : Account → List Value
account_row a = text_value a.service ∷ text_value a.login ∷ text_value a.password ∷ []

abbrev pub row_of_source : SourceRow → List Value
row_of_source r = text_value r.url ∷ int_value r.priority ∷ int_value r.enabled ∷ []

unfoldable pub select : Statement → List Value → Tables → List (List Value)
select select_account vs t =
    map account_row (at_most (find_item (λ a. a.service) (text_at vs) t.accounts))
select select_sources vs t = map row_of_source (sort row_before t.sources)
select select_meta vs t = map (λ v. text_value v ∷ []) (at_most (lookup (text_at vs) t.metas))
select k vs t = []

abbrev pub drop_columns : ℕ → List Value → List Value
drop_columns zero vs = vs
drop_columns (suc n) vs = drop_columns n (rest vs)

abbrev pub engine : Engine Tables (List Value)
engine = record {
  exec = λ sql t. (run_statement (parse_in known sql) [] t, true);
  prepares = λ sql t. true;
  run = λ sql args t. run_statement (parse_in known sql) args t;
  rows = λ sql args t. select (parse_in known sql) args t;
  column_text = λ row i. text_at (drop_columns i row);
  column_int = λ row i. int_at (drop_columns i row);
}

pub map-at_most :
    {A : Type 0} (to : A → List Value) (of : List Value → A)
    → ((a : A) → of (to a) ≡ a)
    → (o : Option A) → map of (map to (at_most o)) ≡ at_most o
map-at_most to of back none = refl
map-at_most to of back (some a) = ap (λ x. x ∷ []) (back a)

pub map-rows : (rows : List SourceRow) → map (source_row engine) (map row_of_source rows) ≡ rows
map-rows [] = refl
map-rows (r ∷ rows) = ap (λ rs. r ∷ rs) (map-rows rows)

unfoldable pub engine_laws : Relational engine
unfolding parse_in run_statement select
engine_laws = record {
  tables = λ t. t;
  upserts_account = λ a t. (
    refl,
    (
      (
        λ k. find_item-put_item (λ x. x.service) a.service k a t.accounts refl,
        put_item-IsDistinct (λ x. x.service) a.service a t.accounts refl,
      ),
      refl,
      refl,
    ),
  );
  deletes_account = λ k t. (
    refl,
    (
      λ d. (
        λ j. find_item-drop_item (λ x. x.service) k j t.accounts d,
        drop_item-IsDistinct (λ x. x.service) k t.accounts d,
      ),
      refl,
      refl,
    ),
  );
  selects_account = λ k t. (refl, map-at_most account_row (to_account engine) (λ a. refl) _);
  upserts_source = λ r t. (
    refl,
    (
      (
        λ k. find_item-put_item (λ x. x.url) r.url k r t.sources refl,
        put_item-IsDistinct (λ x. x.url) r.url r t.sources refl,
      ),
      refl,
      refl,
    ),
  );
  deletes_source = λ k t. (
    refl,
    (
      λ d. (
        λ j. find_item-drop_item (λ x. x.url) k j t.sources d,
        drop_item-IsDistinct (λ x. x.url) k t.sources d,
      ),
      refl,
      refl,
    ),
  );
  selects_sources = λ t d.
      let same = map-rows (sort row_before t.sources) in
      (
        refl,
        subst (IsSorted row_before) (sym same) (
            sort-IsSorted row_before (λ a b. source_before_asym (of_row a) (of_row b))
              (λ a b c. source_before_later (of_row a) (of_row b) (of_row c)) t.sources),
        subst (IsDistinct (λ r. r.url)) (sym same)
            (sort-IsDistinct (λ r. r.url) row_before t.sources d),
        λ k.
            ap (find_item (λ r. r.url) k) same
            ∙ find_item-sort (λ r. r.url) row_before k t.sources d,
      );
  upserts_meta = λ k v t. (refl, (λ j. lookup-insert k j v t.metas, refl, refl));
  deletes_meta = λ k t. (refl, (λ j. lookup-erase k j t.metas, refl, refl));
  selects_meta = λ k t. (refl, map-at_most (λ v. text_value v ∷ []) text_at (λ v. refl) _);
  begins = λ t. (refl, refl);
  commits = λ t. (refl, refl);
  empties_accounts = λ t. (refl, refl);
  empties_sources = λ t. (refl, refl);
  empties_metas = λ t. (refl, refl);
}
