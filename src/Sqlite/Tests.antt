-- ===== src/Sqlite/Tests.antt =====
-- A connection to a file that holds one number: a script sees to it that the number is its first
-- byte, or fails where that is '!'.
use divoom_dev.Prelude.{
  ◌≡◌, refl, ◌∙◌, ◌⊎◌, Bool, true, false, List, [], ◌∷◌, arith, if◌then◌else◌, ◌==◌,
}
use divoom_dev.Prelude.Int.{ℤ, pos}
use divoom_dev.Prelude.Text.{Text, codes, text_eq}
use divoom_dev.Sqlite.{
  Engine, SqlScript, done, run_in_transaction, apply_migrations, clear, current_version,
}
use divoom_dev.Sqlite.Transactions.{
  Transactional, IsAtomic, IsUndone, IsCommitted, IsRefused, scripted, cleared,
  run_in_transaction-IsAtomic, clear_lem,
}
use divoom_dev.Sqlite.Migrations.{IsBaseline, IsVersioned, apply_migrations-again}

record Connection : Type 0 where
  held : ℤ
  seen : ℤ
  is_open : Bool

data Kind : Type 0 where
  begin commit rollback script : Kind

unfoldable kind : Text → Kind
unfolding text_eq
kind sql =
    if text_eq sql (codes "BEGIN;")
    then begin
    else if text_eq sql (codes "COMMIT;")
    then commit
    else if text_eq sql (codes "ROLLBACK;")
    then rollback
    else script

abbrev see : Connection → ℤ → Connection
see s n = if s.is_open then record s { seen = n } else record s { seen = n; held = n }

abbrev run_script : Text → Connection → Connection × Bool
run_script [] s = (s, true)
run_script (c ∷ sql) s = if c == 33 then (s, false) else (see s (pos c), true)

abbrev exec_kind : Text → Connection → Kind → Connection × Bool
exec_kind sql s begin = if s.is_open then (s, false) else (record s { is_open = true }, true)
exec_kind sql s commit =
    if s.is_open then (record s { held = s.seen; is_open = false }, true) else (s, false)
exec_kind sql s rollback =
    if s.is_open then (record s { seen = s.held; is_open = false }, true) else (s, false)
exec_kind sql s script = run_script sql s

abbrev engine : Engine Connection ℤ
engine = record {
  exec = λ sql s. exec_kind sql s (kind sql);
  prepares = λ sql s. true;
  run = λ sql args s. s;
  rows = λ sql args s. s.seen ∷ [];
  column_text = λ row i. [];
  column_int = λ row i. row;
}

run_script_held :
    (sql : Text) (s : Connection) → s.is_open ≡ true → (run_script sql s).0.held ≡ s.held
run_script_held [] s o = refl
run_script_held (c ∷ sql) s o = ground arith

run_script_open : (sql : Text) (s : Connection) → (run_script sql s).0.is_open ≡ s.is_open
run_script_open [] s = refl
run_script_open (c ∷ sql) s = ground arith

abbrev is_script_kind : Kind → Bool
is_script_kind script = true
is_script_kind _ = false

exec_kind-script_held :
    (sql : Text) (s : Connection) (k : Kind)
    → is_script_kind k ≡ true
    → s.is_open ≡ true
    → (exec_kind sql s k).0.held ≡ s.held
exec_kind-script_held sql s begin i o = ground arith
exec_kind-script_held sql s commit i o = ground arith
exec_kind-script_held sql s rollback i o = ground arith
exec_kind-script_held sql s script i o = run_script_held sql s o

exec_kind-script_open :
    (sql : Text) (s : Connection) (k : Kind)
    → is_script_kind k ≡ true
    → (exec_kind sql s k).0.is_open ≡ s.is_open
exec_kind-script_open sql s begin i = ground arith
exec_kind-script_open sql s commit i = ground arith
exec_kind-script_open sql s rollback i = ground arith
exec_kind-script_open sql s script i = run_script_open sql s

laws : Transactional engine ℤ
unfolding kind
laws = record {
  is_open = λ s. s.is_open;
  held = λ s. s.held;
  seen = λ s. if s.is_open then s.seen else s.held;
  is_script = λ sql. is_script_kind (kind sql);
  idle = λ s h. ground arith;
  begin_done = λ s h. ground arith;
  begin_failed = λ s h. ground arith;
  script_held = λ sql s i o. exec_kind-script_held sql s (kind sql) i o;
  script_done = λ sql s i o d. exec_kind-script_open sql s (kind sql) i ∙ o;
  commit_done = λ s o d. ground arith;
  commit_failed = λ s d. ground arith;
  rolled_back = λ s. ground arith;
}

abbrev fresh : Connection
fresh = record { held = pos 0; seen = pos 0; is_open = false }

run_in_transaction-IsAtomic_example :
    IsAtomic engine laws fresh
      (scripted engine laws (codes "A") fresh)
      (run_in_transaction engine (codes "A") fresh)
unfolding kind laws
run_in_transaction-IsAtomic_example =
    run_in_transaction-IsAtomic engine laws (codes "A") fresh refl refl

failed_script : run_in_transaction engine (codes "!") fresh ≡ (fresh, false)
unfolding run_in_transaction kind
failed_script = refl

clear_lem_example :
    IsUndone engine laws fresh (clear engine fresh)
    ⊎ IsCommitted engine laws (cleared engine laws fresh) (clear engine fresh)
    ⊎ IsRefused engine laws (cleared engine laws fresh) (clear engine fresh)
unfolding kind laws
clear_lem_example = clear_lem engine laws fresh refl refl refl refl

abbrev migrations : List SqlScript
migrations = record { version = pos 2; sql = 2 ∷ [] } ∷ []

one-IsBaseline : IsBaseline engine (1 ∷ [])
unfolding run_in_transaction current_version kind
one-IsBaseline s h = ground arith

two-IsVersioned : IsVersioned engine (record { version = pos 2; sql = 2 ∷ [] })
unfolding run_in_transaction current_version kind
two-IsVersioned s h = ground arith

abbrev migrated : Connection
migrated = record { held = pos 2; seen = pos 2; is_open = false }

fresh-migrated : apply_migrations engine (1 ∷ []) migrations fresh ≡ done migrated
unfolding apply_migrations kind
fresh-migrated = refl

apply_migrations-again_example :
    apply_migrations engine (1 ∷ []) migrations migrated ≡ done migrated
unfolding current_version
apply_migrations-again_example =
    apply_migrations-again engine (1 ∷ []) migrations fresh migrated one-IsBaseline
      (two-IsVersioned, tt) (omega arith) fresh-migrated
