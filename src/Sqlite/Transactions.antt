-- ===== src/Sqlite/Transactions.antt =====
-- What run_in_transaction and clear leave, over SQLite's documented transactions.
use divoom_dev.Prelude.{◌≡◌, refl, ◌∙◌, ◌⊎◌, inl, inr, Bool, true, false, Bool-cases}
use divoom_dev.Prelude.Text.{Text, codes}
use divoom_dev.Sqlite.{
  Engine, run_in_transaction, after_begin, after_script, commit, roll_back, clear, clear_tables,
  also, clear_begun, after_clear,
}

-- What SQLite documents of a connection: whether a transaction is open, what the file holds, and
-- what the connection sees. A script is a text without BEGIN, COMMIT and ROLLBACK: executed in a
-- transaction, it writes nothing to the file, and leaves the transaction open unless it fails.
pub record Transactional {S R : Type 0} (db : Engine S R) (D : Type 0) : Type 0 where
  pub is_open : S → Bool
  pub held : S → D
  pub seen : S → D
  pub is_script : Text → Bool
  pub idle : (s : S) → is_open s ≡ false → seen s ≡ held s
  pub begin_done :
      (s : S)
      → (db.exec (codes "BEGIN;") s).1 ≡ true
      → (is_open (db.exec (codes "BEGIN;") s).0 ≡ true)
        × (held (db.exec (codes "BEGIN;") s).0 ≡ held s)
  pub begin_failed :
      (s : S)
      → (db.exec (codes "BEGIN;") s).1 ≡ false
      → (is_open (db.exec (codes "BEGIN;") s).0 ≡ is_open s)
        × (held (db.exec (codes "BEGIN;") s).0 ≡ held s)
  pub script_held :
      (sql : Text) (s : S)
      → is_script sql ≡ true
      → is_open s ≡ true
      → held (db.exec sql s).0 ≡ held s
  pub script_done :
      (sql : Text) (s : S)
      → is_script sql ≡ true
      → is_open s ≡ true
      → (db.exec sql s).1 ≡ true
      → is_open (db.exec sql s).0 ≡ true
  pub commit_done :
      (s : S)
      → is_open s ≡ true
      → (db.exec (codes "COMMIT;") s).1 ≡ true
      → (is_open (db.exec (codes "COMMIT;") s).0 ≡ false)
        × (held (db.exec (codes "COMMIT;") s).0 ≡ seen s)
  pub commit_failed :
      (s : S)
      → (db.exec (codes "COMMIT;") s).1 ≡ false
      → held (db.exec (codes "COMMIT;") s).0 ≡ held s
  pub rolled_back :
      (s : S)
      → (is_open (db.exec (codes "ROLLBACK;") s).0 ≡ false)
        × (held (db.exec (codes "ROLLBACK;") s).0 ≡ held s)

-- In a section with the laws.
module _ {S R D : Type 0} (db : Engine S R) (laws : Transactional db D) where
  -- Nothing is open, and the file holds what it did.
  abbrev pub IsUndone : S → S → Type 0
  IsUndone s t = (laws.is_open t ≡ false) × (laws.held t ≡ laws.held s)

  -- Nothing is open, and the file holds what was seen at the end of the script.
  abbrev pub IsCommitted : S → S → Type 0
  IsCommitted u t = (laws.is_open t ≡ false) × (laws.held t ≡ laws.seen u)

  -- What the script left.
  abbrev pub scripted : Text → S → S
  scripted sql s = (db.exec sql (db.exec (codes "BEGIN;") s).0).0

  roll_back-IsUndone : (s t : S) → laws.held t ≡ laws.held s → IsUndone s (roll_back db t).0
  roll_back-IsUndone s t h = ((laws.rolled_back t).0, (laws.rolled_back t).1 ∙ h)

  -- All or nothing: `false` with nothing done, or `true` with what the script left in the file.
  abbrev pub IsAtomic : S → S → S × Bool → Type 0
  IsAtomic s u r = ((r.1 ≡ false) × IsUndone s r.0) ⊎ ((r.1 ≡ true) × IsCommitted u r.0)

  commit-IsAtomic :
      (s u : S) (r : S × Bool)
      → (r.1 ≡ true → IsCommitted u r.0)
      → (r.1 ≡ false → laws.held r.0 ≡ laws.held s)
      → IsAtomic s u (commit db r)
  commit-IsAtomic s u (t, true) succeeds fails = inr (refl, succeeds refl)
  commit-IsAtomic s u (t, false) succeeds fails = inl (refl, roll_back-IsUndone s t (fails refl))

  after_script-IsAtomic :
      (s : S) (r : S × Bool)
      → laws.held r.0 ≡ laws.held s
      → (r.1 ≡ true → laws.is_open r.0 ≡ true)
      → IsAtomic s r.0 (after_script db r)
  after_script-IsAtomic s (t, true) h o =
      commit-IsAtomic s t (db.exec (codes "COMMIT;") t) (laws.commit_done t (o refl))
        (λ e. laws.commit_failed t e ∙ h)
  after_script-IsAtomic s (t, false) h o = inl (refl, roll_back-IsUndone s t h)

  after_begin-IsAtomic :
      (sql : Text) (s : S) (r : S × Bool)
      → laws.is_script sql ≡ true
      → (r.1 ≡ true → (laws.is_open r.0 ≡ true) × (laws.held r.0 ≡ laws.held s))
      → (r.1 ≡ false → IsUndone s r.0)
      → IsAtomic s (db.exec sql r.0).0 (after_begin db sql r)
  after_begin-IsAtomic sql s (t, true) script succeeds fails =
      let o = succeeds refl in
      after_script-IsAtomic s (db.exec sql t) (laws.script_held sql t script o.0 ∙ o.1)
        (laws.script_done sql t script o.0)
  after_begin-IsAtomic sql s (t, false) script succeeds fails = inl (refl, fails refl)

  -- A script without BEGIN, COMMIT and ROLLBACK, run by run_in_transaction where no transaction is
  -- open, over a connection that keeps SQLite's documented laws of transactions: afterwards no
  -- transaction is open; and either the result is false and the database file holds what it held, or the
  -- result is true and the file holds what the connection saw at the end of the script.
  pub run_in_transaction-IsAtomic :
      (sql : Text) (s : S)
      → laws.is_script sql ≡ true
      → laws.is_open s ≡ false
      → IsAtomic s (scripted sql s) (run_in_transaction db sql s)
  unfolding run_in_transaction
  run_in_transaction-IsAtomic sql s script idle =
      let b = db.exec (codes "BEGIN;") s in
      after_begin-IsAtomic sql s b script (laws.begin_done s)
        (λ e. ((laws.begin_failed s e).0 ∙ idle, (laws.begin_failed s e).1))

  -- What the three deletions left.
  abbrev pub cleared : S → S
  cleared s = (clear_tables db (db.exec (codes "BEGIN;") s).0).0

  -- The COMMIT was refused, and the transaction is left as SQLite leaves it.
  abbrev pub IsRefused : S → S → Type 0
  IsRefused u t = ((db.exec (codes "COMMIT;") u).1 ≡ false) × (t ≡ (db.exec (codes "COMMIT;") u).0)

  also-kept :
      (sql : Text) (s : S) (r : S × Bool)
      → laws.is_script sql ≡ true
      → laws.held r.0 ≡ laws.held s
      → (r.1 ≡ true → laws.is_open r.0 ≡ true)
      → (laws.held (also db sql r).0 ≡ laws.held s)
        × ((also db sql r).1 ≡ true → laws.is_open (also db sql r).0 ≡ true)
  also-kept sql s (t, true) script h o =
      (laws.script_held sql t script (o refl) ∙ h, laws.script_done sql t script (o refl))
  also-kept sql s (t, false) script h o = (h, o)

  clear_tables-kept :
      (s t : S)
      → laws.is_script (codes "DELETE FROM accounts;") ≡ true
      → laws.is_script (codes "DELETE FROM calendar_sources;") ≡ true
      → laws.is_script (codes "DELETE FROM meta;") ≡ true
      → laws.is_open t ≡ true
      → laws.held t ≡ laws.held s
      → (laws.held (clear_tables db t).0 ≡ laws.held s)
        × ((clear_tables db t).1 ≡ true → laws.is_open (clear_tables db t).0 ≡ true)
  clear_tables-kept s t one two three o h =
      let a = also-kept (codes "DELETE FROM accounts;") s (t, true) one h (λ e. o) in
      let b =
        also-kept (codes "DELETE FROM calendar_sources;") s
          (db.exec (codes "DELETE FROM accounts;") t) two a.0 a.1 in
      also-kept (codes "DELETE FROM meta;") s
        (also db (codes "DELETE FROM calendar_sources;")
          (db.exec (codes "DELETE FROM accounts;") t))
        three b.0 b.1

  after_clear_lem :
      (s : S) (r : S × Bool)
      → laws.held r.0 ≡ laws.held s
      → (r.1 ≡ true → laws.is_open r.0 ≡ true)
      → IsUndone s (after_clear db r)
        ⊎ IsCommitted r.0 (after_clear db r)
        ⊎ IsRefused r.0 (after_clear db r)
  after_clear_lem s (t, true) h o = elim (Bool-cases (db.exec (codes "COMMIT;") t).1) [
    | inl e ↦ inr (inl (laws.commit_done t (o refl) e))
    | inr e ↦ inr (inr (e, refl))
  ]
  after_clear_lem s (t, false) h o = inl (roll_back-IsUndone s t h)

  clear_begun_lem :
      (s : S) (r : S × Bool)
      → laws.is_script (codes "DELETE FROM accounts;") ≡ true
      → laws.is_script (codes "DELETE FROM calendar_sources;") ≡ true
      → laws.is_script (codes "DELETE FROM meta;") ≡ true
      → (r.1 ≡ true → (laws.is_open r.0 ≡ true) × (laws.held r.0 ≡ laws.held s))
      → (r.1 ≡ false → IsUndone s r.0)
      → IsUndone s (clear_begun db r)
        ⊎ IsCommitted (clear_tables db r.0).0 (clear_begun db r)
        ⊎ IsRefused (clear_tables db r.0).0 (clear_begun db r)
  clear_begun_lem s (t, true) one two three succeeds fails =
      let k = clear_tables-kept s t one two three (succeeds refl).0 (succeeds refl).1 in
      after_clear_lem s (clear_tables db t) k.0 k.1
  clear_begun_lem s (t, false) one two three succeeds fails = inl (fails refl)

  -- What `clear` leaves where no transaction is open, over a connection that keeps SQLite's
  -- documented laws of transactions, the three deletions being scripts: either no transaction is open and the file
  -- holds what it held; or none is open and the file holds what was seen behind the deletions; or
  -- the COMMIT was refused, and the connection is as that left it: `clear` does not roll back.
  pub clear_lem :
      (s : S)
      → laws.is_script (codes "DELETE FROM accounts;") ≡ true
      → laws.is_script (codes "DELETE FROM calendar_sources;") ≡ true
      → laws.is_script (codes "DELETE FROM meta;") ≡ true
      → laws.is_open s ≡ false
      → IsUndone s (clear db s)
        ⊎ IsCommitted (cleared s) (clear db s)
        ⊎ IsRefused (cleared s) (clear db s)
  unfolding clear
  clear_lem s one two three idle =
      clear_begun_lem s (db.exec (codes "BEGIN;") s) one two three (laws.begin_done s)
        (λ e. ((laws.begin_failed s e).0 ∙ idle, (laws.begin_failed s e).1))
