-- ===== src/Sqlite/Migrations.antt =====
-- What apply_migrations does to a database that it has been applied to.
use divoom_dev.Prelude.{
  ◌≡◌, refl, ◌∙◌, sym, subst, ◌⊎◌, inl, inr, Bool, true, false, arith, List, [], ◌∷◌, All,
  Bool-cases,
}
use divoom_dev.Prelude.Int.{ℤ, pos, leb_ℤ, eq_ℤ, ◌≤ℤ◌, ◌<ℤ◌}
use divoom_dev.Prelude.Text.{Text, is_empty}
use divoom_dev.Sqlite.{
  Engine, SqlScript, done, current_version, run_in_transaction, migrate, baseline_applied,
  apply_migrations,
}

module _ {S R : Type 0} (db : Engine S R) where
  -- The script sets the version that it leads to, where it is run to its end.
  abbrev pub IsVersioned : SqlScript → Type 0
  IsVersioned m =
      (s : S)
      → (run_in_transaction db m.sql s).1 ≡ true
      → current_version db (run_in_transaction db m.sql s).0 ≡ m.version

  -- Nothing is left to do: the version is reached, or the script is empty.
  abbrev pub IsSettled : ℤ → SqlScript → Type 0
  IsSettled version m = (leb_ℤ m.version version ≡ true) ⊎ (is_empty m.sql ≡ true)

  settled-migrate :
      (ms : List SqlScript) (version : ℤ) (s : S)
      → All (IsSettled version) ms
      → migrate db ms version s ≡ done s
  unfolding migrate
  settled-migrate [] version s h = refl
  settled-migrate (m ∷ ms) version s h = ground (arith, settled-migrate ms version s h.1)

  done_injective : {s t : S} → done s ≡ done t → s ≡ t
  done_injective e = ground arith

  -- The loop reaches the version of the script that it runs.
  migrate-run :
      (m : SqlScript) (ms : List SqlScript) (version : ℤ) (s t : S)
      → leb_ℤ m.version version ≡ false
      → is_empty m.sql ≡ false
      → migrate db (m ∷ ms) version s ≡ done t
      → ((run_in_transaction db m.sql s).1 ≡ true)
        × (migrate db ms m.version (run_in_transaction db m.sql s).0 ≡ done t)
  unfolding migrate
  migrate-run m ms version s t later script e = ground arith

  migrate-skip :
      (m : SqlScript) (ms : List SqlScript) (version : ℤ) (s : S)
      → IsSettled version m
      → migrate db (m ∷ ms) version s ≡ migrate db ms version s
  unfolding migrate
  migrate-skip m ms version s h = ground arith

  IsSettled-later : (m : SqlScript) (a b : ℤ) → a ≤ℤ b → IsSettled a m → IsSettled b m
  IsSettled-later m a b h i = ground arith

  IsSettled-else :
      (m : SqlScript) (a : ℤ)
      → IsSettled a m ⊎ ((leb_ℤ m.version a ≡ false) × (is_empty m.sql ≡ false))
  IsSettled-else m a = ground arith

  migrate-settles :
      (ms : List SqlScript) (version : ℤ) (s t : S)
      → All IsVersioned ms
      → current_version db s ≡ version
      → migrate db ms version s ≡ done t
      → (version ≤ℤ current_version db t) × All (IsSettled (current_version db t)) ms
  unfolding migrate
  migrate-settles [] version s t v c e = (
    subst (λ x. version ≤ℤ current_version db x) (done_injective e)
        (subst (λ x. version ≤ℤ x) (sym c) (ground arith)),
    tt,
  )
  migrate-settles (m ∷ ms) version s t v c e = elim (IsSettled-else m version) [
    | inl h ↦
        let i = migrate-settles ms version s t v.1 c (sym (migrate-skip m ms version s h) ∙ e) in
        (i.0, (IsSettled-later m version (current_version db t) i.0 h, i.1))
    | inr h ↦
        let r = migrate-run m ms version s t h.0 h.1 e in
        let i =
          migrate-settles ms m.version (run_in_transaction db m.sql s).0 t v.1 (v.0 s r.0) r.1 in
        (ground arith, (inl (ground arith), i.1))
  ]

  -- The baseline sets a version above 0, where it is run to its end.
  abbrev pub IsBaseline : Text → Type 0
  IsBaseline baseline =
      (s : S)
      → (run_in_transaction db baseline s).1 ≡ true
      → pos 0 <ℤ current_version db (run_in_transaction db baseline s).0

  settled-apply_migrations :
      (baseline : Text) (ms : List SqlScript) (t : S)
      → pos 0 <ℤ current_version db t
      → All (IsSettled (current_version db t)) ms
      → apply_migrations db baseline ms t ≡ done t
  unfolding apply_migrations
  settled-apply_migrations baseline ms t h i =
      let different : eq_ℤ (current_version db t) (pos 0) ≡ false = ground arith in
      rw different (settled-migrate ms (current_version db t) t i)

  baseline_applied_lem :
      (ms : List SqlScript) (r : S × Bool) (t : S)
      → baseline_applied db ms r ≡ done t
      → (r.1 ≡ true) × (migrate db ms (current_version db r.0) r.0 ≡ done t)
  baseline_applied_lem ms (u, true) t e = (refl, e)
  baseline_applied_lem ms (u, false) t e = ground arith

  fresh-apply_migrations :
      (baseline : Text) (ms : List SqlScript) (s t : S)
      → eq_ℤ (current_version db s) (pos 0) ≡ true
      → apply_migrations db baseline ms s ≡ done t
      → baseline_applied db ms (run_in_transaction db baseline s) ≡ done t
  unfolding apply_migrations
  fresh-apply_migrations baseline ms s t h e = ground arith

  used-apply_migrations :
      (baseline : Text) (ms : List SqlScript) (s : S)
      → eq_ℤ (current_version db s) (pos 0) ≡ false
      → apply_migrations db baseline ms s ≡ migrate db ms (current_version db s) s
  unfolding apply_migrations
  used-apply_migrations baseline ms s h = ground arith

  apply_migrations-cases :
      (baseline : Text) (ms : List SqlScript) (s t : S)
      → IsBaseline baseline
      → pos 0 ≤ℤ current_version db s
      → apply_migrations db baseline ms s ≡ done t
      → (u : S) × (pos 0 <ℤ current_version db u)
        × (migrate db ms (current_version db u) u ≡ done t)
  apply_migrations-cases baseline ms s t b n e =
      elim (Bool-cases (eq_ℤ (current_version db s) (pos 0))) [
        | inl h ↦
            let r = run_in_transaction db baseline s in
            let a = baseline_applied_lem ms r t (fresh-apply_migrations baseline ms s t h e) in
            (r.0, b s a.0, a.1)
        | inr h ↦ (s, ground arith, sym (used-apply_migrations baseline ms s h) ∙ e)
      ]

  -- Migrations are applied once: where the database's version is not negative, the baseline sets a version
  -- above 0 and every migration's script its own version when they run to their end, a database that
  -- apply_migrations has returned from is left as it is by the next apply_migrations.
  pub apply_migrations-again :
      (baseline : Text) (ms : List SqlScript) (s t : S)
      → IsBaseline baseline
      → All IsVersioned ms
      → pos 0 ≤ℤ current_version db s
      → apply_migrations db baseline ms s ≡ done t
      → apply_migrations db baseline ms t ≡ done t
  apply_migrations-again baseline ms s t b v n e =
      let c = apply_migrations-cases baseline ms s t b n e in
      let i = migrate-settles ms (current_version db c.0) c.0 t v refl c.2 in
      settled-apply_migrations baseline ms t (omega (arith, c.1, i.0)) i.1
