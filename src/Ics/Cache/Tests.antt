-- ===== src/Ics/Cache/Tests.antt =====
-- The cache on one or two entries, and a file of it.
use divoom_dev.Prelude.{ℕ, ◌≡◌, ◌≢◌, refl, true, [], ◌∷◌, arith, All}
use divoom_dev.Prelude.Int.{pos, ◌*ℤ◌}
use divoom_dev.Prelude.Text.{Text, codes, text_lt}
use divoom_dev.Ics.Cache.{Cache, init, default_options}
use divoom_dev.Ics.Cache.Persist.{save, load}
use divoom_dev.Ics.Cache.Persist.RoundTrip.{IsStorable, load-save, load-save_two_lines}
use divoom_dev.Ics.Chrono.{from_time_t, to_time_t}
use divoom_dev.Prelude.Map.{IsOrdered}
use divoom_dev.Ics.Sample.{utc}
use divoom_dev.Ics.TextUtils.{returns}

abbrev empty : Cache
empty = init (record default_options { persist_path = codes "c" })

a-ne-b : codes "a" ≢ codes "b"
a-ne-b = ground arith

-- A hash that counts nothing.
abbrev no_hash : Text → ℕ
no_hash s = 7

abbrev two_entries : Cache
two_entries = record empty {
  store =
      (codes "a", record { content = codes "x"; fetched_at = pos 5 })
      ∷ (codes "b", record { content = codes "y"; fetched_at = pos 6 })
      ∷ [];
}

two_entries-IsOrdered : IsOrdered two_entries.store
unfolding text_lt
two_entries-IsOrdered = (refl, tt)

two_entries-IsStorable : All (IsStorable utc no_hash) two_entries.store
unfolding to_time_t
two_entries-IsStorable = (
  (ground arith, ground arith, omega arith, omega arith),
  ((ground arith, ground arith, omega arith, omega arith), tt),
)

load-save_example :
    load utc (save utc no_hash true two_entries).0 empty ≡ (two_entries, returns true)
unfolding from_time_t to_time_t ◌*ℤ◌
load-save_example =
    load-save utc no_hash two_entries empty refl refl two_entries-IsOrdered two_entries-IsStorable

abbrev two_lines : Cache
two_lines = record empty {
  store = (codes "a", record { content = codes "x\ny"; fetched_at = pos 5 }) ∷ [];
}

load-save_two_lines_example : load utc (save utc no_hash true two_lines).0 two_lines ≡ (
  record empty { store = (codes "a", record { content = codes "x"; fetched_at = pos 5 }) ∷ [] },
  returns true,
)
unfolding from_time_t to_time_t ◌*ℤ◌
load-save_two_lines_example =
    load-save_two_lines utc no_hash two_lines (codes "a") (codes "x") (codes "y") (pos 5) refl refl
      (ground arith) (ground arith) (ground arith) (omega arith) (omega arith)
