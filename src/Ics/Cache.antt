-- ===== src/Ics/Cache.antt =====
-- plugins/ics/src/cache.cpp. Durations are in milliseconds; `tick_ms` is the number of clock ticks
-- in a millisecond. `now` is what clock::now() returns in the call.
pub mod Expiry
pub mod Persist
mod Tests
use divoom_dev.Prelude.{
  ℕ, ◌+◌, ◌*◌, Bool, true, false, ◌&&◌, ◌||◌, not, Option, none, some, List, [], ◌∷◌, if◌then◌else◌,
  length,
}
use divoom_dev.Prelude.Int.{ℤ, pos, ◌-ℤ◌, ltb_ℤ}
use divoom_dev.Prelude.Map.{lookup, insert, erase}
use divoom_dev.Prelude.Text.{Text}

pub record Entry : Type 0 where
  pub content : Text
  pub fetched_at : ℤ

pub record Options : Type 0 where
  pub ttl : ℕ
  pub stale_ttl : ℕ
  pub persist_path : Text

pub record Cache : Type 0 where
  pub store : List (Text × Entry)
  pub options : Options
  pub open options use *

-- `ics_cache()`: five minutes and one hour.
abbrev pub default_options : Options
default_options = record { ttl = 300000; stale_ttl = 3600000; persist_path = [] }

abbrev pub init : Options → Cache
init opts = record { store = []; options = opts }

unfoldable pub set_ttl : Cache → ℕ → Cache
set_ttl cache ttl = record cache { options = record cache.options { ttl = ttl } }

unfoldable pub set_stale_ttl : Cache → ℕ → Cache
set_stale_ttl cache stale_ttl = record cache {
  options = record cache.options { stale_ttl = stale_ttl };
}

module _ (tick_ms : ℕ) (now : ℤ) (cache : Cache) where
  unfoldable pub is_fresh : Entry → Bool
  unfolding ◌-ℤ◌
  is_fresh e = ltb_ℤ (now -ℤ e.fetched_at) (pos (cache.ttl * tick_ms))

  unfoldable pub is_stale : Entry → Bool
  unfolding ◌-ℤ◌
  is_stale e = ltb_ℤ (now -ℤ e.fetched_at) (pos ((cache.ttl + cache.stale_ttl) * tick_ms))

  -- `none` is a return of false.
  abbrev read_if : (Entry → Bool) → Option Entry → Option Text
  read_if test none = none
  read_if test (some e) = if test e then some e.content else none

  abbrev test_found : (Entry → Bool) → Option Entry → Bool
  test_found test none = false
  test_found test (some e) = test e

  unfoldable pub get : Text → Option Text
  unfolding lookup
  get url = read_if is_fresh (lookup url cache.store)

  unfoldable pub get_stale : Text → Option Text
  unfolding lookup
  get_stale url = read_if is_stale (lookup url cache.store)

  unfoldable pub has : Text → Bool
  unfolding lookup
  has url = test_found (λ e. is_fresh e || is_stale e) (lookup url cache.store)

  unfoldable pub is_stale_fresh : Text → Bool
  unfolding lookup
  is_stale_fresh url = test_found (λ e. not (is_fresh e) && is_stale e) (lookup url cache.store)

  unfoldable pub put : Text → Text → Cache
  unfolding insert
  put url content = record cache {
    store = insert url (record { content = content; fetched_at = now }) cache.store;
  }

unfoldable pub remove : Cache → Text → Cache
unfolding erase
remove cache url = record cache { store = erase url cache.store }

unfoldable pub clear : Cache → Cache
clear cache = record cache { store = [] }

unfoldable pub size : Cache → ℕ
size cache = length cache.store
