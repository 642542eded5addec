-- ===== src/Ics/Cache/Expiry.antt =====
-- What the cache promises of the age of its entries.
use divoom_dev.Prelude.{
  ℕ, ◌+◌, ◌*◌, ◌≤◌, ◌≡◌, ◌&&◌, not, none, some, arith, if◌then◌else◌, ◌≢◌, ltb,
}
use divoom_dev.Prelude.Int.{ℤ, pos, ◌-ℤ◌, ◌+ℤ◌, int_laws}
use divoom_dev.Prelude.Map.{lookup, lookup-insert, lookup-erase}
use divoom_dev.Prelude.Text.{Text, text_eq_refl, text_eq_iff}
use divoom_dev.Ics.Cache.{
  Cache, Entry, get, get_stale, has, is_stale_fresh, put, remove, is_fresh, is_stale,
}

-- The age of an entry, by the clock.
age_lem : (stored : ℤ) (age : ℕ) → stored +ℤ pos age -ℤ stored ≡ pos age
age_lem stored age = omega int_laws

module _ (tick_ms : ℕ) (cache : Cache) (url content : Text) (stored : ℤ) (age : ℕ) where
  abbrev entry : Entry
  entry = record { content = content; fetched_at = stored }

  abbrev later : ℤ
  later = stored +ℤ pos age

  lookup-put : lookup url (put tick_ms stored cache url content).store ≡ some entry
  unfolding put
  lookup-put = simp (lookup-insert, text_eq_refl)

  is_fresh-put :
      is_fresh tick_ms later (put tick_ms stored cache url content) entry
      ≡ ltb age (cache.ttl * tick_ms)
  unfolding is_fresh put
  is_fresh-put = rw (age_lem stored age) (ground arith)

  is_stale-put :
      is_stale tick_ms later (put tick_ms stored cache url content) entry
      ≡ ltb age ((cache.ttl + cache.stale_ttl) * tick_ms)
  unfolding is_stale put
  is_stale-put = rw (age_lem stored age) (ground arith)

  limit_le : cache.ttl * tick_ms ≤ (cache.ttl + cache.stale_ttl) * tick_ms
  limit_le = grind arith

  -- The four queries, at any later reading of the clock, of a url that was put at `stored`: `get`
  -- has the content exactly while its age is below the ttl, `get_stale` and `has` answer exactly
  -- while it is below the ttl and the stale ttl together, and `is_stale_fresh` is the difference.
  pub put_lifetime :
      (get tick_ms later (put tick_ms stored cache url content) url
        ≡ (if ltb age (cache.ttl * tick_ms) then some content else none))
      × (get_stale tick_ms later (put tick_ms stored cache url content) url
          ≡ (if ltb age ((cache.ttl + cache.stale_ttl) * tick_ms) then some content else none))
      × (has tick_ms later (put tick_ms stored cache url content) url
          ≡ ltb age ((cache.ttl + cache.stale_ttl) * tick_ms))
      × (is_stale_fresh tick_ms later (put tick_ms stored cache url content) url ≡ (
          not (ltb age (cache.ttl * tick_ms)) && ltb age ((cache.ttl + cache.stale_ttl) * tick_ms)))
  unfolding get get_stale has is_stale_fresh
  put_lifetime = ground (arith, lookup-put, is_fresh-put, is_stale-put, limit_le)

module _ (tick_ms : ℕ) (cache : Cache) (url j content : Text) (now at : ℤ) where
  -- `put` and `remove` leave what is read of every other url.
  get-put_ne :
      url ≢ j
      → (get tick_ms at (put tick_ms now cache url content) j ≡ get tick_ms at cache j)
        × (get_stale tick_ms at (put tick_ms now cache url content) j
            ≡ get_stale tick_ms at cache j)
        × (get tick_ms at (remove cache url) j ≡ get tick_ms at cache j)
        × (get_stale tick_ms at (remove cache url) j ≡ get_stale tick_ms at cache j)
  unfolding get get_stale is_fresh is_stale put remove
  get-put_ne h = ground (
    arith,
    text_eq_iff url j,
    lookup-insert url j (record { content = content; fetched_at = now }) cache.store,
    lookup-erase url j cache.store,
  )
