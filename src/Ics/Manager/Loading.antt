-- ===== src/Ics/Manager/Loading.antt =====
-- How event_manager.cpp obtains the contents of a url, over time.
use divoom_dev.Prelude.{ℕ, ◌*◌, ◌<◌, ◌≡◌, true, false, none, some, arith}
use divoom_dev.Prelude.Int.{pos, ◌+ℤ◌}
use divoom_dev.Prelude.Text.{Text, is_empty}
use divoom_dev.Ics.Cache.{Cache, get, put}
use divoom_dev.Ics.Cache.Expiry.{put_lifetime}
use divoom_dev.Ics.Chrono.{Chrono}
use divoom_dev.Ics.Manager.{World, obtain}

module _ (c : Chrono) (tick_ms : ℕ) (w later : World) (cache : Cache) (url : Text) (age : ℕ) where
  -- A download that succeeds is cached.
  obtain_fetched :
      get tick_ms (w.get_at url) cache url ≡ none
      → is_empty (w.fetch url) ≡ false
      → obtain c tick_ms w (some cache) url ≡ record {
        content = w.fetch url;
        cache = some (put tick_ms (w.put_at url) cache url (w.fetch url));
        asked = true;
      }
  unfolding obtain
  obtain_fetched missing full = ground arith

  -- After a download, and until the ttl has passed, the same content is served from the cache: the
  -- source is not asked, whatever it would answer.
  obtain_within_ttl :
      get tick_ms (w.get_at url) cache url ≡ none
      → is_empty (w.fetch url) ≡ false
      → later.get_at url ≡ w.put_at url +ℤ pos age
      → age < cache.ttl * tick_ms
      → obtain c tick_ms later (obtain c tick_ms w (some cache) url).cache url ≡ record {
        content = w.fetch url;
        cache = (obtain c tick_ms w (some cache) url).cache;
        asked = false;
      }
  unfolding obtain
  obtain_within_ttl missing full at young = ground (
    arith,
    obtain_fetched missing full,
    put_lifetime tick_ms cache url (w.fetch url) (w.put_at url) age,
  )
