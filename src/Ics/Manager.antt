-- ===== src/Ics/Manager.antt =====
-- plugins/ics/src/event_manager.cpp. What the outside world
-- answers during one load is the record `World`: the source's response to each url and the readings
-- of the clock. An exception leaves the manager as far as the load has come.
pub mod Loading
pub mod Delivery
pub mod Events
mod Tests
use divoom_dev.Prelude.{
  ℕ, suc, ◌+◌, ◌*◌, Bool, true, false, ◌&&◌, not, Option, none, some, List, [], ◌∷◌, ◌++◌, filter,
  if◌then◌else◌,
}
use divoom_dev.Prelude.Int.{ℤ, pos, ◌+ℤ◌, ltb_ℤ, leb_ℤ}
use divoom_dev.Prelude.Map.{insert_key}
use divoom_dev.Prelude.Sort.{sort}
use divoom_dev.Prelude.Text.{Text, is_empty}
use divoom_dev.Ics.Cache.{Cache, get, get_stale, put}
use divoom_dev.Ics.Chrono.{Chrono}
use divoom_dev.Ics.Event.{ScheduledEvent, starts_before}
use divoom_dev.Ics.Parser as Parser
use divoom_dev.Ics.TextUtils.{Outcome, returns, throws}
use divoom_dev.Ics.Window.{CalendarSettings, compute_window, in_window}

pub record Manager : Type 0 where
  pub has_source : Bool
  pub cache : Option Cache
  pub settings : CalendarSettings
  pub manual_events : List ScheduledEvent
  pub fetched_events : List ScheduledEvent
  pub calendar_urls : List Text

-- `source_->fetch(url)` and clock::now() in the four places where a load reads it for a url.
pub record World : Type 0 where
  pub fetch : Text → Text
  pub get_at : Text → ℤ
  pub put_at : Text → ℤ
  pub stale_at : Text → ℤ
  pub parse_at : Text → ℤ

-- event_manager(source, cache, settings)
abbrev pub init : Bool → Option Cache → CalendarSettings → Manager
init has_source cache settings = record {
  has_source = has_source;
  cache = cache;
  settings = settings;
  manual_events = [];
  fetched_events = [];
  calendar_urls = [];
}

unfoldable pub set_settings : Manager → CalendarSettings → Manager
set_settings m settings = record m { settings = settings }

unfoldable pub set_cache : Manager → Option Cache → Manager
set_cache m cache = record m { cache = cache }

unfoldable pub set_source : Manager → Bool → Manager
set_source m has_source = record m { has_source = has_source }

unfoldable pub add_calendar_url : Manager → Text → Manager
add_calendar_url m url = record m { calendar_urls = insert_key url m.calendar_urls }

unfoldable pub add_event : Manager → ScheduledEvent → Manager
add_event m event = record m { manual_events = m.manual_events ++ event ∷ [] }

-- The contents of one url, the cache after it, and whether the source was asked.
pub record Obtained : Type 0 where
  pub content : Text
  pub cache : Option Cache
  pub asked : Bool

-- Manual events, then fetched ones.
abbrev pub combined : Manager → List ScheduledEvent
combined m = m.manual_events ++ m.fetched_events

-- In the window, and not over yet.
abbrev pub is_next : Chrono → ℤ → CalendarSettings → ScheduledEvent → Bool
is_next c now settings ev = in_window ev.start (compute_window c now settings) && ltb_ℤ now ev.end

unfoldable pub next_of : Chrono → ℤ → Manager → List ScheduledEvent
next_of c now m = sort starts_before (filter (is_next c now m.settings) (combined m))

unfoldable pub scheduled_of : Chrono → ℤ → Manager → List ScheduledEvent
scheduled_of c now m =
    let deadline = now +ℤ pos (m.settings.horizon * 3600 * c.second) in
    sort starts_before (filter (λ ev. leb_ℤ ev.start deadline) (combined m))

-- A part of a load that threw is the end of it.
abbrev pub and_then {ℓ} :
    {A : Type ℓ}
    → Manager × Outcome (Unit {0})
    → (Manager → Manager × Outcome A)
    → Manager × Outcome A
and_then (m, throws e) rest = (m, throws e)
and_then (m, returns _) rest = rest m

module _ (c : Chrono) (tick_ms : ℕ) where
  abbrev cached : World → Option Cache → Text → Option Text
  cached w none url = none
  cached w (some cache) url = get tick_ms (w.get_at url) cache url

  abbrev store_fetched : World → Option Cache → Text → Text → Option Cache
  store_fetched w none url content = none
  store_fetched w (some cache) url content =
      some (if is_empty content then cache else put tick_ms (w.put_at url) cache url content)

  -- The fresh entry of the cache, or what the source returns.
  unfoldable pub fresh_or_fetched : World → Option Cache → Text → Obtained
  fresh_or_fetched w cache url = elim (cached w cache url) [
    | some content ↦ record { content = content; cache = cache; asked = false }
    | none ↦ record {
      content = w.fetch url;
      cache = store_fetched w cache url (w.fetch url);
      asked = true;
    }
  ]

  abbrev stale : World → Option Cache → Text → Option Text
  stale w none url = none
  stale w (some cache) url = get_stale tick_ms (w.stale_at url) cache url

  abbrev with_content : Obtained → Option Text → Obtained
  with_content o none = o
  with_content o (some content) = record o { content = content }

  -- An empty content gives way to a stale entry.
  unfoldable pub obtain : World → Option Cache → Text → Obtained
  unfolding fresh_or_fetched
  obtain w cache url =
      let o = fresh_or_fetched w cache url in
      if is_empty o.content then with_content o (stale w o.cache url) else o

  abbrev add_fetched : Manager → Option Cache → List ScheduledEvent → Manager
  add_fetched m cache events = record m {
    cache = cache;
    fetched_events = m.fetched_events ++ events;
  }

  abbrev pub parsed_into :
      Manager → Option Cache → Outcome (List ScheduledEvent) → Manager × Outcome (Unit {0})
  parsed_into m cache (throws e) = (record m { cache = cache }, throws e)
  parsed_into m cache (returns events) = (add_fetched m cache events, returns tt)

  -- One round of the loop; a url without content is passed over.
  unfoldable pub load_url : World → Manager → Text → Manager × Outcome (Unit {0})
  load_url w m url =
      let o = obtain w m.cache url in
      if is_empty o.content
      then (record m { cache = o.cache }, returns tt)
      else parsed_into m o.cache
          (Parser.parse c (Parser.init m.settings) o.content (w.parse_at url))

  unfoldable pub load_urls : World → Manager → List Text → Manager × Outcome (Unit {0})
  unfolding load_url
  load_urls w m [] = (m, returns tt)
  load_urls w m (url ∷ rest) = and_then (load_url w m url) (λ next. load_urls w next rest)

  unfoldable pub load_from_sources : World → Manager → Manager × Outcome (Unit {0})
  load_from_sources w m =
      if m.has_source
      then load_urls w (record m { fetched_events = [] }) m.calendar_urls
      else (m, returns tt)

  -- `now` is read before the load.
  unfoldable pub get_next_events : World → ℤ → Manager → Manager × Outcome (List ScheduledEvent)
  unfolding next_of
  get_next_events w now m =
      and_then (load_from_sources w m) (λ next. (next, returns (next_of c now next)))

  -- `now` is read after the load.
  unfoldable pub get_next_events_scheduled :
      World → ℤ → Manager → Manager × Outcome (List ScheduledEvent)
  unfolding scheduled_of
  get_next_events_scheduled w now m =
      and_then (load_from_sources w m) (λ next. (next, returns (scheduled_of c now next)))
