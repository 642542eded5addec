-- ===== src/Ics/Manager/Delivery.antt =====
-- A load of event_manager.cpp from a source that delivers written calendars, into a cache that holds
-- none of their urls: the composition with cache.cpp, parser.cpp and pipeline.cpp.
use divoom_dev.Prelude.{ℕ, ◌≡◌, false, Option, none, some, List, [], ◌∷◌, ◌++◌, map, concat, All}
use divoom_dev.Prelude.Map.{lookup}
use divoom_dev.Prelude.Text.{Text, text_eq, is_empty}
use divoom_dev.Ics.Cache.{Cache}
use divoom_dev.Ics.Chrono.{Chrono}
use divoom_dev.Ics.Event.{ScheduledEvent}
use divoom_dev.Ics.Manager.{Manager, World, store_fetched}
use divoom_dev.Ics.Pipeline.{select}
use divoom_dev.Ics.Pipeline.Written.{Part, IsPart, calendar_lines, raws_of}
use divoom_dev.Ics.TextUtils.Folding.{FoldedLine, IsFoldable, fold_text, logical}
use divoom_dev.Ics.Timezone.{collect_vtimezones}
use divoom_dev.Ics.Window.{CalendarSettings, compute_window}

-- A calendar as it is written for a url, with the places where its lines are folded.
pub record Delivery : Type 0 where
  pub url : Text
  pub lines : List FoldedLine
  pub parts : List Part

-- The source returns the calendar of the delivery.
pub record IsDelivered (w : World) (d : Delivery) : Type 0 where
  pub fetched : w.fetch d.url ≡ fold_text d.lines
  pub some_text : is_empty (fold_text d.lines) ≡ false
  pub foldable : All IsFoldable d.lines
  pub written : map logical d.lines ≡ calendar_lines d.parts
  pub parts : All IsPart d.parts

-- The cache, if there is one, holds nothing for the url.
abbrev pub IsMissing : Option Cache → Text → Type 0
IsMissing none url = Unit
IsMissing (some cache) url = lookup url cache.store ≡ none

abbrev pub IsDistinct : List Delivery → Type 0
IsDistinct [] = Unit
IsDistinct (d ∷ ds) = All (λ e. text_eq d.url e.url ≡ false) ds × IsDistinct ds

module _ (c : Chrono) (tick_ms : ℕ) (w : World) where
  -- The events that the calendar of a delivery gives.
  abbrev pub events_of : CalendarSettings → Delivery → List ScheduledEvent
  events_of settings d =
      select c (compute_window c (w.parse_at d.url) settings)
        (raws_of c (collect_vtimezones (fold_text d.lines)) d.parts)

  -- The cache once the deliveries are loaded.
  caches_after : Option Cache → List Delivery → Option Cache
  caches_after cache [] = cache
  caches_after cache (d ∷ ds) =
      caches_after (store_fetched c tick_ms w cache d.url (w.fetch d.url)) ds

  loaded : Manager → List Delivery → Manager
  loaded m ds = record m {
    cache = caches_after m.cache ds;
    fetched_events = m.fetched_events ++ concat (map (events_of m.settings) ds);
  }

  -- One delivery.
  added : Manager → Delivery → Manager
  added m d = record m {
    cache = store_fetched c tick_ms w m.cache d.url (w.fetch d.url);
    fetched_events = m.fetched_events ++ events_of m.settings d;
  }
