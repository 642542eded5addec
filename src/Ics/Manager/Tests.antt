-- ===== src/Ics/Manager/Tests.antt =====
-- A manager over one url.
use divoom_dev.Prelude.{true, some, [], ◌∷◌}
use divoom_dev.Prelude.Int.{ℤ, pos}
use divoom_dev.Prelude.Text.{Text, codes}
use divoom_dev.Ics.Cache.{Cache, init, default_options}
use divoom_dev.Ics.Event.{default_event}
use divoom_dev.Ics.Manager.{World, Manager}
use divoom_dev.Ics.Manager.Delivery.{Delivery}
use divoom_dev.Ics.SampleCalendar.{lines, parts}
use divoom_dev.Ics.TextUtils.Folding.{fold_text}
use divoom_dev.Ics.Sample.{monday_morning, two_days}

abbrev url : Text
url = codes "u"

abbrev world_at : ℤ → Text → World
world_at now content = record {
  fetch = λ u. content;
  get_at = λ u. now;
  put_at = λ u. now;
  stale_at = λ u. now;
  parse_at = λ u. now;
}

abbrev empty : Cache
empty = init default_options

abbrev cached_x : Cache
cached_x = record empty {
  store = (url, record { content = codes "x"; fetched_at = pos 1000 }) ∷ [];
}

abbrev manager : Manager
manager = record {
  has_source = true;
  cache = some empty;
  settings = two_days;
  manual_events = default_event ∷ [];
  fetched_events = [];
  calendar_urls = url ∷ [];
}

-- What the source delivers.
abbrev delivered : World
delivered = world_at monday_morning (fold_text lines)

abbrev delivery : Delivery
delivery = record { url = url; lines = lines; parts = parts }
