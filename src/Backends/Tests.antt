-- ===== src/Backends/Tests.antt =====
-- Changes made to both backends, and the list of two sources.
use mathlib.Core.Quot
use divoom_dev.Prelude.{refl, Bool, true, false, List, [], ◌∷◌, map}
use divoom_dev.Prelude.Int.{pos}
use divoom_dev.Prelude.Text.{Text, codes, text_eq}
use divoom_dev.Backends.Listing.{Stored}
use divoom_dev.Backends.Tables.{Tables}
use divoom_dev.Storage.{Backend, CalendarSource, find_item}
use divoom_dev.Storage.Reopen.{Change, fresh}
use divoom_dev.Storage.Sample.{Item, plain}

abbrev source : Text → Bool → CalendarSource
source url enabled = record { url = url; priority = pos 1; enabled = enabled }

abbrev changes : List (Bool × Change)
changes =
    (true, Change.source (source (codes "b") true))
    ∷ (false, Change.source (source (codes "a") false))
    ∷ (
      true,
      Change.account
          (record { service = codes "jira"; login = codes "me"; password = codes "secret" }),
    )
    ∷ (true, Change.no_account (codes "divoom"))
    ∷ (true, Change.meta (codes "tz") (codes "+3"))
    ∷ []

abbrev nothing : Tables
nothing = record { accounts = []; sources = []; metas = [] }

abbrev two_sources : List CalendarSource
two_sources = source (codes "b") true ∷ source (codes "a") true ∷ []

abbrev stored : Stored
stored = (two_sources, unfold find_item text_eq in (refl, (refl, tt)))

abbrev backend : Backend Item
backend = record (fresh plain) {
  doc = record (fresh plain).doc { calendar_sources = map plain.of_source two_sources };
}
