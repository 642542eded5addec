-- ===== src/Service/Formatter.antt =====
-- service/src/core/event_formatter.cpp.
use divoom_dev.Prelude.{List, [], ◌∷◌, ◌++◌, map}
use divoom_dev.Prelude.Int.{ℤ}
use divoom_dev.Prelude.Text.{Text, codes}
use divoom_dev.Common.{Event}
use divoom_dev.Ics.Chrono.{Chrono, to_time_t}
use divoom_dev.Ics.Event.{ScheduledEvent}

-- " - Нет событий в календаре", in UTF-8
abbrev pub default_message : Text
default_message =
    codes " - "
    ++ (208 ∷ 157 ∷ 208 ∷ 181 ∷ 209 ∷ 130 ∷ 32 ∷ 209 ∷ 129 ∷ 208 ∷ 190 ∷ 208 ∷ 177 ∷ 209 ∷ 139 ∷ 209
        ∷ 130 ∷ [])
    ++ (208 ∷ 184 ∷ 208 ∷ 185 ∷ 32 ∷ 208 ∷ 178 ∷ 32 ∷ 208 ∷ 186 ∷ 208 ∷ 176 ∷ 208 ∷ 187 ∷ 208 ∷ 181
        ∷ [])
    ++ (208 ∷ 189 ∷ 208 ∷ 180 ∷ 208 ∷ 176 ∷ 209 ∷ 128 ∷ 208 ∷ 181 ∷ [])

module _ (c : Chrono) where
  unfoldable pub format_local_time : ℤ → Text → Text
  unfolding to_time_t
  format_local_time tp fmt = c.strftime 64 fmt (c.localtime (to_time_t c tp))

  abbrev pub format_event : Event → Text
  format_event event =
      format_local_time event.start (codes "%H:%M")
      ++ codes "-"
      ++ format_local_time event.end (codes "%H:%M")
      ++ codes ": "
      ++ event.summary
      ++ codes "\n"

  -- The loop over the events, after the text so far.
  abbrev pub format_events : Text → List Event → Text
  format_events text [] = text
  format_events text (event ∷ events) = format_events (text ++ format_event event) events

  unfoldable pub format : Text → List Event → Text
  format message [] = message
  format message (event ∷ events) = format_events [] (event ∷ events)

  unfoldable pub format_scheduled : Text → List ScheduledEvent → Text
  unfolding format
  format_scheduled message events = format message (map (λ e. e.event) events)
