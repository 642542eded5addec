-- ===== src/Ics/Pipeline/Collect.antt =====
-- `collect_raw_events` of plugins/ics/src/detail/pipeline.cpp: the scan for VEVENT blocks.
use divoom_dev.Prelude.{Bool, true, false, not, List, [], ◌∷◌, ◌++◌, if◌then◌else◌}
use divoom_dev.Prelude.Int.{ℤ}
use divoom_dev.Prelude.Text.{Text, codes, text_eq, is_empty, pieces}
use divoom_dev.Ics.Builder.{build}
use divoom_dev.Ics.Chrono.{Chrono}
use divoom_dev.Ics.Event.{RawEvent}
use divoom_dev.Ics.TextUtils.{Outcome, returns, ◌>>=◌, trim, strip_cr}

-- The variables of the loop.
pub record Scan : Type 0 where
  pub raws : List RawEvent
  pub in_event : Bool
  pub in_alarm : Bool
  pub event_lines : List Text
  pub alarm_lines : List Text

abbrev pub scan_start : Scan
scan_start = record {
  raws = [];
  in_event = false;
  in_alarm = false;
  event_lines = [];
  alarm_lines = [];
}

abbrev no_lines : List Text → Bool
no_lines [] = true
no_lines (l ∷ ls) = false

-- An event without a UID is dropped.
abbrev keep_with_uid : List RawEvent → RawEvent → List RawEvent
keep_with_uid raws re = if is_empty re.ev.uid then raws else raws ++ re ∷ []

module _ (c : Chrono) (offsets : List (Text × ℤ)) where
  unfoldable pub flush : Scan → Outcome Scan
  unfolding build
  flush s =
      if no_lines s.event_lines
      then returns (record s { event_lines = []; alarm_lines = [] })
      else do
        re ← build c offsets s.event_lines s.alarm_lines
        returns (record s { raws = keep_with_uid s.raws re; event_lines = []; alarm_lines = [] })

  -- One round of the loop, on the trimmed line.
  unfoldable pub scan_line : Scan → Text → Outcome Scan
  unfolding flush text_eq
  scan_line s t =
      if text_eq t (codes "BEGIN:VEVENT")
      then returns
          (record s { in_event = true; in_alarm = false; event_lines = []; alarm_lines = [] })
      else if text_eq t (codes "END:VEVENT")
      then flush (record s { in_event = false; in_alarm = false })
      else if not s.in_event
      then returns s
      else if text_eq t (codes "BEGIN:VALARM")
      then returns (record s { in_alarm = true; alarm_lines = [] })
      else if text_eq t (codes "END:VALARM")
      then returns (record s { in_alarm = false })
      else if s.in_alarm
      then returns (record s { alarm_lines = s.alarm_lines ++ t ∷ [] })
      else returns (record s { event_lines = s.event_lines ++ t ∷ [] })

  unfoldable pub scan_lines : Scan → List Text → Outcome Scan
  unfolding scan_line
  scan_lines s [] = returns s
  scan_lines s (line ∷ rest) = scan_line s (trim (strip_cr line)) >>= λ next. scan_lines next rest

  unfoldable pub collect_raw_events : Text → Outcome (List RawEvent)
  unfolding scan_lines pieces trim strip_cr
  collect_raw_events unfolded = do s ← scan_lines scan_start (pieces 10 unfolded); returns s.raws
