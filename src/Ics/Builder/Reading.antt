-- ===== src/Ics/Builder/Reading.antt =====
-- What `build` of event_builder.cpp makes of the written properties of an event.
use divoom_dev.Prelude.{
  ◌≡◌, refl, ap, ◌∙◌, List, [], ◌∷◌, ◌++◌, arith, All, All-append, map, Option, none, some,
}
use divoom_dev.Prelude.Decimal.{decimal, decimal-IsDigits}
use divoom_dev.Prelude.Int.{ℤ}
use divoom_dev.Prelude.Text.{Text, codes, text_eq, find_char, find_text, Lacks}
use divoom_dev.Common.{EventStatus}
use divoom_dev.Ics.Builder.Alarms.Reading.{parse_alarm-no_lines, parse_alarm-reminder_lines}
use divoom_dev.Ics.Builder.Alarms.{parse_alarm}
use divoom_dev.Ics.Builder.{
  set_property, build_line, build_lines, build, recurrence_key, after_last, status_of,
}
use divoom_dev.Ics.Builder.Content.{
  build_line-plain, build_line-escaped, build_line-params, build_line-moment, parse-moment,
}
use divoom_dev.Ics.Builder.Lines.{status_text-tight}
use divoom_dev.Ics.TextUtils.Commas.{comma_list-tight, pieces-comma_list, comma_list}
use divoom_dev.Ics.Builder.Lists.{organizer-name, add_exdates-exclude}
use divoom_dev.Ics.Builder.Meaning.{says, says_all, entry_says, with_reminder}
use divoom_dev.Ics.Builder.Written.{
  Property, status_text, line_of, IsProperty, Reminder, Entry, IsEntry, IsOptional, alarm_lines_of,
}
use divoom_dev.Ics.Chrono.{Chrono}
use divoom_dev.Ics.Datetime.Reading.{written, parse_stamp-written}
use divoom_dev.Ics.Event.{RawEvent, default_raw}
use divoom_dev.Ics.Rrule.Days.{rule_text-tight}
use divoom_dev.Ics.Rrule.Reading.{parse_rrule_data-rule_text}
use divoom_dev.Ics.Rrule.Written.{rule_text}
use divoom_dev.Ics.TextUtils.{returns, ◌>>=◌, to_upper}
use divoom_dev.Ics.TextUtils.Escapes.{unescape-escape}
use divoom_dev.Ics.TextUtils.Numerals.{stoi-decimal}
use divoom_dev.Ics.TextUtils.Tight.{
  trim-tight, ends_tight-behind, ends_tight-escaped, ends_tight-digits,
}

after_last-Lacks : (best s : Text) → Lacks b':' s → after_last b':' best s ≡ best
after_last-Lacks best [] h = refl
after_last-Lacks best (d ∷ s) h = ground (arith, after_last-Lacks best s h.1)

recurrence_key-Lacks : (s : Text) → Lacks b':' s → recurrence_key s ≡ s
unfolding recurrence_key
recurrence_key-Lacks s h = after_last-Lacks s s h

status_of-status_text : (s : EventStatus) → status_of (status_text s) ≡ s
unfolding status_of
status_of-status_text EventStatus.confirmed = refl
status_of-status_text EventStatus.tentative = refl
status_of-status_text EventStatus.canceled = refl

module _ (c : Chrono) (offsets : List (Text × ℤ)) where
  reads :
      (re : RawEvent) (p : Property)
      → IsProperty p
      → build_line c offsets re (line_of p) ≡ returns (says c offsets re p)
  unfolding set_property text_eq to_upper find_char find_text
  reads re (Property.uid s) h = build_line-plain c offsets re b'U' (codes "ID") s refl h
  reads re (Property.url s) h = build_line-plain c offsets re b'U' (codes "RL") s refl h
  reads re (Property.summary s) h =
      build_line-escaped c offsets re b'S' (codes "UMMARY") s refl (ends_tight-escaped s h.1)
      ∙ rw (unescape-escape s, trim-tight s h.0 h.1) refl
  reads re (Property.description s) h =
      build_line-escaped c offsets re b'D' (codes "ESCRIPTION") s refl h
      ∙ rw (unescape-escape s) refl
  reads re (Property.location s) h =
      build_line-escaped c offsets re b'L' (codes "OCATION") s refl h ∙ rw (unescape-escape s) refl
  reads re (Property.categories s) h =
      build_line-escaped c offsets re b'C' (codes "ATEGORIES") s refl h
      ∙ rw (unescape-escape s) refl
  reads re (Property.recurrence_id s) h =
      build_line-plain c offsets re b'R' (codes "ECURRENCE-ID") s refl h.1
      ∙ rw (recurrence_key-Lacks s h.0) refl
  reads re (Property.sequence n) h =
      build_line-plain c offsets re b'S' (codes "EQUENCE") (decimal n) refl
        (ends_tight-digits (decimal n) (decimal-IsDigits n))
      ∙ rw (stoi-decimal n h) refl
  reads re (Property.status s) h =
      build_line-plain c offsets re b'S' (codes "TATUS") (status_text s) refl (status_text-tight s)
      ∙ rw (status_of-status_text s) refl
  reads re (Property.begins m) h =
      build_line-moment c offsets re b'D' (codes "TSTART") m refl h
      ∙ rw (parse-moment c offsets m h) refl
  reads re (Property.ends m) h =
      build_line-moment c offsets re b'D' (codes "TEND") m refl h
      ∙ rw (parse-moment c offsets m h) refl
  reads re (Property.created w) h =
      build_line-plain c offsets re b'C' (codes "REATED") (written w (b'Z' ∷ [])) refl refl
      ∙ rw (parse_stamp-written c w h) refl
  reads re (Property.last_modified w) h =
      build_line-plain c offsets re b'L' (codes "AST-MODIFIED") (written w (b'Z' ∷ [])) refl refl
      ∙ rw (parse_stamp-written c w h) refl
  reads re (Property.stamp w) h =
      build_line-plain c offsets re b'D' (codes "TSTAMP") (written w (b'Z' ∷ [])) refl refl
      ∙ rw (parse_stamp-written c w h) refl
  reads re (Property.organizer name address) h =
      build_line-params c offsets re b'O' (codes "RGANIZER") (codes "CN=" ++ name)
        (codes "mailto:" ++ address) refl (All-append _ (codes "CN=") name (ground arith) h.0.colon)
        (ends_tight-behind (codes "mailto") address h.1)
      ∙ rw (organizer-name name h.0) refl
  reads re (Property.exdates ds) h =
      build_line-plain c offsets re b'E' (codes "XDATE") (comma_list ds) refl
        (comma_list-tight ds h)
      ∙ rw (pieces-comma_list ds h, add_exdates-exclude ds re h) refl
  reads re (Property.series r) h =
      build_line-plain c offsets re b'R' (codes "RULE") (rule_text r) refl (rule_text-tight r)
      ∙ rw (parse_rrule_data-rule_text c r h) refl

  reads_all :
      (re : RawEvent) (ps : List Property)
      → All IsProperty ps
      → build_lines c offsets re (map line_of ps) ≡ returns (says_all c offsets re ps)
  unfolding build_lines
  reads_all re [] h = refl
  reads_all re (p ∷ ps) h =
      ap (λ o. o >>= λ next. build_lines c offsets next (map line_of ps)) (reads re p h.0)
      ∙ reads_all (says c offsets re p) ps h.1

  alarms_read :
      (re : RawEvent) (r : Option Reminder)
      → IsOptional r
      → (parse_alarm (alarm_lines_of r) re.ev >>= λ ev. returns (record re { ev = ev }))
        ≡ returns (with_reminder re r)
  alarms_read re none h = rw (parse_alarm-no_lines re.ev) refl
  alarms_read re (some r) h = rw (parse_alarm-reminder_lines r re.ev h) refl

  -- The lines of an entry are built into what it says.
  pub build-entry :
      (e : Entry)
      → IsEntry e
      → build c offsets (map line_of e.properties) (alarm_lines_of e.reminder)
        ≡ returns (entry_says c offsets e)
  unfolding build
  build-entry e h =
      rw (reads_all default_raw e.properties h.properties)
        (alarms_read (says_all c offsets default_raw e.properties) e.reminder h.reminder)
