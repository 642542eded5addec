-- ===== src/Ics/Pipeline/Events.antt =====
-- How `collect_raw_events` of pipeline.cpp passes over the parts of a written calendar.
use mathlib.Core.List.{append_assoc, append-nil}
use divoom_dev.Prelude.{
  ◌≡◌, refl, sym, ap, ◌∙◌, true, Option, none, some, List, [], ◌∷◌, ◌++◌, map, All, arith,
  if◌then◌else◌,
}
use divoom_dev.Prelude.Decimal.{decimal}
use divoom_dev.Prelude.Int.{ℤ}
use divoom_dev.Prelude.Text.{Text, codes, text_eq, is_empty}
use divoom_dev.Ics.Builder.Alarms.Reading.{trigger-tight, action-tight, note-tight}
use divoom_dev.Ics.Builder.Lines.{starts-line_of, line_of-tight}
use divoom_dev.Ics.Builder.Reading.{build-entry}
use divoom_dev.Ics.Builder.Meaning.{entry_says}
use divoom_dev.Ics.Builder.Written.{
  Property, Reminder, Entry, IsProperty, IsOptional, IsEntry, line_of, alarm_lines_of,
}
use divoom_dev.Ics.Chrono.{Chrono}
use divoom_dev.Ics.Event.{RawEvent}
use divoom_dev.Ics.Pipeline.Collect.{Scan, scan_start, scan_line, scan_lines, flush}
use divoom_dev.Ics.Pipeline.Written.{
  Zone, Part, reminder_block, part_lines, zone_lines, offset_text, IsPart, IsZoneBlock,
}
use divoom_dev.Ics.TextUtils.{returns, ◌>>=◌}
use divoom_dev.Ics.TextUtils.Escapes.{escape}
use divoom_dev.Ics.TextUtils.Tight.{
  starts_tight, ends_tight, trim-tight, strip_cr-tight, ends_tight-behind,
}

pub tzid-tight : (z : Zone) → IsZoneBlock z → ends_tight (codes "TZID:" ++ z.tzid) ≡ true
tzid-tight z h = ends_tight-behind (codes "TZID") z.tzid h.ends

pub offset-tight : (z : Zone) → ends_tight (codes "TZOFFSETTO:" ++ offset_text z) ≡ true
offset-tight z = ground arith

module _ (c : Chrono) (offsets : List (Text × ℤ)) where
  -- Between two events.
  abbrev pub idle : List RawEvent → Scan
  idle raws = record scan_start { raws = raws }

  -- Within an event.
  abbrev collecting : List RawEvent → List Text → Scan
  collecting raws lines = record scan_start { raws = raws; in_event = true; event_lines = lines }

  -- One round on a line that `trim` leaves as it is.
  scan_lines-tight :
      (s : Scan) (line : Text) (rest : List Text)
      → starts_tight line ≡ true
      → ends_tight line ≡ true
      → scan_lines c offsets s (line ∷ rest)
        ≡ (scan_line c offsets s line >>= λ next. scan_lines c offsets next rest)
  unfolding scan_lines
  scan_lines-tight s line rest h k = rw (strip_cr-tight line k, trim-tight line h k) refl

  scan_line-property :
      (raws : List RawEvent) (lines : List Text) (p : Property)
      → scan_line c offsets (collecting raws lines) (line_of p)
        ≡ returns (collecting raws (lines ++ line_of p ∷ []))
  unfolding scan_line text_eq
  scan_line-property raws lines (Property.uid s) = refl
  scan_line-property raws lines _ = refl

  scan_properties :
      (raws : List RawEvent) (lines : List Text) (ps : List Property) (rest : List Text)
      → All IsProperty ps
      → scan_lines c offsets (collecting raws lines) (map line_of ps ++ rest)
        ≡ scan_lines c offsets (collecting raws (lines ++ map line_of ps)) rest
  scan_properties raws lines [] rest h =
      ap (λ t. scan_lines c offsets (collecting raws t) rest) (sym (append-nil lines))
  scan_properties raws lines (p ∷ ps) rest h =
      scan_lines-tight _ (line_of p) _ (starts-line_of p) (line_of-tight p h.0)
      ∙ ap (λ o. o >>= λ next. scan_lines c offsets next (map line_of ps ++ rest))
          (scan_line-property raws lines p)
      ∙ scan_properties raws (lines ++ line_of p ∷ []) ps rest h.1
      ∙ ap (λ t. scan_lines c offsets (collecting raws t) rest)
          (append_assoc lines (line_of p ∷ []) (map line_of ps))

  -- A block of a reminder leaves its lines as the lines of the alarm.
  scan_reminder :
      (raws : List RawEvent) (lines : List Text) (r : Option Reminder) (rest : List Text)
      → IsOptional r
      → scan_lines c offsets (collecting raws lines) (reminder_block r ++ rest)
        ≡ scan_lines c offsets
            (record (collecting raws lines) { alarm_lines = alarm_lines_of r })
            rest
  unfolding scan_line text_eq
  scan_reminder raws lines none rest h = refl
  scan_reminder raws lines (some r) rest h =
      rw
        (
          scan_lines-tight (collecting raws lines) (codes "BEGIN:VALARM") _ refl refl,
          scan_lines-tight _ (codes "TRIGGER:-PT" ++ (decimal r.minutes ++ b'M' ∷ [])) _ refl
              (trigger-tight r),
          scan_lines-tight _ (codes "ACTION:" ++ escape r.action) _ refl (action-tight r h),
          scan_lines-tight _ (codes "DESCRIPTION:" ++ escape r.note) _ refl (note-tight r h),
          scan_lines-tight _ (codes "END:VALARM") _ refl refl,
        )
        refl

  -- What the end of an event adds.
  unfoldable pub keep : List RawEvent → RawEvent → List RawEvent
  keep raws re = if is_empty re.ev.uid then raws else raws ++ re ∷ []

  -- An event without properties has no UID.
  keep-no_properties :
      (raws : List RawEvent) (r : Option Reminder)
      → keep raws (entry_says c offsets (record { properties = []; reminder = r })) ≡ raws
  unfolding keep
  keep-no_properties raws none = refl
  keep-no_properties raws (some r) = refl

  flush-entry :
      (raws : List RawEvent) (ps : List Property) (r : Option Reminder)
      → IsEntry (record { properties = ps; reminder = r })
      → flush c offsets
          (record (idle raws) { event_lines = map line_of ps; alarm_lines = alarm_lines_of r })
        ≡ returns
            (idle (keep raws (entry_says c offsets (record { properties = ps; reminder = r }))))
  unfolding flush
  flush-entry raws [] r h = ap (λ k. returns (idle k)) (sym (keep-no_properties raws r))
  flush-entry raws (p ∷ ps) r h = rw (build-entry c offsets _ h) (unfold keep in refl)

  scan_end :
      (raws : List RawEvent) (e : Entry) (rest : List Text)
      → IsEntry e
      → scan_lines c offsets
          (record (collecting raws (map line_of e.properties)) {
            alarm_lines = alarm_lines_of e.reminder;
          })
          (codes "END:VEVENT" ∷ rest)
        ≡ scan_lines c offsets (idle (keep raws (entry_says c offsets e))) rest
  unfolding scan_line text_eq
  scan_end raws e rest h =
      scan_lines-tight _ (codes "END:VEVENT") rest refl refl
      ∙ ap (λ o. o >>= λ next. scan_lines c offsets next rest)
          (flush-entry raws e.properties e.reminder h)

  pub scan_event :
      (raws : List RawEvent) (e : Entry) (rest : List Text)
      → IsEntry e
      → scan_lines c offsets (idle raws) (part_lines (Part.event e) ++ rest)
        ≡ scan_lines c offsets (idle (keep raws (entry_says c offsets e))) rest
  unfolding scan_line text_eq
  scan_event raws e rest h =
      let tail = reminder_block e.reminder ++ codes "END:VEVENT" ∷ [] in
      scan_lines-tight (idle raws) (codes "BEGIN:VEVENT") _ refl refl
      ∙ ap (scan_lines c offsets (collecting raws []))
          (append_assoc (map line_of e.properties) tail rest)
      ∙ scan_properties raws [] e.properties (tail ++ rest) h.properties
      ∙ ap (scan_lines c offsets (collecting raws (map line_of e.properties)))
          (append_assoc (reminder_block e.reminder) (codes "END:VEVENT" ∷ []) rest)
      ∙ scan_reminder raws (map line_of e.properties) e.reminder (codes "END:VEVENT" ∷ rest)
          h.reminder
      ∙ scan_end raws e rest h

  pub scan_zone :
      (raws : List RawEvent) (z : Zone) (rest : List Text)
      → IsZoneBlock z
      → scan_lines c offsets (idle raws) (zone_lines z ++ rest)
        ≡ scan_lines c offsets (idle raws) rest
  unfolding scan_line text_eq
  scan_zone raws z rest h =
      rw
        (
          scan_lines-tight (idle raws) (codes "BEGIN:VTIMEZONE") _ refl refl,
          scan_lines-tight (idle raws) (codes "TZID:" ++ z.tzid) _ refl (tzid-tight z h),
          scan_lines-tight (idle raws) (codes "BEGIN:STANDARD") _ refl refl,
          scan_lines-tight (idle raws) (codes "TZOFFSETTO:" ++ offset_text z) _ refl
              (offset-tight z),
          scan_lines-tight (idle raws) (codes "END:STANDARD") _ refl refl,
          scan_lines-tight (idle raws) (codes "END:VTIMEZONE") _ refl refl,
        )
        refl

  pub scan_other :
      (raws : List RawEvent) (t : Text) (rest : List Text)
      → IsPart (Part.other t)
      → scan_lines c offsets (idle raws) (t ∷ rest) ≡ scan_lines c offsets (idle raws) rest
  unfolding scan_lines scan_line
  scan_other raws t rest h = rw (h.0, h.1) refl
