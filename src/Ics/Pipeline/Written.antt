-- ===== src/Ics/Pipeline/Written.antt =====
-- How a calendar is written in RFC 5545, with the raw events and the offsets that it says. The
-- parser of pipeline.cpp and timezone.cpp has no writer in the repository.
use divoom_dev.Prelude.{
  ℕ, ◌+◌, ◌<◌, ◌≡◌, Bool, true, false, Option, none, some, List, [], ◌∷◌, ◌++◌, map, if◌then◌else◌,
  leb,
}
use divoom_dev.Prelude.Int.{ℤ, pos, sub_ℕ}
use divoom_dev.Prelude.Map.{insert}
use divoom_dev.Prelude.Text.{Text, codes, text_eq, is_empty}
use divoom_dev.Ics.Builder.Meaning.{entry_says}
use divoom_dev.Ics.Builder.Written.{Reminder, Entry, IsEntry, line_of, reminder_lines}
use divoom_dev.Ics.Chrono.{Chrono}
use divoom_dev.Ics.Datetime.Reading.{two}
use divoom_dev.Ics.Event.{RawEvent}
use divoom_dev.Ics.TextUtils.{trim, strip_cr}
use divoom_dev.Ics.TextUtils.Tight.{ends_tight}

-- A VTIMEZONE block with a fixed offset from UTC.
pub record Zone : Type 0 where
  pub tzid : Text
  pub east : Bool
  pub hours : ℕ
  pub minutes : ℕ

abbrev pub offset_text : Zone → Text
offset_text z = (if z.east then b'+' else b'-') ∷ two z.hours (two z.minutes [])

abbrev pub zone_lines : Zone → List Text
zone_lines z =
    codes "BEGIN:VTIMEZONE"
    ∷ (codes "TZID:" ++ z.tzid)
    ∷ codes "BEGIN:STANDARD"
    ∷ (codes "TZOFFSETTO:" ++ offset_text z)
    ∷ codes "END:STANDARD"
    ∷ codes "END:VTIMEZONE"
    ∷ []

-- Half an hour and more count as one.
abbrev pub whole_hours : Zone → ℕ
whole_hours z = z.hours + (if leb 30 z.minutes then 1 else 0)

abbrev pub zone_offset : Zone → ℤ
zone_offset z = if z.east then pos (whole_hours z) else sub_ℕ 0 (whole_hours z)

pub record IsZoneBlock (z : Zone) : Type 0 where
  pub named : is_empty z.tzid ≡ false
  pub ends : ends_tight z.tzid ≡ true
  pub hours : z.hours < 100
  pub minutes : z.minutes < 100

-- A calendar is a list of events, time zones and other lines.
pub data Part : Type 0 where
  event : Entry → Part
  timezone : Zone → Part
  other : Text → Part

abbrev pub reminder_block : Option Reminder → List Text
reminder_block none = []
reminder_block (some r) = codes "BEGIN:VALARM" ∷ (reminder_lines r ++ codes "END:VALARM" ∷ [])

abbrev pub part_lines : Part → List Text
part_lines (Part.event e) =
    codes "BEGIN:VEVENT"
    ∷ (map line_of e.properties ++ (reminder_block e.reminder ++ codes "END:VEVENT" ∷ []))
part_lines (Part.timezone z) = zone_lines z
part_lines (Part.other t) = t ∷ []

abbrev pub calendar_lines : List Part → List Text
calendar_lines [] = []
calendar_lines (p ∷ ps) = part_lines p ++ calendar_lines ps

-- Other lines neither begin nor end an event.
abbrev pub IsPart : Part → Type 0
IsPart (Part.event e) = IsEntry e
IsPart (Part.timezone z) = IsZoneBlock z
IsPart (Part.other t) =
    (text_eq (trim (strip_cr t)) (codes "BEGIN:VEVENT") ≡ false)
    × (text_eq (trim (strip_cr t)) (codes "END:VEVENT") ≡ false)

-- The offsets by TZID that the time zones of a calendar declare; the last of a name counts.
abbrev pub zones_from : List (Text × ℤ) → List Part → List (Text × ℤ)
zones_from offsets [] = offsets
zones_from offsets (Part.event e ∷ ps) = zones_from offsets ps
zones_from offsets (Part.timezone z ∷ ps) = zones_from (insert z.tzid (zone_offset z) offsets) ps
zones_from offsets (Part.other t ∷ ps) = zones_from offsets ps

module _ (c : Chrono) (offsets : List (Text × ℤ)) where
  -- The raw events of a calendar: what its entries say, those without a UID left out.
  abbrev pub raws_of : List Part → List RawEvent
  raws_of [] = []
  raws_of (Part.event e ∷ ps) =
      let re = entry_says c offsets e in
      let rest = raws_of ps in if is_empty re.ev.uid then rest else re ∷ rest
  raws_of (Part.timezone z ∷ ps) = raws_of ps
  raws_of (Part.other t ∷ ps) = raws_of ps
