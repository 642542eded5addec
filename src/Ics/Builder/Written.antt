-- ===== src/Ics/Builder/Written.antt =====
-- How the properties of a VEVENT block are written in RFC 5545. The parser of
-- event_builder.cpp has no writer in the repository.
use divoom_dev.Prelude.{ℕ, ◌≡◌, ◌<◌, ◌^◌, true, All, Option, none, some, List, [], ◌∷◌, ◌++◌}
use divoom_dev.Prelude.Decimal.{decimal}
use divoom_dev.Prelude.Int.{pos}
use divoom_dev.Prelude.Text.{Text, codes, Lacks}
use divoom_dev.Common.{Alarm, EventStatus}
use divoom_dev.Ics.Builder.Zones.{IsZone}
use divoom_dev.Ics.Datetime.Reading.{WallTime, IsWritable, written}
use divoom_dev.Ics.Rrule.Written.{Rule, IsRule, rule_text}
use divoom_dev.Ics.TextUtils.Commas.{comma_list, IsMember}
use divoom_dev.Ics.TextUtils.Escapes.{escape}
use divoom_dev.Ics.TextUtils.Tight.{starts_tight, ends_tight, ends_escaped}

-- A date-time in one of the three forms of RFC 5545, section 3.3.5.
pub data Moment : Type 0 where
  utc local : WallTime → Moment
  zoned : Text → WallTime → Moment

pub data Property : Type 0 where
  summary description location categories uid url recurrence_id : Text → Property
  sequence : ℕ → Property
  status : EventStatus → Property
  begins ends : Moment → Property
  created last_modified stamp : WallTime → Property
  organizer : Text → Text → Property
  series : Rule → Property
  exdates : List Text → Property

-- What stands behind the name of a date property.
abbrev pub moment_text : Moment → Text
moment_text (Moment.utc w) = b':' ∷ written w (b'Z' ∷ [])
moment_text (Moment.local w) = b':' ∷ written w []
moment_text (Moment.zoned zone w) = codes ";TZID=" ++ (zone ++ b':' ∷ written w [])

-- As the program spells them; RFC 5545 has CANCELLED for the last.
abbrev pub status_text : EventStatus → Text
status_text EventStatus.confirmed = codes "CONFIRMED"
status_text EventStatus.tentative = codes "TENTATIVE"
status_text EventStatus.canceled = codes "CANCELED"

-- The content line of a property.
abbrev pub line_of : Property → Text
line_of (Property.summary s) = codes "SUMMARY:" ++ escape s
line_of (Property.description s) = codes "DESCRIPTION:" ++ escape s
line_of (Property.location s) = codes "LOCATION:" ++ escape s
line_of (Property.categories s) = codes "CATEGORIES:" ++ escape s
line_of (Property.uid s) = codes "UID:" ++ s
line_of (Property.url s) = codes "URL:" ++ s
line_of (Property.recurrence_id s) = codes "RECURRENCE-ID:" ++ s
line_of (Property.sequence n) = codes "SEQUENCE:" ++ decimal n
line_of (Property.status s) = codes "STATUS:" ++ status_text s
line_of (Property.begins m) = codes "DTSTART" ++ moment_text m
line_of (Property.ends m) = codes "DTEND" ++ moment_text m
line_of (Property.created w) = codes "CREATED:" ++ written w (b'Z' ∷ [])
line_of (Property.last_modified w) = codes "LAST-MODIFIED:" ++ written w (b'Z' ∷ [])
line_of (Property.stamp w) = codes "DTSTAMP:" ++ written w (b'Z' ∷ [])
line_of (Property.organizer name address) =
    codes "ORGANIZER;CN=" ++ (name ++ (codes ":mailto:" ++ address))
line_of (Property.exdates ds) = codes "EXDATE:" ++ comma_list ds
line_of (Property.series r) = codes "RRULE:" ++ rule_text r

abbrev pub IsMoment : Moment → Type 0
IsMoment (Moment.utc w) = IsWritable w
IsMoment (Moment.local w) = IsWritable w
IsMoment (Moment.zoned zone w) = IsZone zone × IsWritable w

-- A name that a parameter can hold without quotes or escapes.
pub record IsPlain (name : Text) : Type 0 where
  pub colon : Lacks b':' name
  pub semicolon : Lacks b';' name
  pub backslash : Lacks b'\\' name

-- The properties that a line can carry: no blank at the end of a value, none around a summary; a
-- RECURRENCE-ID without ':'; a sequence number that an int holds.
abbrev pub IsProperty : Property → Type 0
IsProperty (Property.summary s) = (starts_tight s ≡ true) × (ends_tight s ≡ true)
IsProperty (Property.description s) = ends_escaped s ≡ true
IsProperty (Property.location s) = ends_escaped s ≡ true
IsProperty (Property.categories s) = ends_escaped s ≡ true
IsProperty (Property.uid s) = ends_tight s ≡ true
IsProperty (Property.url s) = ends_tight s ≡ true
IsProperty (Property.recurrence_id s) = Lacks b':' s × (ends_tight s ≡ true)
IsProperty (Property.sequence n) = n < 2 ^ 31
IsProperty (Property.status s) = Unit
IsProperty (Property.begins m) = IsMoment m
IsProperty (Property.ends m) = IsMoment m
IsProperty (Property.created w) = IsWritable w
IsProperty (Property.last_modified w) = IsWritable w
IsProperty (Property.stamp w) = IsWritable w
IsProperty (Property.organizer name address) = IsPlain name × (ends_tight address ≡ true)
IsProperty (Property.exdates ds) = All IsMember ds
IsProperty (Property.series r) = IsRule r

-- A VALARM block that goes off some minutes before the event.
pub record Reminder : Type 0 where
  pub minutes : ℕ
  pub action : Text
  pub note : Text

abbrev pub reminder_lines : Reminder → List Text
reminder_lines r =
    (codes "TRIGGER:-PT" ++ (decimal r.minutes ++ b'M' ∷ []))
    ∷ (codes "ACTION:" ++ escape r.action)
    ∷ (codes "DESCRIPTION:" ++ escape r.note)
    ∷ []

pub record IsReminder (r : Reminder) : Type 0 where
  pub minutes : r.minutes < 2 ^ 31
  pub action : (starts_tight r.action ≡ true) × (ends_tight r.action ≡ true)
  pub note : (starts_tight r.note ≡ true) × (ends_tight r.note ≡ true)

abbrev pub alarm_of : Reminder → Alarm
alarm_of r = record { trigger_minutes = pos r.minutes; action = r.action; description = r.note }

pub record Entry : Type 0 where
  pub properties : List Property
  pub reminder : Option Reminder

abbrev pub alarm_lines_of : Option Reminder → List Text
alarm_lines_of none = []
alarm_lines_of (some r) = reminder_lines r

abbrev pub IsOptional : Option Reminder → Type 0
IsOptional none = Unit
IsOptional (some r) = IsReminder r

pub record IsEntry (e : Entry) : Type 0 where
  pub properties : All IsProperty e.properties
  pub reminder : IsOptional e.reminder
