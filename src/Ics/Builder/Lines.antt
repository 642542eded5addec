-- ===== src/Ics/Builder/Lines.antt =====
-- Written properties have no blank at their ends, so that `trim` of text_utils.cpp and the removal
-- of '\r' leave their lines as they are.
use divoom_dev.Prelude.{◌≡◌, refl, ◌∙◌, true, [], ◌∷◌, ◌++◌, arith}
use divoom_dev.Prelude.Decimal.{decimal, decimal-IsDigits}
use divoom_dev.Prelude.Text.{Text, codes}
use divoom_dev.Common.{EventStatus}
use divoom_dev.Ics.Rrule.Days.{rule_text-tight}
use divoom_dev.Ics.Rrule.Written.{rule_text}
use divoom_dev.Ics.TextUtils.Commas.{comma_list-tight, comma_list}
use divoom_dev.Ics.Builder.Written.{Moment, Property, moment_text, status_text, line_of, IsProperty}
use divoom_dev.Ics.Datetime.Reading.{WallTime, written}
use divoom_dev.Ics.TextUtils.Escapes.{escape}
use divoom_dev.Ics.TextUtils.Tight.{
  starts_tight, ends_tight, ends_tight-behind, ends_tight-escaped, escape-tight, ends_tight-digits,
  ends_tight-last,
}

pub status_text-tight : (s : EventStatus) → ends_tight (status_text s) ≡ true
status_text-tight EventStatus.confirmed = refl
status_text-tight EventStatus.tentative = refl
status_text-tight EventStatus.canceled = refl

pub written-tight : (w : WallTime) → ends_tight (written w []) ≡ true
written-tight w = ground arith

moment_text-tight : (key : Text) (m : Moment) → ends_tight (key ++ moment_text m) ≡ true
moment_text-tight key (Moment.utc w) = ends_tight-last key (b':' ∷ written w (b'Z' ∷ [])) refl
moment_text-tight key (Moment.local w) =
    ends_tight-last key (b':' ∷ written w []) refl ∙ written-tight w
moment_text-tight key (Moment.zoned zone w) =
    ends_tight-last key (codes ";TZID=" ++ (zone ++ b':' ∷ written w [])) refl
    ∙ ends_tight-last (codes ";TZID=" ++ zone) (b':' ∷ written w []) refl
    ∙ written-tight w

-- The line of a property is left as it is by `trim` and the removal of '\r'.
pub line_of-tight : (p : Property) → IsProperty p → ends_tight (line_of p) ≡ true
line_of-tight (Property.summary s) h =
    ends_tight-behind (codes "SUMMARY") (escape s) (escape-tight s (ends_tight-escaped s h.1))
line_of-tight (Property.description s) h =
    ends_tight-behind (codes "DESCRIPTION") (escape s) (escape-tight s h)
line_of-tight (Property.location s) h =
    ends_tight-behind (codes "LOCATION") (escape s) (escape-tight s h)
line_of-tight (Property.categories s) h =
    ends_tight-behind (codes "CATEGORIES") (escape s) (escape-tight s h)
line_of-tight (Property.uid s) h = ends_tight-behind (codes "UID") s h
line_of-tight (Property.url s) h = ends_tight-behind (codes "URL") s h
line_of-tight (Property.recurrence_id s) h = ends_tight-behind (codes "RECURRENCE-ID") s h.1
line_of-tight (Property.sequence n) h =
    ends_tight-behind (codes "SEQUENCE") (decimal n)
      (ends_tight-digits (decimal n) (decimal-IsDigits n))
line_of-tight (Property.status s) h =
    ends_tight-behind (codes "STATUS") (status_text s) (status_text-tight s)
line_of-tight (Property.begins m) h = moment_text-tight (codes "DTSTART") m
line_of-tight (Property.ends m) h = moment_text-tight (codes "DTEND") m
line_of-tight (Property.created w) h = refl
line_of-tight (Property.last_modified w) h = refl
line_of-tight (Property.stamp w) h = refl
line_of-tight (Property.organizer name address) h =
    ends_tight-last (codes "ORGANIZER;CN=" ++ name) (codes ":mailto:" ++ address) refl
    ∙ ends_tight-behind (codes ":mailto") address h.1
line_of-tight (Property.series r) h =
    ends_tight-behind (codes "RRULE") (rule_text r) (rule_text-tight r)
line_of-tight (Property.exdates ds) h =
    ends_tight-behind (codes "EXDATE") (comma_list ds) (comma_list-tight ds h)

pub starts-line_of : (p : Property) → starts_tight (line_of p) ≡ true
starts-line_of (Property.uid s) = refl
starts-line_of _ = refl
