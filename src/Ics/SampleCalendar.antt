-- ===== src/Ics/SampleCalendar.antt =====
-- A written calendar with a time zone and a series that goes off ten minutes before: test data for
-- the calendar plugin.
use divoom_dev.Prelude.{
  ◌≡◌, refl, Bool, true, not, ◌&&◌, none, some, List, [], ◌∷◌, All, arith, ◌==◌, map,
}
use divoom_dev.Prelude.Decimal.{decimal}
use divoom_dev.Prelude.Text.{Text, codes, text_eq, starts_with}
use divoom_dev.Ics.Builder.Written.{Moment, Property, Entry, IsEntry}
use divoom_dev.Ics.Builder.Zones.{IsZone}
use divoom_dev.Ics.Datetime.Reading.{WallTime, IsWritable}
use divoom_dev.Ics.Event.{Freq}
use divoom_dev.Ics.Pipeline.Written.{Zone, Part, IsPart, calendar_lines}
use divoom_dev.Ics.Pipeline.Zones.{IsUnfolded, IsZoneFree}
use divoom_dev.Ics.TextUtils.{trim, strip_cr}
use divoom_dev.Ics.TextUtils.Folding.{FoldedLine, IsContent, IsFoldable, logical}

abbrev nine : WallTime
nine = record { year = 2023; mon = 12; mday = 4; hour = 9; min = 0; sec = 0 }

abbrev moscow : Zone
moscow = record { tzid = codes "M"; east = true; hours = 3; minutes = 0 }

abbrev stand_up : Entry
stand_up = record {
  properties =
      Property.uid (codes "s")
      ∷ Property.summary (codes "a;b")
      ∷ Property.begins (Moment.zoned (codes "M") nine)
      ∷ Property.series (record { freq = Freq.daily; interval = 1; until = none; byday = [] })
      ∷ [];
  reminder = some (record { minutes = 10; action = codes "DISPLAY"; note = [] });
}

abbrev pub parts : List Part
parts =
    Part.other (codes "BEGIN:VCALENDAR")
    ∷ Part.timezone moscow
    ∷ Part.event stand_up
    ∷ Part.other (codes "END:VCALENDAR")
    ∷ []

-- A text as a line in one piece.
abbrev whole : Text → FoldedLine
whole [] = record { head = 0; tail = []; more = [] }
whole (c ∷ s) = record { head = c; tail = s; more = [] }

abbrev pub lines : List FoldedLine
lines = map whole (calendar_lines parts)

is_content : Text → Bool
is_content [] = true
is_content (c ∷ s) = not (c == 10) && is_content s

is_content-IsContent : (s : Text) → is_content s ≡ true → IsContent s
unfolding is_content
is_content-IsContent [] h = tt
is_content-IsContent (c ∷ s) h = (λ e. ground arith, is_content-IsContent s (ground arith))

is_line : FoldedLine → Bool
is_line l = not (l.head == 32) && (not (l.head == 9) && is_content (l.head ∷ l.tail))

are_whole : List Text → Bool
are_whole [] = true
are_whole (t ∷ ts) = is_line (whole t) && are_whole ts

more-whole : (t : Text) → (whole t).more ≡ []
more-whole [] = refl
more-whole (c ∷ s) = refl

whole-IsFoldable : (t : Text) → is_line (whole t) ≡ true → IsFoldable (whole t)
unfolding is_line
whole-IsFoldable [] h = record {
  not_blank = (λ e. ground arith, λ e. ground arith);
  first = (λ e. ground arith, tt);
  rest = tt;
}
whole-IsFoldable (c ∷ s) h = record {
  not_blank = (λ e. ground arith, λ e. ground arith);
  first = is_content-IsContent (c ∷ s) (ground arith);
  rest = tt;
}

all-IsFoldable : (ts : List Text) → are_whole ts ≡ true → All IsFoldable (map whole ts)
unfolding are_whole
all-IsFoldable [] h = tt
all-IsFoldable (t ∷ ts) h = (whole-IsFoldable t (ground arith), all-IsFoldable ts (ground arith))

all-IsUnfolded : (ts : List Text) → All IsUnfolded (map whole ts)
all-IsUnfolded [] = tt
all-IsUnfolded (t ∷ ts) = (more-whole t, all-IsUnfolded ts)

nine-IsWritable : IsWritable nine
nine-IsWritable = record {
  year = omega arith;
  mon = omega arith;
  mday = omega arith;
  hour = omega arith;
  min = omega arith;
  sec = omega arith;
}

moscow-IsZone : IsZone (codes "M")
moscow-IsZone = record {
  named = refl;
  colon = ground arith;
  semicolon = ground arith;
  equals = ground arith;
}

stand_up-IsEntry : IsEntry stand_up
stand_up-IsEntry = record {
  properties = (
    refl,
    (
      (refl, refl),
      ((moscow-IsZone, nine-IsWritable), (record { interval = omega arith; until = tt }, tt)),
    ),
  );
  reminder = record { minutes = omega arith; action = (refl, refl); note = (refl, refl) };
}

pub parts-IsPart : All IsPart parts
unfolding trim strip_cr text_eq
parts-IsPart = (
  (refl, refl),
  (
    record { named = refl; ends = refl; hours = omega arith; minutes = omega arith },
    (stand_up-IsEntry, ((refl, refl), tt)),
  ),
)

pub parts-IsZoneFree : All IsZoneFree parts
unfolding starts_with trim
parts-IsZoneFree = (refl, (tt, (tt, (refl, tt))))

pub lines-parts : map logical lines ≡ calendar_lines parts
unfolding decimal
lines-parts = refl

pub lines-IsFoldable : All IsFoldable lines
lines-IsFoldable =
    all-IsFoldable (calendar_lines parts) (unfold are_whole is_line is_content decimal in refl)

pub lines-IsUnfolded : All IsUnfolded lines
lines-IsUnfolded = all-IsUnfolded (calendar_lines parts)
