-- ===== src/Ics/Pipeline/Zones.antt =====
-- What `collect_vtimezones` of timezone.cpp makes of a written calendar whose lines are not folded.
use divoom_dev.Prelude.{◌≡◌, true, false, List, []}
use divoom_dev.Prelude.Int.{ℤ}
use divoom_dev.Prelude.Text.{Text, codes, starts_with}
use divoom_dev.Ics.Pipeline.Written.{Part}
use divoom_dev.Ics.TextUtils.{trim}
use divoom_dev.Ics.TextUtils.Folding.{FoldedLine}
use divoom_dev.Ics.TextUtils.Tight.{starts_tight, ends_tight}
use divoom_dev.Ics.Timezone.{TzScan}

-- Outside of a VTIMEZONE block.
abbrev idle : List (Text × ℤ) → Text → ℤ → TzScan
idle offsets tzid offset = record {
  offsets = offsets;
  in_tz = false;
  in_std = false;
  cur_tzid = tzid;
  std_offset = offset;
}

-- A line that `trim` leaves as it is and that begins no VTIMEZONE block.
record IsQuiet (line : Text) : Type 0 where
  starts : starts_tight line ≡ true
  ends : ends_tight line ≡ true
  no_zone : starts_with (codes "BEGIN:VTIMEZONE") line ≡ false

-- Other lines begin no VTIMEZONE block.
abbrev pub IsZoneFree : Part → Type 0
IsZoneFree (Part.event e) = Unit
IsZoneFree (Part.timezone z) = Unit
IsZoneFree (Part.other t) = starts_with (codes "BEGIN:VTIMEZONE") (trim t) ≡ false

-- A line that is written in one piece.
abbrev pub IsUnfolded : FoldedLine → Type 0
IsUnfolded l = l.more ≡ []
