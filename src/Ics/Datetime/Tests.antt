-- ===== src/Ics/Datetime/Tests.antt =====
-- A date-time and offsets, as they stand in calendars.
use divoom_dev.Prelude.{◌≡◌, refl, List, [], ◌∷◌}
use divoom_dev.Prelude.Int.{ℤ, pos, ◌*ℤ◌}
use divoom_dev.Prelude.Text.{Text, codes, text_eq}
use divoom_dev.Ics.Datetime.{make_datetime_info, parse_ics_datetime, parse_stamp}
use divoom_dev.Ics.Sample.{utc}
use divoom_dev.Ics.TextUtils.{returns}
use divoom_dev.Ics.Timezone.{offset_hours}

abbrev moscow : List (Text × ℤ)
moscow = (codes "M", pos 3) ∷ []

datetime_runs :
    (parse_ics_datetime utc moscow (make_datetime_info [] (codes "20231204T090000Z"))
      ≡ returns (pos 1701680400))
    × (parse_ics_datetime utc moscow (make_datetime_info (codes "TZID=M") (codes "20231204T090000"))
        ≡ returns (pos 1701669600))
    × (parse_stamp utc (codes "20231204T090000Z") ≡ pos 1701680400)
    × (parse_stamp utc (codes "20231204") ≡ pos 0)
unfolding parse_ics_datetime make_datetime_info parse_stamp offset_hours ◌*ℤ◌ text_eq
datetime_runs = (refl, refl, refl, refl)
