-- ===== src/Ics/Datetime/Reading.antt =====
-- What `parse_ics_datetime` of datetime.cpp reads from a date-time of RFC 5545.
use divoom_dev.Prelude.{
  ℕ, ◌/◌, ◌%◌, ◌<◌, ◌≡◌, refl, ap, ◌∙◌, true, false, not, ◌&&◌, ◌==◌, List, [], ◌∷◌, arith,
  if◌then◌else◌, leb, length,
}
use divoom_dev.Prelude.Int.{ℤ, pos, negsuc, ◌-ℤ◌, ◌*ℤ◌, eq_ℤ}
use divoom_dev.Prelude.Text.{Text, is_empty, find_text}
use divoom_dev.Ics.Chrono.{Chrono, Tm, zero_tm}
use divoom_dev.Ics.Datetime.{
  DatetimeInfo, make_datetime_info, parse_ics_datetime, parse_stamp, read_date, read_datetime,
  or_epoch, stoi_at, absolute,
}
use divoom_dev.Ics.TextUtils.{returns, substr, stoi}
use divoom_dev.Ics.TextUtils.Numerals.{digit, stoi-two, stoi-four}
use divoom_dev.Ics.Timezone.{offset_hours, unknown_offset}

pub record WallTime : Type 0 where
  pub year : ℕ
  pub mon : ℕ
  pub mday : ℕ
  pub hour : ℕ
  pub min : ℕ
  pub sec : ℕ

-- Four digits for the year and two for each other field suffice.
pub record IsWritable (w : WallTime) : Type 0 where
  pub year : w.year < 10000
  pub mon : w.mon < 100
  pub mday : w.mday < 100
  pub hour : w.hour < 100
  pub min : w.min < 100
  pub sec : w.sec < 100

abbrev pub two : ℕ → Text → Text
two n rest = digit (n / 10) ∷ digit (n % 10) ∷ rest

abbrev pub four : ℕ → Text → Text
four n rest = digit (n / 1000) ∷ digit (n / 100 % 10) ∷ digit (n / 10 % 10) ∷ digit (n % 10) ∷ rest

-- YYYYMMDDTHHMMSS
abbrev pub written : WallTime → Text → Text
written w rest =
    four w.year (two w.mon (two w.mday (b'T' ∷ two w.hour (two w.min (two w.sec rest)))))

-- The struct tm of a wall time, with the daylight saving left open.
abbrev pub tm_of : WallTime → Tm
tm_of w = record zero_tm {
  year = pos w.year -ℤ pos 1900;
  mon = pos w.mon -ℤ pos 1;
  mday = pos w.mday;
  hour = pos w.hour;
  min = pos w.min;
  sec = pos w.sec;
  isdst = negsuc 0;
}

stoi-two_digits : (n : ℕ) → n < 100 → stoi (two n []) ≡ returns (pos n)
stoi-two_digits n h =
    stoi-two (n / 10) (n % 10) (omega arith) (omega arith) ∙ ap (λ k. returns (pos k)) (omega arith)

stoi-four_digits : (n : ℕ) → n < 10000 → stoi (four n []) ≡ returns (pos n)
stoi-four_digits n h =
    stoi-four (n / 1000) (n / 100 % 10) (n / 10 % 10) (n % 10) (omega arith) (omega arith)
      (omega arith) (omega arith)
    ∙ ap (λ k. returns (pos k)) (omega arith)

-- The six fields stand at their places.
fields_at :
    (w : WallTime) (rest : Text)
    → IsWritable w
    → (stoi_at 0 4 (written w rest) ≡ returns (pos w.year))
      × (stoi_at 4 2 (written w rest) ≡ returns (pos w.mon))
      × (stoi_at 6 2 (written w rest) ≡ returns (pos w.mday))
      × (stoi_at 9 2 (written w rest) ≡ returns (pos w.hour))
      × (stoi_at 11 2 (written w rest) ≡ returns (pos w.min))
      × (stoi_at 13 2 (written w rest) ≡ returns (pos w.sec))
unfolding substr
fields_at w rest h = (
  ground (arith, stoi-four_digits w.year h.year),
  ground (arith, stoi-two_digits w.mon h.mon),
  ground (arith, stoi-two_digits w.mday h.mday),
  ground (arith, stoi-two_digits w.hour h.hour),
  ground (arith, stoi-two_digits w.min h.min),
  ground (arith, stoi-two_digits w.sec h.sec),
)

read_datetime-fields :
    (s : Text) (y mo d h mi se : ℤ)
    → stoi_at 0 4 s ≡ returns y
    → stoi_at 4 2 s ≡ returns mo
    → stoi_at 6 2 s ≡ returns d
    → stoi_at 9 2 s ≡ returns h
    → stoi_at 11 2 s ≡ returns mi
    → stoi_at 13 2 s ≡ returns se
    → read_datetime s
      ≡ returns (record zero_tm {
        year = y -ℤ pos 1900;
        mon = mo -ℤ pos 1;
        mday = d;
        hour = h;
        min = mi;
        sec = se;
      })
unfolding read_datetime read_date
read_datetime-fields s y mo d h mi se e1 e2 e3 e4 e5 e6 = ground arith

pub read_datetime-written :
    (w : WallTime) (rest : Text)
    → IsWritable w
    → read_datetime (written w rest) ≡ returns (record (tm_of w) { isdst = zero_tm.isdst })
read_datetime-written w rest h =
    let f = fields_at w rest h in
    read_datetime-fields (written w rest) _ _ _ _ _ _ f.0 f.1 f.2 f.3 f.4 f.5

module _ (c : Chrono) (offsets : List (Text × ℤ)) (w : WallTime) (h : IsWritable w) where
  parse-read :
      (info : DatetimeInfo) (tm : Tm)
      → (info.is_date && (length info.value == 8)) ≡ false
      → leb 15 (length info.value) ≡ true
      → read_datetime info.value ≡ returns tm
      → parse_ics_datetime c offsets info
        ≡ returns (or_epoch c (absolute c offsets info (record tm { isdst = negsuc 0 })))
  unfolding parse_ics_datetime
  parse-read info tm date long e = ground arith

  local_info :
      make_datetime_info [] (written w [])
      ≡ record { timezone = []; is_date = false; is_utc = false; value = written w [] }
  unfolding make_datetime_info find_text
  local_info =
      let digit_last : (digit (w.sec % 10) == b'Z') ≡ false = ground arith in
      ap (λ b. record { timezone = []; is_date = not b && false; is_utc = b; value = written w [] })
        digit_last

  absolute-zoned :
      (zone value : Text) (tm : Tm)
      → is_empty zone ≡ false
      → absolute c offsets
          (record { timezone = zone; is_date = false; is_utc = false; value = value })
          tm
        ≡ (if eq_ℤ (offset_hours offsets zone) unknown_offset
            then c.mktime tm
            else c.mkgmtime tm -ℤ offset_hours offsets zone *ℤ pos 3600)
  absolute-zoned zone value tm z = ground arith

  -- A date-time that is written with 'Z' is taken for UTC; one without is taken for local time; and
  -- one with a TZID is moved by the whole hours of the zone's offset, or taken for local time when
  -- the zone is not known. The epoch stands for a time that the C library cannot compute.
  pub parse_ics_datetime-written :
      (parse_ics_datetime c offsets (make_datetime_info [] (written w (b'Z' ∷ [])))
        ≡ returns (or_epoch c (c.mkgmtime (tm_of w))))
      × (parse_ics_datetime c offsets (make_datetime_info [] (written w []))
          ≡ returns (or_epoch c (c.mktime (tm_of w))))
      × ((zone : Text)
          → is_empty zone ≡ false
          → parse_ics_datetime c offsets
              (record { timezone = zone; is_date = false; is_utc = false; value = written w [] })
            ≡ returns (
                or_epoch c (
                  if eq_ℤ (offset_hours offsets zone) unknown_offset
                  then c.mktime (tm_of w)
                  else c.mkgmtime (tm_of w) -ℤ offset_hours offsets zone *ℤ pos 3600)))
  unfolding make_datetime_info find_text
  parse_ics_datetime-written = (
    parse-read _ _ refl refl (read_datetime-written w (b'Z' ∷ []) h),
    ap (parse_ics_datetime c offsets) local_info
        ∙ parse-read _ _ refl refl (read_datetime-written w [] h),
    λ zone z.
        parse-read _ _ refl refl (read_datetime-written w [] h)
        ∙ ap (λ t. returns (or_epoch c t)) (absolute-zoned zone (written w []) _ z),
  )

-- The time that a stamp means, in UTC.
abbrev pub stamp_time : Chrono → WallTime → ℤ
stamp_time c w = or_epoch c (c.mkgmtime (record (tm_of w) { isdst = zero_tm.isdst }))

pub parse_stamp-written :
    (c : Chrono) (w : WallTime)
    → IsWritable w
    → parse_stamp c (written w (b'Z' ∷ [])) ≡ stamp_time c w
unfolding parse_stamp
parse_stamp-written c w h = rw (read_datetime-written w (b'Z' ∷ []) h) refl
