-- ===== src/Ics/Rrule/Reading.antt =====
-- What `parse_rrule_data` of recurrence.cpp makes of a written rule.
use divoom_dev.Prelude.{
  ℕ, ◌^◌, ◌<◌, ◌≡◌, refl, ap, ◌∙◌, true, Option, none, some, List, [], ◌∷◌, ◌++◌, arith,
}
use divoom_dev.Prelude.Decimal.{decimal, decimal-IsDigits, decimal-head}
use divoom_dev.Prelude.Text.{Text, codes}
use divoom_dev.Ics.Chrono.{Chrono}
use divoom_dev.Ics.Datetime.Reading.{
  WallTime, IsWritable, written, four, two, read_datetime-written, stamp_time,
}
use divoom_dev.Ics.Event.{Freq}
use divoom_dev.Ics.Rrule.{
  regex_search, freq_re, interval_re, until_re, byday_re, freq_of, interval_of, until_of, byday_of,
  parse_rrule_data, non_empty,
}
use divoom_dev.Ics.Rrule.Days.{no_until-byday_text, byday_of-byday_text}
use divoom_dev.Ics.Rrule.Search.{IsDigits, ends_digits, take_while-stop, skip_until, skip_byday}
use divoom_dev.Ics.Rrule.Written.{
  Weekday, Rule, freq_text, byday_text, until_text, rule_text, IsRule, IsUntil, until_time,
  rule_data,
}
use divoom_dev.Ics.TextUtils.{returns}
use divoom_dev.Ics.TextUtils.Numerals.{stoi-decimal}

freq_re-freq_text :
    (f : Freq) (rest : Text)
    → freq_of (regex_search freq_re (codes "FREQ=" ++ (freq_text f ++ rest))) ≡ f
unfolding regex_search freq_re freq_of
freq_re-freq_text Freq.daily rest = refl
freq_re-freq_text Freq.weekly rest = refl
freq_re-freq_text Freq.monthly rest = refl
freq_re-freq_text Freq.yearly rest = refl

-- In front of the interval there is none of the three other parts.
abbrev front : Freq → Text → Text
front f rest = codes "FREQ=" ++ (freq_text f ++ (codes ";INTERVAL=" ++ rest))

front-until :
    (f : Freq) (rest : Text) → regex_search until_re (front f rest) ≡ regex_search until_re rest
unfolding regex_search until_re
front-until Freq.daily rest = refl
front-until Freq.weekly rest = refl
front-until Freq.monthly rest = refl
front-until Freq.yearly rest = refl

front-byday :
    (f : Freq) (rest : Text) → regex_search byday_re (front f rest) ≡ regex_search byday_re rest
unfolding regex_search byday_re
front-byday Freq.daily rest = refl
front-byday Freq.weekly rest = refl
front-byday Freq.monthly rest = refl
front-byday Freq.yearly rest = refl

front-interval :
    (f : Freq) (rest : Text)
    → regex_search interval_re (front f rest) ≡ regex_search interval_re (codes "INTERVAL=" ++ rest)
unfolding regex_search interval_re
front-interval Freq.daily rest = refl
front-interval Freq.weekly rest = refl
front-interval Freq.monthly rest = refl
front-interval Freq.yearly rest = refl

ends_digits-until_text :
    (u : Option WallTime) (ds : List Weekday) → ends_digits (until_text u (byday_text ds)) ≡ true
ends_digits-until_text none [] = refl
ends_digits-until_text none (d ∷ ds) = refl
ends_digits-until_text (some w) ds = refl

non_empty-decimal : (n : ℕ) → non_empty (decimal n) ≡ some (decimal n)
non_empty-decimal n = let (c, s, e) = decimal-head n in rw e refl

interval_of-rest :
    (n : ℕ) (rest : Text)
    → n < 2 ^ 31
    → ends_digits rest ≡ true
    → interval_of (regex_search interval_re (codes "INTERVAL=" ++ (decimal n ++ rest))) ≡ returns n
unfolding regex_search interval_re
interval_of-rest n rest h k =
    rw
      (
        take_while-stop (decimal n) rest (decimal-IsDigits n) k,
        non_empty-decimal n,
        regex_search,
        interval_re,
      )
      (unfold interval_of in rw (stoi-decimal n h) refl)

-- The two runs of digits of a date-time.
abbrev date_digits : WallTime → Text
date_digits w = four w.year (two w.mon (two w.mday []))

abbrev time_digits : WallTime → Text
time_digits w = two w.hour (two w.min (two w.sec []))

date-IsDigits : (w : WallTime) → IsWritable w → IsDigits (date_digits w)
date-IsDigits w h = ground (arith, h.year, h.mon, h.mday)

time-IsDigits : (w : WallTime) → IsWritable w → IsDigits (time_digits w)
time-IsDigits w h = ground (arith, h.hour, h.min, h.sec)

found_until :
    (w : WallTime) (rest : Text)
    → IsWritable w
    → regex_search until_re (codes ";UNTIL=" ++ written w (b'Z' ∷ rest))
      ≡ some (written w (b'Z' ∷ []))
unfolding regex_search until_re
found_until w rest h =
    rw
      (
        take_while-stop (date_digits w) (b'T' ∷ (time_digits w ++ b'Z' ∷ rest)) (date-IsDigits w h)
            refl,
        take_while-stop (time_digits w) (b'Z' ∷ rest) (time-IsDigits w h) refl,
        regex_search,
        until_re,
      )
      refl

until_of-written :
    (c : Chrono) (w : WallTime)
    → IsWritable w
    → until_of c (some (written w (b'Z' ∷ []))) ≡ returns (stamp_time c w)
unfolding until_of
until_of-written c w h = rw (read_datetime-written w [] h) refl

until_of-until_text :
    (c : Chrono) (u : Option WallTime) (ds : List Weekday)
    → IsUntil u
    → until_of c (regex_search until_re (until_text u (byday_text ds))) ≡ returns (until_time c u)
until_of-until_text c none ds h = ap (until_of c) (no_until-byday_text ds) ∙ unfold until_of in refl
until_of-until_text c (some w) ds h =
    ap (until_of c) (found_until w (byday_text ds) h) ∙ until_of-written c w h

skip_until_text :
    (u : Option WallTime) (rest : Text)
    → IsUntil u
    → regex_search byday_re (until_text u rest) ≡ regex_search byday_re rest
unfolding regex_search byday_re
skip_until_text none rest h = refl
skip_until_text (some w) rest h =
    skip_byday (date_digits w) (b'T' ∷ (time_digits w ++ b'Z' ∷ rest)) (date-IsDigits w h)
    ∙ skip_byday (time_digits w) (b'Z' ∷ rest) (time-IsDigits w h)

-- A rule that is written with FREQ, an INTERVAL below 2^31, and with or without UNTIL and BYDAY is
-- read back: its frequency, its interval, its end in UTC (the epoch stands for no end, and for one
-- that the C library cannot compute) and the set of its days. The fields of the end fit four digits
-- for the year and two for each other.
pub parse_rrule_data-rule_text :
    (c : Chrono) (r : Rule) → IsRule r → parse_rrule_data c (rule_text r) ≡ returns (rule_data c r)
unfolding parse_rrule_data
parse_rrule_data-rule_text c r h =
    let tail = until_text r.until (byday_text r.byday) in
    let digits = decimal-IsDigits r.interval in
    let interval =
      ap interval_of (front-interval r.freq (decimal r.interval ++ tail))
      ∙ interval_of-rest r.interval tail h.interval (ends_digits-until_text r.until r.byday) in
    let until =
      ap (until_of c) (
        front-until r.freq (decimal r.interval ++ tail)
        ∙ skip_until (decimal r.interval) tail digits)
      ∙ until_of-until_text c r.until r.byday h.until in
    let byday =
      ap byday_of (
        front-byday r.freq (decimal r.interval ++ tail)
        ∙ skip_byday (decimal r.interval) tail digits
        ∙ skip_until_text r.until (byday_text r.byday) h.until)
      ∙ byday_of-byday_text r.byday in
    rw
      (
        interval,
        until,
        byday,
        freq_re-freq_text r.freq (codes ";INTERVAL=" ++ (decimal r.interval ++ tail)),
      )
      refl
