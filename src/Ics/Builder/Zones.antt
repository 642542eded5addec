-- ===== src/Ics/Builder/Zones.antt =====
-- Date-times with a TZID parameter, as `split_ics_line` and `make_datetime_info` take them apart.
use divoom_dev.Prelude.{
  ℕ, suc, ◌%◌, ◌≡◌, refl, ap, ◌∙◌, false, none, some, List, [], ◌∷◌, ◌++◌, arith, ◌==◌,
  if◌then◌else◌, length, take, drop,
}
use divoom_dev.Prelude.Int.{ℤ, pos, eq_ℤ, ◌-ℤ◌, ◌*ℤ◌}
use divoom_dev.Prelude.Text.{Lacks, Text, codes, is_empty, find_char, find_text, starts_with}
use divoom_dev.Ics.Chrono.{Chrono}
use divoom_dev.Ics.Datetime.{make_datetime_info, parse_ics_datetime, or_epoch}
use divoom_dev.Ics.Datetime.Reading.{
  WallTime, IsWritable, written, tm_of, parse_ics_datetime-written,
}
use divoom_dev.Ics.TextUtils.{returns, to_upper, split_left, split_ics_line}
use divoom_dev.Ics.TextUtils.Numerals.{digit}
use divoom_dev.Ics.Timezone.{offset_hours, unknown_offset}

pub find_char-absent : (c : ℕ) (s : Text) → Lacks c s → find_char c s ≡ none
unfolding find_char
find_char-absent c [] h = refl
find_char-absent c (d ∷ s) h = ground (arith, find_char-absent c s h.1)

pub find_char-behind :
    (c : ℕ) (s rest : Text) → Lacks c s → find_char c (s ++ c ∷ rest) ≡ some (length s)
unfolding find_char
find_char-behind c [] rest h = ground arith
find_char-behind c (d ∷ s) rest h = ground (arith, find_char-behind c s rest h.1)

pub take-length : (s t : Text) → take (length s) (s ++ t) ≡ s
take-length [] t = refl
take-length (c ∷ s) t = ap (◌∷◌ c) (take-length s t)

pub drop-length : (s : Text) (c : ℕ) (t : Text) → drop (suc (length s)) (s ++ c ∷ t) ≡ t
drop-length [] c t = refl
drop-length (d ∷ s) c t = drop-length s c t

-- A line is cut at its first ':'.
pub split_ics_line-left :
    (left value : Text)
    → Lacks b':' left
    → split_ics_line (left ++ b':' ∷ value) ≡ (
        let (key, params) = split_left left in
        record { key = to_upper key; params = params; value = value })
unfolding split_ics_line
split_ics_line-left left value h =
    rw
      (
        find_char-behind b':' left value h,
        take-length left (b':' ∷ value),
        drop-length left b':' value,
        split_ics_line,
      )
      refl

pub split_left-params :
    (key params : Text) → Lacks b';' key → split_left (key ++ b';' ∷ params) ≡ (key, params)
split_left-params key params h =
    rw
      (
        find_char-behind b';' key params h,
        take-length key (b';' ∷ params),
        drop-length key b';' params,
        split_left,
      )
      refl

starts_with-Lacks : (p : Text) (c : ℕ) (q s : Text) → Lacks c s → starts_with (p ++ c ∷ q) s ≡ false
unfolding starts_with
starts_with-Lacks [] c q [] h = refl
starts_with-Lacks [] c q (d ∷ s) h = ground arith
starts_with-Lacks (x ∷ p) c q [] h = refl
starts_with-Lacks (x ∷ p) c q (d ∷ s) h = ground (arith, starts_with-Lacks p c q s h.1)

find_text-Lacks :
    (p : Text) (c : ℕ) (q s : Text)
    → Lacks c s
    → is_empty (p ++ c ∷ q) ≡ false
    → find_text (p ++ c ∷ q) s ≡ none
unfolding find_text
find_text-Lacks p c q [] h k = ground arith
find_text-Lacks p c q (d ∷ s) h k =
    ground (arith, starts_with-Lacks p c q (d ∷ s) h, find_text-Lacks p c q s h.1 k)

-- A name of a zone that a parameter can hold.
pub record IsZone (zone : Text) : Type 0 where
  pub named : is_empty zone ≡ false
  pub colon : Lacks b':' zone
  pub semicolon : Lacks b';' zone
  pub equals : Lacks b'=' zone

zone_info :
    (zone : Text) (w : WallTime)
    → IsZone zone
    → make_datetime_info (codes "TZID=" ++ zone) (written w [])
      ≡ record { timezone = zone; is_date = false; is_utc = false; value = written w [] }
unfolding make_datetime_info find_text
zone_info zone w h =
    let digit_last : (digit (w.sec % 10) == b'Z') ≡ false = ground arith in
    let no_date = find_text-Lacks (codes "VALUE") b'=' (codes "DATE") zone h.equals refl in
    let whole = find_char-absent b';' zone h.semicolon in
    rw (no_date, whole, h.named, digit_last) refl

-- A date-time with a TZID is moved by the whole hours of the zone's offset.
pub parse_ics_datetime-zoned :
    (c : Chrono) (offsets : List (Text × ℤ)) (zone : Text) (w : WallTime)
    → IsZone zone
    → IsWritable w
    → parse_ics_datetime c offsets (make_datetime_info (codes "TZID=" ++ zone) (written w []))
      ≡ returns (
          or_epoch c (
            if eq_ℤ (offset_hours offsets zone) unknown_offset
            then c.mktime (tm_of w)
            else c.mkgmtime (tm_of w) -ℤ offset_hours offsets zone *ℤ pos 3600))
parse_ics_datetime-zoned c offsets zone w z h =
    ap (parse_ics_datetime c offsets) (zone_info zone w z)
    ∙ (parse_ics_datetime-written c offsets w h).2 zone z.named
