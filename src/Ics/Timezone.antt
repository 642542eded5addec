-- ===== src/Ics/Timezone.antt =====
-- plugins/ics/src/detail/timezone.cpp.
pub mod Offsets
use divoom_dev.Prelude.{
  ℕ, ◌+◌, Bool, true, false, ◌&&◌, not, Option, none, some, List, [], ◌∷◌, ◌==◌, if◌then◌else◌, ltb,
  length, drop,
}
use divoom_dev.Prelude.Int.{ℤ, pos, negsuc, ◌+ℤ◌, ◌-ℤ◌, eq_ℤ, leb_ℤ}
use divoom_dev.Prelude.Map.{lookup, insert}
use divoom_dev.Prelude.Text.{Text, codes, is_empty, starts_with, pieces}
use divoom_dev.Ics.TextUtils.{
  Outcome, returns, ◌>>=◌, or_else, stoi, substr, trim, to_upper, strip_cr,
}

-- kUnknownOffset, INT_MIN
abbrev pub unknown_offset : ℤ
unknown_offset = negsuc 2147483647

abbrev negated : Bool → ℤ → ℤ
negated true n = pos 0 -ℤ n
negated false n = n

-- The body of the `try`: hours and minutes at `i`, half hours rounded up.
abbrev offset_at : ℕ → Bool → Text → Outcome ℤ
offset_at i negative s = do
  h ← substr i 2 s
  hh ← stoi h
  m ← substr (i + 2) 2 s
  mm ← stoi m
  returns (negated negative (hh +ℤ pos (if leb_ℤ (pos 30) mm then 1 else 0)))

abbrev offset_from : ℕ → Bool → Text → ℤ
offset_from i negative s =
    if ltb (length s) (i + 4)
    then unknown_offset
    else or_else (offset_at i negative s) unknown_offset

abbrev signed_offset : Text → ℤ
signed_offset [] = unknown_offset
signed_offset (c ∷ s) =
    if c == b'+'
    then offset_from 1 false (c ∷ s)
    else if c == b'-'
    then offset_from 1 true (c ∷ s)
    else offset_from 0 false (c ∷ s)

unfoldable pub parse_tzoffset : Text → ℤ
unfolding stoi substr ◌+ℤ◌ ◌-ℤ◌
parse_tzoffset s = if ltb (length s) 5 then unknown_offset else signed_offset s

-- The loop state of `collect_vtimezones`, with `vtz_offsets_`.
pub record TzScan : Type 0 where
  pub offsets : List (Text × ℤ)
  pub in_tz : Bool
  pub in_std : Bool
  pub cur_tzid : Text
  pub std_offset : ℤ

abbrev pub tz_start : TzScan
tz_start = record {
  offsets = [];
  in_tz = false;
  in_std = false;
  cur_tzid = [];
  std_offset = unknown_offset;
}

abbrev end_vtimezone : TzScan → TzScan
end_vtimezone s = record s {
  offsets =
      if not (is_empty s.cur_tzid) && not (eq_ℤ s.std_offset unknown_offset)
      then insert s.cur_tzid s.std_offset s.offsets
      else s.offsets;
  in_tz = false;
  in_std = false;
}

-- One round of the loop, on the trimmed line.
unfoldable pub scan_tz_line : TzScan → Text → TzScan
unfolding starts_with
scan_tz_line s t =
    if starts_with (codes "BEGIN:VTIMEZONE") t
    then record s { in_tz = true; in_std = false; cur_tzid = []; std_offset = unknown_offset }
    else if not s.in_tz
    then s
    else if starts_with (codes "END:VTIMEZONE") t
    then end_vtimezone s
    else if starts_with (codes "BEGIN:STANDARD") t
    then record s { in_std = true }
    else if starts_with (codes "BEGIN:DAYLIGHT") t
    then record s { in_std = false }
    else if starts_with (codes "TZID:") t
    then record s { cur_tzid = drop 5 t }
    else if s.in_std && starts_with (codes "TZOFFSETTO:") t
    then record s { std_offset = parse_tzoffset (drop 11 t) }
    else s

unfoldable pub scan_tz_lines : TzScan → List Text → TzScan
scan_tz_lines s [] = s
scan_tz_lines s (line ∷ rest) = scan_tz_lines (scan_tz_line s (trim (strip_cr line))) rest

-- The offsets by TZID, as the pass over the VTIMEZONE blocks leaves them.
unfoldable pub collect_vtimezones : Text → List (Text × ℤ)
unfolding scan_tz_line scan_tz_lines
collect_vtimezones ics_content = (scan_tz_lines tz_start (pieces 10 ics_content)).offsets

abbrev pub static_table : List (Text × ℤ)
static_table =
    (codes "UTC", pos 0)
    ∷ (codes "EUROPE/KALININGRAD", pos 2)
    ∷ (codes "EUROPE/MOSCOW", pos 3)
    ∷ (codes "EUROPE/VOLGOGRAD", pos 3)
    ∷ (codes "EUROPE/SAMARA", pos 4)
    ∷ (codes "ASIA/YEKATERINBURG", pos 5)
    ∷ (codes "ASIA/BANGKOK", pos 7)
    ∷ (codes "EUROPE/LONDON", pos 1)
    ∷ (codes "RUSSIAN STANDARD TIME", pos 3)
    ∷ (codes "GMT STANDARD TIME", pos 0)
    ∷ (codes "SE ASIA STANDARD TIME", pos 7)
    ∷ (codes "EKATERINBURG STANDARD TIME", pos 5)
    ∷ (codes "RUSSIA TIME ZONE 3", pos 4)
    ∷ []

abbrev or_unknown : Option ℤ → ℤ
or_unknown none = unknown_offset
or_unknown (some offset) = offset

unfoldable pub static_offset : Text → ℤ
unfolding to_upper lookup
static_offset tz = or_unknown (lookup (to_upper tz) static_table)

unfoldable pub offset_hours : List (Text × ℤ) → Text → ℤ
unfolding static_offset lookup
offset_hours offsets tz = elim (lookup tz offsets) [ none ↦ static_offset tz | some o ↦ o ]
