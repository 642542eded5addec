-- ===== src/Ics/Rrule/Days.antt =====
-- The BYDAY part of a written rule, as `parse_rrule_data` of recurrence.cpp reads it.
use mathlib.Core.List.{append-nil}
use divoom_dev.Prelude.{
  ◌≡◌, refl, sym, ap, false, ◌∙◌, true, Option, none, some, ℕ, List, [], ◌∷◌, ◌++◌, map, arith, All,
}
use divoom_dev.Prelude.Text.{Text, codes, take_while, is_empty}
use divoom_dev.Ics.Rrule.{
  regex_search, until_re, byday_re, byday_of, add_days, day_number, is_byday_char, non_empty,
}
use divoom_dev.Ics.Rrule.Written.{
  Weekday, Rule, freq_text, until_text, rule_text, day_text, iso_number, byday_text, days_of,
}
use divoom_dev.Ics.TextUtils.Commas.{
  comma_list, IsMember, pieces-comma_list, comma_list-is_empty, comma_list-tight,
}
use divoom_dev.Ics.TextUtils.Tight.{ends_tight, ends_tight-append, ends_tight-digits}
use divoom_dev.Ics.Datetime.Reading.{WallTime, written}
use divoom_dev.Ics.Event.{Freq}
use divoom_dev.Prelude.Decimal.{decimal, decimal-IsDigits}

day_number-day_text : (d : Weekday) → day_number (day_text d) ≡ some (iso_number d)
unfolding day_number
day_number-day_text Weekday.mo = refl
day_number-day_text Weekday.tu = refl
day_number-day_text Weekday.we = refl
day_number-day_text Weekday.th = refl
day_number-day_text Weekday.fr = refl
day_number-day_text Weekday.sa = refl
day_number-day_text Weekday.su = refl

add_days-day_text :
    (ds : List Weekday) (days : List ℕ) → add_days days (map day_text ds) ≡ days_of days ds
unfolding add_days
add_days-day_text [] days = refl
add_days-day_text (d ∷ ds) days = rw (day_number-day_text d, add_days) (add_days-day_text ds _)

day_text-IsMember : (d : Weekday) → IsMember (day_text d)
day_text-IsMember Weekday.mo = record {
  some_text = refl;
  starts = refl;
  ends = refl;
  comma = ground arith;
}
day_text-IsMember Weekday.tu = record {
  some_text = refl;
  starts = refl;
  ends = refl;
  comma = ground arith;
}
day_text-IsMember Weekday.we = record {
  some_text = refl;
  starts = refl;
  ends = refl;
  comma = ground arith;
}
day_text-IsMember Weekday.th = record {
  some_text = refl;
  starts = refl;
  ends = refl;
  comma = ground arith;
}
day_text-IsMember Weekday.fr = record {
  some_text = refl;
  starts = refl;
  ends = refl;
  comma = ground arith;
}
day_text-IsMember Weekday.sa = record {
  some_text = refl;
  starts = refl;
  ends = refl;
  comma = ground arith;
}
day_text-IsMember Weekday.su = record {
  some_text = refl;
  starts = refl;
  ends = refl;
  comma = ground arith;
}

days-IsMember : (ds : List Weekday) → All IsMember (map day_text ds)
days-IsMember [] = tt
days-IsMember (d ∷ ds) = (day_text-IsMember d, days-IsMember ds)

-- The class [A-Z0-9,] holds for all of a list of days.
take_while-day :
    (d : Weekday) (rest : Text)
    → take_while is_byday_char (day_text d ++ rest) ≡ day_text d ++ take_while is_byday_char rest
take_while-day Weekday.mo rest = refl
take_while-day Weekday.tu rest = refl
take_while-day Weekday.we rest = refl
take_while-day Weekday.th rest = refl
take_while-day Weekday.fr rest = refl
take_while-day Weekday.sa rest = refl
take_while-day Weekday.su rest = refl

take_while-days :
    (ds : List Weekday)
    → take_while is_byday_char (comma_list (map day_text ds)) ≡ comma_list (map day_text ds)
take_while-days [] = refl
take_while-days (d ∷ []) =
    ap (take_while is_byday_char) (sym (append-nil (day_text d)))
    ∙ take_while-day d []
    ∙ append-nil (day_text d)
take_while-days (d ∷ e ∷ ds) =
    take_while-day d (b',' ∷ comma_list (map day_text (e ∷ ds)))
    ∙ ap (λ t. day_text d ++ b',' ∷ t) (take_while-days (e ∷ ds))

no_until-day :
    (d : Weekday) (rest : Text)
    → regex_search until_re (day_text d ++ b',' ∷ rest) ≡ regex_search until_re rest
unfolding regex_search until_re
no_until-day Weekday.mo rest = refl
no_until-day Weekday.tu rest = refl
no_until-day Weekday.we rest = refl
no_until-day Weekday.th rest = refl
no_until-day Weekday.fr rest = refl
no_until-day Weekday.sa rest = refl
no_until-day Weekday.su rest = refl

no_until-last : (d : Weekday) → regex_search until_re (day_text d) ≡ none
unfolding regex_search until_re
no_until-last Weekday.mo = refl
no_until-last Weekday.tu = refl
no_until-last Weekday.we = refl
no_until-last Weekday.th = refl
no_until-last Weekday.fr = refl
no_until-last Weekday.sa = refl
no_until-last Weekday.su = refl

no_until-days : (ds : List Weekday) → regex_search until_re (comma_list (map day_text ds)) ≡ none
no_until-days [] = unfold regex_search until_re in refl
no_until-days (d ∷ []) = no_until-last d
no_until-days (d ∷ e ∷ ds) =
    no_until-day d (comma_list (map day_text (e ∷ ds))) ∙ no_until-days (e ∷ ds)

pub no_until-byday_text : (ds : List Weekday) → regex_search until_re (byday_text ds) ≡ none
unfolding regex_search until_re
no_until-byday_text [] = refl
no_until-byday_text (d ∷ ds) = no_until-days (d ∷ ds)

non_empty-some : (s : Text) → is_empty s ≡ false → non_empty s ≡ some s
non_empty-some [] h = ground (arith, h)
non_empty-some (c ∷ s) h = refl

byday_of-days : (ds : List Weekday) → byday_of (some (comma_list (map day_text ds))) ≡ days_of [] ds
unfolding byday_of
byday_of-days ds =
    ap (add_days []) (pieces-comma_list (map day_text ds) (days-IsMember ds))
    ∙ add_days-day_text ds []

pub byday_of-byday_text :
    (ds : List Weekday) → byday_of (regex_search byday_re (byday_text ds)) ≡ days_of [] ds
unfolding regex_search byday_re
byday_of-byday_text [] = unfold byday_of in refl
byday_of-byday_text (d ∷ ds) =
    let group = comma_list (map day_text (d ∷ ds)) in
    let found =
      non_empty-some group
        (comma_list-is_empty (day_text d) (map day_text ds) (day_text-IsMember d).some_text) in
    rw (take_while-days (d ∷ ds), found) (byday_of-days (d ∷ ds))

freq_text-tight : (f : Freq) → ends_tight (freq_text f) ≡ true
freq_text-tight Freq.daily = refl
freq_text-tight Freq.weekly = refl
freq_text-tight Freq.monthly = refl
freq_text-tight Freq.yearly = refl

byday_text-tight : (ds : List Weekday) → ends_tight (byday_text ds) ≡ true
byday_text-tight [] = refl
byday_text-tight (d ∷ ds) =
    ends_tight-append (codes ";BYDAY=") (comma_list (map day_text (d ∷ ds))) refl
      (comma_list-tight (map day_text (d ∷ ds)) (days-IsMember (d ∷ ds)))

until_text-tight :
    (u : Option WallTime) (rest : Text)
    → ends_tight rest ≡ true
    → ends_tight (until_text u rest) ≡ true
until_text-tight none rest h = h
until_text-tight (some w) rest h =
    ends_tight-append (codes ";UNTIL=" ++ written w (b'Z' ∷ [])) rest refl h

-- A written rule has no blank at its end.
pub rule_text-tight : (r : Rule) → ends_tight (rule_text r) ≡ true
rule_text-tight r =
    let tail = until_text r.until (byday_text r.byday) in
    let behind = codes ";INTERVAL=" ++ (decimal r.interval ++ tail) in
    ends_tight-append (codes "FREQ=") (freq_text r.freq ++ behind) refl (
      ends_tight-append (freq_text r.freq) behind (freq_text-tight r.freq) (
        ends_tight-append (codes ";INTERVAL=") (decimal r.interval ++ tail) refl (
          ends_tight-append (decimal r.interval) tail
            (ends_tight-digits (decimal r.interval) (decimal-IsDigits r.interval))
            (until_text-tight r.until (byday_text r.byday) (byday_text-tight r.byday)))))
