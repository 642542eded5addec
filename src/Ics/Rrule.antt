-- ===== src/Ics/Rrule.antt =====
-- `parse_rrule_data` of plugins/ics/src/detail/recurrence.cpp. Each std::regex_search is the search
-- for the leftmost place where its pattern fits; the patterns repeat their classes greedily.
pub mod Days
pub mod Reading
pub mod Search
mod Tests
pub mod Written
use divoom_dev.Prelude.{
  ℕ, Bool, ◌&&◌, ◌||◌, Option, none, some, List, [], ◌∷◌, ◌++◌, ◌==◌, if◌then◌else◌, ltb, drop,
  length, get_last?, drop_last,
}
use divoom_dev.Prelude.Int.{ℤ, pos, pos_part, eq_ℤ}
use divoom_dev.Prelude.Text.{
  Text, codes, text_eq, is_empty, is_digit, starts_with, take_while, pieces,
}
use divoom_dev.Ics.Chrono.{Chrono, minus_one, from_time_t}
use divoom_dev.Ics.Datetime.{read_datetime}
use divoom_dev.Ics.Event.{Freq, RruleData, default_rrule}
use divoom_dev.Ics.TextUtils.{Outcome, returns, ◌>>=◌, stoi, to_upper}

-- The leftmost match: the captured group at the first position where the pattern fits.
unfoldable pub regex_search : (Text → Option Text) → Text → Option Text
regex_search fits [] = fits []
regex_search fits (c ∷ s) = elim (fits (c ∷ s)) [
  | none ↦ regex_search fits s
  | some group ↦ some group
]

-- What follows a literal.
abbrev after : Text → Text → Option Text
after p s = if starts_with p s then some (drop (length p) s) else none

abbrev non_empty : Text → Option Text
non_empty [] = none
non_empty (c ∷ s) = some (c ∷ s)

abbrev first_of_these : List Text → Text → Option Text
first_of_these [] s = none
first_of_these (p ∷ ps) s = if starts_with p s then some p else first_of_these ps s

-- FREQ=(YEARLY|MONTHLY|WEEKLY|DAILY)
unfoldable pub freq_re : Text → Option Text
unfolding starts_with
freq_re s = elim (after (codes "FREQ=") s) [
  | none ↦ none
  | some rest ↦
      first_of_these (codes "YEARLY" ∷ codes "MONTHLY" ∷ codes "WEEKLY" ∷ codes "DAILY" ∷ []) rest
]

-- INTERVAL=([0-9]+)
unfoldable pub interval_re : Text → Option Text
unfolding starts_with
interval_re s = elim (after (codes "INTERVAL=") s) [
  | none ↦ none
  | some rest ↦ non_empty (take_while is_digit rest)
]

-- The optional Z at the end of the group.
abbrev with_z : Text → Text → Text
with_z group [] = group
with_z group (c ∷ s) = if c == b'Z' then group ++ c ∷ [] else group

-- T[0-9]+Z? behind the digits of the date
abbrev time_group : Text → Text → Option Text
time_group date [] = none
time_group date (c ∷ s) =
    if c == b'T'
    then elim (non_empty (take_while is_digit s)) [
      | none ↦ none
      | some time ↦ some (with_z (date ++ c ∷ time) (drop (length time) s))
    ]
    else none

-- UNTIL=([0-9]+T[0-9]+Z?)
unfoldable pub until_re : Text → Option Text
unfolding starts_with
until_re s = elim (after (codes "UNTIL=") s) [
  | none ↦ none
  | some rest ↦ elim (non_empty (take_while is_digit rest)) [
    | none ↦ none
    | some date ↦ time_group date (drop (length date) rest)
  ]
]

abbrev pub is_byday_char : ℕ → Bool
is_byday_char c = (ltb 64 c && ltb c 91) || (is_digit c || (c == b','))

-- BYDAY=([A-Z0-9,]+)
unfoldable pub byday_re : Text → Option Text
unfolding starts_with
byday_re s = elim (after (codes "BYDAY=") s) [
  | none ↦ none
  | some rest ↦ non_empty (take_while is_byday_char rest)
]

-- The four comparisons with the captured frequency. No match keeps DAILY, the initial value.
unfoldable pub freq_of : Option Text → Freq
unfolding to_upper text_eq
freq_of none = Freq.daily
freq_of (some group) =
    let freq = to_upper group in
    if text_eq freq (codes "DAILY")
    then Freq.daily
    else if text_eq freq (codes "WEEKLY")
    then Freq.weekly
    else if text_eq freq (codes "MONTHLY")
    then Freq.monthly
    else if text_eq freq (codes "YEARLY")
    then Freq.yearly
    else Freq.daily

unfoldable pub interval_of : Option Text → Outcome ℕ
unfolding stoi
interval_of none = returns 1
interval_of (some group) = do n ← stoi group; returns (pos_part n)

-- until_str without its Z
abbrev drop_z : Text → Text
drop_z s = elim (get_last? s) [ none ↦ s | some c ↦ if c == b'Z' then drop_last s else s ]

-- UNTIL is read as UTC; a failure of _mkgmtime leaves the rule without an end.
unfoldable pub until_of : Chrono → Option Text → Outcome ℤ
unfolding read_datetime from_time_t
until_of c none = returns (pos 0)
until_of c (some group) = do
  tm ← read_datetime (drop_z group)
  returns (if eq_ℤ (c.mkgmtime tm) minus_one then pos 0 else from_time_t c (c.mkgmtime tm))

-- std::set<int>::insert
unfoldable pub insert_day : ℕ → List ℕ → List ℕ
insert_day d [] = d ∷ []
insert_day d (e ∷ days) =
    if e == d then e ∷ days else if ltb d e then d ∷ e ∷ days else e ∷ insert_day d days

unfoldable pub day_number : Text → Option ℕ
unfolding to_upper text_eq
day_number day =
    let d = to_upper day in
    if text_eq d (codes "MO")
    then some 1
    else if text_eq d (codes "TU")
    then some 2
    else if text_eq d (codes "WE")
    then some 3
    else if text_eq d (codes "TH")
    then some 4
    else if text_eq d (codes "FR")
    then some 5
    else if text_eq d (codes "SA")
    then some 6
    else if text_eq d (codes "SU")
    then some 7
    else none

-- One round of the BYDAY loop; a part that names no day is passed over.
abbrev add_day : List ℕ → Option ℕ → List ℕ
add_day days none = days
add_day days (some d) = insert_day d days

unfoldable pub add_days : List ℕ → List Text → List ℕ
unfolding insert_day day_number
add_days days [] = days
add_days days (day ∷ rest) = add_days (add_day days (day_number day)) rest

unfoldable pub byday_of : Option Text → List ℕ
unfolding add_days pieces
byday_of none = []
byday_of (some group) = add_days [] (pieces b',' group)

unfoldable pub parse_rrule_data : Chrono → Text → Outcome RruleData
unfolding regex_search freq_re interval_re until_re byday_re freq_of interval_of until_of byday_of
parse_rrule_data c rrule = if is_empty rrule then returns default_rrule else do
  interval ← interval_of (regex_search interval_re rrule)
  until ← until_of c (regex_search until_re rrule)
  returns (record {
    freq = freq_of (regex_search freq_re rrule);
    interval = interval;
    until = until;
    byday = byday_of (regex_search byday_re rrule);
  })
