-- ===== src/Ics/Recurrence.antt =====
-- The expansion of recurring events: plugins/ics/src/detail/recurrence.cpp, from `is_excluded` on.
-- An expander appends to `output`; here it returns what it appends. Durations are exact: the
-- source's `int` and `long long` factors are taken not to overflow.
pub mod Loop
pub mod Reference
pub mod Sound
mod Tests
use divoom_dev.Prelude.{
  ℕ, zero, suc, ◌+◌, ◌-◌, ◌*◌, ◌%◌, ◌^◌, Bool, true, false, ◌&&◌, not, ◌||◌, List, [], ◌∷◌, ◌++◌,
  map, filter, ◌==◌, if◌then◌else◌,
}
use Prim.Native.Nat.{bit_or}
use divoom_dev.Prelude.Int.{ℤ, pos, ◌+ℤ◌, ◌-ℤ◌, ltb_ℤ, eq_ℤ}
use divoom_dev.Prelude.Map.{has_key}
use divoom_dev.Prelude.Text.{Text, codes}
use divoom_dev.Ics.Chrono.{Chrono, Tm, minus_one, to_time_t, from_time_t}
use divoom_dev.Ics.Event.{Freq, Repeat, RruleData, ScheduledEvent}
use Loop.{Verdict, skip, stop, emit, for_loop}

unfoldable pub is_excluded : Chrono → ℤ → List Text → Bool
unfolding has_key
is_excluded c instance_start [] = false
is_excluded c instance_start (d ∷ exdates) =
    has_key (c.strftime 16 (codes "%Y%m%dT%H%M%S") (c.localtime (to_time_t c instance_start)))
      (d ∷ exdates)

abbrev repeat_of : Freq → Repeat
repeat_of Freq.daily = Repeat.daily
repeat_of Freq.weekly = Repeat.weekly
repeat_of Freq.monthly = Repeat.monthly
repeat_of Freq.yearly = Repeat.yearly

-- `byday_mask | (1 << (d - 1))` for each day, as a uint8_t
unfoldable pub add_mask : ℕ → List ℕ → ℕ
add_mask mask [] = mask
add_mask mask (d ∷ days) = add_mask (bit_or mask (2 ^ (d - 1)) % 256) days

unfoldable pub apply_repeat_metadata : ScheduledEvent → RruleData → ScheduledEvent
unfolding add_mask
apply_repeat_metadata ev rule = record ev {
  repeat = repeat_of rule.freq;
  byday_mask = add_mask ev.byday_mask rule.byday;
  recurrence_interval = pos rule.interval;
  recurrence_end = if eq_ℤ rule.until (pos 0) then ev.recurrence_end else rule.until;
}

-- The event moved to a new start, with its duration.
unfoldable pub instance_at : ScheduledEvent → ℤ → ScheduledEvent
instance_at base start = record base {
  event = record base.event { start = start; end = start +ℤ (base.end -ℤ base.start) };
}

-- `rule.until.time_since_epoch().count() != 0 && start > rule.until`
abbrev pub past_until : RruleData → ℤ → Bool
past_until rule start = not (eq_ℤ rule.until (pos 0)) && ltb_ℤ rule.until start

-- `base.start + std::chrono::hours(24) * days`
unfoldable pub days_after : Chrono → ℤ → ℕ → ℤ
days_after c start days = start +ℤ pos (days * (86400 * c.second))

module _ (c : Chrono) (base : ScheduledEvent) (rule : RruleData) where
  -- Daily: the start of round `i`.
  abbrev pub daily_start : ℕ → ℤ
  daily_start i = days_after c base.start (i * rule.interval)

  -- Monday is 1 and Sunday is 7.
  abbrev pub base_dow : ℕ
  base_dow = let wday = (c.localtime (to_time_t c base.start)).wday in if wday == 0 then 7 else wday

  abbrev or_base_dow : List ℕ → List ℕ
  or_base_dow [] = base_dow ∷ []
  or_base_dow (d ∷ days) = d ∷ days

  -- Without BYDAY the series has the weekday of DTSTART.
  abbrev pub weekdays : List ℕ
  weekdays = or_base_dow rule.byday

  abbrev pub day_offset : ℕ → ℕ → ℕ
  day_offset week day = (day + 7 - base_dow) % 7 + week * 7 * rule.interval

  -- Weekly: the start on a weekday of round `week`.
  abbrev pub weekly_start : ℕ → ℕ → ℤ
  weekly_start week day = days_after c base.start (day_offset week day)

  abbrev pub week_anchor : ℕ → ℤ
  week_anchor week = days_after c base.start (week * 7 * rule.interval)

  -- Monthly: midnight of the day of DTSTART, `i * interval` months later, as mktime normalises it.
  abbrev pub monthly_time : ℕ → ℤ
  monthly_time i =
      let tm = c.localtime (to_time_t c base.start) in
      c.mktime (record tm {
        mon = tm.mon +ℤ pos (i * rule.interval);
        hour = pos 0;
        min = pos 0;
        sec = pos 0;
      })

  abbrev pub monthly_start : ℕ → ℤ
  monthly_start i = from_time_t c (monthly_time i)

module _ (c : Chrono) (base : ScheduledEvent) (rule : RruleData) (window_start deadline : ℤ)
    (exdates : List Text) where
  -- The body of the daily loop, of at most 365 rounds.
  unfoldable pub daily_round : ℕ → Verdict
  daily_round i =
      let start = daily_start c base rule i in
      if ltb_ℤ start window_start
      then skip
      else if ltb_ℤ deadline start
      then stop
      else if past_until rule start
      then stop
      else if is_excluded c start exdates
      then skip
      else emit

  unfoldable pub expand_daily : List ScheduledEvent
  expand_daily = for_loop daily_round (λ i. instance_at base (daily_start c base rule i)) 365 0

  -- The `continue`s of the inner weekly loop.
  unfoldable pub weekly_keeps : ℕ → ℕ → Bool
  weekly_keeps week day =
      let start = weekly_start c base rule week day in
      not (
        ltb_ℤ start window_start
        || (ltb_ℤ deadline start || (past_until rule start || is_excluded c start exdates)))

  unfoldable pub week_instances : ℕ → List ScheduledEvent
  week_instances week =
      map (λ day. instance_at base (weekly_start c base rule week day))
        (filter (weekly_keeps week) (weekdays c base rule))

  -- The outer loop, from `week` for the given number of rounds.
  unfoldable pub weekly_loop : ℕ → ℕ → List ScheduledEvent
  weekly_loop zero week = []
  weekly_loop (suc rounds) week = elim (ltb_ℤ deadline (week_anchor c base rule week)) [
    | true ↦ []
    | false ↦ week_instances week ++ weekly_loop rounds (week + 1)
  ]

  unfoldable pub expand_weekly : List ScheduledEvent
  expand_weekly = weekly_loop 520 0

  -- The body of the monthly loop, of at most 24 rounds; the window's start plays no part.
  unfoldable pub monthly_round : ℕ → Verdict
  monthly_round i =
      let start = monthly_start c base rule i in
      if eq_ℤ (monthly_time c base rule i) minus_one
      then skip
      else if ltb_ℤ deadline start
      then stop
      else if past_until rule start
      then stop
      else if is_excluded c start exdates
      then skip
      else emit

  unfoldable pub expand_monthly : List ScheduledEvent
  expand_monthly = for_loop monthly_round (λ i. instance_at base (monthly_start c base rule i)) 24 0

  -- `recurrence_expander::for_freq(freq).expand(...)`; yearly series expand to nothing.
  unfoldable pub expand : Freq → List ScheduledEvent
  expand Freq.daily = expand_daily
  expand Freq.weekly = expand_weekly
  expand Freq.monthly = expand_monthly
  expand Freq.yearly = []
