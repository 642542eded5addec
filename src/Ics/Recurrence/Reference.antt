-- ===== src/Ics/Recurrence/Reference.antt =====
-- The daily and weekly expanders of recurrence.cpp stop early; they are compared with descriptions
-- that look at every round.
use mathlib.Core.Path.{fun_ext}
use divoom_dev.Prelude.{ℕ, ◌*◌, ◌≤◌, ◌≡◌, ap, ◌∙◌, Bool, false, ◌&&◌, not, List, map, filter, arith}
use divoom_dev.Prelude.Int.{ℤ, pos, ◌≤ℤ◌, leb_ℤ, +ℤ_parts}
use divoom_dev.Prelude.Text.{Text}
use divoom_dev.Ics.Chrono.{Chrono}
use divoom_dev.Ics.Event.{RruleData, ScheduledEvent}
use divoom_dev.Ics.Recurrence.{
  is_excluded, instance_at, past_until, days_after, daily_start, daily_round, expand_daily,
  weekly_start, weekdays,
}
use divoom_dev.Ics.Recurrence.Loop.{Verdict, stop, emits, range, for_loop-eq-filter}

-- More days are not earlier.
days_after-mono :
    (c : Chrono) (start : ℤ) (m n : ℕ) → m ≤ n → days_after c start m ≤ℤ days_after c start n
unfolding days_after
days_after-mono c start m n h =
    let wide : m * (86400 * c.second) ≤ n * (86400 * c.second) = grind arith in
    omega (
      arith,
      +ℤ_parts start (pos (m * (86400 * c.second))),
      +ℤ_parts start (pos (n * (86400 * c.second))),
    )

-- An occurrence counts if it lies between the bounds, not behind the end of the rule, and is not
-- excluded.
abbrev pub counts : Chrono → RruleData → ℤ → ℤ → List Text → ℤ → Bool
counts c rule window_start deadline exdates start =
    leb_ℤ window_start start
    && (leb_ℤ start deadline && (not (past_until rule start) && not (is_excluded c start exdates)))

module _ (c : Chrono) (base : ScheduledEvent) (rule : RruleData) (window_start deadline : ℤ)
    (exdates : List Text) where
  abbrev daily_counts : ℕ → Bool
  daily_counts i = counts c rule window_start deadline exdates (daily_start c base rule i)

  abbrev daily : ℕ → Verdict
  daily = daily_round c base rule window_start deadline exdates

  daily_round-emits : (i : ℕ) → emits (daily i) ≡ daily_counts i
  unfolding daily_round
  daily_round-emits i = ground arith

  daily_final : (i j : ℕ) → daily i ≡ stop → i ≤ j → emits (daily j) ≡ false
  unfolding daily_round
  daily_final i j s h =
      let wide : i * rule.interval ≤ j * rule.interval = grind arith in
      ground (arith, days_after-mono c base.start (i * rule.interval) (j * rule.interval) wide)

  -- The daily expander appends the instances of exactly those of the 365 rounds whose start counts,
  -- in order: no round that it breaks off or passes over would have counted.
  pub expand_daily-eq-filter :
      expand_daily c base rule window_start deadline exdates
      ≡ map (λ i. instance_at base (daily_start c base rule i)) (filter daily_counts (range 0 365))
  unfolding expand_daily
  expand_daily-eq-filter =
      for_loop-eq-filter daily (λ i. instance_at base (daily_start c base rule i)) daily_final 365 0
      ∙ ap (λ p. map (λ i. instance_at base (daily_start c base rule i)) (filter p (range 0 365)))
          (fun_ext daily_round-emits)

  abbrev weekly_counts : ℕ → ℕ → Bool
  weekly_counts week day =
      counts c rule window_start deadline exdates (weekly_start c base rule week day)

  -- The instances of one week.
  abbrev pub counted_week : ℕ → List ScheduledEvent
  counted_week week =
      map (λ day. instance_at base (weekly_start c base rule week day))
        (filter (weekly_counts week) (weekdays c base rule))
