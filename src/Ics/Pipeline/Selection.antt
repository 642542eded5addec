-- ===== src/Ics/Pipeline/Selection.antt =====
-- What the result of pipeline.cpp holds, from the raw events on.
use mathlib.Core.List.{
  Mem, mem-append_left, mem-append_right, mem-cons_self, mem-cons_of_mem, not-mem-nil, mem-cons,
}
use mathlib.Core.List.Perm
use mathlib.Core.Logic.Or
use mathlib.Core.Logic.{∥∥₁_prop}
use divoom_dev.Prelude.{
  ◌≡◌, sym, ◌∙◌, subst, Bool, true, false, ◌||◌, not, List, [], ◌∷◌, arith, any, All, All-filter_of,
  Bool-cases, inl, inr,
}
use divoom_dev.Prelude.Int.{◌≤ℤ◌}
use divoom_dev.Prelude.Sort.{sort-perm}
use divoom_dev.Ics.Chrono.{Chrono}
use divoom_dev.Ics.Datetime.{format_local_dt}
use divoom_dev.Ics.Event.{RawEvent, ScheduledEvent, starts_before}
use divoom_dev.Ics.Override.{
  Overrides, build_index, is_overridden, in_window_overrides, is_canceled,
}
use divoom_dev.Ics.Override.Index.{overrides, is_overridden-build_index}
use divoom_dev.Ics.Pipeline.{occurrences, master_events, all_master_events, select}
use divoom_dev.Ics.Recurrence.{apply_repeat_metadata, expand}
use divoom_dev.Ics.Window.{TimeWindow, in_window}

-- Not canceled, and no later than the deadline.
pub record IsSelected (win : TimeWindow) (ev : ScheduledEvent) : Type 0 where
  pub live : is_canceled ev.status ≡ false
  pub bounded : ev.start ≤ℤ win.deadline

not-true : (b : Bool) → not b ≡ true → b ≡ false
not-true b h = ground arith

module _ (c : Chrono) (win : TimeWindow) where
  expanded : RawEvent → List ScheduledEvent
  expanded r =
      expand c (apply_repeat_metadata r.ev r.rrule) r.rrule win.start win.deadline r.exdates
        r.rrule.freq

  -- No occurrence that a series contributes has an override, anywhere among the raw events, of the
  -- series' UID and of the occurrence's local start.
  pub occurrences-not_overridden :
      (raws : List RawEvent) (r : RawEvent)
      → All
          (λ inst. any (overrides r.ev.uid (format_local_dt c inst.start)) raws ≡ false)
          (occurrences c win (build_index raws) r)
  unfolding occurrences expanded
  occurrences-not_overridden raws r =
      let replaced =
        λ (inst : ScheduledEvent). any (overrides r.ev.uid (format_local_dt c inst.start)) raws in
      All-filter_of {A = ScheduledEvent} (λ inst. replaced inst ≡ false)
        (λ inst. not (is_overridden (build_index raws) r.ev.uid (format_local_dt c inst.start)))
        (λ inst h.
          sym (is_overridden-build_index r.ev.uid (format_local_dt c inst.start) raws)
          ∙ not-true _ h)
        (expanded r)

  -- What the loop over the raw events makes of one of them is in the result.
  mem_master :
      (idx : Overrides) (ev : ScheduledEvent) (r : RawEvent) (raws : List RawEvent)
      → Mem r raws
      → Mem ev (master_events c win idx r)
      → Mem ev (all_master_events c win idx raws)
  unfolding all_master_events
  mem_master idx ev r [] m h = absurd (not-mem-nil m)
  mem_master idx ev r (x ∷ raws) m h =
      Or.elim ∥∥₁_prop (mem-cons.0 m)
        (λ e. mem-append_left _ (subst (λ q. Mem ev (master_events c win idx q)) e h))
        (λ rest. mem-append_right _ (mem_master idx ev r raws rest h))

  master_alone :
      (idx : Overrides) (r : RawEvent)
      → r.has_recurrence_id ≡ false
      → is_canceled r.ev.status ≡ false
      → r.has_rrule ≡ false
      → in_window r.ev.start win ≡ true
      → Mem r.ev (master_events c win idx r)
  unfolding master_events
  master_alone idx r o h n w = rw (o, h, n, w) mem-cons_self

  mem_override :
      (r : RawEvent) (raws : List RawEvent)
      → Mem r raws
      → r.has_recurrence_id ≡ true
      → is_canceled r.ev.status ≡ false
      → in_window r.ev.start win ≡ true
      → Mem r.ev (in_window_overrides raws win)
  unfolding in_window_overrides
  mem_override r [] m h k w = absurd (not-mem-nil m)
  mem_override r (x ∷ raws) m h k w =
      Or.elim ∥∥₁_prop (mem-cons.0 m)
        (λ e.
          subst (λ q. Mem r.ev (in_window_overrides (q ∷ raws) win)) e (rw (h, k, w) mem-cons_self))
        (λ rest. ground (
          arith,
          mem_override r raws rest h k w,
          mem-cons_of_mem x.ev (mem_override r raws rest h k w),
        ))

  -- An event that starts in the window and is not canceled is in the result, whether it is an
  -- override or stands alone; only a master event with an RRULE is expanded instead.
  pub select_complete :
      (raws : List RawEvent) (r : RawEvent)
      → Mem r raws
      → is_canceled r.ev.status ≡ false
      → in_window r.ev.start win ≡ true
      → (r.has_recurrence_id || not r.has_rrule) ≡ true
      → Mem r.ev (select c win raws)
  unfolding select
  select_complete raws r m h w k =
      (Perm.mem_iff (sort-perm starts_before _)).1 (elim (Bool-cases r.has_recurrence_id) [
        | inl o ↦ mem-append_right _ (mem_override r raws m o h w)
        | inr o ↦ mem-append_left _ (
            mem_master (build_index raws) r.ev r raws m
              (master_alone (build_index raws) r o h (ground arith) w))
      ])
