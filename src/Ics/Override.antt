-- ===== src/Ics/Override.antt =====
-- plugins/ics/src/detail/override_applier.cpp. The index holds the raw events themselves where the
-- source holds pointers to them; nothing changes them while the index lives.
use divoom_dev.Prelude.{
  Bool, true, false, ◌&&◌, ◌||◌, not, Option, none, some, List, [], ◌∷◌, ◌++◌, map, filter, any,
  if◌then◌else◌,
}
use divoom_dev.Prelude.Map.{lookup, insert}
use divoom_dev.Prelude.Text.{Text, text_eq}
use divoom_dev.Common.{EventStatus}
use divoom_dev.Ics.Event.{RawEvent, ScheduledEvent}
use divoom_dev.Ics.Window.{TimeWindow, in_window}
pub mod Index

abbrev pub Overrides : Type 0
Overrides = List (Text × List RawEvent)

abbrev pub or_none : Option (List RawEvent) → List RawEvent
or_none none = []
or_none (some rs) = rs

-- `idx[r.ev.uid].push_back(&r)` for a raw event with a RECURRENCE-ID
unfoldable pub add_override : Overrides → RawEvent → Overrides
add_override idx r =
    if r.has_recurrence_id
    then insert r.ev.uid (or_none (lookup r.ev.uid idx) ++ r ∷ []) idx
    else idx

unfoldable pub add_overrides : Overrides → List RawEvent → Overrides
unfolding add_override
add_overrides idx [] = idx
add_overrides idx (r ∷ rs) = add_overrides (add_override idx r) rs

unfoldable pub build_index : List RawEvent → Overrides
unfolding add_overrides
build_index raws = add_overrides [] raws

unfoldable pub is_overridden : Overrides → Text → Text → Bool
is_overridden idx uid instance_key = elim (lookup uid idx) [
  | none ↦ false
  | some rs ↦ any (λ ov. text_eq ov.recurrence_id instance_key) rs
]

abbrev pub is_canceled : EventStatus → Bool
is_canceled EventStatus.canceled = true
is_canceled _ = false

-- What `add_in_window_overrides` appends to the result.
unfoldable pub in_window_overrides : List RawEvent → TimeWindow → List ScheduledEvent
in_window_overrides [] win = []
in_window_overrides (r ∷ raws) win =
    let rest = in_window_overrides raws win in
    if not r.has_recurrence_id || is_canceled r.ev.status
    then rest
    else if in_window r.ev.start win
    then r.ev ∷ rest
    else rest
