-- ===== src/Ics/Builder/Alarms/Reading.antt =====
-- What `parse_alarm` of event_builder.cpp makes of the written lines of a VALARM block.
use mathlib.Core.List.{append-nil}
use divoom_dev.Prelude.{
  ℕ, ◌≡◌, ◌≢◌, refl, ap, ◌∙◌, ◌<◌, ◌^◌, true, false, [], ◌∷◌, ◌++◌, arith, All, All-append, length,
  some, take, drop, suc,
}
use divoom_dev.Prelude.Decimal.{decimal, decimal-IsDigits}
use divoom_dev.Prelude.Int.{pos, int_laws}
use divoom_dev.Prelude.Text.{Text, codes, text_eq, find_char, is_digit, Lacks}
use divoom_dev.Ics.Builder.Alarms.{
  AlarmFields, read_alarm_line, read_alarm_lines, trigger_minutes, parse_alarm, set_alarm_field,
  duration_minutes, time_minutes, number_before,
}
use divoom_dev.Ics.Builder.Written.{Reminder, reminder_lines, IsReminder, alarm_of}
use divoom_dev.Ics.Builder.Zones.{find_char-absent, find_char-behind, take-length, drop-length}
use divoom_dev.Ics.Event.{ScheduledEvent}
use divoom_dev.Ics.TextUtils.{returns, unescape, trim, to_upper}
use divoom_dev.Ics.TextUtils.Escapes.{escape, unescape-escape, unescape-no_escapes}
use divoom_dev.Ics.TextUtils.Numerals.{stoi-decimal}
use divoom_dev.Ics.TextUtils.Tight.{
  starts_tight, ends_tight, trim-tight, ends_tight-behind, ends_tight-escaped, escape-tight,
  ends_tight-last, starts_tight-escape,
}

Lacks-digits : (c : ℕ) (s : Text) → is_digit c ≡ false → All (λ d. is_digit d ≡ true) s → Lacks c s
Lacks-digits c [] k h = tt
Lacks-digits c (d ∷ s) k h = (λ e. ground arith, Lacks-digits c s k h.1)

-- The trigger of a reminder.
abbrev trigger_text : ℕ → Text
trigger_text n = codes "-PT" ++ (decimal n ++ b'M' ∷ [])

Lacks-minutes : (c n : ℕ) → is_digit c ≡ false → c ≢ b'M' → Lacks c (decimal n ++ b'M' ∷ [])
Lacks-minutes c n h k =
    All-append _ (decimal n) (b'M' ∷ []) (Lacks-digits c (decimal n) h (decimal-IsDigits n))
      (ground arith)

trigger_minutes-trigger_text :
    (n : ℕ) → n < 2 ^ 31 → trigger_minutes (trigger_text n) ≡ returns (pos n)
unfolding trigger_minutes find_char
trigger_minutes-trigger_text n h =
    let no_days = find_char-absent b'D' _ (Lacks-minutes b'D' n refl (ground arith)) in
    let no_hours = find_char-absent b'H' _ (Lacks-minutes b'H' n refl (ground arith)) in
    let minutes =
      find_char-behind b'M' (decimal n) [] (Lacks-digits b'M' _ refl (decimal-IsDigits n)) in
    rw
      (
        no_days,
        no_hours,
        minutes,
        take-length (decimal n) (b'M' ∷ []),
        stoi-decimal n h,
        set_alarm_field,
        duration_minutes,
        time_minutes,
        number_before,
      )
      (ap returns (omega int_laws))

read_alarm_line-cut :
    (f : AlarmFields) (line : Text) (i : ℕ)
    → trim line ≡ line
    → find_char b':' line ≡ some i
    → read_alarm_line f line
      ≡ set_alarm_field f (to_upper (trim (take i line))) (unescape (trim (drop (suc i) line)))
unfolding read_alarm_line
read_alarm_line-cut f line i h e = rw (h, e, h, read_alarm_line) refl

-- A line of the block: a name without blanks, ':' and a value without blanks around it.
read_alarm_line-at :
    (f : AlarmFields) (k : ℕ) (key value : Text)
    → find_char b':' (k ∷ (key ++ b':' ∷ value)) ≡ some (length (k ∷ key))
    → starts_tight (k ∷ key) ≡ true
    → trim (k ∷ key) ≡ k ∷ key
    → starts_tight value ≡ true
    → ends_tight value ≡ true
    → read_alarm_line f ((k ∷ key) ++ b':' ∷ value)
      ≡ set_alarm_field f (to_upper (k ∷ key)) (unescape value)
read_alarm_line-at f k key value i t n h v =
    read_alarm_line-cut f ((k ∷ key) ++ b':' ∷ value) (length (k ∷ key))
      (trim-tight _ t (ends_tight-behind (k ∷ key) value v)) i
    ∙ ap
        (λ s.
          set_alarm_field f (to_upper (trim s))
            (unescape (trim (drop (suc (length (k ∷ key))) ((k ∷ key) ++ b':' ∷ value)))))
        (take-length (k ∷ key) (b':' ∷ value))
    ∙ ap
        (λ s.
          set_alarm_field f (to_upper s)
            (unescape (trim (drop (suc (length (k ∷ key))) ((k ∷ key) ++ b':' ∷ value)))))
        n
    ∙ ap (λ s. set_alarm_field f (to_upper (k ∷ key)) (unescape (trim s)))
        (drop-length (k ∷ key) b':' value)
    ∙ ap (λ s. set_alarm_field f (to_upper (k ∷ key)) (unescape s)) (trim-tight value h v)

trigger-no_escapes : (n : ℕ) → unescape (trigger_text n) ≡ trigger_text n
trigger-no_escapes n =
    unescape-no_escapes (trigger_text n)
      (All-append _ (codes "-PT") _ (ground arith) (Lacks-minutes b'\\' n refl (ground arith)))

-- The three lines have no blank at their ends.
pub trigger-tight :
    (r : Reminder) → ends_tight (codes "TRIGGER:-PT" ++ (decimal r.minutes ++ b'M' ∷ [])) ≡ true
trigger-tight r = ends_tight-last (codes "TRIGGER:-PT" ++ decimal r.minutes) (b'M' ∷ []) refl

pub action-tight :
    (r : Reminder) → IsReminder r → ends_tight (codes "ACTION:" ++ escape r.action) ≡ true
action-tight r h =
    ends_tight-behind (codes "ACTION") (escape r.action)
      (escape-tight r.action (ends_tight-escaped r.action h.action.1))

pub note-tight :
    (r : Reminder) → IsReminder r → ends_tight (codes "DESCRIPTION:" ++ escape r.note) ≡ true
note-tight r h =
    ends_tight-behind (codes "DESCRIPTION") (escape r.note)
      (escape-tight r.note (ends_tight-escaped r.note h.note.1))

read_alarm_lines-reminder_lines :
    (f : AlarmFields) (r : Reminder)
    → IsReminder r
    → read_alarm_lines f (reminder_lines r)
      ≡ record { trigger_str = trigger_text r.minutes; action = r.action; description = r.note }
unfolding read_alarm_lines text_eq to_upper find_char trim
read_alarm_lines-reminder_lines f r h =
    rw
      (
        read_alarm_line-at f b'T' (codes "RIGGER") (trigger_text r.minutes) refl refl refl refl
            (ends_tight-last (codes "-PT" ++ decimal r.minutes) (b'M' ∷ []) refl),
        trigger-no_escapes r.minutes,
        read_alarm_line-at _ b'A' (codes "CTION") (escape r.action) refl refl refl
            (starts_tight-escape r.action h.action.0)
            (escape-tight r.action (ends_tight-escaped r.action h.action.1)),
        unescape-escape r.action,
        read_alarm_line-at _ b'D' (codes "ESCRIPTION") (escape r.note) refl refl refl
            (starts_tight-escape r.note h.note.0)
            (escape-tight r.note (ends_tight-escaped r.note h.note.1)),
        unescape-escape r.note,
      )
      refl

-- A written reminder is appended to the alarms.
pub parse_alarm-reminder_lines :
    (r : Reminder) (ev : ScheduledEvent)
    → IsReminder r
    → parse_alarm (reminder_lines r) ev
      ≡ returns (record ev { event = record ev.event { alarms = ev.alarms ++ alarm_of r ∷ [] } })
unfolding parse_alarm
parse_alarm-reminder_lines r ev h =
    rw (read_alarm_lines-reminder_lines _ r h, trigger_minutes-trigger_text r.minutes h.minutes)
      refl

-- No block, no alarm.
pub parse_alarm-no_lines : (ev : ScheduledEvent) → parse_alarm [] ev ≡ returns ev
unfolding parse_alarm read_alarm_lines
parse_alarm-no_lines ev =
    ap (λ a. returns (record ev { event = record ev.event { alarms = a } })) (append-nil ev.alarms)
