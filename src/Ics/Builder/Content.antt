-- ===== src/Ics/Builder/Content.antt =====
-- How `build` of event_builder.cpp takes a content line apart into name, parameters and value.
use mathlib.Core.List.{append_assoc}
use divoom_dev.Prelude.{ℕ, ◌≡◌, refl, sym, ap, ◌∙◌, true, List, [], ◌∷◌, ◌++◌, arith, All-append}
use divoom_dev.Prelude.Int.{ℤ}
use divoom_dev.Prelude.Text.{Text, codes, Lacks}
use divoom_dev.Ics.Builder.{set_property, build_line}
use divoom_dev.Ics.Builder.Lines.{written-tight}
use divoom_dev.Ics.Builder.Names.{
  is_letters, is_letters-Lacks, to_upper-is_letters, starts_tight-is_letters, split_left-is_letters,
}
use divoom_dev.Ics.Builder.Zones.{split_ics_line-left, split_left-params, parse_ics_datetime-zoned}
use divoom_dev.Ics.Builder.Meaning.{time_of}
use divoom_dev.Ics.Builder.Written.{Moment, moment_text, IsMoment}
use divoom_dev.Ics.Chrono.{Chrono}
use divoom_dev.Ics.Datetime.{make_datetime_info, parse_ics_datetime}
use divoom_dev.Ics.Datetime.Reading.{written, parse_ics_datetime-written}
use divoom_dev.Ics.Event.{RawEvent}
use divoom_dev.Ics.TextUtils.{returns, split_ics_line, trim}
use divoom_dev.Ics.TextUtils.Escapes.{escape}
use divoom_dev.Ics.TextUtils.Tight.{
  ends_tight, ends_escaped, trim-tight, ends_tight-behind, escape-tight,
}

abbrev pub params_of : Moment → Text
params_of (Moment.utc w) = []
params_of (Moment.local w) = []
params_of (Moment.zoned zone w) = codes "TZID=" ++ zone

abbrev pub value_of : Moment → Text
value_of (Moment.utc w) = written w (b'Z' ∷ [])
value_of (Moment.local w) = written w []
value_of (Moment.zoned zone w) = written w []

module _ (c : Chrono) (offsets : List (Text × ℤ)) where
  build_line-at :
      (re : RawEvent) (d : ℕ) (s : Text) (k : ℕ) (key params value : Text)
      → trim (d ∷ s) ≡ d ∷ s
      → split_ics_line (d ∷ s) ≡ record { key = k ∷ key; params = params; value = value }
      → build_line c offsets re (d ∷ s) ≡ set_property c offsets re (k ∷ key) params value
  unfolding build_line
  build_line-at re d s k key params value h e = rw (h, e) refl

  -- A property without parameters.
  pub build_line-plain :
      (re : RawEvent) (k : ℕ) (key value : Text)
      → is_letters (k ∷ key) ≡ true
      → ends_tight value ≡ true
      → build_line c offsets re ((k ∷ key) ++ b':' ∷ value)
        ≡ set_property c offsets re (k ∷ key) [] value
  build_line-plain re k key value n v =
      build_line-at re k (key ++ b':' ∷ value) k key [] value
        (trim-tight _ (starts_tight-is_letters k key n) (ends_tight-behind (k ∷ key) value v))
        (split_ics_line-left (k ∷ key) value (is_letters-Lacks b':' (k ∷ key) refl n)
          ∙ rw (split_left-is_letters (k ∷ key) n, to_upper-is_letters (k ∷ key) n) refl)

  -- A property whose value is escaped.
  pub build_line-escaped :
      (re : RawEvent) (k : ℕ) (key value : Text)
      → is_letters (k ∷ key) ≡ true
      → ends_escaped value ≡ true
      → build_line c offsets re ((k ∷ key) ++ b':' ∷ escape value)
        ≡ set_property c offsets re (k ∷ key) [] (escape value)
  build_line-escaped re k key value n v =
      build_line-plain re k key (escape value) n (escape-tight value v)

  -- A property with parameters.
  pub build_line-params :
      (re : RawEvent) (k : ℕ) (key params value : Text)
      → is_letters (k ∷ key) ≡ true
      → Lacks b':' params
      → ends_tight value ≡ true
      → build_line c offsets re ((k ∷ key) ++ b';' ∷ (params ++ b':' ∷ value))
        ≡ set_property c offsets re (k ∷ key) params value
  build_line-params re k key params value n h v =
      ap (build_line c offsets re) (sym (append_assoc (k ∷ key) (b';' ∷ params) (b':' ∷ value)))
      ∙ build_line-at re k ((key ++ b';' ∷ params) ++ b':' ∷ value) k key params value
          (trim-tight _ (starts_tight-is_letters k key n)
            (ends_tight-behind ((k ∷ key) ++ b';' ∷ params) value v))
          (split_ics_line-left ((k ∷ key) ++ b';' ∷ params) value (
              All-append _ (k ∷ key) (b';' ∷ params) (is_letters-Lacks b':' (k ∷ key) refl n)
                (omega arith, h))
            ∙ rw
                (
                  split_left-params (k ∷ key) params (is_letters-Lacks b';' (k ∷ key) refl n),
                  to_upper-is_letters (k ∷ key) n,
                )
                refl)

  -- The line of a date property.
  pub build_line-moment :
      (re : RawEvent) (k : ℕ) (key : Text) (m : Moment)
      → is_letters (k ∷ key) ≡ true
      → IsMoment m
      → build_line c offsets re ((k ∷ key) ++ moment_text m)
        ≡ set_property c offsets re (k ∷ key) (params_of m) (value_of m)
  build_line-moment re k key (Moment.utc w) n h =
      build_line-plain re k key (written w (b'Z' ∷ [])) n refl
  build_line-moment re k key (Moment.local w) n h =
      build_line-plain re k key (written w []) n (written-tight w)
  build_line-moment re k key (Moment.zoned zone w) n h =
      build_line-params re k key (codes "TZID=" ++ zone) (written w []) n
        (All-append _ (codes "TZID=") zone (ground arith) h.0.colon) (written-tight w)

  pub parse-moment :
      (m : Moment)
      → IsMoment m
      → parse_ics_datetime c offsets (make_datetime_info (params_of m) (value_of m))
        ≡ returns (time_of c offsets m)
  parse-moment (Moment.utc w) h = (parse_ics_datetime-written c offsets w h).0
  parse-moment (Moment.local w) h = (parse_ics_datetime-written c offsets w h).1
  parse-moment (Moment.zoned zone w) h = parse_ics_datetime-zoned c offsets zone w h.0 h.1
