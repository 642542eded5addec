-- ===== src/Storage/Sources.antt =====
-- The order in which json_backend.cpp lists the calendar sources.
use mathlib.Core.List.{Perm}
use divoom_dev.Prelude.{◌≡◌, subst, true, false, map, arith, Bool-cases, inl, inr}
use divoom_dev.Prelude.Sort.{IsSorted, sort-IsSorted, sort-perm}
use divoom_dev.Prelude.Text.{
  Text, text_eq, text_eq_iff, text_lt, text_lt_irrefl, text_lt_trans, text_lt_total,
}
use divoom_dev.Storage.{CalendarSource, Json, Backend, source_before, list_calendar_sources}

text_lt_asym : (s t : Text) → text_lt s t ≡ true → text_lt t s ≡ false
text_lt_asym s t h = ground (arith, text_lt_trans s t s h, text_lt_irrefl s)

text_lt_later : (x y z : Text) → text_lt y x ≡ false → text_lt z y ≡ false → text_lt z x ≡ false
text_lt_later x y z h k = elim (Bool-cases (text_eq y x)) [
  | inl e ↦ subst (λ t. text_lt z t ≡ false) ((text_eq_iff y x).0 e) k
  | inr n ↦ ground (arith, text_lt_total y x n h, text_lt_trans z x y)
]

pub source_before_asym :
    (a b : CalendarSource) → source_before a b ≡ true → source_before b a ≡ false
source_before_asym a b h = ground (arith, text_lt_asym a.url b.url)

pub source_before_later :
    (a b c : CalendarSource)
    → source_before b a ≡ false
    → source_before c b ≡ false
    → source_before c a ≡ false
source_before_later a b c h k = ground (arith, text_lt_later a.url b.url c.url)

-- The list holds every stored source once for each time that it is stored, in the order of falling
-- priorities and, for equal ones, of the urls.
list_calendar_sources_lem :
    {J : Type 0} (json : Json J) (b : Backend J)
    → IsSorted source_before (list_calendar_sources json b)
      × Perm (list_calendar_sources json b) (map json.to_source b.doc.calendar_sources)
unfolding list_calendar_sources
list_calendar_sources_lem json b = (
  sort-IsSorted source_before source_before_asym source_before_later _,
  sort-perm source_before _,
)
