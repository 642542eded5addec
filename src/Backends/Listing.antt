-- ===== src/Backends/Listing.antt =====
-- The calendar sources of storage/i_storage.h as a set with the order forgotten, and the list of
-- them as its canonical form.
use mathlib.Core.Quot
use mathlib.Core.Quot.{Quot, Quot-set}
use divoom_dev.Prelude.{
  ◌≡◌, refl, sym, ap, ◌∙◌, none, some, List, arith, if◌then◌else◌, Bool-cases, inl, inr,
}
use divoom_dev.Prelude.Sort.{sort, sort-IsSorted}
use divoom_dev.Prelude.Text.{Text, text_eq, text_eq_iff}
use divoom_dev.Backends.Order.{sorted_unique, find_item-sort, sort-IsDistinct}
use divoom_dev.Backends.Reads.{source_before_total}
use divoom_dev.Storage.{CalendarSource, find_item, put_item, drop_item, source_before}
use divoom_dev.Storage.Accounts.{
  IsDistinct, find_item-put_item, put_item-IsDistinct, find_item-drop_item, drop_item-IsDistinct,
}
use divoom_dev.Storage.Sources.{source_before_asym, source_before_later}

abbrev pub url_of : CalendarSource → Text
url_of c = c.url

-- Sources without two of a url.
abbrev pub Stored : Type 0
Stored = (models : List CalendarSource) × IsDistinct url_of models

-- The same source is found for each url.
abbrev pub SameSources : Stored → Stored → Type 0
SameSources x y = (url : Text) → find_item url_of url x.0 ≡ find_item url_of url y.0

abbrev pub SourceSet : Type 0
SourceSet = Quot SameSources

abbrev in_order : Stored → List CalendarSource
in_order x = sort source_before x.0

in_order-same : (x y : Stored) → SameSources x y → in_order x ≡ in_order y
in_order-same x y h =
    sorted_unique url_of source_before source_before_total (in_order x) (in_order y)
      (sort-IsSorted source_before source_before_asym source_before_later x.0)
      (sort-IsSorted source_before source_before_asym source_before_later y.0)
      (sort-IsDistinct url_of source_before x.0 x.1) (sort-IsDistinct url_of source_before y.0 y.1)
      (λ k.
        find_item-sort url_of source_before k x.0 x.1
        ∙ h k
        ∙ sym (find_item-sort url_of source_before k y.0 y.1))

IsSet-sources : IsSet (List CalendarSource)
IsSet-sources = hlevel

-- list_calendar_sources
pub listed : SourceSet → List CalendarSource
listed = Quot.lift IsSet-sources in_order in_order-same

abbrev put_stored : CalendarSource → Stored → Stored
put_stored c x = (put_item url_of c.url c x.0, put_item-IsDistinct url_of c.url c x.0 refl x.1)

abbrev drop_stored : Text → Stored → Stored
drop_stored url x = (drop_item url_of url x.0, drop_item-IsDistinct url_of url x.0 x.1)

found_put :
    (c : CalendarSource) (x : Stored) (k : Text)
    → find_item url_of k (put_stored c x).0
      ≡ (if text_eq c.url k then some c else find_item url_of k x.0)
found_put c x k = find_item-put_item url_of c.url k c x.0 refl

found_drop :
    (url : Text) (x : Stored) (k : Text)
    → find_item url_of k (drop_stored url x).0
      ≡ (if text_eq url k then none else find_item url_of k x.0)
found_drop url x k = find_item-drop_item url_of url k x.0 x.1

-- upsert_calendar_source
pub put : CalendarSource → SourceSet → SourceSet
put c =
    Quot.lift Quot-set (λ x. Quot.mk (put_stored c x))
      (λ x y h. Quot.sound (λ k.
        found_put c x k
        ∙ ap (λ o. if text_eq c.url k then some c else o) (h k)
        ∙ sym (found_put c y k)))

-- remove_calendar_source
pub drop : Text → SourceSet → SourceSet
drop url =
    Quot.lift Quot-set (λ x. Quot.mk (drop_stored url x))
      (λ x y h. Quot.sound (λ k.
        found_drop url x k
        ∙ ap (λ o. if text_eq url k then none else o) (h k)
        ∙ sym (found_drop url y k)))

-- Of two changes for one url the later wins; those for different urls may change places.
put-put :
    (c d : CalendarSource) (s : SourceSet)
    → put c (put d s) ≡ (if text_eq c.url d.url then put c s else put d (put c s))
unfolding put
put-put c d =
    Quot.ind (λ _. hlevel Quot-set)
      λ x. elim (Bool-cases (text_eq c.url d.url)) [
        | inl e ↦ rw (e) (
            Quot.sound (λ k.
              found_put c (put_stored d x) k
              ∙ ground (arith, found_put d x k, found_put c x k, text_eq_iff c.url d.url)))
        | inr n ↦ rw (n) (
            Quot.sound (λ k.
              found_put c (put_stored d x) k
              ∙ ground (
                arith,
                found_put d x k,
                found_put c x k,
                found_put d (put_stored c x) k,
                text_eq_iff c.url k,
                text_eq_iff d.url k,
                text_eq_iff c.url d.url,
              )))
      ]
