-- ===== src/Ics/Override/Index.antt =====
-- The index of overrides answers what a scan of all raw events would.
use divoom_dev.Prelude.{
  ◌≡◌, refl, ◌∙◌, Bool, ◌&&◌, ◌||◌, List, [], ◌∷◌, ◌++◌, arith, any, any-append,
}
use divoom_dev.Prelude.Map.{lookup, insert, lookup-insert}
use divoom_dev.Prelude.Text.{Text, text_eq, text_eq_iff}
use divoom_dev.Ics.Event.{RawEvent}
use divoom_dev.Ics.Override.{
  Overrides, or_none, add_override, add_overrides, build_index, is_overridden,
}

module _ (uid key : Text) where
  -- A raw event that overrides the occurrence `key` of the series `uid`.
  abbrev pub overrides : RawEvent → Bool
  overrides r = r.has_recurrence_id && (text_eq r.ev.uid uid && text_eq r.recurrence_id key)

  is_overridden-or_none :
      (idx : Overrides)
      → is_overridden idx uid key
        ≡ any (λ ov. text_eq ov.recurrence_id key) (or_none (lookup uid idx))
  unfolding is_overridden
  is_overridden-or_none idx = ground arith

  is_overridden-add_override :
      (idx : Overrides) (r : RawEvent)
      → is_overridden (add_override idx r) uid key ≡ (is_overridden idx uid key || overrides r)
  unfolding add_override
  is_overridden-add_override idx r = ground (
    arith,
    is_overridden-or_none idx,
    is_overridden-or_none (insert r.ev.uid (or_none (lookup r.ev.uid idx) ++ r ∷ []) idx),
    lookup-insert r.ev.uid uid (or_none (lookup r.ev.uid idx) ++ r ∷ []) idx,
    any-append (λ ov. text_eq ov.recurrence_id key) (or_none (lookup r.ev.uid idx)) (r ∷ []),
    text_eq_iff r.ev.uid uid,
  )

  is_overridden-add_overrides :
      (idx : Overrides) (rs : List RawEvent)
      → is_overridden (add_overrides idx rs) uid key
        ≡ (is_overridden idx uid key || any overrides rs)
  unfolding add_overrides
  is_overridden-add_overrides idx [] = ground arith
  is_overridden-add_overrides idx (r ∷ rs) =
      ground (
        arith,
        is_overridden-add_override idx r,
        is_overridden-add_overrides (add_override idx r) rs,
      )

  -- The lookup in the index finds an override exactly where the list of raw events has one with
  -- that UID and that RECURRENCE-ID.
  pub is_overridden-build_index :
      (raws : List RawEvent) → is_overridden (build_index raws) uid key ≡ any overrides raws
  unfolding build_index
  is_overridden-build_index raws =
      is_overridden-add_overrides [] raws ∙ unfold is_overridden lookup in refl
