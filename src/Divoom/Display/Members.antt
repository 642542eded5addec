-- ===== src/Divoom/Display/Members.antt =====
-- What is left of an element of a display that is printed and read (display_rendered.h).
use divoom_dev.Prelude.{◌≡◌, refl, some, List, [], ◌∷◌, map}
use divoom_dev.Prelude.Int.{pos}
use divoom_dev.Prelude.Map.{lookup}
use divoom_dev.Prelude.Text.{text_eq}
use divoom_dev.Divoom.Display.{
  DisplayType, Display, Rendered, display_members, rendered_members, int_at, text_at, read_display,
  read_rendered,
}
use divoom_dev.Json.{read_all}

-- An element as the device can know it.
abbrev without_type : Rendered → Rendered
without_type d = record d { type = DisplayType.text; align = pos 0 }

module _ (J : Type 0) where
  read_display-members : (d : Display) → read_display {J = J} (display_members d) ≡ some d
  unfolding read_display display_members int_at text_at lookup text_eq
  read_display-members d = refl

  read_rendered-members :
      (d : Rendered) → read_rendered {J = J} (rendered_members d) ≡ some (without_type d)
  unfolding read_rendered rendered_members int_at text_at lookup text_eq
  read_rendered-members d = refl

  all_rendered :
      (ds : List Rendered)
      → read_all (read_rendered {J = J}) (map rendered_members ds) ≡ some (map without_type ds)
  unfolding read_all
  all_rendered [] = refl
  all_rendered (d ∷ ds) = rw (read_rendered-members d, all_rendered ds) refl

  all_displays :
      (ds : List Display) → read_all (read_display {J = J}) (map display_members ds) ≡ some ds
  unfolding read_all
  all_displays [] = refl
  all_displays (d ∷ ds) = rw (read_display-members d, all_displays ds) refl

  -- The elements of a list, printed and read again, are the elements that were printed, in their
  -- order, but for two fields: the type, which its text stands for, and the alignment, which is lost.
  -- Elements that only carry a text are read as they were.
  read_all-members :
      (rendered : List Rendered) (displays : List Display)
      → (read_all (read_rendered {J = J}) (map rendered_members rendered)
          ≡ some (map without_type rendered))
        × (read_all (read_display {J = J}) (map display_members displays) ≡ some displays)
  read_all-members rendered displays = (all_rendered rendered, all_displays displays)
