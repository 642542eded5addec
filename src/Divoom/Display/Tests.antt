-- ===== src/Divoom/Display/Tests.antt =====
-- The example of the service.
use divoom_dev.Prelude.{◌≡◌, refl, map}
use divoom_dev.Divoom.Display.{enum_name}
use divoom_dev.Divoom.Display.Example.{get_display_list}

-- The text of each type names it.
type_text_test :
    map (λ d. d.type_text) get_display_list ≡ map (λ d. enum_name d.type) get_display_list
type_text_test = refl
