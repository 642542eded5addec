-- ===== src/Ics/Builder/Lists.antt =====
-- The values of EXDATE and ORGANIZER, as `build` of event_builder.cpp reads them.
use divoom_dev.Prelude.{◌≡◌, refl, List, [], ◌∷◌, ◌++◌, All}
use divoom_dev.Prelude.Text.{Text, codes, find_char, find_text}
use divoom_dev.Ics.Builder.{add_exdates}
use divoom_dev.Ics.Builder.Meaning.{exclude}
use divoom_dev.Ics.TextUtils.Commas.{IsMember}
use divoom_dev.Ics.Builder.Written.{IsPlain}
use divoom_dev.Ics.Builder.Zones.{find_char-absent}
use divoom_dev.Ics.Datetime.{param_of}
use divoom_dev.Ics.Event.{RawEvent}
use divoom_dev.Ics.TextUtils.{unescape}
use divoom_dev.Ics.TextUtils.Escapes.{unescape-no_escapes}
use divoom_dev.Ics.TextUtils.Tight.{trim-tight}

-- The name of an organizer, from the CN parameter.
pub organizer-name :
    (name : Text) → IsPlain name → unescape (param_of (codes "CN=") (codes "CN=" ++ name)) ≡ name
unfolding find_text unescape find_char
organizer-name name h =
    rw (find_char-absent b';' name h.semicolon) (unescape-no_escapes name h.backslash)

pub add_exdates-exclude :
    (ds : List Text) (re : RawEvent) → All IsMember ds → add_exdates re ds ≡ exclude re ds
unfolding add_exdates
add_exdates-exclude [] re h = refl
add_exdates-exclude (d ∷ ds) re h =
    rw (trim-tight d h.0.starts h.0.ends, h.0.some_text) (add_exdates-exclude ds _ h.1)
