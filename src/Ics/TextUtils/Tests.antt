-- ===== src/Ics/TextUtils/Tests.antt =====
-- Runs of text_utils.cpp on small inputs.
use divoom_dev.Prelude.{◌≡◌, refl}
use divoom_dev.Prelude.Int.{pos, negsuc}
use divoom_dev.Prelude.Text.{codes, pieces}
use divoom_dev.Ics.TextUtils.{
  stoi, trim, unescape, unfold_text, split_ics_line, returns, throws, invalid_argument,
  out_of_range,
}

stoi_runs :
    (stoi (codes " -12x") ≡ returns (negsuc 11))
    × (stoi (codes "2147483647") ≡ returns (pos 2147483647))
    × (stoi (codes "2147483648") ≡ throws out_of_range)
    × (stoi (codes "T1") ≡ throws invalid_argument)
unfolding stoi
stoi_runs = (refl, refl, refl, refl)

trim_runs : trim (codes "\t a b \r\n") ≡ codes "a b"
unfolding trim
trim_runs = refl

unescape_runs : unescape (codes "a\\nb\\,c\\x\\") ≡ codes "a\nb,c\\x\\"
unfolding unescape
unescape_runs = refl

unfold_runs : unfold_text (codes "A:1\r\n 2\r\nB:3\r\n") ≡ codes "A:12\nB:3\n"
unfolding unfold_text pieces
unfold_runs = refl

split_runs :
    split_ics_line (codes "dtstart;TZID=X:2023")
    ≡ record { key = codes "DTSTART"; params = codes "TZID=X"; value = codes "2023" }
unfolding split_ics_line
split_runs = refl
