-- ===== src/Ics/Builder/Names.antt =====
-- The names of properties, as `split_ics_line` of text_utils.cpp takes them off a line.
use divoom_dev.Prelude.{ℕ, ◌≡◌, refl, Bool, true, false, ◌&&◌, ◌||◌, [], ◌∷◌, arith, ◌==◌, ltb}
use divoom_dev.Prelude.Text.{Text, Lacks}
use divoom_dev.Ics.Builder.Zones.{find_char-absent}
use divoom_dev.Ics.TextUtils.{split_left, to_upper}
use divoom_dev.Ics.TextUtils.Tight.{starts_tight}

-- The name of a property: capital letters and dashes.
abbrev pub is_letter : ℕ → Bool
is_letter c = (ltb 64 c && ltb c 91) || (c == b'-')

abbrev pub is_letters : Text → Bool
is_letters [] = true
is_letters (c ∷ s) = is_letter c && is_letters s

pub is_letters-Lacks : (d : ℕ) (s : Text) → is_letter d ≡ false → is_letters s ≡ true → Lacks d s
is_letters-Lacks d [] k h = tt
is_letters-Lacks d (c ∷ s) k h = (λ e. ground arith, is_letters-Lacks d s k (ground arith))

pub to_upper-is_letters : (s : Text) → is_letters s ≡ true → to_upper s ≡ s
unfolding to_upper
to_upper-is_letters [] h = refl
to_upper-is_letters (c ∷ s) h = ground (arith, to_upper-is_letters s)

pub starts_tight-is_letters :
    (c : ℕ) (s : Text) → is_letters (c ∷ s) ≡ true → starts_tight (c ∷ s) ≡ true
starts_tight-is_letters c s h = ground arith

pub split_left-is_letters : (s : Text) → is_letters s ≡ true → split_left s ≡ (s, [])
split_left-is_letters s h =
    rw (find_char-absent b';' s (is_letters-Lacks b';' s refl h), split_left) refl
