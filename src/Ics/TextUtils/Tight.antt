-- ===== src/Ics/TextUtils/Tight.antt =====
-- Lines that `trim` and the removal of '\r' of text_utils.cpp leave as they are, and the pieces
-- that such lines are written from.
use mathlib.Core.List.{reverse, reverse_aux, reverse-reverse}
use divoom_dev.Prelude.{
  ℕ, ◌≡◌, ◌≢◌, refl, ap, ◌∙◌, Bool, true, false, not, ◌||◌, some, [], ◌∷◌, ◌++◌, arith, ◌==◌,
  get_last?, All,
}
use divoom_dev.Prelude.Text.{Text, drop_while, is_empty, is_digit}
use divoom_dev.Ics.TextUtils.{is_blank, trim, strip_cr}
use divoom_dev.Ics.TextUtils.Escapes.{escape, escape_char}

abbrev pub starts_tight : Text → Bool
starts_tight [] = true
starts_tight (c ∷ s) = not (is_blank c)

-- No blank at the end.
abbrev pub ends_tight : Text → Bool
ends_tight [] = true
ends_tight (c ∷ []) = not (is_blank c)
ends_tight (c ∷ d ∷ s) = ends_tight (d ∷ s)

drop_while-tight : (s : Text) → starts_tight s ≡ true → drop_while is_blank s ≡ s
drop_while-tight [] h = refl
drop_while-tight (c ∷ s) h = ground arith

reverse_aux-tight : (c : ℕ) (s r : Text) → starts_tight (reverse_aux (c ∷ s) r) ≡ ends_tight (c ∷ s)
reverse_aux-tight c [] r = refl
reverse_aux-tight c (d ∷ s) r = reverse_aux-tight d s (c ∷ r)

reverse-tight : (s : Text) → starts_tight (reverse s) ≡ ends_tight s
reverse-tight [] = refl
reverse-tight (c ∷ s) = reverse_aux-tight c s []

pub trim-tight : (s : Text) → starts_tight s ≡ true → ends_tight s ≡ true → trim s ≡ s
unfolding trim
trim-tight s h k =
    ap (λ t. reverse (drop_while is_blank (reverse t))) (drop_while-tight s h)
    ∙ ap reverse (drop_while-tight (reverse s) (reverse-tight s ∙ k))
    ∙ reverse-reverse s

get_last?-tight : (c : ℕ) (s : Text) → ends_tight (c ∷ s) ≡ true → get_last? (c ∷ s) ≢ some 13
get_last?-tight c [] h = ground arith
get_last?-tight c (d ∷ s) h = get_last?-tight d s h

strip_cr_at : (s : Text) → get_last? s ≢ some 13 → strip_cr s ≡ s
unfolding strip_cr
strip_cr_at s h = ground arith

pub strip_cr-tight : (s : Text) → ends_tight s ≡ true → strip_cr s ≡ s
strip_cr-tight [] h = unfold strip_cr in refl
strip_cr-tight (c ∷ s) h = strip_cr_at (c ∷ s) (get_last?-tight c s h)

-- A tight text behind a tight prefix.
pub ends_tight-append :
    (s t : Text) → ends_tight s ≡ true → ends_tight t ≡ true → ends_tight (s ++ t) ≡ true
ends_tight-append [] t h k = k
ends_tight-append (c ∷ []) [] h k = h
ends_tight-append (c ∷ []) (d ∷ t) h k = k
ends_tight-append (c ∷ d ∷ s) t h k = ends_tight-append (d ∷ s) t h k

-- Behind a text that is not empty nothing else matters.
pub ends_tight-last : (s t : Text) → is_empty t ≡ false → ends_tight (s ++ t) ≡ ends_tight t
ends_tight-last [] t h = refl
ends_tight-last (c ∷ []) [] h = ground arith
ends_tight-last (c ∷ []) (d ∷ t) h = refl
ends_tight-last (c ∷ d ∷ s) t h = ends_tight-last (d ∷ s) t h

-- No blank other than a newline at the end.
abbrev pub ends_escaped : Text → Bool
ends_escaped [] = true
ends_escaped (c ∷ []) = not (is_blank c) || (c == 10)
ends_escaped (c ∷ d ∷ s) = ends_escaped (d ∷ s)

escape_char-tight :
    (c : ℕ) → (not (is_blank c) || (c == 10)) ≡ true → ends_tight (escape_char c ++ []) ≡ true
escape_char-tight c h = ground arith

is_empty-escape : (d : ℕ) (s : Text) → is_empty (escape (d ∷ s)) ≡ false
is_empty-escape d s = ground arith

-- A newline at the end is no blank once it is escaped.
pub escape-tight : (s : Text) → ends_escaped s ≡ true → ends_tight (escape s) ≡ true
escape-tight [] h = refl
escape-tight (c ∷ []) h = escape_char-tight c h
escape-tight (c ∷ d ∷ s) h =
    ends_tight-last (escape_char c) (escape (d ∷ s)) (is_empty-escape d s) ∙ escape-tight (d ∷ s) h

pub ends_tight-escaped : (s : Text) → ends_tight s ≡ true → ends_escaped s ≡ true
ends_tight-escaped [] h = refl
ends_tight-escaped (c ∷ []) h = ground arith
ends_tight-escaped (c ∷ d ∷ s) h = ends_tight-escaped (d ∷ s) h

-- A tight value behind a separator that is no blank.
pub ends_tight-after :
    (s : Text) (c : ℕ) (value : Text)
    → is_blank c ≡ false
    → ends_tight value ≡ true
    → ends_tight (s ++ c ∷ value) ≡ true
ends_tight-after s c [] b h = ends_tight-last s (c ∷ []) refl ∙ ap not b
ends_tight-after s c (d ∷ value) b h = ends_tight-last s (c ∷ d ∷ value) refl ∙ h

-- A tight value behind a name and its ':'.
pub ends_tight-behind :
    (key value : Text) → ends_tight value ≡ true → ends_tight (key ++ b':' ∷ value) ≡ true
ends_tight-behind key value h = ends_tight-after key b':' value refl h

pub ends_tight-digits : (s : Text) → All (λ d. is_digit d ≡ true) s → ends_tight s ≡ true
ends_tight-digits [] h = refl
ends_tight-digits (c ∷ []) h = ground arith
ends_tight-digits (c ∷ d ∷ s) h = ends_tight-digits (d ∷ s) h.1

pub starts_tight-escape : (s : Text) → starts_tight s ≡ true → starts_tight (escape s) ≡ true
starts_tight-escape [] h = refl
starts_tight-escape (c ∷ s) h = ground arith
