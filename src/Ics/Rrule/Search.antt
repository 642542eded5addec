-- ===== src/Ics/Rrule/Search.antt =====
-- Searches of recurrence.cpp that pass over digits, and the end of a run of digits.
use divoom_dev.Prelude.{
  ℕ, ◌≡◌, refl, Bool, true, not, Option, none, [], ◌∷◌, ◌++◌, All, All-weaken, arith,
}
use divoom_dev.Prelude.Text.{Text, is_digit, take_while, starts_with}
use divoom_dev.Ics.Rrule.{regex_search, until_re, byday_re}

abbrev pub IsDigits : Text → Type 0
IsDigits = All (λ c. is_digit c ≡ true)

-- Bytes where the pattern fits nowhere, whatever follows, are passed over.
search_skip :
    (fits : Text → Option Text) (s rest : Text)
    → All (λ c. (t : Text) → fits (c ∷ t) ≡ none) s
    → regex_search fits (s ++ rest) ≡ regex_search fits rest
unfolding regex_search
search_skip fits [] rest h = refl
search_skip fits (c ∷ s) rest h = rw (h.0 (s ++ rest)) (search_skip fits s rest h.1)

until_re-digit : (c : ℕ) → is_digit c ≡ true → (t : Text) → until_re (c ∷ t) ≡ none
unfolding until_re starts_with
until_re-digit c h t = ground arith

byday_re-digit : (c : ℕ) → is_digit c ≡ true → (t : Text) → byday_re (c ∷ t) ≡ none
unfolding byday_re starts_with
byday_re-digit c h t = ground arith

pub skip_until :
    (s rest : Text) → IsDigits s → regex_search until_re (s ++ rest) ≡ regex_search until_re rest
skip_until s rest h = search_skip until_re s rest (All-weaken _ _ until_re-digit s h)

pub skip_byday :
    (s rest : Text) → IsDigits s → regex_search byday_re (s ++ rest) ≡ regex_search byday_re rest
skip_byday s rest h = search_skip byday_re s rest (All-weaken _ _ byday_re-digit s h)

-- The texts at which a run of digits ends.
abbrev pub ends_digits : Text → Bool
ends_digits [] = true
ends_digits (c ∷ s) = not (is_digit c)

pub take_while-stop :
    (s rest : Text) → IsDigits s → ends_digits rest ≡ true → take_while is_digit (s ++ rest) ≡ s
take_while-stop [] [] h k = refl
take_while-stop [] (c ∷ rest) h k = ground arith
take_while-stop (c ∷ s) rest h k = ground (arith, take_while-stop s rest h.1 k)
