-- ===== src/Ics/TextUtils/Numerals.antt =====
-- What `stoi` reads in the fixed fields of dates and offsets: two digits, or four.
use divoom_dev.Prelude.{ℕ, ◌+◌, ◌*◌, ◌^◌, ◌<◌, ◌≡◌, ap, ◌∙◌, true, [], ◌∷◌, arith, All}
use divoom_dev.Prelude.Int.{pos}
use divoom_dev.Prelude.Decimal.{read_digits, decimal, at_decimal, take_while-IsDigits}
use divoom_dev.Prelude.Text.{Text, is_digit}
use divoom_dev.Ics.TextUtils.{returns, stoi}

-- A digit from 0 to 9, as a byte.
abbrev pub digit : ℕ → ℕ
digit d = 48 + d

pub stoi-two :
    (a b : ℕ) → a < 10 → b < 10 → stoi (digit a ∷ digit b ∷ []) ≡ returns (pos (a * 10 + b))
unfolding stoi read_digits
stoi-two a b h k = ground arith

pub stoi-four :
    (a b c d : ℕ)
    → a < 10
    → b < 10
    → c < 10
    → d < 10
    → stoi (digit a ∷ digit b ∷ digit c ∷ digit d ∷ [])
      ≡ returns (pos (((a * 10 + b) * 10 + c) * 10 + d))
unfolding stoi read_digits
stoi-four a b c d h k l m = ground arith

stoi_digits :
    (c : ℕ) (s : Text)
    → All (λ d. is_digit d ≡ true) (c ∷ s)
    → read_digits 0 (c ∷ s) < 2 ^ 31
    → stoi (c ∷ s) ≡ returns (pos (read_digits 0 (c ∷ s)))
unfolding stoi
stoi_digits c s h k = ground (arith, take_while-IsDigits (c ∷ s) h)

pub stoi-decimal : (n : ℕ) → n < 2 ^ 31 → stoi (decimal n) ≡ returns (pos n)
stoi-decimal n h =
    at_decimal (λ t. stoi t ≡ returns (pos n)) n
      (λ c s d e. stoi_digits c s d (omega arith) ∙ ap (λ k. returns (pos k)) e)
