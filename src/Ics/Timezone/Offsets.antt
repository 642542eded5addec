-- ===== src/Ics/Timezone/Offsets.antt =====
-- What `parse_tzoffset` of timezone.cpp reads.
use divoom_dev.Prelude.{ℕ, ◌+◌, ◌*◌, ◌<◌, ◌≡◌, ◌∷◌, arith, if◌then◌else◌, leb}
use divoom_dev.Prelude.Int.{pos, sub_ℕ, ◌+ℤ◌, ◌-ℤ◌}
use divoom_dev.Prelude.Text.{Text}
use divoom_dev.Ics.TextUtils.{substr}
use divoom_dev.Ics.TextUtils.Numerals.{digit, stoi-two}
use divoom_dev.Ics.Timezone.{parse_tzoffset}

-- The hours of an offset, with half an hour and more counted as one.
abbrev pub rounded : ℕ → ℕ → ℕ → ℕ → ℕ
rounded a b c d = a * 10 + b + (if leb 30 (c * 10 + d) then 1 else 0)

-- A sign and four digits, whatever stands behind them: the hours, rounded up from half an hour on
-- away from zero, with the sign. Without a sign, four digits with anything behind them are read as
-- an offset to the east.
pub parse_tzoffset_lem :
    (a b c d : ℕ) (rest : Text)
    → a < 10
    → b < 10
    → c < 10
    → d < 10
    → (parse_tzoffset (b'+' ∷ digit a ∷ digit b ∷ digit c ∷ digit d ∷ rest) ≡ pos (rounded a b c d))
      × (parse_tzoffset (b'-' ∷ digit a ∷ digit b ∷ digit c ∷ digit d ∷ rest)
          ≡ sub_ℕ 0 (rounded a b c d))
      × ((x : ℕ)
          → parse_tzoffset (digit a ∷ digit b ∷ digit c ∷ digit d ∷ x ∷ rest)
            ≡ pos (rounded a b c d))
unfolding parse_tzoffset substr ◌+ℤ◌ ◌-ℤ◌
parse_tzoffset_lem a b c d rest h k l m = (
  ground (arith, stoi-two a b h k, stoi-two c d l m),
  ground (arith, stoi-two a b h k, stoi-two c d l m),
  λ x. ground (arith, stoi-two a b h k, stoi-two c d l m),
)
