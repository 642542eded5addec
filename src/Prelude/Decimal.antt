-- ===== src/Prelude/Decimal.antt =====
-- Decimal numerals as std::ostream and std::to_string write them, and their value as std::stoi and
-- its kin read it.
use divoom_dev.Prelude.{
  ℕ, zero, suc, ◌+◌, ◌-◌, ◌*◌, ◌/◌, ◌%◌, ◌<◌, ◌≡◌, refl, sym, ap, ◌∙◌, subst, [], ◌∷◌, arith, ltb,
  if◌then◌else◌, true, All, Bool-cases, inl, inr,
}
use divoom_dev.Prelude.Text.{Text, is_digit, take_while}

-- The value of a run of digits, after the value read so far.
unfoldable pub read_digits : ℕ → Text → ℕ
read_digits n [] = n
read_digits n (c ∷ s) = read_digits (n * 10 + (c - 48)) s

-- The digits of `n` in front of `out`, given at least as much fuel as there are digits.
unfoldable pub write_digits : ℕ → ℕ → Text → Text
write_digits zero n out = out
write_digits (suc fuel) n out =
    let rest = write_digits fuel (n / 10) ((48 + n % 10) ∷ out) in
    if ltb n 10 then (48 + n) ∷ out else rest

unfoldable pub decimal : ℕ → Text
unfolding write_digits
decimal n = write_digits (suc n) n []

abbrev IsDigits : Text → Type 0
IsDigits = All (λ c. is_digit c ≡ true)

-- Reading what is written in front of `out` continues with `out` from `n`.
read-write_digits :
    (fuel n : ℕ) (out : Text)
    → n < fuel
    → read_digits 0 (write_digits fuel n out) ≡ read_digits n out
unfolding write_digits read_digits
read-write_digits zero n out h = absurd (omega arith)
read-write_digits (suc fuel) n out h =
    ground (arith, read-write_digits fuel (n / 10) ((48 + n % 10) ∷ out))

pub read-decimal : (n : ℕ) → read_digits 0 (decimal n) ≡ n
unfolding decimal read_digits
read-decimal n = read-write_digits (suc n) n [] (omega arith)

write_digits-IsDigits :
    (fuel n : ℕ) (out : Text) → IsDigits out → IsDigits (write_digits fuel n out)
unfolding write_digits
write_digits-IsDigits zero n out h = h
write_digits-IsDigits (suc fuel) n out h =
    ground (arith, write_digits-IsDigits fuel (n / 10) ((48 + n % 10) ∷ out))

pub decimal-IsDigits : (n : ℕ) → All (λ c. is_digit c ≡ true) (decimal n)
unfolding decimal
decimal-IsDigits n = write_digits-IsDigits (suc n) n [] tt

pub take_while-IsDigits : (s : Text) → All (λ c. is_digit c ≡ true) s → take_while is_digit s ≡ s
take_while-IsDigits [] h = refl
take_while-IsDigits (c ∷ s) h = ground (arith, take_while-IsDigits s h.1)

write_digits-head :
    (fuel n : ℕ) (out : Text) → n < fuel → (c : ℕ) × (s : Text) × (write_digits fuel n out ≡ c ∷ s)
unfolding write_digits
write_digits-head zero n out h = absurd (omega arith)
write_digits-head (suc fuel) n out h = elim (Bool-cases (ltb n 10)) [
  | inl e ↦ (48 + n, out, rw e)
  | inr e ↦ rw e (write_digits-head fuel (n / 10) ((48 + n % 10) ∷ out) (ground arith))
]

-- A numeral has at least one digit.
pub decimal-head : (n : ℕ) → (c : ℕ) × (s : Text) × (decimal n ≡ c ∷ s)
unfolding decimal
decimal-head n = write_digits-head (suc n) n [] (omega arith)

-- A property of texts that begin with a digit, at a numeral.
pub at_decimal {ℓ} :
    (P : Text → Type ℓ) (n : ℕ)
    → ((c : ℕ) (s : Text)
        → All (λ d. is_digit d ≡ true) (c ∷ s)
        → read_digits 0 (c ∷ s) ≡ n
        → P (c ∷ s))
    → P (decimal n)
at_decimal P n h =
    let (c, s, e) = decimal-head n in
    subst P (sym e) (
      h c s (subst (All (λ d. is_digit d ≡ true)) e (decimal-IsDigits n))
        (ap (read_digits 0) (sym e) ∙ read-decimal n))
