-- ===== src/Ics/TextUtils.antt =====
-- plugins/ics/src/detail/text_utils.cpp, and what the plugin uses of std::stoi and substr, with the
-- two exceptions that they throw.
pub mod Commas
pub mod Escapes
pub mod Folding
pub mod Numerals
pub mod Tight
mod Tests
use mathlib.Core.List.{reverse}
use divoom_dev.Prelude.{
  ℕ, zero, suc, ◌+◌, ◌-◌, ◌*◌, ◌^◌, ◌≡◌, refl, Bool, true, false, ◌&&◌, ◌||◌, Option, none, some,
  List, [], ◌∷◌, ◌++◌, map, ltb, leb, ◌==◌, if◌then◌else◌, length, take, drop, get_last?, drop_last,
}
use divoom_dev.Prelude.Decimal.{read_digits}
use divoom_dev.Prelude.Int.{ℤ, pos, negsuc, sub_ℕ}
use divoom_dev.Prelude.Text.{
  Text, codes, is_empty, find_char, slice, drop_while, take_while, is_digit, pieces,
}

-- What std::stoi and std::string::substr throw.
pub data Exception : Type 0 where
  invalid_argument out_of_range : Exception

pub data Outcome {ℓ} (A : Type ℓ) : Type ℓ where
  returns : A → Outcome A
  throws : Exception → Outcome A

infixl 5 ◌>>=◌
abbrev pub ◌>>=◌ {ℓ κ} : {A : Type ℓ} {B : Type κ} → Outcome A → (A → Outcome B) → Outcome B
returns a >>= f = f a
throws e >>= f = throws e

-- `try { … } catch (...) { fallback }`
abbrev pub or_else {ℓ} : {A : Type ℓ} → Outcome A → A → A
or_else (returns a) fallback = a
or_else (throws e) fallback = fallback

abbrev pub is_space : ℕ → Bool
is_space c = (c == 32) || (ltb 8 c && ltb c 14)

-- The sign and the text behind it.
abbrev pub split_sign : Text → Bool × Text
split_sign [] = (false, [])
split_sign (c ∷ s) =
    if c == b'-' then (true, s) else if c == b'+' then (false, s) else (false, c ∷ s)

-- The range of a signed type whose values lie below `limit`.
abbrev in_range : ℕ → Bool → ℕ → Outcome ℤ
in_range limit true n = if leb n limit then returns (sub_ℕ 0 n) else throws out_of_range
in_range limit false n = if ltb n limit then returns (pos n) else throws out_of_range

abbrev in_range_digits : ℕ → Bool → Text → Outcome ℤ
in_range_digits limit negative [] = throws invalid_argument
in_range_digits limit negative (c ∷ s) = in_range limit negative (read_digits 0 (c ∷ s))

-- Leading spaces, one sign, as many digits as there are.
unfoldable pub parse_signed : ℕ → Text → Outcome ℤ
unfolding read_digits
parse_signed limit s =
    let (negative, rest) = split_sign (drop_while is_space s) in
    in_range_digits limit negative (take_while is_digit rest)

-- std::stoi over a 32-bit int, std::stoll
unfoldable pub stoi : Text → Outcome ℤ
unfolding parse_signed
stoi s = parse_signed (2 ^ 31) s

unfoldable pub stoll : Text → Outcome ℤ
unfolding parse_signed
stoll s = parse_signed (2 ^ 63) s

-- `s.substr(i, n)`, which throws where `i` is past the end.
unfoldable pub substr : ℕ → ℕ → Text → Outcome Text
substr i n s = if ltb (length s) i then throws out_of_range else returns (slice i n s)

-- The set of characters that `trim` takes off.
abbrev pub is_blank : ℕ → Bool
is_blank c = (c == 32) || (c == 9) || (c == 13) || (c == 10)

unfoldable pub trim : Text → Text
trim s = reverse (drop_while is_blank (reverse (drop_while is_blank s)))

-- std::toupper in the C locale
abbrev pub upper : ℕ → ℕ
upper c = if ltb 96 c && ltb c 123 then c - 32 else c

unfoldable pub to_upper : Text → Text
to_upper = map upper

unfoldable pub unescape : Text → Text
unescape [] = []
unescape (c ∷ []) = c ∷ []
unescape (c ∷ d ∷ s) =
    let rest = unescape s in
    let next = unescape (d ∷ s) in
    if c == b'\\'
    then if (d == b'n') || (d == b'N')
      then 10 ∷ rest
      else if (d == b',') || (d == b';') || (d == b'\\')
      then d ∷ rest
      else c ∷ next
    else c ∷ next

-- A '\r' at the end of a line goes.
unfoldable pub strip_cr : Text → Text
strip_cr line = elim (get_last? line) [
  | none ↦ line
  | some c ↦ if c == 13 then drop_last line else line
]

-- `!lines.empty() && lines.back() == '\n'`
abbrev pub ends_line : Text → Bool
ends_line out = elim (get_last? out) [ none ↦ false | some c ↦ c == 10 ]

-- One round of the loop of `unfold`, on the line without its '\r'.
unfoldable pub unfold_line : Text → Text → Text
unfold_line out [] = out ++ 10 ∷ []
unfold_line out (c ∷ s) =
    if (c == 32) || (c == 9)
    then (if ends_line out then drop_last out else out) ++ s
    else (if is_empty out || ends_line out then out else out ++ 10 ∷ []) ++ (c ∷ s) ++ 10 ∷ []

unfoldable pub unfold_lines : Text → List Text → Text
unfold_lines out [] = out
unfold_lines out (line ∷ rest) = unfold_lines (unfold_line out (strip_cr line)) rest

unfoldable pub unfold_text : Text → Text
unfolding unfold_line unfold_lines strip_cr
unfold_text content = unfold_lines [] (pieces 10 content)

pub record IcsLine : Type 0 where
  pub key : Text
  pub params : Text
  pub value : Text

-- "KEY;PARAMS" cut at its first ';'
abbrev pub split_left : Text → Text × Text
split_left left = elim (find_char b';' left) [
  | none ↦ (left, [])
  | some i ↦ (take i left, drop (suc i) left)
]

-- Three empty texts where the line has no ':'.
unfoldable pub split_ics_line : Text → IcsLine
unfolding to_upper find_char
split_ics_line line = elim (find_char b':' line) [
  | none ↦ record { key = []; params = []; value = [] }
  | some i ↦
      let (key, params) = split_left (take i line) in
      record { key = to_upper key; params = params; value = drop (suc i) line }
]
