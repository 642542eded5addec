-- ===== src/Prelude/Text.antt =====
-- Texts are lists of bytes. The part of std::string that the program uses: comparison, search,
-- substrings and the lines that std::getline delivers.
use Prim.Native.Char.{code}
use Prim.Native.Nat.{ℕ, suc}
use Prim.Native.String.{String}
use mathlib.Core.Path.{◌≡◌, refl, subst}
use mathlib.Core.Logic.{◌↔◌, ◌≢◌}
use mathlib.Core.Bool.{Bool, true, false, ◌&&◌, ◌||◌}
use mathlib.Core.List.{List, [], ◌∷◌, ◌++◌}
use mathlib.Core.Option.{Option, none, some}
use native.Mathlib.Omega.{arith}
use divoom_dev.Prelude.Tests.{ltb, ◌==◌, if◌then◌else◌}
use divoom_dev.Prelude.Lists.{take, drop, All}

abbrev pub Text : Type 0
Text = List ℕ

-- The bytes of an ASCII literal.
abbrev pub codes : String → Text
codes String.[] = []
codes (String.◌∷◌ c s) = code c ∷ codes s

-- std::string::operator==
unfoldable pub text_eq : Text → Text → Bool
text_eq [] [] = true
text_eq [] (y ∷ ys) = false
text_eq (x ∷ xs) [] = false
text_eq (x ∷ xs) (y ∷ ys) = (x == y) && text_eq xs ys

-- std::string::operator<, by bytes
unfoldable pub text_lt : Text → Text → Bool
text_lt [] [] = false
text_lt [] (y ∷ ys) = true
text_lt (x ∷ xs) [] = false
text_lt (x ∷ xs) (y ∷ ys) = ltb x y || ((x == y) && text_lt xs ys)

abbrev pub is_empty : Text → Bool
is_empty [] = true
is_empty (c ∷ s) = false

-- `s.rfind(p, 0) == 0`
unfoldable pub starts_with : Text → Text → Bool
starts_with [] s = true
starts_with (c ∷ p) [] = false
starts_with (c ∷ p) (d ∷ s) = (c == d) && starts_with p s

-- `s.find(c)`; `none` is npos.
unfoldable pub find_char : ℕ → Text → Option ℕ
find_char c [] = none
find_char c (d ∷ s) =
    if d == c then some 0 else elim (find_char c s) [ none ↦ none | some i ↦ some (suc i) ]

-- `s.find(p)`; `none` is npos.
unfoldable pub find_text : Text → Text → Option ℕ
unfolding starts_with
find_text p [] = if is_empty p then some 0 else none
find_text p (d ∷ s) =
    if starts_with p (d ∷ s)
    then some 0
    else elim (find_text p s) [ none ↦ none | some i ↦ some (suc i) ]

-- `s.substr(i, n)` for i ≤ s.size().
abbrev pub slice : ℕ → ℕ → Text → Text
slice i n s = take n (drop i s)

abbrev pub drop_while : (ℕ → Bool) → Text → Text
drop_while p [] = []
drop_while p (c ∷ s) = if p c then drop_while p s else c ∷ s

abbrev pub take_while : (ℕ → Bool) → Text → Text
take_while p [] = []
take_while p (c ∷ s) = if p c then c ∷ take_while p s else []

abbrev pub is_digit : ℕ → Bool
is_digit c = ltb 47 c && ltb c 58

-- A byte in front of the first of some pieces.
abbrev pub glue : ℕ → List Text → List Text
glue c [] = (c ∷ []) ∷ []
glue c (l ∷ ls) = (c ∷ l) ∷ ls

-- The pieces that `while (std::getline(stream, piece, d))` delivers. A delimiter at the very end
-- opens no last empty piece.
unfoldable pub pieces : ℕ → Text → List Text
pieces d [] = []
pieces d (c ∷ s) = let rest = pieces d s in if c == d then [] ∷ rest else glue c rest

-- No byte of the text is `c`.
abbrev pub Lacks : ℕ → Text → Type 0
Lacks c = All (λ d. d ≢ c)

pub text_eq_refl : (s : Text) → text_eq s s ≡ true
unfolding text_eq
text_eq_refl [] = refl
text_eq_refl (c ∷ s) = ground (arith, text_eq_refl s)

text_eq_sound : (s t : Text) → text_eq s t ≡ true → s ≡ t
unfolding text_eq
text_eq_sound [] [] h = refl
text_eq_sound [] (y ∷ ys) h = ground arith
text_eq_sound (x ∷ xs) [] h = ground arith
text_eq_sound (x ∷ xs) (y ∷ ys) h = ground (arith, text_eq_sound xs ys)

pub text_eq_iff : (s t : Text) → (text_eq s t ≡ true) ↔ (s ≡ t)
text_eq_iff s t = (text_eq_sound s t, λ e. subst (λ u. text_eq s u ≡ true) e (text_eq_refl s))

pub text_lt_irrefl : (s : Text) → text_lt s s ≡ false
unfolding text_lt
text_lt_irrefl [] = refl
text_lt_irrefl (c ∷ s) = ground (arith, text_lt_irrefl s)

pub text_lt_trans : (r s t : Text) → text_lt r s ≡ true → text_lt s t ≡ true → text_lt r t ≡ true
unfolding text_lt
text_lt_trans [] [] t h k = ground arith
text_lt_trans [] (y ∷ s) [] h k = ground arith
text_lt_trans [] (y ∷ s) (z ∷ t) h k = refl
text_lt_trans (x ∷ r) [] t h k = ground arith
text_lt_trans (x ∷ r) (y ∷ s) [] h k = ground arith
text_lt_trans (x ∷ r) (y ∷ s) (z ∷ t) h k = ground (arith, text_lt_trans r s t)

pub text_lt_total : (s t : Text) → text_eq s t ≡ false → text_lt s t ≡ false → text_lt t s ≡ true
unfolding text_lt text_eq
text_lt_total [] [] h k = ground arith
text_lt_total [] (y ∷ t) h k = ground arith
text_lt_total (x ∷ s) [] h k = refl
text_lt_total (x ∷ s) (y ∷ t) h k = ground (arith, text_lt_total s t)

-- A piece that holds no delimiter, with its delimiter, is delivered as it is.
pub pieces-line :
    (d : ℕ) (s rest : Text) → All (λ c. c ≢ d) s → pieces d (s ++ d ∷ rest) ≡ s ∷ pieces d rest
unfolding pieces
pieces-line d [] rest h = ground arith
pieces-line d (c ∷ s) rest h = ground (arith, pieces-line d s rest h.1)

pub pieces-last : (d c : ℕ) (s : Text) → All (λ c. c ≢ d) (c ∷ s) → pieces d (c ∷ s) ≡ (c ∷ s) ∷ []
unfolding pieces
pieces-last d c [] h = ground arith
pieces-last d c (x ∷ s) h = ground (arith, pieces-last d x s h.1)
