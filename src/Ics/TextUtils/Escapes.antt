-- ===== src/Ics/TextUtils/Escapes.antt =====
-- RFC 5545 escaping, and `unescape` of text_utils.cpp as its inverse.
use divoom_dev.Prelude.{
  ℕ, ◌≡◌, refl, ap, ◌∙◌, ◌≢◌, All, true, false, ◌||◌, ◌⊎◌, inl, inr, [], ◌∷◌, ◌++◌, arith, ◌==◌,
  if◌then◌else◌,
}
use divoom_dev.Prelude.Text.{Text}
use divoom_dev.Ics.TextUtils.{unescape}

-- RFC 5545, section 3.3.11: how a TEXT value is written.
abbrev pub escape_char : ℕ → Text
escape_char c =
    if c == 10
    then b'\\' ∷ b'n' ∷ []
    else if (c == b',') || (c == b';') || (c == b'\\')
    then b'\\' ∷ c ∷ []
    else c ∷ []

abbrev pub escape : Text → Text
escape [] = []
escape (c ∷ s) = escape_char c ++ escape s

unescape-plain : (c : ℕ) (s : Text) → (c == b'\\') ≡ false → unescape (c ∷ s) ≡ c ∷ unescape s
unfolding unescape
unescape-plain c [] h = refl
unescape-plain c (d ∷ s) h = ground arith

unescape-newline : (s : Text) → unescape (b'\\' ∷ b'n' ∷ s) ≡ 10 ∷ unescape s
unfolding unescape
unescape-newline s = refl

special_cases :
    (d : ℕ)
    → ((d == b',') || (d == b';') || (d == b'\\')) ≡ true
    → (d ≡ b',') ⊎ ((d ≡ b';') ⊎ (d ≡ b'\\'))
special_cases d h = ground arith

unescape-special :
    (d : ℕ) (s : Text)
    → ((d == b',') || (d == b';') || (d == b'\\')) ≡ true
    → unescape (b'\\' ∷ d ∷ s) ≡ d ∷ unescape s
unfolding unescape
unescape-special d s h = elim (special_cases d h) [
  | inl e ↦ rw e
  | inr (inl e) ↦ rw e
  | inr (inr e) ↦ rw e
]

unescape-escape_char : (c : ℕ) (s : Text) → unescape (escape_char c ++ s) ≡ c ∷ unescape s
unescape-escape_char c s =
    ground (arith, unescape-newline s, unescape-special c s, unescape-plain c s)

-- Reading back an escaped text gives the text, whatever bytes it holds.
pub unescape-escape : (s : Text) → unescape (escape s) ≡ s
unescape-escape [] = unfold unescape in refl
unescape-escape (c ∷ s) = unescape-escape_char c (escape s) ∙ ap (◌∷◌ c) (unescape-escape s)

-- What needs no escape is read as it stands.
pub unescape-no_escapes : (s : Text) → All (λ c. c ≢ b'\\') s → unescape s ≡ s
unescape-no_escapes [] h = unfold unescape in refl
unescape-no_escapes (c ∷ s) h =
    unescape-plain c s (ground (arith, h.0)) ∙ ap (◌∷◌ c) (unescape-no_escapes s h.1)
