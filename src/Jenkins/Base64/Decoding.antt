-- ===== src/Jenkins/Base64/Decoding.antt =====
-- A decoder of base64 (RFC 4648) that is written without the encoder, and the encoder's round trip
-- through it.
use divoom_dev.Prelude.{
  ℕ, zero, suc, ◌+◌, ◌*◌, ◌-◌, ◌/◌, ◌%◌, ◌≡◌, ◌<◌, refl, Bool, true, false, ◌&&◌, List, [], ◌∷◌,
  ◌++◌, Option, none, some, leb, ◌==◌, if◌then◌else◌, All, arith, length,
}
use divoom_dev.Json.{◌>>=◌}
use divoom_dev.Prelude.Text.{Text}
use divoom_dev.Jenkins.Base64.{
  base64_chars, char_at, letter, first_six, second_six, third_six, fourth_six, filled_none,
  encode_rest, encode_loop, encode_base64,
}

-- The value of a digit: A-Z, a-z, 0-9, '+' and '/' stand for 0 to 63.
unfoldable pub digit : ℕ → Option ℕ
digit c =
    if leb 65 c && leb c 90
    then some (c - 65)
    else if leb 97 c && leb c 122
    then some (c - 71)
    else if leb 48 c && leb c 57
    then some (c + 4)
    else if c == 43
    then some 62
    else if c == 47
    then some 63
    else none

-- Four digits are three bytes.
unfoldable pub decode_full : ℕ → ℕ → ℕ → ℕ → Option (List ℕ)
decode_full a b c d = do
  s ← digit a
  t ← digit b
  u ← digit c
  v ← digit d
  some ((s * 4 + t / 16) ∷ (t % 16 * 16 + u / 4) ∷ (u % 4 * 64 + v) ∷ [])

unfoldable pub decode_two : ℕ → ℕ → ℕ → Option (List ℕ)
decode_two a b c = do
  s ← digit a
  t ← digit b
  u ← digit c
  some ((s * 4 + t / 16) ∷ (t % 16 * 16 + u / 4) ∷ [])

unfoldable pub decode_one : ℕ → ℕ → Option (List ℕ)
decode_one a b = do s ← digit a; t ← digit b; some ((s * 4 + t / 16) ∷ [])

-- The last group may end in one or two '='.
unfoldable pub decode_last : ℕ → ℕ → ℕ → ℕ → Option (List ℕ)
decode_last a b c d =
    if d == 61 then if c == 61 then decode_one a b else decode_two a b c else decode_full a b c d

unfoldable pub decode : Text → Option (List ℕ)
decode [] = some []
decode (a ∷ b ∷ c ∷ d ∷ rest) =
    let more = decode rest in
    elim rest [
      | [] ↦ decode_last a b c d
      | _ ∷ _ ↦ do front ← decode_full a b c d; back ← more; some (front ++ back)
    ]
decode _ = none

abbrev reads_to : Option ℕ → ℕ → Bool
reads_to none n = false
reads_to (some i) n = i == n

abbrev letters : ℕ → Bool
letters zero = true
letters (suc n) = reads_to (digit (letter n)) n && letters n

letters_lem : letters 64 ≡ true
unfolding digit letter base64_chars char_at
letters_lem = refl

letters-reads_to : (n i : ℕ) → letters n ≡ true → i < n → reads_to (digit (letter i)) i ≡ true
letters-reads_to zero i h l = ground arith
letters-reads_to (suc n) i h l = ground (arith, letters-reads_to n i)

reads_to-some : (o : Option ℕ) (i : ℕ) → reads_to o i ≡ true → o ≡ some i
reads_to-some none i h = ground arith
reads_to-some (some j) i h = ground arith

digit-letter : (i : ℕ) → i < 64 → digit (letter i) ≡ some i
digit-letter i h = reads_to-some (digit (letter i)) i (letters-reads_to 64 i letters_lem h)

letter_not_pad : (i : ℕ) → i < 64 → (letter i == 61) ≡ false
unfolding digit
letter_not_pad i h = ground (arith, digit-letter i h)

first_byte : (a b : ℕ) → a < 256 → first_six a * 4 + second_six a b / 16 ≡ a
first_byte a b h = omega arith

second_byte : (a b c : ℕ) → b < 256 → second_six a b % 16 * 16 + third_six b c / 4 ≡ b
second_byte a b c h = omega arith

third_byte : (b c : ℕ) → c < 256 → third_six b c % 4 * 64 + fourth_six c ≡ c
third_byte b c h = omega arith

decode_full-letters :
    (a b c : ℕ)
    → a < 256
    → b < 256
    → c < 256
    → decode_full
        (letter (first_six a))
        (letter (second_six a b))
        (letter (third_six b c))
        (letter (fourth_six c))
      ≡ some (a ∷ b ∷ c ∷ [])
unfolding decode_full
decode_full-letters a b c ha hb hc =
    rw
      (
        digit-letter (first_six a) (omega arith),
        digit-letter (second_six a b) (omega arith),
        digit-letter (third_six b c) (omega arith),
        digit-letter (fourth_six c) (omega arith),
        first_byte a b ha,
        second_byte a b c hb,
        third_byte b c hc,
      )
      refl

decode-group :
    (a b c d x y z : ℕ) (rest : Text) (bytes : List ℕ)
    → decode_full a b c d ≡ some (x ∷ y ∷ z ∷ [])
    → (d == 61) ≡ false
    → decode rest ≡ some bytes
    → decode (a ∷ b ∷ c ∷ d ∷ rest) ≡ some (x ∷ y ∷ z ∷ bytes)
unfolding decode decode_last
decode-group a b c d x y z [] bytes f p h = ground arith
decode-group a b c d x y z (e ∷ rest) bytes f p h = rw (f, h) refl

-- Base64 is read back: what decodes it returns, from the encoding of bytes below 256, the bytes.
pub decode-encode_base64 :
    (bytes : List ℕ) → All (λ c. c < 256) bytes → decode (encode_base64 bytes) ≡ some bytes
unfolding encode_base64 encode_loop encode_rest decode decode_last decode_one decode_two
decode-encode_base64 [] h = refl
decode-encode_base64 (a ∷ []) h =
    rw
      (
        digit-letter (first_six a) (omega arith),
        digit-letter (second_six a 0) (omega arith),
        first_byte a 0 h.0,
      )
      refl
decode-encode_base64 (a ∷ b ∷ []) h =
    rw
      (
        letter_not_pad (third_six b 0) (omega arith),
        digit-letter (first_six a) (omega arith),
        digit-letter (second_six a b) (omega arith),
        digit-letter (third_six b 0) (omega arith),
        first_byte a b h.0,
        second_byte a b 0 h.1.0,
      )
      refl
decode-encode_base64 (a ∷ b ∷ c ∷ bytes) h =
    decode-group (letter (first_six a)) (letter (second_six a b)) (letter (third_six b c))
      (letter (fourth_six c)) a b c (encode_loop bytes filled_none) bytes
      (decode_full-letters a b c h.0 h.1.0 h.1.1.0) (letter_not_pad (fourth_six c) (omega arith))
      (decode-encode_base64 bytes h.1.1.1)

-- Three bytes are four characters, and the last group is filled up.
pub length-encode_base64 :
    (bytes : List ℕ) → length (encode_base64 bytes) ≡ (length bytes + 2) / 3 * 4
unfolding encode_base64 encode_loop encode_rest
length-encode_base64 [] = refl
length-encode_base64 (a ∷ []) = refl
length-encode_base64 (a ∷ b ∷ []) = refl
length-encode_base64 (a ∷ b ∷ c ∷ bytes) = omega (arith, length-encode_base64 bytes)
