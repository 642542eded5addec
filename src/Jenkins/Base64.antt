-- ===== src/Jenkins/Base64.antt =====
-- EncodeBase64 of plugins/jenkins/src/client.cpp. The masks and shifts of a byte are written with
-- quotients and remainders: `(c & 0xfc) >> 2` is `c / 4 % 64`.
pub mod Decoding
use divoom_dev.Prelude.{ℕ, zero, suc, ◌+◌, ◌*◌, ◌/◌, ◌%◌, List, [], ◌∷◌, ◌++◌, Option, none, some}
use divoom_dev.Prelude.Text.{Text, codes}

unfoldable pub base64_chars : Text
base64_chars = codes "ABCDEFGHIJKLMNOPQRSTUVWXYZabcdefghijklmnopqrstuvwxyz0123456789+/"

-- std::string::operator[]: '\\0' at the end; the program stays before it.
unfoldable pub char_at : Text → ℕ → ℕ
char_at [] i = 0
char_at (c ∷ s) zero = c
char_at (c ∷ s) (suc i) = char_at s i

unfoldable pub letter : ℕ → ℕ
letter i = char_at base64_chars i

-- The four members of char_array_4.
abbrev pub first_six : ℕ → ℕ
first_six a = a / 4 % 64

abbrev pub second_six : ℕ → ℕ → ℕ
second_six a b = a % 4 * 16 + b / 16 % 16

abbrev pub third_six : ℕ → ℕ → ℕ
third_six b c = b % 16 * 4 + c / 64 % 4

abbrev pub fourth_six : ℕ → ℕ
fourth_six c = c % 64

-- The bytes of char_array_3 that the loop has filled: `i` of them.
pub data Group : Type 0 where
  filled_none : Group
  filled_one : ℕ → Group
  filled_two : ℕ → ℕ → Group

-- What stands behind the loop: the rest of char_array_3 is '\\0'.
unfoldable pub encode_rest : Group → Text
encode_rest filled_none = []
encode_rest (filled_one a) = letter (first_six a) ∷ letter (second_six a 0) ∷ codes "=="
encode_rest (filled_two a b) =
    letter (first_six a) ∷ letter (second_six a b) ∷ letter (third_six b 0) ∷ codes "="

unfoldable pub encode_loop : List ℕ → Group → Text
encode_loop [] g = encode_rest g
encode_loop (c ∷ bytes) filled_none = encode_loop bytes (filled_one c)
encode_loop (c ∷ bytes) (filled_one a) = encode_loop bytes (filled_two a c)
encode_loop (c ∷ bytes) (filled_two a b) =
    letter (first_six a)
    ∷ letter (second_six a b)
    ∷ letter (third_six b c)
    ∷ letter (fourth_six c)
    ∷ encode_loop bytes filled_none

unfoldable pub encode_base64 : List ℕ → Text
encode_base64 input = encode_loop input filled_none
