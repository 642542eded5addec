-- ===== src/Ics/Cache/Persist.antt =====
-- `save` and `load` of plugins/ics/src/cache.cpp. The file is a text; whether it can be opened is an
-- argument, and so is std::hash.
pub mod RoundTrip
use divoom_dev.Prelude.{
  ℕ, ◌+◌, ◌-◌, ◌^◌, ◌%◌, Bool, true, false, Option, none, some, List, [], ◌∷◌, ◌++◌, ltb,
  if◌then◌else◌,
}
use divoom_dev.Prelude.Decimal.{read_digits, decimal}
use divoom_dev.Prelude.Int.{ℤ, pos, negsuc}
use divoom_dev.Prelude.Map.{insert}
use divoom_dev.Prelude.Text.{Text, is_empty, drop_while, take_while, is_digit, pieces}
use divoom_dev.Ics.Cache.{Cache, Entry}
use divoom_dev.Ics.Chrono.{Chrono, to_time_t, from_time_t}
use divoom_dev.Ics.TextUtils.{
  Outcome, returns, throws, invalid_argument, out_of_range, is_space, split_sign, stoll,
}

abbrev unsigned_of : Bool → ℕ → ℕ
unsigned_of true n = (2 ^ 64 - n) % 2 ^ 64
unsigned_of false n = n

abbrev unsigned_digits : Bool → Text → Outcome ℕ
unsigned_digits negative [] = throws invalid_argument
unsigned_digits negative (c ∷ s) =
    let n = read_digits 0 (c ∷ s) in
    if ltb n (2 ^ 64) then returns (unsigned_of negative n) else throws out_of_range

-- std::stoull, which takes a sign too.
unfoldable pub stoull : Text → Outcome ℕ
unfolding read_digits
stoull s =
    let (negative, rest) = split_sign (drop_while is_space s) in
    unsigned_digits negative (take_while is_digit rest)

-- How a std::ostream writes a signed number.
unfoldable pub signed_decimal : ℤ → Text
unfolding decimal
signed_decimal (pos n) = decimal n
signed_decimal (negsuc n) = b'-' ∷ decimal (n + 1)

module _ (c : Chrono) (hash : Text → ℕ) where
  -- The four lines of each entry.
  unfoldable pub save_entries : List (Text × Entry) → Text
  save_entries [] = []
  save_entries ((url, e) ∷ rest) =
      url
      ++ 10
        ∷ (decimal (hash e.content)
            ++ 10
              ∷ (signed_decimal (to_time_t c e.fetched_at)
                  ++ 10 ∷ (e.content ++ 10 ∷ save_entries rest)))

  -- The new contents of the file, if it is written, and the result.
  unfoldable pub save : Bool → Cache → Option Text × Bool
  unfolding save_entries
  save can_open cache =
      if is_empty cache.persist_path
      then (none, true)
      else if can_open
      then (some (save_entries cache.store), true)
      else (none, false)

-- What the next line is.
pub data Field : Type 0 where
  url hash timestamp content : Field

pub record Loader : Type 0 where
  pub store : List (Text × Entry)
  pub state : Field
  pub url : Text
  pub expected_hash : ℕ
  pub timestamp : ℤ

abbrev pub loader_start : Loader
loader_start = record {
  store = [];
  state = Field.url;
  url = [];
  expected_hash = 0;
  timestamp = pos 0;
}

abbrev read_hash : Loader → Outcome ℕ → Outcome Loader
read_hash l (throws e) = throws e
read_hash l (returns n) = returns (record l { expected_hash = n; state = Field.timestamp })

abbrev read_timestamp : Loader → Outcome ℤ → Outcome Loader
read_timestamp l (throws e) = throws e
read_timestamp l (returns n) = returns (record l { timestamp = n; state = Field.content })

abbrev load_field : Chrono → Field → Loader → Text → Outcome Loader
load_field c Field.url l line = returns (record l { url = line; state = Field.hash })
load_field c Field.hash l line = read_hash l (stoull line)
load_field c Field.timestamp l line = read_timestamp l (stoll line)
load_field c Field.content l line = returns (record l {
  store = insert l.url (record { content = line; fetched_at = from_time_t c l.timestamp }) l.store;
  state = Field.url;
})

-- One round of the loop: the `switch`.
unfoldable pub load_line : Chrono → Loader → Text → Outcome Loader
load_line c l line = load_field c l.state l line

-- An exception leaves the store as far as it was read.
unfoldable pub load_lines : Chrono → Loader → List Text → List (Text × Entry) × Outcome Bool
load_lines c l [] = (l.store, returns true)
load_lines c l (line ∷ rest) = elim (load_line c l line) [
  | throws e ↦ (l.store, throws e)
  | returns next ↦ load_lines c next rest
]

abbrev pub with_store : Cache → List (Text × Entry) × Outcome Bool → Cache × Outcome Bool
with_store cache (store, result) = (record cache { store = store }, result)

-- `none` is a file that cannot be opened.
unfoldable pub load : Chrono → Option Text → Cache → Cache × Outcome Bool
unfolding load_lines load_line
load c file cache = if is_empty cache.persist_path then (cache, returns true) else elim file [
  | none ↦ (cache, returns false)
  | some text ↦ with_store cache (load_lines c loader_start (pieces 10 text))
]
