-- ===== src/Json.antt =====
-- What the program uses of the JSON library (nlohmann::json), a parameter of the model. A call that
-- may throw returns an Option, and `none` is the exception.
pub mod Sample
use divoom_dev.Prelude.{ℕ, Bool, true, false, Option, none, some, List, [], ◌∷◌, if◌then◌else◌}
use divoom_dev.Prelude.Int.{ℤ}
use divoom_dev.Prelude.Text.{Text, text_eq}

pub record Nlohmann (J : Type 0) : Type 0 where
  pub parse : Text → Option J
  -- The member of an object, if it has one of that key.
  pub field : J → Text → Option J
  pub is_object : J → Bool
  pub is_null : J → Bool
  pub is_number : J → Bool
  pub is_string : J → Bool
  pub is_array : J → Bool
  -- What a range-for visits.
  pub items : J → List J
  pub get_int : J → Option ℤ
  -- `get` of an unsigned number of 64 bits.
  pub get_u64 : J → Option ℕ
  -- `operator==` with an int.
  pub equals_int : J → ℤ → Bool
  pub get_bool : J → Option Bool
  pub get_text : J → Option Text

infixl 5 ◌>>=◌
abbrev pub ◌>>=◌ {ℓ κ} : {A : Type ℓ} {B : Type κ} → Option A → (A → Option B) → Option B
none >>= f = none
some a >>= f = f a

-- `get<T>()` of each element, up to the first that throws.
unfoldable pub read_all : {J A : Type 0} → (J → Option A) → List J → Option (List A)
read_all read [] = some []
read_all read (j ∷ js) = do a ← read j; rest ← read_all read js; some (a ∷ rest)

module _ {J : Type 0} (json : Nlohmann J) where
  abbrev pub contains : J → Text → Bool
  contains j key = elim (json.field j key) [ none ↦ false | some v ↦ true ]

  -- The member, if it is of the kind that the test asks for.
  abbrev pub member_if : (J → Bool) → J → Text → Option J
  member_if test j key = elim (json.field j key) [
    | none ↦ none
    | some v ↦ if test v then some v else none
  ]

  -- `j.value(key, default)`: the member or the default; it throws where `j` is no object, and where
  -- the member is of another type.
  abbrev pub value : {A : Type 0} → (J → Option A) → J → Text → A → Option A
  value get j key default =
      if json.is_object j
      then elim (json.field j key) [ none ↦ some default | some v ↦ get v ]
      else none

  -- `operator==` with a std::string.
  abbrev pub equals_text : J → Text → Bool
  equals_text j t = elim (json.get_text j) [ none ↦ false | some s ↦ text_eq s t ]

  -- What a range-for visits of `j[key]`, of a `j` that is not const: a missing member is made, and
  -- is null.
  abbrev pub items_at : J → Text → Option (List J)
  items_at j key =
      if json.is_object j
      then elim (json.field j key) [ none ↦ some [] | some v ↦ some (json.items v) ]
      else if json.is_null j
      then some []
      else none

  -- What it visits of a member that `contains` has found.
  abbrev pub items_of_member : J → Text → List J
  items_of_member j key = elim (json.field j key) [ none ↦ [] | some v ↦ json.items v ]
