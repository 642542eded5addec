-- ===== src/Json/Sample.antt =====
-- JSON values for tests: an instance of the interface over a given parser.
use divoom_dev.Prelude.{Bool, true, false, Option, none, some, List, [], ◌∷◌, if◌then◌else◌}
use divoom_dev.Prelude.Int.{ℤ, pos, negsuc, eq_ℤ}
use divoom_dev.Prelude.Text.{Text, text_eq}
use divoom_dev.Json.{Nlohmann}

mutual
  pub data Doc : Type 0 where
    null : Doc
    bool : Bool → Doc
    num : ℤ → Doc
    text : Text → Doc
    array : Docs → Doc
    object : Fields → Doc

  pub data Docs : Type 0 where
    nil : Docs
    cons : Doc → Docs → Docs

  pub data Fields : Type 0 where
    end : Fields
    member : Text → Doc → Fields → Fields

abbrev find_member : Fields → Text → Option Doc
find_member end key = none
find_member (member k v rest) key = if text_eq k key then some v else find_member rest key

abbrev listed : Docs → List Doc
listed nil = []
listed (cons d ds) = d ∷ listed ds

abbrev values : Fields → List Doc
values end = []
values (member k v rest) = v ∷ values rest

abbrev items : Doc → List Doc
items null = []
items (array ds) = listed ds
items (object fs) = values fs
items d = d ∷ []

abbrev field : Doc → Text → Option Doc
field (object fs) key = find_member fs key
field _ key = none

abbrev pub over : (Text → Option Doc) → Nlohmann Doc
over parse = record {
  parse = parse;
  field = field;
  is_object = λ d. elim d [ object fs ↦ true | _ ↦ false ];
  is_null = λ d. elim d [ null ↦ true | _ ↦ false ];
  is_number = λ d. elim d [ num n ↦ true | _ ↦ false ];
  is_string = λ d. elim d [ text t ↦ true | _ ↦ false ];
  is_array = λ d. elim d [ array ds ↦ true | _ ↦ false ];
  items = items;
  get_int = λ d. elim d [ num n ↦ some n | _ ↦ none ];
  get_u64 = λ d. elim d [ num n ↦ elim n [ pos m ↦ some m | negsuc m ↦ none ] | _ ↦ none ];
  equals_int = λ d i. elim d [ num n ↦ eq_ℤ n i | _ ↦ false ];
  get_bool = λ d. elim d [ bool b ↦ some b | _ ↦ none ];
  get_text = λ d. elim d [ text t ↦ some t | _ ↦ none ];
}
