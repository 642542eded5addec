-- ===== src/Storage.antt =====
-- storage/src/json_backend.cpp and storage/include/storage/models.h. The JSON library is the
-- parameter `Json`: how a value of an array is made of a model and read again, and the key that
-- `item.value(...)` finds in it. Whether the file can be written is an argument of each operation;
-- the file holds a document, which the library prints and parses.
pub mod Accounts
pub mod Sources
pub mod Reopen
pub mod Saving
pub mod Sample
mod Tests
use divoom_dev.Prelude.{
  ℕ, ◌==◌, Bool, true, false, not, Option, none, some, List, [], ◌∷◌, ◌++◌, map, if◌then◌else◌,
}
use divoom_dev.Prelude.Int.{ℤ, pos, ltb_ℤ, eq_ℤ}
use divoom_dev.Prelude.Map.{lookup, insert, erase}
use divoom_dev.Prelude.Sort.{sort}
use divoom_dev.Prelude.Text.{Text, text_eq, text_lt}

pub record Account : Type 0 where
  pub service : Text
  pub login : Text
  pub password : Text

pub record CalendarSource : Type 0 where
  pub url : Text
  pub priority : ℤ
  pub enabled : Bool

pub record Json (J : Type 0) : Type 0 where
  pub of_account : Account → J
  pub to_account : J → Account
  pub service_of : J → Text
  pub of_source : CalendarSource → J
  pub to_source : J → CalendarSource
  pub url_of : J → Text

-- doc_, without the schema version, which nothing reads.
pub record Document (J : Type 0) : Type 0 where
  pub accounts : List J
  pub calendar_sources : List J
  pub meta : List (Text × Text)

abbrev pub empty_document : {J : Type 0} → Document J
empty_document = record { accounts = []; calendar_sources = []; meta = [] }

-- A file that was parsed may lack a key.
pub record Loaded (J : Type 0) : Type 0 where
  pub accounts : Option (List J)
  pub calendar_sources : Option (List J)
  pub meta : Option (List (Text × Text))

pub data File (J : Type 0) : Type 0 where
  missing : File J
  invalid : File J
  holds : Loaded J → File J

pub record Backend (J : Type 0) : Type 0 where
  pub doc : Document J
  pub file : File J

-- What the constructor does: it makes a backend, or throws.
pub data Opened (J : Type 0) : Type 0 where
  opened : Backend J → Opened J
  cannot_create : Opened J
  invalid_file : Opened J

abbrev pub or_else {ℓ} : {A : Type ℓ} → Option A → A → A
or_else none d = d
or_else (some a) d = a

-- An item of the array with a key, replaced where it stands or added at the end.
unfoldable pub put_item : {J : Type 0} → (J → Text) → Text → J → List J → List J
put_item key_of k j [] = j ∷ []
put_item key_of k j (x ∷ xs) = if text_eq (key_of x) k then j ∷ xs else x ∷ put_item key_of k j xs

unfoldable pub find_item : {J : Type 0} → (J → Text) → Text → List J → Option J
find_item key_of k [] = none
find_item key_of k (x ∷ xs) = if text_eq (key_of x) k then some x else find_item key_of k xs

-- Without the first item with the key.
unfoldable pub drop_item : {J : Type 0} → (J → Text) → Text → List J → List J
drop_item key_of k [] = []
drop_item key_of k (x ∷ xs) = if text_eq (key_of x) k then xs else x ∷ drop_item key_of k xs

abbrev pub has_item : {J : Type 0} → (J → Text) → Text → List J → Bool
has_item key_of k xs = elim (find_item key_of k xs) [ none ↦ false | some _ ↦ true ]

abbrev pub file_of : {J : Type 0} → Document J → File J
file_of doc = holds (record {
  accounts = some doc.accounts;
  calendar_sources = some doc.calendar_sources;
  meta = some doc.meta;
})

-- A priority that is greater comes first; then the urls decide.
abbrev pub source_before : CalendarSource → CalendarSource → Bool
source_before a b =
    if not (eq_ℤ a.priority b.priority) then ltb_ℤ b.priority a.priority else text_lt a.url b.url

module _ {J : Type 0} (json : Json J) where
  unfoldable pub save : Bool → Backend J → Backend J
  save writable b = if writable then record b { file = file_of b.doc } else b

  abbrev merged : Loaded J → Document J
  merged l = record {
    accounts = or_else l.accounts [];
    calendar_sources = or_else l.calendar_sources [];
    meta = or_else l.meta [];
  }

  unfoldable pub load : Bool → File J → Opened J
  unfolding save
  load writable missing =
      if writable
      then opened (save true (record { doc = empty_document; file = missing }))
      else cannot_create
  load writable invalid = invalid_file
  load writable (holds l) = opened (record { doc = merged l; file = holds l })

  abbrev pub set_accounts : Backend J → List J → Backend J
  set_accounts b xs = record b { doc = record b.doc { accounts = xs } }

  abbrev set_sources : Backend J → List J → Backend J
  set_sources b xs = record b { doc = record b.doc { calendar_sources = xs } }

  unfoldable pub upsert_account : Bool → Account → Backend J → Backend J
  unfolding save put_item
  upsert_account writable acc b =
      save writable
        (set_accounts b (put_item json.service_of acc.service (json.of_account acc) b.doc.accounts))

  abbrev pub account_of : Option J → Option Account
  account_of none = none
  account_of (some j) = some (json.to_account j)

  unfoldable pub get_account : Text → Backend J → Option Account
  unfolding find_item
  get_account service b = account_of (find_item json.service_of service b.doc.accounts)

  unfoldable pub list_accounts : Backend J → List Account
  list_accounts b = map json.to_account b.doc.accounts

  -- Nothing is saved where nothing is found.
  unfoldable pub delete_account : Bool → Text → Backend J → Backend J
  unfolding save drop_item find_item
  delete_account writable service b =
      if has_item json.service_of service b.doc.accounts
      then save writable (set_accounts b (drop_item json.service_of service b.doc.accounts))
      else b

  unfoldable pub upsert_calendar_source : Bool → CalendarSource → Backend J → Backend J
  unfolding save put_item
  upsert_calendar_source writable src b =
      save writable
        (set_sources b (put_item json.url_of src.url (json.of_source src) b.doc.calendar_sources))

  unfoldable pub list_calendar_sources : Backend J → List CalendarSource
  list_calendar_sources b = sort source_before (map json.to_source b.doc.calendar_sources)

  unfoldable pub remove_calendar_source : Bool → Text → Backend J → Backend J
  unfolding save drop_item find_item
  remove_calendar_source writable url b =
      if has_item json.url_of url b.doc.calendar_sources
      then save writable (set_sources b (drop_item json.url_of url b.doc.calendar_sources))
      else b

  unfoldable pub clear : Bool → Backend J → Backend J
  unfolding save
  clear writable b = save writable (record b { doc = empty_document })

  unfoldable pub set_meta : Bool → Text → Text → Backend J → Backend J
  unfolding save insert
  set_meta writable k v b =
      save writable (record b { doc = record b.doc { meta = insert k v b.doc.meta } })

  unfoldable pub get_meta : Text → Backend J → Option Text
  unfolding lookup
  get_meta k b = lookup k b.doc.meta

  unfoldable pub list_meta : Backend J → List (Text × Text)
  list_meta b = b.doc.meta

  unfoldable pub delete_meta : Bool → Text → Backend J → Backend J
  unfolding save erase
  delete_meta writable k b =
      save writable (record b { doc = record b.doc { meta = erase k b.doc.meta } })
