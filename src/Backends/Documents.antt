-- ===== src/Backends/Documents.antt =====
-- The document of the JSON backend as an image of plain lists: what each change makes of it.
use divoom_dev.Prelude.{
  ◌≡◌, refl, inl, inr, Bool, true, false, Option, none, some, List, [], ◌∷◌, map, arith, Bool-cases,
}
use divoom_dev.Prelude.Map.{insert, erase}
use divoom_dev.Prelude.Text.{Text}
use divoom_dev.Storage.{
  Json, Document, Backend, empty_document, put_item, find_item, drop_item, has_item, save,
  upsert_account, delete_account, upsert_calendar_source, remove_calendar_source, clear, set_meta,
  delete_meta,
}
use divoom_dev.Storage.Reopen.{Change, change}

unfoldable pub map_option {ℓ κ} : {A : Type ℓ} {B : Type κ} → (A → B) → Option A → Option B
map_option f none = none
map_option f (some a) = some (f a)

-- Items that are made of models, with the models' keys.
module _ {J A : Type 0} (of : A → J) (key_of : J → Text) (key : A → Text)
    (keeps : (a : A) → key_of (of a) ≡ key a) where
  pub put_item-map :
      (k : Text) (a : A) (xs : List A)
      → put_item key_of k (of a) (map of xs) ≡ map of (put_item key k a xs)
  unfolding put_item
  put_item-map k a [] = refl
  put_item-map k a (x ∷ xs) = ground (arith, keeps x, put_item-map k a xs)

  pub drop_item-map :
      (k : Text) (xs : List A) → drop_item key_of k (map of xs) ≡ map of (drop_item key k xs)
  unfolding drop_item
  drop_item-map k [] = refl
  drop_item-map k (x ∷ xs) = ground (arith, keeps x, drop_item-map k xs)

  pub find_item-map :
      (k : Text) (xs : List A) → find_item key_of k (map of xs) ≡ map_option of (find_item key k xs)
  unfolding find_item map_option
  find_item-map k [] = refl
  find_item-map k (x ∷ xs) = ground (arith, keeps x, find_item-map k xs)

module _ {J : Type 0} (key_of : J → Text) where
  drop_item-absent :
      (k : Text) (xs : List J) → has_item key_of k xs ≡ false → drop_item key_of k xs ≡ xs
  unfolding drop_item find_item
  drop_item-absent k [] h = refl
  drop_item-absent k (x ∷ xs) h = ground (arith, drop_item-absent k xs)

module _ {J : Type 0} (json : Json J) where
  abbrev pub doc_change : Change → Document J → Document J
  doc_change (Change.account a) d = record d {
    accounts = put_item json.service_of a.service (json.of_account a) d.accounts;
  }
  doc_change (Change.no_account k) d = record d {
    accounts = drop_item json.service_of k d.accounts;
  }
  doc_change (Change.source c) d = record d {
    calendar_sources = put_item json.url_of c.url (json.of_source c) d.calendar_sources;
  }
  doc_change (Change.no_source k) d = record d {
    calendar_sources = drop_item json.url_of k d.calendar_sources;
  }
  doc_change (Change.meta k v) d = record d { meta = insert k v d.meta }
  doc_change (Change.no_meta k) d = record d { meta = erase k d.meta }
  doc_change Change.everything d = empty_document

  doc-save : (w : Bool) (b : Backend J) → (save json w b).doc ≡ b.doc
  unfolding save
  doc-save true b = refl
  doc-save false b = refl

  -- The document does not depend on whether the file can be written.
  pub doc-change :
      (w : Bool) (c : Change) (b : Backend J) → (change json w c b).doc ≡ doc_change c b.doc
  unfolding upsert_account delete_account upsert_calendar_source remove_calendar_source clear
      set_meta delete_meta
  doc-change w (Change.account a) b = doc-save w _
  doc-change w (Change.no_account k) b =
      elim (Bool-cases (has_item json.service_of k b.doc.accounts)) [
        | inl h ↦ rw (h) (doc-save w _)
        | inr h ↦ rw (h, drop_item-absent json.service_of k b.doc.accounts h) refl
      ]
  doc-change w (Change.source c) b = doc-save w _
  doc-change w (Change.no_source k) b =
      elim (Bool-cases (has_item json.url_of k b.doc.calendar_sources)) [
        | inl h ↦ rw (h) (doc-save w _)
        | inr h ↦ rw (h, drop_item-absent json.url_of k b.doc.calendar_sources h) refl
      ]
  doc-change w (Change.meta k v) b = doc-save w _
  doc-change w (Change.no_meta k) b = doc-save w _
  doc-change w Change.everything b = doc-save w _
