-- ===== src/Storage/Reopen.antt =====
-- What a later run of the service reads from the file of json_backend.cpp.
use divoom_dev.Prelude.{◌≡◌, refl, ap, sym, ◌∙◌, Bool, true, false, List, [], ◌∷◌, if◌then◌else◌}
use divoom_dev.Prelude.Text.{Text}
use divoom_dev.Storage.{
  Account, CalendarSource, Json, Backend, file_of, empty_document, save, load, opened,
  upsert_account, delete_account, upsert_calendar_source, remove_calendar_source, clear, set_meta,
  delete_meta, missing,
}

-- The operations of the storage that change it.
pub data Change : Type 0 where
  account : Account → Change
  no_account : Text → Change
  source : CalendarSource → Change
  no_source : Text → Change
  meta : Text → Text → Change
  no_meta : Text → Change
  everything : Change

module _ {J : Type 0} (json : Json J) where
  abbrev pub change : Bool → Change → Backend J → Backend J
  change w (account a) b = upsert_account json w a b
  change w (no_account s) b = delete_account json w s b
  change w (source s) b = upsert_calendar_source json w s b
  change w (no_source u) b = remove_calendar_source json w u b
  change w (meta k v) b = set_meta json w k v b
  change w (no_meta k) b = delete_meta json w k b
  change w everything b = clear json w b

  abbrev pub change_all : List Change → Backend J → Backend J
  change_all [] b = b
  change_all (c ∷ changes) b = change_all changes (change true c b)

  -- The file holds the document.
  abbrev pub IsSaved : Backend J → Type 0
  IsSaved b = b.file ≡ file_of b.doc

  IsSaved-if : (t : Bool) (x y : Backend J) → IsSaved x → IsSaved y → IsSaved (if t then x else y)
  IsSaved-if true x y h k = h
  IsSaved-if false x y h k = k

  IsSaved-change : (c : Change) (b : Backend J) → IsSaved b → IsSaved (change true c b)
  unfolding upsert_account delete_account upsert_calendar_source remove_calendar_source clear
      set_meta delete_meta save
  IsSaved-change (account a) b h = refl
  IsSaved-change (no_account s) b h = IsSaved-if _ _ _ (refl) h
  IsSaved-change (source s) b h = refl
  IsSaved-change (no_source u) b h = IsSaved-if _ _ _ (refl) h
  IsSaved-change (meta k v) b h = refl
  IsSaved-change (no_meta k) b h = refl
  IsSaved-change everything b h = refl

  IsSaved-change_all :
      (changes : List Change) (b : Backend J) → IsSaved b → IsSaved (change_all changes b)
  IsSaved-change_all [] b h = h
  IsSaved-change_all (c ∷ changes) b h =
      IsSaved-change_all changes (change true c b) (IsSaved-change c b h)

  load-saved : (w : Bool) (b : Backend J) → IsSaved b → load json w b.file ≡ opened b
  unfolding load
  load-saved w b h =
      ap (load json w) h ∙ ap (λ f. opened (record { doc = b.doc; file = f })) (sym h)

  -- A backend without entries, in step with its file.
  abbrev pub fresh : Backend J
  fresh = record { doc = empty_document; file = file_of empty_document }

  pub load-change_all :
      (load json true missing ≡ opened fresh)
      × IsSaved fresh
      × ((changes : List Change) (w : Bool) (b : Backend J)
          → IsSaved b
          → load json w (change_all changes b).file ≡ opened (change_all changes b))
  unfolding load save
  load-change_all = (
    refl,
    refl,
    λ changes w b h. load-saved w (change_all changes b) (IsSaved-change_all changes b h),
  )
