-- ===== src/Storage/Saving.antt =====
-- `json_backend::save` and `atomic_replace` of storage/src/json_backend.cpp, call by call: the two
-- files as each call leaves them. The directories that are made hold no file of the backend.
use divoom_dev.Prelude.{
  ◌≡◌, ◌⊎◌, refl, sym, ap, subst, inl, inr, Bool, true, false, ◌&&◌, ◌||◌, not, List, [], ◌∷◌, All,
  arith, if◌then◌else◌,
}
use divoom_dev.Storage.{
  Document, File, missing, invalid, file_of, Json, Backend, opened, load, save,
}
use divoom_dev.Storage.Reopen.{fresh, load-change_all}

-- What the system does.
pub record System : Type 0 where
  pub opens_tmp : Bool
  -- The whole document is written; the code does not ask.
  pub writes : Bool
  -- On Windows MoveFileExA is called first, which may succeed.
  pub is_windows : Bool
  pub moves : Bool
  pub removes : Bool
  pub renames : Bool

-- The file of the backend and the one beside it.
pub record Disk (J : Type 0) : Type 0 where
  pub dest : File J
  pub tmp : File J

module _ {J : Type 0} (system : System) where
  -- The new name holds what the old one held.
  abbrev pub moved : Disk J → Disk J
  moved d = record { dest = d.tmp; tmp = missing }

  abbrev pub removed : Disk J → Disk J
  removed d = if system.removes then record d { dest = missing } else d

  unfoldable pub atomic_replace : Disk J → List (Disk J) × Bool
  atomic_replace d =
      let gone = removed d in
      if system.is_windows && system.moves
      then (moved d ∷ [], true)
      else if system.renames
      then (gone ∷ moved gone ∷ [], true)
      else (gone ∷ [], false)

  -- The file is truncated when it is opened; an empty file is no JSON.
  abbrev pub truncated : Disk J → Disk J
  truncated d = record d { tmp = invalid }

  abbrev pub written : Document J → Disk J → Disk J
  written doc d = record d { tmp = if system.writes then file_of doc else invalid }

  -- The disk after each call, and what save returns.
  unfoldable pub save_steps : Document J → Disk J → List (Disk J) × Bool
  unfolding atomic_replace
  save_steps doc d =
      let replaced = atomic_replace (written doc d) in
      if system.opens_tmp
      then (truncated d ∷ written doc d ∷ replaced.0, replaced.1)
      else ([], false)

  abbrev pub last_of : Disk J → List (Disk J) → Disk J
  last_of d [] = d
  last_of d (e ∷ rest) = last_of e rest

  -- The backend's file holds what it held or the document; or it is missing, behind a removal without
  -- MoveFileExA, while the file beside it holds the document.
  abbrev pub IsKept : File J → Document J → Disk J → Type 0
  IsKept old doc d =
      (d.dest ≡ old)
      ⊎ ((d.dest ≡ file_of doc)
          ⊎ ((d.dest ≡ missing)
              × (d.tmp ≡ file_of doc)
              × (system.is_windows && system.moves ≡ false)))

  -- Each point of a save keeps a file, and a save that returns true has saved.
  abbrev pub Keeps : Document J → Disk J → List (Disk J) × Bool → Type 0
  Keeps doc d (steps, ok) =
      All (IsKept d.dest doc) steps × ((ok ≡ false) ⊎ ((last_of d steps).dest ≡ file_of doc))

abbrev writing : Bool → Bool → Bool → Bool → Bool → System
writing o win m r n = record {
  opens_tmp = o;
  writes = true;
  is_windows = win;
  moves = m;
  removes = r;
  renames = n;
}

module _ {J : Type 0} (doc : Document J) (d : Disk J) where
  kept :
      (o win m r n : Bool)
      → Keeps (writing o win m r n) doc d (save_steps (writing o win m r n) doc d)
  unfolding save_steps atomic_replace
  kept false win m r n = (tt, inl refl)
  kept true true true r n = ((inl refl, (inl refl, (inr (inl refl), tt))), inr refl)
  kept true true false true true =
      ((inl refl, (inl refl, (inr (inr (refl, refl, refl)), (inr (inl refl), tt)))), inr refl)
  kept true true false true false =
      ((inl refl, (inl refl, (inr (inr (refl, refl, refl)), tt))), inl refl)
  kept true true false false true =
      ((inl refl, (inl refl, (inl refl, (inr (inl refl), tt)))), inr refl)
  kept true true false false false = ((inl refl, (inl refl, (inl refl, tt))), inl refl)
  kept true false m true true =
      ((inl refl, (inl refl, (inr (inr (refl, refl, refl)), (inr (inl refl), tt)))), inr refl)
  kept true false m true false =
      ((inl refl, (inl refl, (inr (inr (refl, refl, refl)), tt))), inl refl)
  kept true false m false true =
      ((inl refl, (inl refl, (inl refl, (inr (inl refl), tt)))), inr refl)
  kept true false m false false = ((inl refl, (inl refl, (inl refl, tt))), inl refl)

  -- Where the whole document is written: after each call of a save, the backend's file holds what it
  -- held before or the document that is saved, or it is missing while the file beside it holds that
  -- document; it is never missing where MoveFileExA succeeds. If save returns true, the file holds the
  -- document in the end.
  pub save_steps-Keeps :
      (system : System) → system.writes ≡ true → Keeps system doc d (save_steps system doc d)
  save_steps-Keeps system w =
      let all : system
          ≡ writing system.opens_tmp system.is_windows system.moves system.removes system.renames =
        ap {A = Bool} (λ b. record system { writes = b }) w in
      subst (λ x. Keeps x doc d (save_steps x doc d)) (sym all)
        (kept system.opens_tmp system.is_windows system.moves system.removes system.renames)

module _ {J : Type 0} (json : Json J) (doc : Document J) (d : Disk J) where
  abbrev backend_before : Backend J
  backend_before = record { doc = doc; file = d.dest }

  -- Between a removal and the renaming the settings are lost: the next start makes an empty backend.
  load-removed :
      (system : System)
      → system.removes ≡ true
      → load json true (removed system d).dest ≡ opened (fresh json)
  load-removed system r = rw (r) ((load-change_all json).0)

  -- Where the whole document is written, and the renaming succeeds if the removal does, the calls
  -- leave the file as `save` does with the value that they return.
  save-save_steps :
      (system : System)
      → system.writes ≡ true
      → (not system.removes || system.renames) ≡ true
      → (last_of system d (save_steps system doc d).0).dest
        ≡ (save json (save_steps system doc d).1 backend_before).file
  unfolding save_steps atomic_replace save
  save-save_steps system w h = ground arith
