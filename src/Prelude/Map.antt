-- ===== src/Prelude/Map.antt =====
-- std::map<std::string, V> and std::set<std::string>: association lists kept in the order of keys.
use mathlib.Core.Path.{◌≡◌, refl, sym, subst, ◌∙◌}
use mathlib.Core.Bool.{Bool, true, false, ◌||◌}
use mathlib.Core.List.{List, [], ◌∷◌, ◌++◌, append_assoc, append-nil}
use mathlib.Core.Option.{Option, none, some}
use native.Mathlib.Omega.{arith}
use divoom_dev.Prelude.Tests.{if◌then◌else◌}
use divoom_dev.Prelude.Text.{
  Text, text_eq, text_lt, text_eq_iff, text_lt_trans, text_lt_total, text_lt_irrefl,
}

text_lt_asym : (j k : Text) → text_lt j k ≡ true → (text_lt k j ≡ false) × (text_eq j k ≡ false)
text_lt_asym j k h =
    ground (arith, text_lt_trans j k j h, text_lt_irrefl j, text_eq_iff j k, text_lt_irrefl k)

module _ {ℓ} {V : Type ℓ} where
  -- `m.find(k)`
  unfoldable pub lookup : Text → List (Text × V) → Option V
  lookup k [] = none
  lookup k ((j, v) ∷ m) = if text_eq j k then some v else lookup k m

  -- `m[k] = v`
  unfoldable pub insert : Text → V → List (Text × V) → List (Text × V)
  insert k v [] = (k, v) ∷ []
  insert k v ((j, w) ∷ m) =
      if text_eq j k
      then (k, v) ∷ m
      else if text_lt k j
      then (k, v) ∷ (j, w) ∷ m
      else (j, w) ∷ insert k v m

  -- `m.erase(k)`
  unfoldable pub erase : Text → List (Text × V) → List (Text × V)
  erase k [] = []
  erase k ((j, v) ∷ m) = if text_eq j k then erase k m else (j, v) ∷ erase k m

  pub lookup-insert :
      (k j : Text) (v : V) (m : List (Text × V))
      → lookup j (insert k v m) ≡ (if text_eq k j then some v else lookup j m)
  unfolding lookup insert
  lookup-insert k j v [] = refl
  lookup-insert k j v ((i, w) ∷ m) =
      ground (arith, text_eq_iff k j, text_eq_iff i k, text_eq_iff i j, lookup-insert k j v m)

  pub lookup-erase :
      (k j : Text) (m : List (Text × V))
      → lookup j (erase k m) ≡ (if text_eq k j then none else lookup j m)
  unfolding lookup erase
  lookup-erase k j [] = ground arith
  lookup-erase k j ((i, w) ∷ m) =
      ground (arith, text_eq_iff k j, text_eq_iff i k, text_eq_iff i j, lookup-erase k j m)

  -- The keys rise strictly along the list.
  abbrev pub Above : Text → List (Text × V) → Type 0
  Above k [] = Unit
  Above k ((j, v) ∷ m) = (text_lt k j ≡ true) × Above j m

  abbrev pub IsOrdered : List (Text × V) → Type 0
  IsOrdered [] = Unit
  IsOrdered ((k, v) ∷ m) = Above k m

  Above-mono : (a b : Text) (m : List (Text × V)) → text_lt a b ≡ true → Above b m → Above a m
  Above-mono a b [] h k = tt
  Above-mono a b ((j, v) ∷ m) h k = (text_lt_trans a b j h k.0, k.1)

  Above-IsOrdered : (k : Text) (m : List (Text × V)) → Above k m → IsOrdered m
  Above-IsOrdered k [] a = tt
  Above-IsOrdered k ((j, v) ∷ m) a = a.1

  insert-Above :
      (b k : Text) (v : V) (m : List (Text × V))
      → text_lt b k ≡ true
      → Above b m
      → Above b (insert k v m)
  unfolding insert
  insert-Above b k v [] h a = (h, tt)
  insert-Above b k v ((j, w) ∷ m) h a =
      ground (arith, text_eq_iff j k, text_lt_total j k, insert-Above j k v m)

  -- An assignment keeps the keys in order.
  pub insert-IsOrdered :
      (k : Text) (v : V) (m : List (Text × V)) → IsOrdered m → IsOrdered (insert k v m)
  unfolding insert
  insert-IsOrdered k v [] o = tt
  insert-IsOrdered k v ((j, w) ∷ m) o =
      ground (arith, text_eq_iff j k, text_lt_total j k, insert-Above j k v m)

  erase-Above : (b k : Text) (m : List (Text × V)) → Above b m → Above b (erase k m)
  unfolding erase
  erase-Above b k [] a = tt
  erase-Above b k ((j, w) ∷ m) a =
      ground (arith, erase-Above j k m a.1, erase-Above b k m (Above-mono b j m a.0 a.1))

  -- So does an erasure.
  pub erase-IsOrdered : (k : Text) (m : List (Text × V)) → IsOrdered m → IsOrdered (erase k m)
  unfolding erase
  erase-IsOrdered k [] o = tt
  erase-IsOrdered k ((j, w) ∷ m) o =
      ground (arith, erase-Above j k m o, Above-IsOrdered j (erase k m))

  -- Assignments in turn.
  abbrev pub insert_all : List (Text × V) → List (Text × V) → List (Text × V)
  insert_all m [] = m
  insert_all m ((k, v) ∷ rest) = insert_all (insert k v m) rest

  Above-lt :
      (j k : Text) (v : V) (m rest : List (Text × V))
      → Above j (m ++ (k, v) ∷ rest)
      → text_lt j k ≡ true
  Above-lt j k v [] rest a = a.0
  Above-lt j k v ((i, w) ∷ m) rest a = text_lt_trans j i k a.0 (Above-lt i k v m rest a.1)

  insert_last :
      (k : Text) (v : V) (m rest : List (Text × V))
      → IsOrdered (m ++ (k, v) ∷ rest)
      → insert k v m ≡ m ++ (k, v) ∷ []
  unfolding insert
  insert_last k v [] rest o = refl
  insert_last k v ((j, w) ∷ m) rest o = ground (
    arith,
    text_lt_asym j k (Above-lt j k v m rest o),
    insert_last k v m rest (Above-IsOrdered j (m ++ (k, v) ∷ rest) o),
  )

  -- Assigning the entries of an ordered map in order rebuilds it.
  pub insert_all_ordered :
      (m rest : List (Text × V)) → IsOrdered (m ++ rest) → insert_all m rest ≡ m ++ rest
  insert_all_ordered m [] o = sym (append-nil m)
  insert_all_ordered m ((k, v) ∷ rest) o = rw (insert_last k v m rest o) (
      insert_all_ordered (m ++ (k, v) ∷ []) rest
        (subst IsOrdered (sym (append_assoc m ((k, v) ∷ []) rest)) o)
      ∙ append_assoc m ((k, v) ∷ []) rest)

-- std::set<std::string>: the keys alone.
unfoldable pub insert_key : Text → List Text → List Text
insert_key k [] = k ∷ []
insert_key k (j ∷ s) =
    if text_eq j k then j ∷ s else if text_lt k j then k ∷ j ∷ s else j ∷ insert_key k s

unfoldable pub has_key : Text → List Text → Bool
has_key k [] = false
has_key k (j ∷ s) = text_eq j k || has_key k s

pub has_key-insert_key :
    (k j : Text) (s : List Text) → has_key j (insert_key k s) ≡ (text_eq k j || has_key j s)
unfolding has_key insert_key
has_key-insert_key k j [] = refl
has_key-insert_key k j (i ∷ s) =
    ground (arith, text_eq_iff k j, text_eq_iff i k, text_eq_iff i j, has_key-insert_key k j s)
