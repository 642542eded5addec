-- ===== src/Backends/Order.antt =====
-- A list that is sorted, and holds no key twice, is determined by what is found in it.
use divoom_dev.Prelude.{
  ◌≡◌, refl, ap, ◌∙◌, inl, inr, Bool, true, false, none, some, List, [], ◌∷◌, arith, if◌then◌else◌,
  All, Bool-cases,
}
use divoom_dev.Prelude.Sort.{sort, insert_sorted, IsSorted}
use divoom_dev.Prelude.Text.{Text, text_eq, text_eq_iff, text_eq_refl}
use divoom_dev.Storage.{find_item}
use divoom_dev.Storage.Accounts.{IsDistinct}

module _ {A : Type 0} (key : A → Text) where
  find_item-All :
      (P : A → Type 0) (k : Text) (x : A) (xs : List A)
      → find_item key k xs ≡ some x
      → All P xs
      → P x
  unfolding find_item
  find_item-All P k x [] e h = ground arith
  find_item-All P k x (y ∷ xs) e h = ground (arith, find_item-All P k x xs)

  found_tail :
      (k : Text) (x : A) (xs : List A)
      → find_item key (key x) xs ≡ none
      → find_item key k xs ≡ (if text_eq (key x) k then none else find_item key k (x ∷ xs))
  unfolding find_item
  found_tail k x xs n = ground (arith, text_eq_iff (key x) k)

  module _ (before : A → A → Bool)
      (total : (x y : A)
        → text_eq (key x) (key y) ≡ false
        → before x y ≡ false
        → before y x ≡ true) where
    pub sorted_unique :
        (xs ys : List A)
        → IsSorted before xs
        → IsSorted before ys
        → IsDistinct key xs
        → IsDistinct key ys
        → ((k : Text) → find_item key k xs ≡ find_item key k ys)
        → xs ≡ ys
    unfolding find_item
    sorted_unique [] [] s t d e h = refl
    sorted_unique [] (y ∷ ys) s t d e h = ground (arith, h (key y), text_eq_refl (key y))
    sorted_unique (x ∷ xs) [] s t d e h = ground (arith, h (key x), text_eq_refl (key x))
    sorted_unique (x ∷ xs) (y ∷ ys) s t d e h = elim (Bool-cases (text_eq (key x) (key y))) [
      | inl u ↦
          let same : x ≡ y =
            ground (arith, h (key x), text_eq_refl (key x), text_eq_iff (key x) (key y)) in
          let tails : (k : Text) → find_item key k xs ≡ find_item key k ys =
            λ k. ground (arith, h k, found_tail k x xs d.0, found_tail k y ys e.0, ap key same) in
          ap (λ z. z ∷ xs) same ∙ ap (λ zs. y ∷ zs) (sorted_unique xs ys s.1 t.1 d.1 e.1 tails)
      | inr u ↦
          let later =
            find_item-All (λ z. before z x ≡ false) (key y) y xs
              (ground (arith, h (key y), text_eq_refl (key y))) s.0 in
          let earlier =
            find_item-All (λ z. before z y ≡ false) (key x) x ys
              (ground (
                arith,
                h (key x),
                text_eq_refl (key x),
                text_eq_iff (key x) (key y),
                text_eq_iff (key y) (key x),
              ))
              t.0 in
          ground (arith, total x y u)
    ]

  module _ (before : A → A → Bool) where
    find_item-insert_sorted :
        (k : Text) (x : A) (ys : List A)
        → find_item key (key x) ys ≡ none
        → find_item key k (insert_sorted before x ys)
          ≡ (if text_eq (key x) k then some x else find_item key k ys)
    unfolding find_item insert_sorted
    find_item-insert_sorted k x [] n = refl
    find_item-insert_sorted k x (y ∷ ys) n = ground (
      arith,
      find_item-insert_sorted k x ys,
      text_eq_iff (key y) k,
      text_eq_iff (key x) k,
      text_eq_iff (key y) (key x),
    )

    insert_sorted-IsDistinct :
        (x : A) (ys : List A)
        → find_item key (key x) ys ≡ none
        → IsDistinct key ys
        → IsDistinct key (insert_sorted before x ys)
    unfolding find_item insert_sorted
    insert_sorted-IsDistinct x [] n d = (refl, tt)
    insert_sorted-IsDistinct x (y ∷ ys) n d = ground (
      arith,
      insert_sorted-IsDistinct x ys,
      find_item-insert_sorted (key y) x ys,
      text_eq_iff (key y) (key x),
      text_eq_iff (key x) (key y),
    )

    pub find_item-sort :
        (k : Text) (xs : List A)
        → IsDistinct key xs
        → find_item key k (sort before xs) ≡ find_item key k xs
    unfolding find_item sort
    find_item-sort k [] d = refl
    find_item-sort k (x ∷ xs) d =
        find_item-insert_sorted k x (sort before xs) (find_item-sort (key x) xs d.1 ∙ d.0)
        ∙ ground (arith, find_item-sort k xs d.1)

    pub sort-IsDistinct : (xs : List A) → IsDistinct key xs → IsDistinct key (sort before xs)
    unfolding sort
    sort-IsDistinct [] d = tt
    sort-IsDistinct (x ∷ xs) d =
        insert_sorted-IsDistinct x (sort before xs) (find_item-sort (key x) xs d.1 ∙ d.0)
          (sort-IsDistinct xs d.1)
