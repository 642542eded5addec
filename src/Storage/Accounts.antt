-- ===== src/Storage/Accounts.antt =====
-- The accounts of json_backend.cpp as a map from services to accounts.
use divoom_dev.Prelude.{
  ◌≡◌, refl, sym, ap, subst, Bool-cases, inl, inr, ◌∙◌, Bool, true, false, Option, none, some, List,
  [], ◌∷◌, arith, if◌then◌else◌,
}
use divoom_dev.Prelude.Text.{Text, text_eq, text_eq_iff}
use divoom_dev.Storage.{
  Account, Json, Backend, put_item, find_item, drop_item, has_item, save, upsert_account,
  get_account, delete_account, clear, account_of,
}

-- What the code relies on: what is made of an account is read as that account, with its service.
pub record KeepsAccounts {J : Type 0} (json : Json J) : Type 0 where
  pub account : (a : Account) → json.to_account (json.of_account a) ≡ a
  pub service : (a : Account) → json.service_of (json.of_account a) ≡ a.service

-- No two items have the same key.
abbrev pub IsDistinct : {J : Type 0} → (J → Text) → List J → Type 0
IsDistinct key_of [] = Unit
IsDistinct key_of (x ∷ xs) = (find_item key_of (key_of x) xs ≡ none) × IsDistinct key_of xs

module _ {J : Type 0} (key_of : J → Text) where
  pub find_item-put_item :
      (k t : Text) (j : J) (xs : List J)
      → key_of j ≡ k
      → find_item key_of t (put_item key_of k j xs)
        ≡ (if text_eq k t then some j else find_item key_of t xs)
  unfolding find_item put_item
  find_item-put_item k t j [] h = ground (arith, ap (λ x. text_eq x t) h)
  find_item-put_item k t j (x ∷ xs) h = ground (
    arith,
    ap (λ y. text_eq y t) h,
    text_eq_iff (key_of x) k,
    text_eq_iff (key_of x) t,
    text_eq_iff k t,
    find_item-put_item k t j xs h,
  )

  pub put_item-IsDistinct :
      (k : Text) (j : J) (xs : List J)
      → key_of j ≡ k
      → IsDistinct key_of xs
      → IsDistinct key_of (put_item key_of k j xs)
  unfolding put_item
  put_item-IsDistinct k j [] h d = (unfold find_item in refl, tt)
  put_item-IsDistinct k j (x ∷ xs) h d = elim (Bool-cases (text_eq (key_of x) k)) [
    | inl e ↦ rw (e) (
      subst (λ y. find_item key_of y xs ≡ none) ((text_eq_iff (key_of x) k).0 e ∙ sym h) d.0,
      d.1,
    )
    | inr n ↦ rw (n) (
      ground (
        arith,
        find_item-put_item k (key_of x) j xs h,
        text_eq_iff (key_of x) k,
        text_eq_iff k (key_of x),
      ),
      put_item-IsDistinct k j xs h d.1,
    )
  ]

  pub find_item-drop_item :
      (k t : Text) (xs : List J)
      → IsDistinct key_of xs
      → find_item key_of t (drop_item key_of k xs)
        ≡ (if text_eq k t then none else find_item key_of t xs)
  unfolding find_item drop_item
  find_item-drop_item k t [] d = ground arith
  find_item-drop_item k t (x ∷ xs) d = elim (Bool-cases (text_eq (key_of x) t)) [
    | inl e ↦
        let gone : find_item key_of t xs ≡ none =
          subst (λ y. find_item key_of y xs ≡ none) ((text_eq_iff (key_of x) t).0 e) d.0 in
        ground (
          arith,
          gone,
          text_eq_iff (key_of x) t,
          text_eq_iff (key_of x) k,
          text_eq_iff k t,
          find_item-drop_item k t xs d.1,
        )
    | inr n ↦ ground (
      arith,
      n,
      text_eq_iff (key_of x) t,
      text_eq_iff (key_of x) k,
      text_eq_iff k t,
      find_item-drop_item k t xs d.1,
    )
  ]

  pub drop_item-IsDistinct :
      (k : Text) (xs : List J) → IsDistinct key_of xs → IsDistinct key_of (drop_item key_of k xs)
  unfolding drop_item
  drop_item-IsDistinct k [] d = tt
  drop_item-IsDistinct k (x ∷ xs) d = elim (Bool-cases (text_eq (key_of x) k)) [
    | inl e ↦ rw (e) d.1
    | inr n ↦ rw (n) (
      ground (arith, find_item-drop_item k (key_of x) xs d.1, d.0),
      drop_item-IsDistinct k xs d.1,
    )
  ]

  pub has_item-false :
      (k : Text) (xs : List J) → has_item key_of k xs ≡ false → find_item key_of k xs ≡ none
  has_item-false k xs h = ground arith

-- What a map from services to accounts is asked to do. Each comes with whether the file can be
-- written.
pub data Command : Type 0 where
  upsert : Account → Command
  remove : Text → Command
  wipe : Command

-- The map: what each command makes of what is stored for a service.
abbrev pub promised : Command → Text → Option Account → Option Account
promised (upsert a) service old = if text_eq a.service service then some a else old
promised (remove s) service old = if text_eq s service then none else old
promised wipe service old = none

abbrev pub promised_all : List (Bool × Command) → Text → Option Account → Option Account
promised_all [] service old = old
promised_all ((w, c) ∷ commands) service old =
    promised_all commands service (promised c service old)

module _ {J : Type 0} (json : Json J) (keeps : KeepsAccounts json) where
  abbrev pub run_one : Bool → Command → Backend J → Backend J
  run_one w (upsert a) b = upsert_account json w a b
  run_one w (remove s) b = delete_account json w s b
  run_one w wipe b = clear json w b

  abbrev pub run : List (Bool × Command) → Backend J → Backend J
  run [] b = b
  run ((w, c) ∷ commands) b = run commands (run_one w c b)

  abbrev pub DistinctAccounts : Backend J → Type 0
  DistinctAccounts b = IsDistinct json.service_of b.doc.accounts

  doc-save : (w : Bool) (b : Backend J) → (save json w b).doc ≡ b.doc
  unfolding save
  doc-save true b = refl
  doc-save false b = refl

  get_account-save :
      (w : Bool) (s : Text) (b : Backend J)
      → get_account json s (save json w b) ≡ get_account json s b
  unfolding get_account save
  get_account-save true s b = refl
  get_account-save false s b = refl

  DistinctAccounts-save :
      (w : Bool) (b : Backend J) → DistinctAccounts b → DistinctAccounts (save json w b)
  unfolding save
  DistinctAccounts-save true b d = d
  DistinctAccounts-save false b d = d

  DistinctAccounts-if :
      (t : Bool) (x y : Backend J)
      → DistinctAccounts x
      → DistinctAccounts y
      → DistinctAccounts (if t then x else y)
  DistinctAccounts-if true x y d e = d
  DistinctAccounts-if false x y d e = e

  get_account-if :
      (t : Bool) (service : Text) (x y : Backend J) (o : Option Account)
      → (t ≡ true → get_account json service x ≡ o)
      → (t ≡ false → get_account json service y ≡ o)
      → get_account json service (if t then x else y) ≡ o
  get_account-if true service x y o h k = h refl
  get_account-if false service x y o h k = k refl

  DistinctAccounts-run_one :
      (w : Bool) (c : Command) (b : Backend J)
      → DistinctAccounts b
      → DistinctAccounts (run_one w c b)
  unfolding upsert_account delete_account clear
  DistinctAccounts-run_one w (upsert a) b d = DistinctAccounts-save w _ (
      put_item-IsDistinct json.service_of a.service (json.of_account a) b.doc.accounts
        (keeps.service a) d)
  DistinctAccounts-run_one w (remove s) b d =
      DistinctAccounts-if _ _ _
        (DistinctAccounts-save w _ (drop_item-IsDistinct json.service_of s b.doc.accounts d)) d
  DistinctAccounts-run_one w wipe b d = DistinctAccounts-save w _ tt

  account_of-if :
      (t : Bool) (x y : Option J)
      → account_of json (if t then x else y) ≡ (if t then account_of json x else account_of json y)
  account_of-if true x y = refl
  account_of-if false x y = refl

  get_account-run_one :
      (w : Bool) (c : Command) (service : Text) (b : Backend J)
      → DistinctAccounts b
      → get_account json service (run_one w c b) ≡ promised c service (get_account json service b)
  unfolding upsert_account delete_account clear get_account
  get_account-run_one w (upsert a) service b d =
      get_account-save w service _
      ∙ ap (account_of json) (
          find_item-put_item json.service_of a.service service (json.of_account a) b.doc.accounts
            (keeps.service a))
      ∙ account_of-if (text_eq a.service service) _ _
      ∙ ap (λ x. if text_eq a.service service then some x else get_account json service b)
          (keeps.account a)
  get_account-run_one w (remove s) service b d =
      get_account-if _ service _ _ _
        (λ h.
          get_account-save w service _
          ∙ ap (account_of json) (find_item-drop_item json.service_of s service b.doc.accounts d)
          ∙ account_of-if (text_eq s service) _ _)
        (λ h.
          let gone = has_item-false json.service_of s b.doc.accounts h in
          ground (arith, gone, text_eq_iff s service))
  get_account-run_one w wipe service b d = get_account-save w service _ ∙ unfold find_item in refl

  -- The backend implements a map from services to accounts: after any sequence of commands, whether
  -- or not the file could be written in between, what is read for a service is what the map
  -- promises, and no service is stored twice; this holds from every backend that stores none twice.
  pub get_account-run :
      (commands : List (Bool × Command)) (b : Backend J)
      → DistinctAccounts b
      → ((service : Text)
          → get_account json service (run commands b)
            ≡ promised_all commands service (get_account json service b))
        × DistinctAccounts (run commands b)
  get_account-run [] b d = (λ service. refl, d)
  get_account-run ((w, c) ∷ commands) b d =
      let rest = get_account-run commands (run_one w c b) (DistinctAccounts-run_one w c b d) in
      (
        λ service.
            rest.0 service
            ∙ ap (promised_all commands service) (get_account-run_one w c service b d),
        rest.1,
      )
