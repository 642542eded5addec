-- ===== src/Ics/Cache/Persist/RoundTrip.antt =====
-- What `save` writes, `load` reads back, as long as no url and no content holds a newline.
use mathlib.Core.List.{append_assoc}
use divoom_dev.Prelude.{
  ℕ, ◌+◌, ◌^◌, ◌<◌, ◌≡◌, refl, ap, ◌∙◌, ◌≢◌, true, false, List, [], ◌∷◌, ◌++◌, arith, All,
}
use divoom_dev.Prelude.Decimal.{
  decimal, at_decimal, decimal-IsDigits, take_while-IsDigits, read_digits,
}
use divoom_dev.Prelude.Int.{ℤ, pos, negsuc}
use divoom_dev.Prelude.Map.{IsOrdered, Above, insert, insert_all, insert_all_ordered}
use divoom_dev.Prelude.Text.{Text, is_empty, is_digit, pieces, pieces-line}
use divoom_dev.Ics.Cache.{Cache, Entry}
use divoom_dev.Ics.Cache.Persist.{
  save, load, save_entries, load_lines, load_line, stoull, signed_decimal, Loader, Field,
  with_store,
}
use divoom_dev.Ics.Chrono.{Chrono, to_time_t, from_time_t}
use divoom_dev.Ics.TextUtils.{returns, stoll}

abbrev IsLine : Text → Type 0
IsLine = All (λ c. c ≢ 10)

stoull_digits :
    (c : ℕ) (s : Text)
    → All (λ d. is_digit d ≡ true) (c ∷ s)
    → read_digits 0 (c ∷ s) < 2 ^ 64
    → stoull (c ∷ s) ≡ returns (read_digits 0 (c ∷ s))
unfolding stoull
stoull_digits c s h k = ground (arith, take_while-IsDigits (c ∷ s) h)

stoll_digits :
    (c : ℕ) (s : Text)
    → All (λ d. is_digit d ≡ true) (c ∷ s)
    → read_digits 0 (c ∷ s) < 2 ^ 63
    → stoll (c ∷ s) ≡ returns (pos (read_digits 0 (c ∷ s)))
unfolding stoll
stoll_digits c s h k = ground (arith, take_while-IsDigits (c ∷ s) h)

stoll_negative :
    (c : ℕ) (s : Text) (n : ℕ)
    → All (λ d. is_digit d ≡ true) (c ∷ s)
    → read_digits 0 (c ∷ s) ≡ n + 1
    → n < 2 ^ 63
    → stoll (b'-' ∷ c ∷ s) ≡ returns (negsuc n)
unfolding stoll
stoll_negative c s n h e k = ground (arith, take_while-IsDigits (c ∷ s) h)

stoull-decimal : (n : ℕ) → n < 2 ^ 64 → stoull (decimal n) ≡ returns n
stoull-decimal n h =
    at_decimal (λ t. stoull t ≡ returns n) n
      (λ c s d e. stoull_digits c s d (omega arith) ∙ ap returns e)

-- What fits into a signed 64-bit integer.
abbrev pub IsInt64 : ℤ → Type 0
IsInt64 (pos n) = n < 2 ^ 63
IsInt64 (negsuc n) = n < 2 ^ 63

stoll-signed_decimal : (t : ℤ) → IsInt64 t → stoll (signed_decimal t) ≡ returns t
unfolding signed_decimal
stoll-signed_decimal (pos n) h =
    at_decimal (λ t. stoll t ≡ returns (pos n)) n
      (λ c s d e. stoll_digits c s d (omega arith) ∙ ap (λ k. returns (pos k)) e)
stoll-signed_decimal (negsuc n) h =
    at_decimal (λ t. stoll (b'-' ∷ t) ≡ returns (negsuc n)) (n + 1)
      (λ c s d e. stoll_negative c s n d e h)

IsLine-digits : (s : Text) → All (λ d. is_digit d ≡ true) s → IsLine s
IsLine-digits [] h = tt
IsLine-digits (c ∷ s) h = (λ e. ground arith, IsLine-digits s h.1)

signed_decimal-IsLine : (t : ℤ) → IsLine (signed_decimal t)
unfolding signed_decimal
signed_decimal-IsLine (pos n) = IsLine-digits (decimal n) (decimal-IsDigits n)
signed_decimal-IsLine (negsuc n) =
    (omega arith, IsLine-digits (decimal (n + 1)) (decimal-IsDigits (n + 1)))

module _ (c : Chrono) (hash : Text → ℕ) where
  -- One line for each of the two texts of an entry, and numbers that fit.
  abbrev pub IsStorable : Text × Entry → Type 0
  IsStorable (url, e) =
      IsLine url × IsLine e.content × (hash e.content < 2 ^ 64) × IsInt64 (to_time_t c e.fetched_at)

  -- An entry whose time has lost its part below a second.
  abbrev pub whole_second : Text × Entry → Text × Entry
  whole_second (url, e) = (url, record e { fetched_at = from_time_t c (to_time_t c e.fetched_at) })

  abbrev pub whole_seconds : List (Text × Entry) → List (Text × Entry)
  whole_seconds [] = []
  whole_seconds (e ∷ rest) = whole_second e ∷ whole_seconds rest

  entry_lines : Text × Entry → List Text → List Text
  entry_lines (url, e) contents =
      url ∷ decimal (hash e.content) ∷ signed_decimal (to_time_t c e.fetched_at) ∷ contents

  -- The first three lines of an entry, whatever its content.
  pieces-entry :
      (url : Text) (e : Entry) (rest : List (Text × Entry))
      → IsLine url
      → pieces 10 (save_entries c hash ((url, e) ∷ rest))
        ≡ entry_lines (url, e) (pieces 10 (e.content ++ 10 ∷ save_entries c hash rest))
  unfolding save_entries entry_lines
  pieces-entry url e rest h =
      pieces-line 10 url _ h
      ∙ ap (◌∷◌ url) (
          pieces-line 10 (decimal (hash e.content)) _
            (IsLine-digits _ (decimal-IsDigits (hash e.content)))
          ∙ ap (◌∷◌ (decimal (hash e.content))) (
              pieces-line 10 (signed_decimal (to_time_t c e.fetched_at)) _
                (signed_decimal-IsLine (to_time_t c e.fetched_at))))

  -- A loader in front of a url line.
  abbrev at_url : List (Text × Entry) → Text → ℕ → ℤ → Loader
  at_url store url n t = record {
    store = store;
    state = Field.url;
    url = url;
    expected_hash = n;
    timestamp = t;
  }

  abbrev loaded : ℤ → Text → Entry
  loaded t content = record { content = content; fetched_at = from_time_t c t }

  -- An entry's four lines make one assignment.
  load_lines-entry :
      (store : List (Text × Entry)) (u : Text) (n : ℕ) (t : ℤ) (url : Text) (e : Entry)
      (content : Text) (rest : List Text)
      → hash e.content < 2 ^ 64
      → IsInt64 (to_time_t c e.fetched_at)
      → load_lines c (at_url store u n t) (entry_lines (url, e) (content ∷ rest))
        ≡ load_lines c
            (at_url
              (insert url (loaded (to_time_t c e.fetched_at) content) store)
              url
              (hash e.content)
              (to_time_t c e.fetched_at))
            rest
  unfolding load_lines load_line entry_lines
  load_lines-entry store u n t url e content rest h k =
      ground (
        arith,
        stoull-decimal (hash e.content) h,
        stoll-signed_decimal (to_time_t c e.fetched_at) k,
      )

  load_lines-save_entries :
      (store : List (Text × Entry)) (u : Text) (n : ℕ) (t : ℤ) (entries : List (Text × Entry))
      → All IsStorable entries
      → load_lines c (at_url store u n t) (pieces 10 (save_entries c hash entries))
        ≡ (insert_all store (whole_seconds entries), returns true)
  load_lines-save_entries store u n t [] h = unfold save_entries pieces load_lines in refl
  load_lines-save_entries store u n t ((url, e) ∷ rest) h =
      ap (load_lines c (at_url store u n t)) (
        pieces-entry url e rest h.0.0
        ∙ ap (entry_lines (url, e)) (pieces-line 10 e.content _ h.0.1))
      ∙ load_lines-entry store u n t url e e.content (pieces 10 (save_entries c hash rest)) h.0.2
          h.0.3
      ∙ load_lines-save_entries (insert url (whole_second (url, e)).1 store) url (hash e.content)
          (to_time_t c e.fetched_at) rest h.1

  whole_seconds-Above :
      (k : Text) (entries : List (Text × Entry)) → Above k entries → Above k (whole_seconds entries)
  whole_seconds-Above k [] a = tt
  whole_seconds-Above k ((j, e) ∷ rest) a = (a.0, whole_seconds-Above j rest a.1)

  whole_seconds-IsOrdered :
      (entries : List (Text × Entry)) → IsOrdered entries → IsOrdered (whole_seconds entries)
  whole_seconds-IsOrdered [] o = tt
  whole_seconds-IsOrdered ((k, e) ∷ rest) o = whole_seconds-Above k rest o

  -- What `save` writes, `load` reads back into any cache with a path: every url with its content,
  -- and its time to the second. The urls and contents have to be free of newlines.
  pub load-save :
      (saved loading : Cache)
      → is_empty saved.persist_path ≡ false
      → is_empty loading.persist_path ≡ false
      → IsOrdered saved.store
      → All IsStorable saved.store
      → load c (save c hash true saved).0 loading
        ≡ (record loading { store = whole_seconds saved.store }, returns true)
  unfolding load save
  load-save saved loading h k o s =
      rw (h, save)
        (rw (k, load)
          (ap (with_store loading) (load_lines-save_entries [] [] 0 (pos 0) saved.store s)
            ∙ ap (λ m. (record loading { store = m }, returns true))
                (insert_all_ordered [] (whole_seconds saved.store)
                  (whole_seconds-IsOrdered saved.store o))))

  two_lines :
      (url first second : Text) (at : ℤ)
      → IsLine url
      → IsLine first
      → IsLine second
      → hash (first ++ 10 ∷ second) < 2 ^ 64
      → IsInt64 (to_time_t c at)
      → load_lines c (at_url [] [] 0 (pos 0)) (
          pieces 10 (
            save_entries c hash
              ((url, record { content = first ++ 10 ∷ second; fetched_at = at }) ∷ [])))
        ≡ ((url, loaded (to_time_t c at) first) ∷ [], returns true)
  two_lines url first second at u f s k t =
      let e : Entry = record { content = first ++ 10 ∷ second; fetched_at = at } in
      ap (load_lines c (at_url [] [] 0 (pos 0))) (
        pieces-entry url e [] u
        ∙ ap (entry_lines (url, e)) (
            ap (pieces 10) (append_assoc first (10 ∷ second) (10 ∷ save_entries c hash []))
            ∙ pieces-line 10 first _ f
            ∙ ap (◌∷◌ first) (pieces-line 10 second (save_entries c hash []) s)))
      ∙ load_lines-entry [] [] 0 (pos 0) url e first (second ∷ pieces 10 (save_entries c hash [])) k
          t
      ∙ unfold save_entries pieces load_lines load_line insert in refl

  -- A content with a newline in it does not survive: of two lines, `load` keeps the first as the
  -- content and takes the second for the next url.
  pub load-save_two_lines :
      (cache : Cache) (url first second : Text) (at : ℤ)
      → is_empty cache.persist_path ≡ false
      → cache.store ≡ (url, record { content = first ++ 10 ∷ second; fetched_at = at }) ∷ []
      → IsLine url
      → IsLine first
      → IsLine second
      → hash (first ++ 10 ∷ second) < 2 ^ 64
      → IsInt64 (to_time_t c at)
      → load c (save c hash true cache).0 cache ≡ (
        record cache {
          store =
              (url, record { content = first; fetched_at = from_time_t c (to_time_t c at) }) ∷ [];
        },
        returns true,
      )
  unfolding load save
  load-save_two_lines cache url first second at h e u f s k t =
      rw (h, save, load) (rw e (ap (with_store cache) (two_lines url first second at u f s k t)))
