-- ===== src/Ics/HttpSource/Retry.antt =====
-- The retries of http_source.cpp.
use divoom_dev.Prelude.{
  ℕ, zero, suc, ◌+◌, ◌*◌, ◌^◌, ◌≤◌, ◌<◌, ◌≡◌, ◌≢◌, ◌⊎◌, inl, inr, refl, subst, sym, ap, ◌∙◌, false,
  List, [], ◌∷◌, arith,
}
use native.Mathlib.Nat.{mul_assoc}
use native.Mathlib.Numerals.{unary_clauses}
use divoom_dev.Prelude.Int.{ℤ, pos}
use divoom_dev.Prelude.Text.{Text, find_text}
use divoom_dev.Ics.HttpSource.{
  HttpOptions, Request, Response, Reply, downloaded, refused, retried, judge, Fetched, attempts,
  request_of, backoff, wait_before, round, fetch_from, fetch, is_transient_error,
}

-- Sleeps of which each is twice the one before: `doubling first n`.
abbrev pub doubling : ℕ → ℕ → List ℤ
doubling first zero = []
doubling first (suc n) = pos first ∷ doubling (first * 2) n

times_one : (d : ℕ) → d * 1 ≡ d
times_one d = omega arith

twice_power : (d a : ℕ) → d * 2 ^ suc a ≡ d * 2 ^ a * 2
twice_power d a = simp unary_clauses (sym (mul_assoc d (2 ^ a) 2))

is_transient_error-silent : is_transient_error [] ≡ false
unfolding is_transient_error find_text
is_transient_error-silent = refl

judge-silent : (r : Response) → r.status_code ≢ 200 → r.error_message ≡ [] → judge r ≡ refused
unfolding judge
judge-silent r failed silent =
    ground (arith, is_transient_error-silent, ap is_transient_error silent)

module _ (overflow : ℕ → ℤ) (ask : ℕ → Request → Response) (opts : HttpOptions) (url : Text) where
  abbrev pub reply : ℕ → Reply
  reply n = judge (ask n (request_of opts url))

  wait_before-small :
      (n : ℕ)
      → n < 31
      → wait_before overflow ask opts url (suc n) ≡ pos (opts.retry_delay * 2 ^ n) ∷ []
  unfolding wait_before backoff
  wait_before-small n h = ground arith

  fetch_from-step :
      (n left : ℕ) (r : Reply)
      → reply n ≡ r
      → fetch_from overflow ask opts url n (suc left)
        ≡ round overflow ask opts url n r (fetch_from overflow ask opts url (suc n) left)
  unfolding fetch_from
  fetch_from-step n left r h =
      ap (λ x. round overflow ask opts url n x (fetch_from overflow ask opts url (suc n) left)) h

  reply-at : (i j : ℕ) (r : Reply) → i ≡ j → reply i ≡ r → reply j ≡ r
  reply-at i j r e h = subst (λ n. reply n ≡ r) e h

  -- The rounds from attempt `suc a` on, of which the first `k` are to be repeated.
  fetch_from-doubling :
      (k a left : ℕ) (text : Text)
      → ((i : ℕ) → i < k → reply (suc a + i) ≡ retried)
      → reply (suc a + k) ≡ downloaded text
      → k < left
      → a + k < 31
      → fetch_from overflow ask opts url (suc a) left ≡ record {
        body = text;
        requests = suc k;
        waits = doubling (opts.retry_delay * 2 ^ a) (suc k);
      }
  fetch_from-doubling k a zero text repeat done enough small = absurd (omega arith)
  fetch_from-doubling zero a (suc left) text repeat done enough small =
      rw
        (
          fetch_from-step (suc a) left (downloaded text) (reply-at _ _ _ (omega arith) done),
          wait_before-small a (omega arith),
        )
        refl
  fetch_from-doubling (suc k) a (suc left) text repeat done enough small =
      let rest =
        fetch_from-doubling k (suc a) left text
          (λ i h. reply-at _ _ _ (omega arith) (repeat (suc i) (omega arith)))
          (reply-at _ _ _ (omega arith) done) (omega arith) (omega arith) in
      rw
        (
          fetch_from-step (suc a) left retried
              (reply-at _ _ _ (omega arith) (repeat 0 (omega arith))),
          rest,
          wait_before-small a (omega arith),
          twice_power opts.retry_delay a,
        )
        refl

  -- When the first `k` responses are transient failures and the next one is the calendar, the
  -- retries allow `k`, and `k` is at most 31: fetch returns the calendar's text after `k + 1`
  -- requests, and has slept `k` times, each time twice as long as before.
  fetch-backoff :
      (k limit : ℕ) (text : Text)
      → opts.retries ≡ pos limit
      → ((i : ℕ) → i < k → reply i ≡ retried)
      → reply k ≡ downloaded text
      → k ≤ limit
      → k ≤ 31
      → fetch overflow ask opts url
        ≡ record { body = text; requests = suc k; waits = doubling opts.retry_delay k }
  unfolding fetch wait_before
  fetch-backoff zero limit text set repeat done enough small =
      ap (λ r. fetch_from overflow ask opts url 0 (attempts r)) set
      ∙ rw (fetch_from-step 0 limit (downloaded text) done) refl
  fetch-backoff (suc k) limit text set repeat done enough small =
      ap (λ r. fetch_from overflow ask opts url 0 (attempts r)) set
      ∙ rw
          (
            fetch_from-step 0 limit retried (repeat 0 (omega arith)),
            fetch_from-doubling k 0 limit text
                (λ i h. reply-at _ _ _ (omega arith) (repeat (suc i) (omega arith)))
                (reply-at _ _ _ (omega arith) done) (omega arith) (omega arith),
            times_one opts.retry_delay,
          )
          refl

  -- What a download can be: a text that a response with status 200 carried, among as many requests
  -- as were made, or nothing; and there is one request per attempt at most.
  pub record IsHonest (n left : ℕ) (r : Fetched) : Type 0 where
    pub bounded : r.requests ≤ left
    pub source :
        (r.body ≡ [])
        ⊎ ((i : ℕ) × (i < n + r.requests)
            × ((ask i (request_of opts url)).status_code ≡ 200)
            × ((ask i (request_of opts url)).text ≡ r.body))

  judge-downloaded :
      (r : Response) (text : Text)
      → judge r ≡ downloaded text
      → (r.status_code ≡ 200) × (r.text ≡ text)
  unfolding judge
  judge-downloaded r text h = ground arith

  round-IsHonest :
      (n left : ℕ) (r : Reply) (rest : Fetched)
      → reply n ≡ r
      → IsHonest (suc n) left rest
      → IsHonest n (suc left) (round overflow ask opts url n r rest)
  round-IsHonest n left (downloaded text) rest h k =
      let d = judge-downloaded _ text h in
      record { bounded = omega arith; source = inr (n, omega arith, d.0, d.1) }
  round-IsHonest n left refused rest h k = record { bounded = omega arith; source = inl refl }
  round-IsHonest n left retried rest h k = record {
    bounded = let b = k.bounded in omega arith;
    source = elim k.source [
      | inl none_ ↦ inl none_
      | inr (i, below, ok, same) ↦ inr (i, omega arith, ok, same)
    ];
  }

  fetch_from-IsHonest : (n left : ℕ) → IsHonest n left (fetch_from overflow ask opts url n left)
  unfolding fetch_from
  fetch_from-IsHonest n zero = record { bounded = omega arith; source = inl refl }
  fetch_from-IsHonest n (suc left) =
      round-IsHonest n left _ _ refl (fetch_from-IsHonest (suc n) left)

  -- A download makes at most `retries + 1` requests (none when `retries` is negative); what it
  -- returns is nothing, or the text of one of its own responses, one with status 200.
  pub fetch-IsHonest : IsHonest 0 (attempts opts.retries) (fetch overflow ask opts url)
  unfolding fetch
  fetch-IsHonest = fetch_from-IsHonest 0 (attempts opts.retries)

  -- Without an error message, a response whose status is not 200 is never retried, whatever the
  -- status: the download makes one request and returns nothing.
  pub fetch-without_message :
      (limit : ℕ)
      → opts.retries ≡ pos limit
      → (ask 0 (request_of opts url)).status_code ≢ 200
      → (ask 0 (request_of opts url)).error_message ≡ []
      → fetch overflow ask opts url ≡ record { body = []; requests = 1; waits = [] }
  unfolding fetch wait_before
  fetch-without_message limit set failed silent =
      ap (λ r. fetch_from overflow ask opts url 0 (attempts r)) set
      ∙ rw (fetch_from-step 0 limit refused (judge-silent _ failed silent)) refl
