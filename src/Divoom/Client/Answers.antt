-- ===== src/Divoom/Client/Answers.antt =====
-- What a caller of the client gets, for whatever the server says.
use divoom_dev.Prelude.{
  ◌≡◌, refl, ap, ◌∙◌, false, none, some, ◌==◌, ◌⊎◌, inl, inr, Bool-cases, ==_iff,
}
use divoom_dev.Prelude.Text.{Text}
use divoom_dev.Divoom.Client.{Response, execute, call, caught, or_default}
use divoom_dev.Divoom.Types.{
  Reply, answered, failed, Handled, returned, thrown, crashed, Called, gives, breaks,
}

-- A response that reaches the handler.
pub record IsReceived (r : Reply Response) (body : Text) : Type 0 where
  pub response : Response
  pub received_ : r ≡ answered response
  pub no_error : response.error ≡ false
  pub status : response.status_code ≡ 200
  pub text : response.text ≡ body

module _ {A : Type 0} (handle : Text → Handled A) (default : A) where
  -- What the caller gets of what the handler does.
  abbrev outcome : Handled A → Called A
  outcome h = or_default handle default (caught handle h)

  call-received :
      (r : Reply Response) (body : Text)
      → IsReceived r body
      → call handle default r ≡ outcome (handle body)
  unfolding call execute
  call-received r body i =
      ap (λ x. or_default handle default (execute handle x)) i.received_
      ∙ rw (i.no_error, i.status, execute) (ap (λ b. outcome (handle b)) i.text)

  outcome-gives : (h : Handled A) → ((a : A) × (outcome h ≡ gives a)) ⊎ (h ≡ crashed)
  outcome-gives (returned none) = inl (default, refl)
  outcome-gives (returned (some a)) = inl (a, refl)
  outcome-gives (thrown e) = inl (default, refl)
  outcome-gives crashed = inr refl

  -- A call of the client never throws, whatever the server says: an expired token, a wrong user and
  -- a wrong password give an answer like any other failure. It gives an answer, unless the handler
  -- follows a null pointer at the body of a response with status 200; then the program ends.
  call-answers :
      (r : Reply Response)
      → ((a : A) × (call handle default r ≡ gives a))
        ⊎ ((body : Text) × IsReceived r body
            × (handle body ≡ crashed)
            × (call handle default r ≡ breaks))
  unfolding call execute
  call-answers (failed e) = inl (default, refl)
  call-answers (answered s) = elim (Bool-cases s.error) [
    | inl e ↦ inl (default, rw (e) refl)
    | inr e ↦ elim (Bool-cases (s.status_code == 200)) [
      | inr n ↦ inl (default, rw (e, n) refl)
      | inl y ↦
          let i : IsReceived (answered s) s.text = record {
            response = s;
            received_ = refl;
            no_error = e;
            status = (==_iff _ _).0 y;
            text = refl;
          } in
          elim (outcome-gives (handle s.text)) [
            | inl (a, g) ↦ inl (a, call-received (answered s) s.text i ∙ g)
            | inr c ↦ inr (s.text, i, c, call-received (answered s) s.text i ∙ ap outcome c)
          ]
    ]
  ]
