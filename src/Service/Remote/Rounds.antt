-- ===== src/Service/Remote/Rounds.antt =====
-- How often the updater asks the real client (service/src/core/device_updater.cpp over
-- divoom/src/client.cpp).
use divoom_dev.Prelude.{
  ℕ, suc, ◌≡◌, ◌≢◌, refl, ap, ◌∙◌, true, false, Option, none, some, List, [], ◌∷◌, arith, inl, inr,
  Bool-cases, ◌==◌,
}
use divoom_dev.Prelude.Int.{ℤ}
use divoom_dev.Prelude.Text.{Text}
use divoom_dev.Divoom.Client.{Response, call, execute, caught, received, parse_json, or_default}
use divoom_dev.Divoom.Handlers.{get_config, acknowledge, read_document, read_config}
use divoom_dev.Divoom.Requests.{Handler, sent, get_config_request, set_config_request}
use divoom_dev.Divoom.Types.{
  Device, UserInfo, default_config, Reply, answered, failed, Handled, returned, thrown, crashed,
  Called, gives, breaks,
}
use divoom_dev.Json.{Nlohmann}
use divoom_dev.Service.Remote.{Network, called, perform, succeeded, remote}
use divoom_dev.Service.Updater.{
  Updater, update_device, update_devices, attempt, update, push, and_then, retry, with_text,
  current_clock_id, logged, with_devices, noted,
}

-- A handler that follows no null pointer.
abbrev IsSafe : {A : Type 0} → (Text → Handled A) → Type 0
IsSafe handle = (body : Text) → handle body ≢ crashed

-- The call gives an answer.
abbrev Gives : {A : Type 0} → Called A → Type 0
Gives {A} c = (a : A) × (c ≡ gives a)

module _ {A : Type 0} (handle : Text → Handled A) (safe : IsSafe handle) where
  caught-Gives : (h : Handled A) → h ≢ crashed → Gives (caught handle h)
  caught-Gives (returned a) n = (a, refl)
  caught-Gives (thrown e) n = (none, refl)
  caught-Gives crashed n = ground arith

  received_safe : (r : Reply Response) → received handle r ≢ crashed
  received_safe (failed e) = ground arith
  received_safe (answered r) = ground (arith, safe r.text)

  execute-Gives : (r : Reply Response) → Gives (execute handle r)
  unfolding execute
  execute-Gives r = caught-Gives (received handle r) (received_safe r)

module _ {J : Type 0} (json : Nlohmann J) where
  read_document_safe :
      {A : Type 0} (read : J → Handled A) (r : Reply (Option J))
      → ((j : J) → read j ≢ crashed)
      → read_document json read r ≢ crashed
  read_document_safe read (failed e) h = ground arith
  read_document_safe read (answered none) h = ground arith
  read_document_safe read (answered (some j)) h = h j

  get_config-IsSafe : (garbage : ℤ) → IsSafe (get_config json garbage)
  unfolding get_config
  get_config-IsSafe garbage body =
      read_document_safe (λ j. returned (read_config json garbage j)) (parse_json json body)
        (λ j. ground arith)

  acknowledge-IsSafe : IsSafe (acknowledge json)
  unfolding acknowledge
  acknowledge-IsSafe body =
      read_document_safe (λ j. returned (some tt)) (parse_json json body) (λ j. ground arith)

module _ {J N : Type 0} (json : Nlohmann J) (net : Network J N) (host : Text) where
  succeeded-Gives :
      {A : Type 0} (c : Called (Option A)) → Gives c → Gives (succeeded json net host c)
  succeeded-Gives (gives none) g = (false, refl)
  succeeded-Gives (gives (some a)) g = (true, refl)
  succeeded-Gives breaks g = ground (arith, g.1)

  or_default-Gives :
      {A : Type 0} (handle : Text → Handled A) (default : A) (c : Called (Option A))
      → Gives c
      → Gives (or_default handle default c)
  or_default-Gives handle default (gives none) g = (default, refl)
  or_default-Gives handle default (gives (some a)) g = (a, refl)
  or_default-Gives handle default breaks g = ground (arith, g.1)

  call-Gives :
      {A : Type 0} (handle : Text → Handled A) (default : A) (safe : IsSafe handle)
      (r : Reply Response)
      → Gives (call handle default r)
  unfolding call
  call-Gives handle default safe r =
      or_default-Gives handle default (execute handle r) (execute-Gives handle safe r)

  perform-answers :
      {B : Type 0} (default : B) (answer : Reply Response → Called B) (handler : Handler J) (n : N)
      → ((r : Reply Response) → Gives (answer r))
      → (next : N) × (b : B) × (perform json net host default answer handler (some n)
          ≡ (some next, answered b))
  perform-answers default answer handler n safe =
      let r = net.send (sent net.dump handler host) n in
      let (b, e) = safe r.1 in (r.0, b, ap (called json net host default r.0) e)

  module _ (user : UserInfo) (text : Text) where
    update_device-remote :
        (id : ℤ) (n : N)
        → (next : N) × (update_device (remote json net host) user text id (some n)
            ≡ (some next, answered tt))
    unfolding update_device
    update_device-remote id n =
        let (middle, config, e) =
          perform-answers default_config (call (get_config json net.garbage) default_config)
            (get_config_request id current_clock_id user) n
            (call-Gives (get_config json net.garbage) default_config
              (get_config-IsSafe json net.garbage)) in
        let (next, ok, f) =
          perform-answers false (λ r. succeeded json net host (execute (acknowledge json) r))
            (set_config_request net.to_json id current_clock_id user
              (with_text text config).item_list)
            middle
            (λ r.
              succeeded-Gives (execute (acknowledge json) r)
                (execute-Gives (acknowledge json) (acknowledge-IsSafe json) r)) in
        (
          next,
          ap (push (remote json net host) user text id) e ∙ ap (logged (remote json net host)) f,
        )

    update_devices-remote :
        (devices : List Device) (n : N)
        → (next : N) × (update_devices (remote json net host) user text devices (some n)
            ≡ (some next, answered tt))
    unfolding update_devices
    update_devices-remote [] n = (n, refl)
    update_devices-remote (d ∷ devices) n =
        let (middle, e) = update_device-remote d.id n in
        let (next, f) = update_devices-remote devices middle in
        (
          next,
          ap
                (λ r.
                  and_then (remote json net host) r
                    (update_devices (remote json net host) user text devices))
                e
              ∙ f,
        )

  with_devices-remote :
      (h : ℕ) (text : Text) (u : Updater) (devices : Option (List Device)) (user : Option UserInfo)
      (n : N)
      → (last : Updater) × (next : N) × (with_devices
            (remote json net host)
            u
            h
            text
            devices
            user
            (some n)
          ≡ (last, some next, false))
  with_devices-remote h text u none user n = (u, n, refl)
  with_devices-remote h text u (some devices) none n = (u, n, refl)
  with_devices-remote h text u (some devices) (some user) n =
      let (next, e) = update_devices-remote user text devices n in
      (_, next, ap (noted (remote json net host) u h) e)

  attempt-remote :
      (h : ℕ) (text : Text) (u : Updater) (n : N)
      → (last : Updater) × (next : N) × (attempt (remote json net host) h text u (some n)
          ≡ (last, some next, false))
  unfolding attempt
  attempt-remote h text u n = elim (Bool-cases (h == u.previous_text_hash)) [
    | inl e ↦ (u, n, rw (e) refl)
    | inr e ↦
        let (last, next, f) = with_devices-remote h text u u.devices u.user_info n in
        (last, next, rw (e) f)
  ]

  -- Over the real client, whatever the server answers, an update ends in its first round: it asks for
  -- no login, since the client throws no exception, and it does not end the program.
  pub update-remote :
      (hash : Text → ℕ) (text : Text) (fuel : ℕ) (u : Updater) (n : N)
      → (last : Updater) × (next : N) × (update
            (remote json net host)
            hash
            text
            (suc fuel)
            u
            (some n)
          ≡ some (last, some next))
  unfolding update
  update-remote hash text fuel u n =
      let (last, next, e) = attempt-remote (hash text) text u n in
      (
        last,
        next,
        ap (λ r. retry (remote json net host) r (update (remote json net host) hash text fuel)) e,
      )
