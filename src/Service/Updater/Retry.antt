-- ===== src/Service/Updater/Retry.antt =====
-- When the updater calls the client again, and when it does not.
use divoom_dev.Prelude.{◌≡◌, refl, subst, Bool, List, ◌∷◌, arith}
use divoom_dev.Prelude.Int.{ℤ}
use divoom_dev.Prelude.Text.{Text, text_eq_refl}
use divoom_dev.Divoom.Types.{Device, UserInfo, ClockConfig, answered, failed, token_expired}
use divoom_dev.Service.Updater.{Client, Updater, log_in, get_devices, update_credentials}

-- A client whose calls for a clock's configuration never throw; a change may be refused.
pub record IsCalm {S : Type 0} (client : Client S) : Type 0 where
  pub get_answers :
      (id clock : ℤ) (user : UserInfo) (s : S)
      → (c : ClockConfig) × ((client.get_clock_config id clock user s).1 ≡ answered c)
  pub set_answers :
      (id clock : ℤ) (user : UserInfo) (c : ClockConfig) (s : S)
      → (ok : Bool) × ((client.set_clock_config id clock user c s).1 ≡ answered ok)

-- A client that logs in and finds a device, and then finds its token expired, every time.
pub record IsRejecting {S : Type 0} (client : Client S) : Type 0 where
  pub login_answers :
      (login password : Text) (s : S)
      → (user : UserInfo) × ((client.login login password s).1 ≡ answered user)
  pub finds :
      (s : S)
      → (d : Device) × (rest : List Device) × ((client.get_devices s).1 ≡ answered (d ∷ rest))
  pub get_fails :
      (id clock : ℤ) (user : UserInfo) (s : S)
      → (client.get_clock_config id clock user s).1 ≡ failed token_expired

module _ {S : Type 0} (client : Client S) where
  known_credentials :
      (u : Updater) (s : S) → update_credentials client u u.login u.password s ≡ (u, s)
  unfolding update_credentials
  known_credentials u s = rw (text_eq_refl u.login, text_eq_refl u.password) refl

  credentials-update_credentials :
      (u : Updater) (login password : Text) (s : S)
      → let first = update_credentials client u login password s in
        (first.0.login ≡ login) × (first.0.password ≡ password)
  unfolding update_credentials log_in get_devices
  credentials-update_credentials u login password s = ground arith

  -- Credentials are tried once: whatever came of the login and of the search for devices, to be
  -- told the same credentials again changes nothing and calls nothing.
  update_credentials-once :
      (u : Updater) (login password : Text) (s : S)
      → let first = update_credentials client u login password s in
        update_credentials client first.0 login password first.1 ≡ first
  update_credentials-once u login password s =
      let first = update_credentials client u login password s in
      let e = credentials-update_credentials u login password s in
      subst (λ l. update_credentials client first.0 l password first.1 ≡ first) e.0
        (subst (λ p. update_credentials client first.0 first.0.login p first.1 ≡ first) e.1
          (known_credentials first.0 first.1))
