-- ===== src/Service/Updater/Shows.antt =====
-- What an update shows.
use divoom_dev.Prelude.{◌≡◌, ◌≢◌, ap, Bool, true, List, [], ◌∷◌, All}
use divoom_dev.Prelude.Int.{ℤ}
use divoom_dev.Prelude.Text.{Text}
use divoom_dev.Divoom.Types.{Device, UserInfo, ClockConfig, Reply, answered}
use divoom_dev.Service.Updater.{Client, Updater, with_text, current_clock_id, logged}

pub logged-answers :
    {S : Type 0} (client : Client S) (r : S × Reply Bool) (b : Bool)
    → r.1 ≡ answered b
    → logged client r ≡ (r.0, answered tt)
logged-answers client r b h = ap (λ x. logged client (r.0, x)) h

-- A client that stores what it is told to: `config s` is the configuration of each device in the
-- state `s` of the outside world.
pub record IsStore {S : Type 0} (client : Client S) (config : S → ℤ → ClockConfig) : Type 0 where
  pub get_ :
      (id clock : ℤ) (user : UserInfo) (s : S)
      → client.get_clock_config id clock user s ≡ (s, answered (config s id))
  pub set_answers :
      (id clock : ℤ) (user : UserInfo) (c : ClockConfig) (s : S)
      → (client.set_clock_config id clock user c s).1 ≡ answered true
  pub set_same :
      (id clock : ℤ) (user : UserInfo) (c : ClockConfig) (s : S)
      → config (client.set_clock_config id clock user c s).0 id ≡ c
  pub set_other :
      (id j clock : ℤ) (user : UserInfo) (c : ClockConfig) (s : S)
      → id ≢ j
      → config (client.set_clock_config id clock user c s).0 j ≡ config s j

module _ {S : Type 0} (client : Client S) (config : S → ℤ → ClockConfig)
    (store : IsStore client config) (text : Text) (user : UserInfo) where
  -- The devices of the list show the text, in what is otherwise their configuration.
  pub record Shows (devices : List Device) (s next : S) : Type 0 where
    pub shown : All (λ d. config next d.id ≡ with_text text (config s d.id)) devices
    pub kept : (j : ℤ) → All (λ d. d.id ≢ j) devices → config next j ≡ config s j

  after_device : Device → S → S
  after_device d s =
      (client.set_clock_config d.id current_clock_id user (with_text text (config s d.id)) s).0

  after_devices : List Device → S → S
  after_devices [] s = s
  after_devices (d ∷ devices) s = after_devices devices (after_device d s)
