-- ===== src/Service/Daemon/Systemd.antt =====
-- The registration with systemd in linux_daemon.cpp: the order of the commands, and its end at the
-- first one that fails.
use divoom_dev.Prelude.{◌≡◌, ◌↔◌, ℕ, zero, suc, some, List, [], ◌∷◌, arith, length, ◌-◌}
use divoom_dev.Service.Daemon.{
  Command, Linux, registered, write_unit, reload_daemon, enable_service, start_service,
  auto_register_service,
}

-- The last first.
abbrev all_commands : Linux → List Command
all_commands linux =
    start_service ∷ enable_service ∷ reload_daemon ∷ write_unit linux.current_path ∷ []

unfoldable drop {ℓ} : {A : Type ℓ} → ℕ → List A → List A
drop zero xs = xs
drop (suc n) [] = []
drop (suc n) (x ∷ xs) = drop n xs

-- Each command exited with 0.
abbrev AllSucceeded : Linux → List Command → Type 0
AllSucceeded linux [] = Unit
AllSucceeded linux (c ∷ ran) = (linux.exit_code c ran ≡ some 0) × AllSucceeded linux ran

abbrev but_last : List Command → List Command
but_last [] = []
but_last (c ∷ ran) = ran

-- The commands run in their order, as many as run, each after all before it have succeeded; the
-- service is registered just where all of them have.
auto_register_service_lem :
    (linux : Linux)
    → ((auto_register_service linux).0
        ≡ drop (4 - length (auto_register_service linux).0) (all_commands linux))
      × AllSucceeded linux (but_last (auto_register_service linux).0)
      × (((auto_register_service linux).1 ≡ registered) ↔ AllSucceeded linux (all_commands linux))
unfolding auto_register_service drop
auto_register_service_lem linux =
    (ground arith, ground arith, (λ h. ground arith, λ h. ground arith))
