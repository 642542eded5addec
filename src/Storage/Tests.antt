-- ===== src/Storage/Tests.antt =====
-- The backend over a JSON library whose values are the models themselves.
use divoom_dev.Prelude.{◌≡◌, refl, Bool, true, false, List, [], ◌∷◌}
use divoom_dev.Prelude.Int.{pos}
use divoom_dev.Prelude.Text.{Text, codes}
use divoom_dev.Storage.{Account, CalendarSource, missing, get_account}
use divoom_dev.Storage.Accounts.{
  Command, upsert, remove, DistinctAccounts, run, promised_all, get_account-run,
}
use divoom_dev.Storage.Sample.{Item, plain, plain_keeps_accounts}
use divoom_dev.Storage.Saving.{System, Disk, save_steps, Keeps, save_steps-Keeps}
use divoom_dev.Storage.Reopen.{Change, fresh}

abbrev jira : Text → Account
jira password = record { service = codes "jira"; login = codes "me"; password = password }

abbrev commands : List (Bool × Command)
commands =
    (true, upsert (jira (codes "a")))
    ∷ (false, upsert (jira (codes "b")))
    ∷ (true, remove (codes "divoom"))
    ∷ []

get_account-run_example :
    ((service : Text)
      → get_account plain service (run plain plain_keeps_accounts commands (fresh plain))
        ≡ promised_all commands service (get_account plain service (fresh plain)))
    × DistinctAccounts plain plain_keeps_accounts
        (run plain plain_keeps_accounts commands (fresh plain))
get_account-run_example = get_account-run plain plain_keeps_accounts commands (fresh plain) tt

abbrev source : Text → CalendarSource
source url = record { url = url; priority = pos 1; enabled = true }

abbrev changes : List Change
changes =
    Change.source (source (codes "b"))
    ∷ Change.source (source (codes "a"))
    ∷ Change.account (jira (codes "a"))
    ∷ []

-- The moves of a system that is no Windows.
abbrev system : System
system = record {
  opens_tmp = true;
  writes = true;
  is_windows = false;
  moves = false;
  removes = true;
  renames = true;
}

abbrev disk : Disk Item
disk = record { dest = missing; tmp = missing }

save_steps-Keeps_example :
    Keeps system (fresh plain).doc disk (save_steps system (fresh plain).doc disk)
save_steps-Keeps_example = save_steps-Keeps (fresh plain).doc disk system refl
