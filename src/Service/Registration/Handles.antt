-- ===== src/Service/Registration/Handles.antt =====
-- The handles of the registration in service/src/lifecycle/windows_service.cpp: none is left open,
-- and which rights each is used with.
use divoom_dev.Prelude.{
  ℕ, ◌≡◌, Bool, true, false, not, ◌&&◌, ◌||◌, Option, none, some, List, [], ◌∷◌, arith,
  if◌then◌else◌, ◌==◌,
}
use divoom_dev.Json.{◌>>=◌}
use divoom_dev.Service.Registration.{
  Access, manager_create, manager_connect, service_start, all_access, Call, open_manager,
  open_service, create_service, change_config, describe, start, close, Log, Windows,
  auto_register_service, check_admin_privileges,
}

-- An open handle, with its rights.
abbrev Handles : Type 0
Handles = List (ℕ × Access)

unfoldable pub rights_of : ℕ → Handles → Option Access
rights_of h [] = none
rights_of h ((i, a) ∷ hs) = if i == h then some a else rights_of h hs

unfoldable pub without : ℕ → Handles → Handles
without h [] = []
without h ((i, a) ∷ hs) = if i == h then hs else (i, a) ∷ without h hs

abbrev is_open : ℕ → Handles → Bool
is_open h hs = elim (rights_of h hs) [ none ↦ false | some a ↦ true ]

abbrev opened_if : Bool → ℕ → Access → Handles → Handles
opened_if ok h a hs = if ok then (h, a) ∷ hs else hs

-- What a call makes of the open handles; nothing where it uses one that is not open, or opens one
-- that is.
abbrev handles_step : Call → Bool → Handles → Option Handles
handles_step (open_manager a h) ok hs = if is_open h hs then none else some (opened_if ok h a hs)
handles_step (open_service m a h) ok hs =
    if is_open m hs && not (is_open h hs) then some (opened_if ok h a hs) else none
handles_step (create_service m a h) ok hs =
    if is_open m hs && not (is_open h hs) then some (opened_if ok h a hs) else none
handles_step (change_config h) ok hs = if is_open h hs then some hs else none
handles_step (describe h) ok hs = if is_open h hs then some hs else none
handles_step (start h) ok hs = if is_open h hs then some hs else none
handles_step (close h) ok hs = if is_open h hs then some (without h hs) else none

-- The handles that are open after the calls.
unfoldable pub open_after : Log → Option Handles
unfolding rights_of without
open_after [] = some []
open_after ((c, ok) ∷ log) = do hs ← open_after log; handles_step c ok hs

-- The right that a call wants of its handle is among those of the handle.
abbrev grants : Call → Access → Bool
grants (open_service m a h) manager_create = true
grants (open_service m a h) manager_connect = true
grants (create_service m a h) manager_create = true
grants (change_config h) all_access = true
grants (describe h) all_access = true
grants (start h) service_start = true
grants (start h) all_access = true
grants (close h) a = true
grants c a = false

abbrev given : Call → ℕ
given (open_manager a h) = 0
given (open_service m a h) = m
given (create_service m a h) = m
given (change_config h) = h
given (describe h) = h
given (start h) = h
given (close h) = h

abbrev is_granted : Call → Handles → Bool
is_granted (open_manager a h) hs = true
is_granted c hs = elim (rights_of (given c) hs) [ none ↦ false | some a ↦ grants c a ]

-- The calls that are made without the right to them.
unfoldable pub lacking : Log → List Call
unfolding open_after rights_of
lacking [] = []
lacking ((c, ok) ∷ log) =
    let calls = lacking log in
    elim (open_after log) [
      | none ↦ c ∷ calls
      | some hs ↦ if is_granted c hs then calls else c ∷ calls
    ]

abbrev is_change : Call → Bool
is_change (change_config h) = true
is_change c = false

unfoldable pub changes : Log → List Call
changes [] = []
changes ((c, ok) ∷ log) = let calls = changes log in if is_change c then c ∷ calls else calls

-- The service was found or created.
unfoldable pub is_installed : Log → Bool
is_installed [] = false
is_installed ((open_service m a h, ok) ∷ log) = ok || is_installed log
is_installed ((create_service m a h, ok) ∷ log) = ok || is_installed log
is_installed ((c, ok) ∷ log) = is_installed log

-- The service was started, or ran already.
unfoldable pub is_started : Windows → Log → Bool
is_started w [] = false
is_started w ((start h, ok) ∷ log) = ok || w.already_running ((start h, ok) ∷ log)
is_started w ((c, ok) ∷ log) = is_started w log

-- Whatever the system answers: the registration, and the check of the privileges, use a handle only
-- between its opening and its closing, and leave none open. Each call of the registration has the
-- right that it wants, but every change of the configuration of a service that exists, which has it
-- never. The registration succeeds just where the service was found or created, and then started or
-- found to run.
pub open_after-auto_register_service :
    (w : Windows)
    → (open_after (auto_register_service w).0 ≡ some [])
      × (open_after (check_admin_privileges w).0 ≡ some [])
      × (lacking (auto_register_service w).0 ≡ changes (auto_register_service w).0)
      × ((auto_register_service w).1
          ≡ is_installed (auto_register_service w).0 && is_started w (auto_register_service w).0)
unfolding auto_register_service check_admin_privileges open_after rights_of without lacking changes
    is_installed is_started
open_after-auto_register_service w = (ground arith, ground arith, ground arith, ground arith)
