-- ===== src/Service/Daemon/Processes.antt =====
-- The processes of run_service in linux_daemon.cpp.
use divoom_dev.Prelude.{
  ◌≡◌, refl, sym, ap, subst, ℕ, zero, suc, Bool, true, false, ◌&&◌, Option, none, some, List, [],
  ◌∷◌, length, All, if◌then◌else◌,
}
use divoom_dev.Service.Daemon.{
  Answers, Process, File, null_input, null_output, sigterm, sigint, close, open_lowest, run_service,
}

-- The file of a descriptor.
unfoldable pub file_at : ℕ → List (Option File) → Option File
file_at n [] = none
file_at zero (f ∷ files) = f
file_at (suc n) (f ∷ files) = file_at n files

unfoldable pub running : List Process → List Process
running [] = []
running (p ∷ ps) = let rest = running ps in if p.runs_core then p ∷ rest else rest

-- The descriptors of a process in the background that had others.
abbrev pub IsSilent : List (Option File) → List (Option File) → Type 0
IsSilent old new =
    (file_at 0 new ≡ some null_input)
    × (file_at 1 new ≡ some null_output)
    × (file_at 2 new ≡ some null_output)
    × ((n : ℕ) → file_at (suc (suc (suc n))) new ≡ file_at (suc (suc (suc n))) old)

silenced :
    (files : List (Option File))
    → IsSilent files (
        open_lowest null_output
          (open_lowest null_output (open_lowest null_input (close 2 (close 1 (close 0 files))))))
unfolding file_at close open_lowest
silenced [] = (refl, refl, refl, λ n. refl)
silenced (a ∷ []) = (refl, refl, refl, λ n. refl)
silenced (a ∷ b ∷ []) = (refl, refl, refl, λ n. refl)
silenced (a ∷ b ∷ c ∷ files) = (refl, refl, refl, λ n. refl)

-- A process that runs the core in the background: in a session that another process leads, with the
-- handler for both signals, and without the terminal.
abbrev pub IsDaemonOf : Process → Process → Type 0
IsDaemonOf p q =
    (q.has_left ≡ true)
    × (q.is_leader ≡ false)
    × (q.handled ≡ sigterm ∷ sigint ∷ [])
    × IsSilent p.files q.files

abbrev pub first_of : Process → List Process → Process
first_of p [] = p
first_of p (q ∷ qs) = q

-- What the processes that come of a process are: so many run the core, and they are its daemons.
abbrev pub AreDaemonsOf : Process → ℕ → List Process → Type 0
AreDaemonsOf p n ps =
    (length (running ps) ≡ n) × All (IsDaemonOf p) (running ps) × (first_of p ps ≡ p)

abbrev answers : Bool → Bool → Bool → Answers
answers f g h = record { first_fork = f; setsid = g; second_fork = h; opens_null = true }

daemons :
    (f g h : Bool) (p : Process)
    → p.runs_core ≡ false
    → AreDaemonsOf p (if f && (g && h) then 1 else 0) (run_service (answers f g h) p)
unfolding run_service running
daemons false g h p r = rw (r) (refl, tt, refl)
daemons true false h p r = rw (r) (refl, tt, refl)
daemons true true false p r = rw (r) (refl, tt, refl)
daemons true true true p r = rw (r) (refl, ((refl, refl, refl, silenced p.files), tt), refl)

-- Where /dev/null can be opened, and a process that does not run the core calls run_service: if both
-- forks and setsid succeed, one process runs the core, and otherwise none. It has left the session,
-- leads none, handles SIGTERM and SIGINT, and of its descriptors 0 reads from and 1 and 2 write to
-- /dev/null, while the others are the caller's. The caller never runs the core.
pub run_service_lem :
    (a : Answers) (p : Process)
    → a.opens_null ≡ true
    → p.runs_core ≡ false
    → AreDaemonsOf p
        (if a.first_fork && (a.setsid && a.second_fork) then 1 else 0)
        (run_service a p)
run_service_lem a p o r =
    let all : a ≡ answers a.first_fork a.setsid a.second_fork =
      ap {A = Bool} (λ b. record a { opens_null = b }) o in
    subst
      (λ b.
        AreDaemonsOf p (if a.first_fork && (a.setsid && a.second_fork) then 1 else 0)
          (run_service b p))
      (sym all) (daemons a.first_fork a.setsid a.second_fork p r)
