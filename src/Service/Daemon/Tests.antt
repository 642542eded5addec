-- ===== src/Service/Daemon/Tests.antt =====
-- A start of the daemon where nothing fails, and a signal to it.
use divoom_dev.Prelude.{refl, ◌+◌, ◌*◌, ◌≤◌, true, false, some, List, [], ◌∷◌, arith}
use divoom_dev.Service.Daemon.{
  Answers, Process, inherited, Daemon, Event, signal, worker, run_service, run_daemon,
}
use divoom_dev.Service.Daemon.Processes.{AreDaemonsOf, run_service_lem}
use divoom_dev.Service.Daemon.Progress.{IsBusy, loop_steps, cycle_steps, run_daemon-IsBusy}
use divoom_dev.Service.Threads.{Worker, initial}

abbrev answers : Answers
answers = record { first_fork = true; setsid = true; second_fork = true; opens_null = true }

abbrev caller : Process
caller = record {
  has_left = false;
  is_leader = true;
  files = some (inherited 0) ∷ some (inherited 1) ∷ some (inherited 2) ∷ some (inherited 7) ∷ [];
  handled = [];
  runs_core = false;
}

run_service_lem_example : AreDaemonsOf caller 1 (run_service answers caller)
run_service_lem_example = run_service_lem answers caller refl refl

abbrev daemon : Daemon
daemon = record { daemon_running = true; service = record initial { worker = Worker.head_running } }

abbrev events : List Event
events = worker ∷ signal ∷ worker ∷ worker ∷ []

run_daemon-IsBusy_example :
    IsBusy 9000 (run_daemon 9000 events daemon).service
    × (loop_steps 9000 events
        ≤ (run_daemon 9000 events daemon).service.cycles * cycle_steps 9000 + 2)
unfolding initial
run_daemon-IsBusy_example = run_daemon-IsBusy 9000 events daemon refl refl refl (omega arith) refl
