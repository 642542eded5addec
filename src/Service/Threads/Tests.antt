-- ===== src/Service/Threads/Tests.antt =====
-- Runs of the threads of the Windows service: a start, a stop, a late report of the handler, and a
-- pause that is followed by a continue.
use divoom_dev.Prelude.{◌≡◌, refl, true, false, List, [], ◌∷◌, ◌++◌, arith}
use divoom_dev.Service.Threads.{
  State, Status, Worker, Main, Handler, Control, Actor, initial, has_started, step, run,
}
use divoom_dev.Service.Threads.Stopping.{
  initial-Inv, run-Inv, stopped-returned, stop-finished, worker_steps, main_steps,
}
use divoom_dev.Service.Threads.Pausing.{pause_and_continue, continued-run}

-- Up to the first sleep of the wait.
abbrev start : List Actor
start =
    Actor.main ∷ Actor.main ∷ Actor.worker ∷ Actor.worker ∷ Actor.worker ∷ Actor.worker
    ∷ Actor.worker ∷ Actor.worker ∷ []

abbrev stop : List Actor
stop = Actor.control Control.stop ∷ Actor.handler ∷ Actor.handler ∷ []

abbrev workers : List Actor
workers = Actor.worker ∷ Actor.worker ∷ Actor.worker ∷ Actor.worker ∷ []

abbrev mains : List Actor
mains = Actor.main ∷ Actor.main ∷ []

abbrev asleep : State
asleep = record {
  is_running = true;
  is_paused = false;
  status = Status.running;
  worker = Worker.sleeping;
  main = Main.looping;
  handler = Handler.idle;
  left = 600;
  cycles = 1;
}

start_lem : run 600 start initial ≡ asleep
unfolding run step initial has_started
start_lem = refl

stopped-returned_example :
    ((run 600 (start ++ stop ++ workers ++ mains) initial).main ≡ Main.finished)
    × ((run 600 (start ++ stop ++ workers ++ mains) initial).worker ≡ Worker.returned)
    × ((run 600 (start ++ stop ++ workers ++ mains) initial).is_running ≡ false)
unfolding run step initial has_started
stopped-returned_example = stopped-returned 600 (start ++ stop ++ workers ++ mains) refl

abbrev halted : State
halted = run 600 (start ++ stop) initial

stop-finished_example :
    ((run 600 (workers ++ mains) halted).main ≡ Main.finished)
    × ((run 600 (workers ++ mains) halted).worker ≡ Worker.returned)
unfolding run step initial worker_steps main_steps has_started
stop-finished_example =
    stop-finished 600 workers mains halted (run-Inv 600 (start ++ stop) initial initial-Inv) refl
      (ground arith) (omega arith) (omega arith)

-- The handler's report comes behind that of service_main.
late_report :
    (run 600
      (start
        ++ (Actor.control Control.stop ∷ Actor.handler ∷ [])
        ++ workers
        ++ mains
        ++ (Actor.handler ∷ []))
      initial).status
    ≡ Status.stop_pending
unfolding run step initial has_started
late_report = refl

continued-run_example :
    ((run 600 pause_and_continue asleep).status ≡ Status.running)
    × ((run 600 pause_and_continue asleep).is_running ≡ true)
    × ((run 600 pause_and_continue asleep).is_paused ≡ false)
    × ((run 600 workers (run 600 pause_and_continue asleep)).cycles ≡ 1)
continued-run_example = continued-run 600 workers asleep refl refl refl refl
