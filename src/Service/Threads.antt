-- ===== src/Service/Threads.antt =====
-- The threads of the Windows service: `service_ctrl_handler` and `service_main` of
-- service/src/lifecycle/windows_service.cpp, with the worker thread in `service::run` of
-- service/src/core/service.cpp and the flags of lifecycle/service_state.h. A step is one access to
-- what the threads share; a schedule is a list of steps. The system calls the handler once at a
-- time. The core is there: manager::run has looked at the pointer.
pub mod Stopping
pub mod Pausing
mod Tests
use divoom_dev.Prelude.{ℕ, suc, ◌-◌, Bool, true, false, List, [], ◌∷◌, if◌then◌else◌, ◌==◌}

-- dwCurrentState, as it was last reported.
pub data Status : Type 0 where
  none_reported start_pending running pause_pending paused continue_pending stop_pending stopped :
      Status

-- Where the worker thread stands: behind its creation, at the two reads of the loop's condition,
-- in a cycle, at the three parts of the condition of the wait, or asleep in it.
pub data Worker : Type 0 where
  absent created head_running head_paused working wait_running wait_paused sleeping returned :
      Worker

pub data Main : Type 0 where
  starting creating looping joining finished : Main

-- The worker thread has been created.
unfoldable pub has_started : Main → Bool
has_started Main.starting = false
has_started Main.creating = false
has_started _ = true

-- The statements of the handler that are left.
pub data Handler : Type 0 where
  idle stop_core stop_status pause_first pause_core pause_status continue_first continue_core
        continue_status :
      Handler

pub data Control : Type 0 where
  stop shutdown pause continue interrogate : Control

pub record State : Type 0 where
  pub is_running : Bool
  pub is_paused : Bool
  pub status : Status
  pub worker : Worker
  pub main : Main
  pub handler : Handler
  -- The sleeps that are left in the wait, and the cycles that were begun.
  pub left : ℕ
  pub cycles : ℕ

unfoldable pub initial : State
initial = record {
  is_running = true;
  is_paused = false;
  status = Status.none_reported;
  worker = Worker.absent;
  main = Main.starting;
  handler = Handler.idle;
  left = 0;
  cycles = 0;
}

pub data Actor : Type 0 where
  main worker handler : Actor
  control : Control → Actor

abbrev main_step : Main → State → State
main_step Main.starting s = record s { status = Status.start_pending; main = Main.creating }
main_step Main.creating s = record s { worker = Worker.created; main = Main.looping }
main_step Main.looping s = if s.is_running then s else record s { main = Main.joining }
main_step Main.joining s = elim s.worker [
  | Worker.returned ↦ record s { status = Status.stopped; main = Main.finished }
  | _ ↦ s
]
main_step Main.finished s = s

-- The wait has `sleeps` rounds: update_interval_ in tenths of a second.
abbrev pub worker_step : ℕ → Worker → State → State
worker_step sleeps Worker.absent s = s
worker_step sleeps Worker.created s = record s {
  status = Status.running;
  worker = Worker.head_running;
}
worker_step sleeps Worker.head_running s = record s {
  worker = if s.is_running then Worker.head_paused else Worker.returned;
}
worker_step sleeps Worker.head_paused s = record s {
  worker = if s.is_paused then Worker.returned else Worker.working;
}
worker_step sleeps Worker.working s = record s {
  worker = Worker.wait_running;
  left = sleeps;
  cycles = suc s.cycles;
}
worker_step sleeps Worker.wait_running s = record s {
  worker =
      if s.left == 0
      then Worker.head_running
      else if s.is_running
      then Worker.wait_paused
      else Worker.head_running;
}
worker_step sleeps Worker.wait_paused s = record s {
  worker = if s.is_paused then Worker.head_running else Worker.sleeping;
}
worker_step sleeps Worker.sleeping s = record s { worker = Worker.wait_running; left = s.left - 1 }
worker_step sleeps Worker.returned s = s

abbrev handler_step : Handler → State → State
handler_step Handler.idle s = s
handler_step Handler.stop_core s = record s { is_running = false; handler = Handler.stop_status }
handler_step Handler.stop_status s = record s {
  status = Status.stop_pending;
  handler = Handler.idle;
}
handler_step Handler.pause_first s = record s {
  status = Status.pause_pending;
  handler = Handler.pause_core;
}
handler_step Handler.pause_core s = record s { is_paused = true; handler = Handler.pause_status }
handler_step Handler.pause_status s = record s { status = Status.paused; handler = Handler.idle }
handler_step Handler.continue_first s = record s {
  status = Status.continue_pending;
  handler = Handler.continue_core;
}
handler_step Handler.continue_core s = record s {
  is_paused = false;
  handler = Handler.continue_status;
}
handler_step Handler.continue_status s = record s {
  status = Status.running;
  handler = Handler.idle;
}

-- The first statement of each case of the handler.
abbrev begin : Control → State → State
begin Control.stop s = record s { is_paused = false; handler = Handler.stop_core }
begin Control.shutdown s = record s { is_paused = false; handler = Handler.stop_core }
begin Control.pause s = record s { is_paused = true; handler = Handler.pause_first }
begin Control.continue s = record s { is_paused = false; handler = Handler.continue_first }
begin Control.interrogate s = s

-- A control waits while the handler is busy.
abbrev control_step : Control → Handler → State → State
control_step c Handler.idle s = begin c s
control_step c _ s = s

module _ (sleeps : ℕ) where
  unfoldable pub step : Actor → State → State
  step Actor.main s = main_step s.main s
  step Actor.worker s = worker_step sleeps s.worker s
  step Actor.handler s = handler_step s.handler s
  step (Actor.control c) s = control_step c s.handler s

  unfoldable pub run : List Actor → State → State
  run [] s = s
  run (a ∷ schedule) s = run schedule (step a s)
