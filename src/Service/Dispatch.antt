-- ===== src/Service/Dispatch.antt =====
-- `manager::run_service` of service/src/lifecycle/windows_service.cpp, and how service_main begins.
use divoom_dev.Prelude.{◌≡◌, Bool, true, List, arith, if◌then◌else◌}
use divoom_dev.Service.Core.{Core, wait_rounds}
use divoom_dev.Service.Threads as Threads
use divoom_dev.Service.Threads.{State, Status, Main, Worker, Actor, initial}
use divoom_dev.Service.Threads.Stopping.{stopped-returned}

pub record Dispatcher : Type 0 where
  -- StartServiceCtrlDispatcherW calls service_main, and otherwise fails.
  pub connects : Bool
  -- RegisterServiceCtrlHandlerW
  pub registers : Bool

-- Without its handler service_main returns before it reports a status or makes a thread.
unfoldable pub service_main : Dispatcher → Core → List Actor → State
service_main d core schedule =
    let served = Threads.run (wait_rounds core) schedule initial in
    if d.registers then served else initial

unfoldable pub run_service : Dispatcher → Core → List Actor → State
unfolding service_main
run_service d core schedule =
    let served = service_main d core schedule in if d.connects then served else initial

-- SERVICE_STOPPED is reported only by a service that was connected and has its handler, at the end of
-- service_main and behind the return of service::run.
run_service-stopped :
    (d : Dispatcher) (core : Core) (schedule : List Actor)
    → (run_service d core schedule).status ≡ Status.stopped
    → (d.connects ≡ true)
      × (d.registers ≡ true)
      × ((run_service d core schedule).main ≡ Main.finished)
      × ((run_service d core schedule).worker ≡ Worker.returned)
unfolding run_service initial
run_service-stopped d core schedule h = ground (arith, stopped-returned (wait_rounds core) schedule)
