-- ===== src/Service/Threads/Pausing.antt =====
-- What a pause of the Windows service does to the loop of service::run, and what a continue does
-- not undo.
use divoom_dev.Prelude.{ap, ℕ, ◌≡◌, refl, ◌∙◌, true, false, List, [], ◌∷◌, arith}
use divoom_dev.Service.Threads.Stopping.{step-returned, step-started}
use divoom_dev.Service.Threads.{
  State, Status, Worker, Main, Handler, Control, Actor, has_started, step, run,
}

module _ (sleeps : ℕ) where
  step-cycles :
      (a : Actor) (s : State)
      → s.worker ≡ Worker.returned
      → has_started s.main ≡ true
      → (step sleeps a s).cycles ≡ s.cycles
  unfolding step has_started
  step-cycles Actor.main s h m = ground arith
  step-cycles Actor.worker s h m = ground arith
  step-cycles Actor.handler s h m = ground arith
  step-cycles (Actor.control c) s h m = ground arith

  run-cycles :
      (schedule : List Actor) (s : State)
      → s.worker ≡ Worker.returned
      → has_started s.main ≡ true
      → (run sleeps schedule s).cycles ≡ s.cycles
  unfolding run has_started
  run-cycles [] s h m = refl
  run-cycles (a ∷ schedule) s h m =
      run-cycles schedule (step sleeps a s) (step-returned sleeps a s h m)
        (step-started sleeps a s m)
      ∙ step-cycles a s h m

-- A pause is handled, the worker wakes up from its wait, and a continue is handled.
unfoldable pub pause_and_continue : List Actor
pause_and_continue =
    Actor.control Control.pause
    ∷ Actor.handler
    ∷ Actor.handler
    ∷ Actor.handler
    ∷ Actor.worker
    ∷ Actor.worker
    ∷ Actor.worker
    ∷ Actor.worker
    ∷ Actor.worker
    ∷ Actor.control Control.continue
    ∷ Actor.handler
    ∷ Actor.handler
    ∷ Actor.handler
    ∷ []

module _ (sleeps : ℕ) where
  continued :
      (s : State)
      → s.is_running ≡ true
      → s.main ≡ Main.looping
      → s.handler ≡ Handler.idle
      → s.worker ≡ Worker.sleeping
      → ((run sleeps pause_and_continue s).status ≡ Status.running)
        × ((run sleeps pause_and_continue s).is_running ≡ true)
        × ((run sleeps pause_and_continue s).is_paused ≡ false)
        × ((run sleeps pause_and_continue s).worker ≡ Worker.returned)
        × ((run sleeps pause_and_continue s).main ≡ Main.looping)
        × ((run sleeps pause_and_continue s).cycles ≡ s.cycles)
  unfolding run step pause_and_continue has_started
  continued s r m h w = ground arith

  -- From a worker that sleeps in the wait of service::run, an idle handler, and service_main in its
  -- wait: after a pause during which the worker wakes up, and the continue, the status last
  -- reported is SERVICE_RUNNING, g_service_running is true and g_service_paused is false; and
  -- whatever the order of the steps and controls from there on, no further cycle begins.
  pub continued-run :
      (schedule : List Actor) (s : State)
      → s.is_running ≡ true
      → s.main ≡ Main.looping
      → s.handler ≡ Handler.idle
      → s.worker ≡ Worker.sleeping
      → ((run sleeps pause_and_continue s).status ≡ Status.running)
        × ((run sleeps pause_and_continue s).is_running ≡ true)
        × ((run sleeps pause_and_continue s).is_paused ≡ false)
        × ((run sleeps schedule (run sleeps pause_and_continue s)).cycles ≡ s.cycles)
  unfolding has_started
  continued-run schedule s r m h w =
      let c = continued s r m h w in
      let t = run sleeps pause_and_continue s in
      (c.0, c.1, c.2, run-cycles sleeps schedule t c.3 (ap has_started c.4) ∙ c.5)
