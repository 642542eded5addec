-- ===== src/Service/Threads/Stopping.antt =====
-- What holds of the stop of the Windows service, under every schedule.
use divoom_dev.Prelude.{ℕ, suc, ◌≡◌, refl, true, false, List, [], ◌∷◌, ◌++◌, arith, ◌≤◌, ◌-◌, ◌+◌}
use divoom_dev.Service.Threads.{State, Status, Worker, Main, Actor, initial, has_started, step, run}

-- Nothing reports the stop before the worker is done; and main goes on to join it only when the
-- service is to stop, which is for good.
pub record Inv (s : State) : Type 0 where
  pub stopped_finished : s.status ≡ Status.stopped → s.main ≡ Main.finished
  pub finished_done : s.main ≡ Main.finished → s.worker ≡ Worker.returned
  pub finished_stop : s.main ≡ Main.finished → s.is_running ≡ false
  pub joining_stop : s.main ≡ Main.joining → s.is_running ≡ false
  pub starting : has_started s.main ≡ false → s.worker ≡ Worker.absent
  pub started : s.worker ≡ Worker.absent → has_started s.main ≡ false

pub initial-Inv : Inv initial
unfolding initial has_started
initial-Inv = ground arith

-- The steps the worker has left once the service is to stop.
unfoldable pub rank : Worker → ℕ
rank Worker.returned = 0
rank Worker.head_running = 1
rank Worker.created = 2
rank Worker.wait_running = 2
rank Worker.working = 3
rank Worker.sleeping = 3
rank Worker.head_paused = 4
rank Worker.wait_paused = 4
rank Worker.absent = 5

-- The steps main has left once the worker is done.
unfoldable pub main_rank : Main → ℕ
main_rank Main.starting = 4
main_rank Main.creating = 3
main_rank Main.looping = 2
main_rank Main.joining = 1
main_rank Main.finished = 0

unfoldable pub worker_steps : List Actor → ℕ
worker_steps [] = 0
worker_steps (Actor.worker ∷ schedule) = suc (worker_steps schedule)
worker_steps (Actor.main ∷ schedule) = worker_steps schedule
worker_steps (Actor.handler ∷ schedule) = worker_steps schedule
worker_steps (Actor.control _ ∷ schedule) = worker_steps schedule

unfoldable pub main_steps : List Actor → ℕ
main_steps [] = 0
main_steps (Actor.main ∷ schedule) = suc (main_steps schedule)
main_steps (Actor.worker ∷ schedule) = main_steps schedule
main_steps (Actor.handler ∷ schedule) = main_steps schedule
main_steps (Actor.control _ ∷ schedule) = main_steps schedule

rank-returned : (w : Worker) → rank w ≡ 0 → w ≡ Worker.returned
unfolding rank has_started
rank-returned w h = ground arith

rank-started : (s : State) → Inv s → has_started s.main ≡ true → rank s.worker ≤ 4
unfolding rank has_started
rank-started s i m = ground arith

main_rank-finished : (m : Main) → main_rank m ≡ 0 → m ≡ Main.finished
unfolding main_rank has_started
main_rank-finished m h = ground arith

main_rank-started : (m : Main) → has_started m ≡ true → main_rank m ≤ 2
unfolding main_rank has_started
main_rank-started m h = ground arith

worker_steps-∷ :
    (a : Actor) (schedule : List Actor)
    → worker_steps (a ∷ schedule) ≡ worker_steps (a ∷ []) + worker_steps schedule
unfolding worker_steps has_started
worker_steps-∷ Actor.main schedule = omega arith
worker_steps-∷ Actor.worker schedule = omega arith
worker_steps-∷ Actor.handler schedule = omega arith
worker_steps-∷ (Actor.control c) schedule = omega arith

main_steps-∷ :
    (a : Actor) (schedule : List Actor)
    → main_steps (a ∷ schedule) ≡ main_steps (a ∷ []) + main_steps schedule
unfolding main_steps has_started
main_steps-∷ Actor.main schedule = omega arith
main_steps-∷ Actor.worker schedule = omega arith
main_steps-∷ Actor.handler schedule = omega arith
main_steps-∷ (Actor.control c) schedule = omega arith

module _ (sleeps : ℕ) where
  step-Inv : (a : Actor) (s : State) → Inv s → Inv (step sleeps a s)
  unfolding step has_started
  step-Inv Actor.main s h = ground arith
  step-Inv Actor.worker s h = ground arith
  step-Inv Actor.handler s h = ground arith
  step-Inv (Actor.control c) s h = ground arith

  pub run-Inv : (schedule : List Actor) (s : State) → Inv s → Inv (run sleeps schedule s)
  unfolding run has_started
  run-Inv [] s h = h
  run-Inv (a ∷ schedule) s h = run-Inv schedule (step sleeps a s) (step-Inv a s h)

  -- Whatever the order of the steps of the threads and of the controls that come in: when
  -- service_main has last reported SERVICE_STOPPED, it is at its end, service::run has
  -- returned, and g_service_running is false.
  pub stopped-returned :
      (schedule : List Actor)
      → (run sleeps schedule initial).status ≡ Status.stopped
      → ((run sleeps schedule initial).main ≡ Main.finished)
        × ((run sleeps schedule initial).worker ≡ Worker.returned)
        × ((run sleeps schedule initial).is_running ≡ false)
  stopped-returned schedule h =
      let i = run-Inv schedule initial initial-Inv in
      let f = i.stopped_finished h in (f, i.finished_done f, i.finished_stop f)

  step-stop : (a : Actor) (s : State) → s.is_running ≡ false → (step sleeps a s).is_running ≡ false
  unfolding step has_started
  step-stop Actor.main s h = ground arith
  step-stop Actor.worker s h = ground arith
  step-stop Actor.handler s h = ground arith
  step-stop (Actor.control c) s h = ground arith

  pub step-started :
      (a : Actor) (s : State)
      → has_started s.main ≡ true
      → has_started (step sleeps a s).main ≡ true
  unfolding step has_started
  step-started Actor.main s h = ground arith
  step-started Actor.worker s h = ground arith
  step-started Actor.handler s h = ground arith
  step-started (Actor.control c) s h = ground arith

  step-rank :
      (a : Actor) (s : State)
      → Inv s
      → s.is_running ≡ false
      → has_started s.main ≡ true
      → rank (step sleeps a s).worker ≤ rank s.worker - worker_steps (a ∷ [])
  unfolding step rank worker_steps has_started
  step-rank Actor.main s i h w = ground arith
  step-rank Actor.worker s i h w = ground arith
  step-rank Actor.handler s i h w = ground arith
  step-rank (Actor.control c) s i h w = ground arith

  step-main_rank :
      (a : Actor) (s : State)
      → s.is_running ≡ false
      → s.worker ≡ Worker.returned
      → has_started s.main ≡ true
      → main_rank (step sleeps a s).main ≤ main_rank s.main - main_steps (a ∷ [])
  unfolding step main_rank main_steps has_started
  step-main_rank Actor.main s h w m = ground arith
  step-main_rank Actor.worker s h w m = ground arith
  step-main_rank Actor.handler s h w m = ground arith
  step-main_rank (Actor.control c) s h w m = ground arith

  pub step-returned :
      (a : Actor) (s : State)
      → s.worker ≡ Worker.returned
      → has_started s.main ≡ true
      → (step sleeps a s).worker ≡ Worker.returned
  unfolding step has_started
  step-returned Actor.main s h w = ground arith
  step-returned Actor.worker s h w = ground arith
  step-returned Actor.handler s h w = ground arith
  step-returned (Actor.control c) s h w = ground arith

  run-stop :
      (schedule : List Actor) (s : State)
      → s.is_running ≡ false
      → (run sleeps schedule s).is_running ≡ false
  unfolding run has_started
  run-stop [] s h = h
  run-stop (a ∷ schedule) s h = run-stop schedule (step sleeps a s) (step-stop a s h)

  pub run-started :
      (schedule : List Actor) (s : State)
      → has_started s.main ≡ true
      → has_started (run sleeps schedule s).main ≡ true
  unfolding run has_started
  run-started [] s h = h
  run-started (a ∷ schedule) s h = run-started schedule (step sleeps a s) (step-started a s h)

  run-rank :
      (schedule : List Actor) (s : State)
      → Inv s
      → s.is_running ≡ false
      → has_started s.main ≡ true
      → rank (run sleeps schedule s).worker ≤ rank s.worker - worker_steps schedule
  unfolding run worker_steps has_started
  run-rank [] s i h m = omega arith
  run-rank (a ∷ schedule) s i h m =
      let now = step-rank a s i h m in
      let later =
        run-rank schedule (step sleeps a s) (step-Inv a s i) (step-stop a s h)
          (step-started a s m) in
      let sum = worker_steps-∷ a schedule in omega arith

  run-returned :
      (schedule : List Actor) (s : State)
      → s.worker ≡ Worker.returned
      → has_started s.main ≡ true
      → (run sleeps schedule s).worker ≡ Worker.returned
  unfolding run has_started
  run-returned [] s h m = h
  run-returned (a ∷ schedule) s h m =
      run-returned schedule (step sleeps a s) (step-returned a s h m) (step-started a s m)

  run-main_rank :
      (schedule : List Actor) (s : State)
      → s.is_running ≡ false
      → s.worker ≡ Worker.returned
      → has_started s.main ≡ true
      → main_rank (run sleeps schedule s).main ≤ main_rank s.main - main_steps schedule
  unfolding run main_steps has_started
  run-main_rank [] s h w m = omega arith
  run-main_rank (a ∷ schedule) s h w m =
      let now = step-main_rank a s h w m in
      let later =
        run-main_rank schedule (step sleeps a s) (step-stop a s h) (step-returned a s w m)
          (step-started a s m) in
      let sum = main_steps-∷ a schedule in omega arith

  run-++ :
      (one two : List Actor) (s : State)
      → run sleeps (one ++ two) s ≡ run sleeps two (run sleeps one s)
  unfolding run has_started
  run-++ [] two s = refl
  run-++ (a ∷ one) two s = run-++ one two (step sleeps a s)

  -- Once the stop handler has cleared g_service_running and service_main has created the worker, every
  -- schedule that gives the worker thread four steps, whatever else runs in between, has
  -- service::run return.
  four_steps-returned :
      (schedule : List Actor) (s : State)
      → Inv s
      → s.is_running ≡ false
      → has_started s.main ≡ true
      → 4 ≤ worker_steps schedule
      → (run sleeps schedule s).worker ≡ Worker.returned
  four_steps-returned schedule s i h m four =
      let most = run-rank schedule s i h m in
      let least = rank-started s i m in rank-returned (run sleeps schedule s).worker (omega arith)

  -- A stop ends the service under every fair schedule: from a state that satisfies the invariant
  -- of the threads, with g_service_running cleared and the worker created, a schedule in
  -- which the worker has at least four steps, followed by one in which service_main has at least
  -- two, leaves service_main at its end and service::run returned, whatever controls come in
  -- meanwhile.
  pub stop-finished :
      (one two : List Actor) (s : State)
      → Inv s
      → s.is_running ≡ false
      → has_started s.main ≡ true
      → 4 ≤ worker_steps one
      → 2 ≤ main_steps two
      → ((run sleeps (one ++ two) s).main ≡ Main.finished)
        × ((run sleeps (one ++ two) s).worker ≡ Worker.returned)
  stop-finished one two s i h m four both =
      let t = run sleeps one s in
      let w = four_steps-returned one s i h m four in
      let n = run-started one s m in
      let most = run-main_rank two t (run-stop one s h) w n in
      let least = main_rank-started t.main n in
      rw (run-++ one two s)
        (main_rank-finished (run sleeps two t).main (omega arith), run-returned two t w n)
