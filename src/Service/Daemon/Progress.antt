-- ===== src/Service/Daemon/Progress.antt =====
-- The loop of service::run under the signals of the daemon: how many cycles are begun.
use divoom_dev.Prelude.{
  ◌≡◌, refl, ap, ℕ, suc, ◌+◌, ◌-◌, ◌*◌, ◌≤◌, Bool, true, false, List, [], ◌∷◌, arith, ltb,
}
use divoom_dev.Service.Daemon.{Daemon, Event, signal, worker, step, run_daemon}
use divoom_dev.Service.Threads.{State, Worker, worker_step}

-- In a cycle or a wait, where a sleep is among those that are left.
unfoldable pub is_busy : Worker → ℕ → Bool
is_busy Worker.absent left = false
is_busy Worker.created left = false
is_busy Worker.returned left = false
is_busy Worker.wait_paused left = ltb 0 left
is_busy Worker.sleeping left = ltb 0 left
is_busy _ left = true

suc_times : (c l : ℕ) → suc c * l ≡ c * l + l
suc_times c l = omega arith

module _ (sleeps : ℕ) where
  -- The steps of a cycle with its wait.
  abbrev pub cycle_steps : ℕ
  cycle_steps = 4 + 3 * sleeps

  -- Where the worker stands between two cycles.
  unfoldable offset : Worker → ℕ → ℕ
  offset Worker.head_running left = cycle_steps
  offset Worker.head_paused left = cycle_steps + 1
  offset Worker.working left = cycle_steps + 2
  offset Worker.wait_running left = 3 + 3 * (sleeps - left)
  offset Worker.wait_paused left = 4 + 3 * (sleeps - left)
  offset Worker.sleeping left = 5 + 3 * (sleeps - left)
  offset _ left = 0

  -- The loop is in a cycle or a wait that neither flag ends.
  pub record IsBusy (s : State) : Type 0 where
    pub running : s.is_running ≡ true
    pub not_paused : s.is_paused ≡ false
    pub busy : is_busy s.worker s.left ≡ true
    pub few : s.left ≤ sleeps

  -- The steps of the loop since its first cycle.
  unfoldable total : State → ℕ
  unfolding offset
  total s = s.cycles * cycle_steps + offset s.worker s.left

  IsBusy-step :
      (w : Worker) (s : State)
      → s.worker ≡ w
      → is_busy w s.left ≡ true
      → IsBusy s
      → IsBusy (worker_step sleeps w s)
  unfolding is_busy
  IsBusy-step Worker.absent s e b h = ground arith
  IsBusy-step Worker.created s e b h = ground arith
  IsBusy-step Worker.returned s e b h = ground arith
  IsBusy-step Worker.head_running s e b h = record {
    running = h.running;
    not_paused = h.not_paused;
    busy = ground (arith, h.running);
    few = h.few;
  }
  IsBusy-step Worker.head_paused s e b h = record {
    running = h.running;
    not_paused = h.not_paused;
    busy = ground (arith, h.not_paused);
    few = h.few;
  }
  IsBusy-step Worker.working s e b h = record {
    running = h.running;
    not_paused = h.not_paused;
    busy = refl;
    few = omega arith;
  }
  IsBusy-step Worker.wait_running s e b h = record {
    running = h.running;
    not_paused = h.not_paused;
    busy = ground (arith, h.running);
    few = h.few;
  }
  IsBusy-step Worker.wait_paused s e b h = record {
    running = h.running;
    not_paused = h.not_paused;
    busy = ground (arith, h.not_paused);
    few = h.few;
  }
  IsBusy-step Worker.sleeping s e b h = record {
    running = h.running;
    not_paused = h.not_paused;
    busy = refl;
    few = omega (arith, h.few);
  }

  total-step :
      (w : Worker) (s : State)
      → is_busy w s.left ≡ true
      → IsBusy s
      → total (worker_step sleeps w s) ≡ total (record s { worker = w }) + 1
  unfolding total offset is_busy
  total-step Worker.absent s b h = ground arith
  total-step Worker.created s b h = ground arith
  total-step Worker.returned s b h = ground arith
  total-step Worker.head_running s b h = ground (arith, h.running)
  total-step Worker.head_paused s b h = ground (arith, h.not_paused)
  total-step Worker.working s b h = omega (arith, suc_times s.cycles cycle_steps)
  total-step Worker.wait_running s b h = ground (arith, h.running, h.few)
  total-step Worker.wait_paused s b h = ground (arith, h.not_paused)
  total-step Worker.sleeping s b h = ground (arith, h.few)

  -- The steps of the loop among the events.
  unfoldable pub loop_steps : List Event → ℕ
  loop_steps [] = 0
  loop_steps (signal ∷ events) = loop_steps events
  loop_steps (worker ∷ events) = suc (loop_steps events)

  total-run :
      (events : List Event) (d : Daemon)
      → IsBusy d.service
      → IsBusy (run_daemon sleeps events d).service
        × (total (run_daemon sleeps events d).service ≡ total d.service + loop_steps events)
  unfolding run_daemon loop_steps
  total-run [] d h = (h, omega arith)
  total-run (signal ∷ events) d h = total-run events (step sleeps signal d) h
  total-run (worker ∷ events) d h =
      let next =
        total-run events (step sleeps worker d)
          (IsBusy-step d.service.worker d.service refl h.busy h) in
      (next.0, omega (arith, next.1, total-step d.service.worker d.service h.busy h))

  offset-bound : (w : Worker) (left : ℕ) → left ≤ sleeps → offset w left ≤ cycle_steps + 2
  unfolding offset
  offset-bound Worker.absent left h = omega arith
  offset-bound Worker.created left h = omega arith
  offset-bound Worker.returned left h = omega arith
  offset-bound Worker.head_running left h = omega arith
  offset-bound Worker.head_paused left h = omega arith
  offset-bound Worker.working left h = omega arith
  offset-bound Worker.wait_running left h = omega (arith, h)
  offset-bound Worker.wait_paused left h = omega (arith, h)
  offset-bound Worker.sleeping left h = omega (arith, h)

  -- No signals end or stall the daemon. From the begin of service::run, with no stop and no pause asked
  -- for and no cycle begun: after any events the loop is still in a cycle or a wait and neither flag is
  -- set, and the steps of the loop among the events are at most 4 + 3 * sleeps for each cycle that was
  -- begun, and 2 more.
  pub run_daemon-IsBusy :
      (events : List Event) (d : Daemon)
      → d.service.is_running ≡ true
      → d.service.is_paused ≡ false
      → d.service.worker ≡ Worker.head_running
      → d.service.left ≤ sleeps
      → d.service.cycles ≡ 0
      → IsBusy (run_daemon sleeps events d).service
        × (loop_steps events ≤ (run_daemon sleeps events d).service.cycles * cycle_steps + 2)
  unfolding is_busy total offset
  run_daemon-IsBusy events d r p w few none_begun =
      let busy : IsBusy d.service = record {
        running = r;
        not_paused = p;
        busy = ap (λ x. is_busy x d.service.left) w;
        few = few;
      } in
      let at_start : offset d.service.worker d.service.left ≡ cycle_steps =
        ap (λ x. offset x d.service.left) w in
      let none_done : d.service.cycles * cycle_steps ≡ 0 * cycle_steps =
        ap (λ c. c * cycle_steps) none_begun in
      let start : total d.service ≡ cycle_steps = omega (arith, at_start, none_done) in
      let (still, reached) = total-run events d busy in
      let last = (run_daemon sleeps events d).service in
      (still, omega (arith, start, reached, offset-bound last.worker last.left still.few))
