-- ===== src/Threads/Stopping.antt =====
-- What `WorkerThread::Stop` of WorkerThread.cpp does to a thread in `WorkerThread::Run`, step by step.
use ll2games_rpg_server.Common.{
  ℕ, zero, suc, ◌+◌, ◌<◌, ◌≡◌, refl, sym, ap, ◌∙◌, false, Option, none, some, List, [], ◌∷◌, ◌++◌,
  arith, length,
}
use ll2games_rpg_server.Threads.{
  WorkerThread, Thread, Place, at_lock, checked, asleep, at_work, ended, step, run, store_stop,
  notify, take_task, finish_task, stop_worker,
}

module _ {A : Type 0} where
  abbrev at : Place → WorkerThread A → Thread A
  at place w = record { worker = w; place = place }

  abbrev stopped : List A → Option A → WorkerThread A
  stopped tasks task = record { running = false; tasks = tasks; task = task }

  -- A thread that has returned, or that sleeps and is not woken, takes no further step.
  ended-run : (w : WorkerThread A) (fuel : ℕ) → run fuel (at ended w) ≡ ([], at ended w)
  unfolding run step
  ended-run w zero = refl
  ended-run w (suc fuel) = ended-run w fuel

  pub asleep-run : (w : WorkerThread A) (fuel : ℕ) → run fuel (at asleep w) ≡ ([], at asleep w)
  unfolding run step
  asleep-run w zero = refl
  asleep-run w (suc fuel) = asleep-run w fuel

  -- All of `tasks` are taken, and the thread has returned.
  abbrev pub IsDrained : List A → List A × Thread A → Type 0
  IsDrained tasks r = (r.0 ≡ tasks) × (r.1.place ≡ ended)

  at_lock-IsDrained :
      (tasks : List A) (task : Option A) (fuel : ℕ)
      → length tasks + length tasks < fuel
      → IsDrained tasks (run fuel (at at_lock (stopped tasks task)))
  unfolding run step take_task finish_task
  at_lock-IsDrained tasks task zero h = absurd (omega arith)
  at_lock-IsDrained [] task (suc fuel) h =
      let still = ended-run (stopped [] task) fuel in
      (ap (λ (r : List A × Thread A). r.0) still, ap (λ (r : List A × Thread A). r.1.place) still)
  at_lock-IsDrained (t ∷ tasks) task (suc zero) h = absurd (omega arith)
  at_lock-IsDrained (t ∷ tasks) task (suc (suc fuel)) h =
      let later = at_lock-IsDrained tasks none fuel (omega arith) in (ap (◌∷◌ t) later.0, later.1)

  -- The thread of a stopped worker, `between` steps later, is notified and goes on.
  abbrev pub stop_run : ℕ → ℕ → Thread A → List A × Thread A
  stop_run between fuel t =
      let first = run between t in
      let rest = run fuel (notify first.1) in (first.0 ++ rest.0, rest.1)

  stopped-IsDrained :
      (between fuel : ℕ) (place : Place) (tasks : List A) (task : Option A)
      → (place ≡ checked → 0 < between)
      → (place ≡ ended → tasks ≡ [])
      → length tasks + length tasks + 1 < fuel
      → IsDrained tasks (stop_run between fuel (at place (stopped tasks task)))
  unfolding run notify step take_task finish_task
  stopped-IsDrained zero fuel at_lock tasks task in_time whole enough =
      at_lock-IsDrained tasks task fuel (omega arith)
  stopped-IsDrained zero fuel checked tasks task in_time whole enough =
      absurd (omega (arith, in_time refl))
  stopped-IsDrained zero fuel asleep tasks task in_time whole enough =
      at_lock-IsDrained tasks task fuel (omega arith)
  stopped-IsDrained zero zero at_work tasks task in_time whole enough = absurd (omega arith)
  stopped-IsDrained zero (suc fuel) at_work tasks task in_time whole enough =
      at_lock-IsDrained tasks none fuel (omega arith)
  stopped-IsDrained zero fuel ended tasks task in_time whole enough =
      let still = ended-run (stopped tasks task) fuel in
      (
        ap (λ (r : List A × Thread A). r.0) still ∙ sym (whole refl),
        ap (λ (r : List A × Thread A). r.1.place) still,
      )
  stopped-IsDrained (suc between) fuel at_lock [] task in_time whole enough =
      stopped-IsDrained between fuel ended [] task (λ e. absurd (ground arith)) (λ e. refl) enough
  stopped-IsDrained (suc between) fuel at_lock (t ∷ tasks) task in_time whole enough =
      let later =
        stopped-IsDrained between fuel at_work tasks (some t) (λ e. absurd (ground arith))
          (λ e. absurd (ground arith)) (omega arith) in
      (ap (◌∷◌ t) later.0, later.1)
  stopped-IsDrained (suc between) fuel checked tasks task in_time whole enough =
      stopped-IsDrained between fuel asleep tasks task (λ e. absurd (ground arith))
        (λ e. absurd (ground arith)) enough
  stopped-IsDrained (suc between) fuel asleep tasks task in_time whole enough =
      stopped-IsDrained between fuel asleep tasks task (λ e. absurd (ground arith))
        (λ e. absurd (ground arith)) enough
  stopped-IsDrained (suc between) fuel at_work tasks task in_time whole enough =
      stopped-IsDrained between fuel at_lock tasks none (λ e. absurd (ground arith))
        (λ e. absurd (ground arith)) enough
  stopped-IsDrained (suc between) fuel ended tasks task in_time whole enough =
      stopped-IsDrained between fuel ended tasks task (λ e. absurd (ground arith)) whole enough

  -- The thread takes nothing, and sleeps.
  abbrev pub IsLost : List A × Thread A → Type 0
  IsLost r = (r.0 ≡ []) × (r.1.place ≡ asleep)

  stopped-IsLost :
      (between fuel : ℕ) (place : Place) (w : WorkerThread A)
      → place ≡ checked
      → between ≡ 0
      → 0 < fuel
      → IsLost (stop_run between fuel (at place w))
  unfolding run notify step
  stopped-IsLost zero (suc fuel) checked w e f more =
      let still = asleep-run w fuel in
      (ap (λ (r : List A × Thread A). r.0) still, ap (λ (r : List A × Thread A). r.1.place) still)
  stopped-IsLost zero zero checked w e f more = absurd (omega arith)
  stopped-IsLost (suc between) fuel checked w e f more = absurd (omega arith)
  stopped-IsLost between fuel at_lock w e f more = absurd (ground arith)
  stopped-IsLost between fuel asleep w e f more = absurd (ground arith)
  stopped-IsLost between fuel at_work w e f more = absurd (ground arith)
  stopped-IsLost between fuel ended w e f more = absurd (ground arith)

  -- `Stop` against a thread anywhere in `Run`. Between the store to `m_running` and `notify_all` the
  -- thread makes any number of steps, nobody pushes a task, and a thread that has returned already has
  -- left no task. Where the thread had not just found that it has to wait, or comes to sleep before `notify_all`, it executes exactly the tasks that
  -- were queued, in their order, and returns, so that the `join` of `Stop` ends; `fuel` bounds its
  -- steps. Where it had just found that it has to wait and does not sleep yet when `notify_all` is
  -- called, the notification is lost, it executes nothing, and without a spurious wake-up it sleeps
  -- however long it is waited for.
  pub stop-returns :
      (t : Thread A) (between fuel : ℕ)
      → (t.place ≡ ended → t.worker.tasks ≡ [])
      → length t.worker.tasks + length t.worker.tasks + 1 < fuel
      → ((t.place ≡ checked → 0 < between)
          → IsDrained t.worker.tasks (stop_run between fuel (store_stop t)))
        × (t.place ≡ checked → between ≡ 0 → IsLost (stop_run between fuel (store_stop t)))
  unfolding store_stop stop_worker
  stop-returns t between fuel whole enough = (
    λ in_time.
        stopped-IsDrained between fuel t.place t.worker.tasks t.worker.task in_time whole enough,
    λ e f. stopped-IsLost between fuel t.place (stop_worker t.worker) e f (omega arith),
  )
