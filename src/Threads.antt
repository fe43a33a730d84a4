-- ===== src/Threads.antt =====
-- SERVER/src/COMMON/thread/WorkerThread.cpp and ThreadPool.cpp: the task queue of a worker, the rounds
-- of its thread, and the two ways in which a pool hands a task to a worker. Tasks are elements of any
-- type; what `Execute` does is not part of the pool, which ignores its exceptions.
pub mod Life
mod Kept
pub mod Order
mod Tests
pub mod Stopping
use ll2games_rpg_server.Common.{
  ℕ, zero, suc, Bool, false, true, if◌then◌else◌, List, none, map, modify, Option, [], not, ◌==◌,
  length, ◌++◌, ◌∷◌, some, replicate, ◌+◌, ◌%◌,
}

pub record WorkerThread (A : Type 0) : Type 0 where
  -- `m_running`
  pub running : Bool
  -- `m_tasks`
  pub tasks : List A
  -- the task that `Run` took and executes
  pub task : Option A

-- What the locked part of one round of `Run` comes to.
pub data Round : Type 0 where
  waits exits executes : Round

module _ {A : Type 0} where
  abbrev pub make_worker : WorkerThread A
  make_worker = record { running = false; tasks = []; task = none }

  pub start_worker : WorkerThread A → WorkerThread A
  start_worker w = record w { running = true }

  -- `Stop` up to its `join`, which waits until `Run` has returned.
  pub stop_worker : WorkerThread A → WorkerThread A
  stop_worker w = record w { running = false }

  pub push_task : A → WorkerThread A → WorkerThread A
  push_task t w = if not w.running then w else record w { tasks = w.tasks ++ (t ∷ []) }

  abbrev pub take_from : List A → WorkerThread A → Round × WorkerThread A
  take_from [] w = if not w.running then (exits, w) else (waits, w)
  take_from (t ∷ tasks) w = (executes, record w { tasks = tasks; task = some t })

  -- The locked part of one round of `Run`.
  pub take_task : WorkerThread A → Round × WorkerThread A
  take_task w = take_from w.tasks w

  -- `Execute` has returned or thrown.
  pub finish_task : WorkerThread A → WorkerThread A
  finish_task w = record w { task = none }

-- Where the thread of a worker stands in `Run`: it is about to lock the mutex; it has found that it has to
-- wait, and still holds the mutex; it sleeps in `m_cv.wait`, which has released the mutex; it executes a
-- task; it has returned.
pub data Place : Type 0 where
  at_lock checked asleep at_work ended : Place

pub record Thread (A : Type 0) : Type 0 where
  pub worker : WorkerThread A
  pub place : Place

abbrev pub woken : Place → Place
woken asleep = at_lock
woken at_lock = at_lock
woken checked = checked
woken at_work = at_work
woken ended = ended

module _ {A : Type 0} where
  abbrev pub executed : WorkerThread A → List A
  executed w = elim (w.task) [ none ↦ [] | some t ↦ t ∷ [] ]

  -- The thread has the mutex, and evaluates the predicate of the wait.
  abbrev pub after_check : Round → WorkerThread A → List A × Thread A
  after_check waits w = ([], record { worker = w; place = checked })
  after_check exits w = ([], record { worker = w; place = ended })
  after_check executes w = (executed w, record { worker = w; place = at_work })

  abbrev pub step_at : Place → WorkerThread A → List A × Thread A
  step_at at_lock w = after_check (take_task w).0 (take_task w).1
  step_at checked w = ([], record { worker = w; place = asleep })
  step_at asleep w = ([], record { worker = w; place = asleep })
  step_at at_work w = ([], record { worker = finish_task w; place = at_lock })
  step_at ended w = ([], record { worker = w; place = ended })

  -- One step of the thread in `Run`, with the task that it takes.
  pub step : Thread A → List A × Thread A
  step t = step_at t.place t.worker

  -- So many steps of the thread while nobody pushes a task or notifies, with the tasks that it takes.
  pub run : ℕ → Thread A → List A × Thread A
  run zero t = ([], t)
  run (suc n) t = let rest = run n (step t).1 in ((step t).0 ++ rest.0, rest.1)

  -- `m_running = false` of `Stop`, which does not lock the mutex.
  pub store_stop : Thread A → Thread A
  store_stop t = record t { worker = stop_worker t.worker }

  -- `notify_all` wakes a thread that sleeps, and does nothing to one that does not sleep yet.
  pub notify : Thread A → Thread A
  notify t = record t { place = woken t.place }

-- The number of threads, 4 where none is asked for
abbrev pub pool_threads : ℕ → ℕ
pool_threads thread_count = if thread_count == 0 then 4 else thread_count

pub record ThreadPool (A : Type 0) : Type 0 where
  pub pool_size : ℕ
  pub workers : List (WorkerThread A)
  pub next_index : ℕ

module _ {A : Type 0} where
  -- The constructor
  pub make_pool : ℕ → ThreadPool A
  make_pool thread_count = record {
    pool_size = pool_threads thread_count;
    workers = replicate (pool_threads thread_count) make_worker;
    next_index = 0;
  }

  -- One round of the loop of `Start`
  pub start_at : ℕ → ThreadPool A → ThreadPool A
  start_at i p = record p { workers = modify i start_worker p.workers }

  -- One round of the loop of `Stop`: the worker at index `i`, up to its `join`.
  pub stop_at : ℕ → ThreadPool A → ThreadPool A
  stop_at i p = record p { workers = modify i stop_worker p.workers }

  pub submit : A → ThreadPool A → ThreadPool A
  submit task p = if length p.workers == 0 then p else record p {
    workers = modify p.next_index (push_task task) p.workers;
    next_index = (p.next_index + 1) % length p.workers;
  }

  pub submit_by_key : ℕ → A → ThreadPool A → ThreadPool A
  submit_by_key key task p =
      if length p.workers == 0
      then p
      else record p { workers = modify (key % length p.workers) (push_task task) p.workers }
