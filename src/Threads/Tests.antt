-- ===== src/Threads/Tests.antt =====
-- The pool at concrete inputs, and the theorems of its modules applied.
use ll2games_rpg_server.Common.{ℕ, ◌<◌, ◌≡◌, refl, none, some, [], ◌∷◌, arith, true}
use ll2games_rpg_server.Threads.{
  WorkerThread, ThreadPool, Thread, asleep, checked, at_work, make_worker, start_worker,
  stop_worker, push_task, take_task, finish_task, step, run, store_stop, notify, make_pool,
  start_at, submit, submit_by_key,
}
use ll2games_rpg_server.Threads.Life.{Job, Life, Reach, begins, starts, submits_key, takes}
use ll2games_rpg_server.Threads.Order.{Fifo, Reach-Fifo, Reach-one_worker}
use ll2games_rpg_server.Threads.Stopping.{IsDrained, IsLost, stop_run, stop-returns}

-- A thread that executes task 6, with two tasks behind it, and one that has just found its queue empty.
abbrev busy_thread : Thread ℕ
busy_thread = record {
  worker = record { running = true; tasks = 7 ∷ 8 ∷ []; task = some 6 };
  place = at_work;
}

abbrev idle_thread : Thread ℕ
idle_thread = record {
  worker = record { running = true; tasks = []; task = none };
  place = checked;
}

stop-returns_example :
    ((busy_thread.place ≡ checked → 0 < 2)
      → IsDrained (7 ∷ 8 ∷ []) (stop_run 2 6 (store_stop busy_thread)))
    × (busy_thread.place ≡ checked
        → ◌≡◌ {A = ℕ} 2 0
        → IsLost (stop_run 2 6 (store_stop busy_thread)))
stop-returns_example = stop-returns busy_thread 2 6 (λ e. absurd (ground arith)) (omega arith)

-- `Stop` between the check of the predicate and the sleep: `join` waits for a thread that sleeps.
stop_hangs : (run 9 (notify (store_stop idle_thread))).1.place ≡ asleep
unfolding run step notify store_stop stop_worker take_task finish_task
stop_hangs = refl

-- Two workers; worker 1 runs, gets two jobs of key 5 and one of key 3, and takes the first.
abbrev one_runs : Life ℕ
one_runs = record { pool = start_at 1 (make_pool 2); accepted = []; started = [] }

abbrev busy : WorkerThread (Job ℕ)
busy = record {
  running = true;
  tasks = (some 5, 10) ∷ (some 3, 11) ∷ (some 5, 12) ∷ [];
  task = none;
}

abbrev filled : Life ℕ
filled = record {
  pool =
      submit_by_key 5 (some 5, 12)
        (submit_by_key 3 (some 3, 11) (submit_by_key 5 (some 5, 10) (start_at 1 (make_pool 2))));
  accepted = (some 5, 10) ∷ (some 3, 11) ∷ (some 5, 12) ∷ [];
  started = [];
}

abbrev under_way : Life ℕ
under_way = record {
  pool = record {
    pool_size = 2;
    workers =
        make_worker
        ∷ record {
          running = true;
          tasks = (some 3, 11) ∷ (some 5, 12) ∷ [];
          task = some (some 5, 10);
        }
        ∷ [];
    next_index = 0;
  };
  accepted = (some 5, 10) ∷ (some 3, 11) ∷ (some 5, 12) ∷ [];
  started = (some 5, 10) ∷ [];
}

under_way-Reach : Reach 2 under_way
unfolding make_pool start_at start_worker submit_by_key push_task take_task
under_way-Reach =
    takes {l = filled} 1 busy refl refl refl
      (submits_key 5 12 (submits_key 3 11 (submits_key 5 10 (starts 1 begins))))

Reach-Fifo_example :
    Fifo {A = ℕ} ((some 5, 10) ∷ (some 5, 12) ∷ []) ((some 5, 10) ∷ []) ((some 5, 12) ∷ [])
Reach-Fifo_example = Reach-Fifo 5 under_way-Reach

Reach-one_worker_example : ◌≡◌ {A = ℕ} 1 1
Reach-one_worker_example = Reach-one_worker 1 1 5 10 10 _ _ under_way-Reach refl refl refl refl

-- No thread count means four workers, and tasks without a key go round.
four_workers : make_pool {A = ℕ} 0 ≡ make_pool 4
unfolding make_pool
four_workers = refl

round_robin : ThreadPool.next_index (submit 2 (submit 1 (submit 0 (make_pool {A = ℕ} 2)))) ≡ 1
unfolding make_pool submit
round_robin = refl
