-- ===== src/Threads/Order.antt =====
-- The order of the tasks in a ThreadPool whose workers and callers act in any order.
use native.Mathlib.Decide.{ℕ_discrete}
use ll2games_rpg_server.Common.{
  ℕ, ◌%◌, ◌≡◌, sym, subst, ◌∙◌, none, some, List, [], ◌∷◌, ◌++◌, arith, append_assoc, append_nil,
  get_elem?,
}
use ll2games_rpg_server.Threads.{WorkerThread, pool_threads}
use ll2games_rpg_server.Threads.Life.{Job, of_key, tasks_at, Life, Reach}
use ll2games_rpg_server.Threads.Kept.{Reach-IsOrdered}

module _ {A : Type 0} where
  at_own_worker :
      {n : ℕ} {l : Life A} (i k : ℕ) (a : A) (w : WorkerThread (Job A))
      → Reach n l
      → get_elem? l.pool.workers i ≡ some w
      → w.task ≡ some (some k, a)
      → i ≡ k % pool_threads n
  at_own_worker {n} {l} i k a w r found runs = elim (ℕ_discrete i (k % pool_threads n)) [
    | yes e ↦ e
    | no far ↦
        let none_left =
          subst (λ o. of_key k (elim o [ none ↦ [] | some t ↦ t ∷ [] ]) ≡ []) runs
            ((Reach-IsOrdered r).own i w found k far).1 in
        absurd (ground (arith, none_left))
  ]

  -- However the calls of any threads and the rounds of the workers are interleaved, two tasks that
  -- `SubmitByKey` was given under the same key are never executed by two workers at the same time: the
  -- workers that execute tasks of one key are one worker.
  pub Reach-one_worker :
      {n : ℕ} {l : Life A} (i j k : ℕ) (a b : A) (v w : WorkerThread (Job A))
      → Reach n l
      → get_elem? l.pool.workers i ≡ some v
      → v.task ≡ some (some k, a)
      → get_elem? l.pool.workers j ≡ some w
      → w.task ≡ some (some k, b)
      → i ≡ j
  Reach-one_worker i j k a b v w r at_i runs_a at_j runs_b =
      at_own_worker i k a v r at_i runs_a ∙ sym (at_own_worker j k b w r at_j runs_b)

  -- The abstract queue of one key: what it accepted, what it handed out and what waits.
  pub data Fifo : List (Job A) → List (Job A) → List (Job A) → Type 0 where
    empty : Fifo [] [] []
    pushed :
        {acc out queue : List (Job A)} (x : Job A)
        → Fifo acc out queue
        → Fifo (acc ++ (x ∷ [])) out (queue ++ (x ∷ []))
    popped :
        {acc out queue : List (Job A)} {x : Job A}
        → Fifo acc out (x ∷ queue)
        → Fifo acc (out ++ (x ∷ [])) queue

  pushes_lem :
      (xs : List (Job A)) {acc queue : List (Job A)}
      → Fifo acc [] queue
      → Fifo (acc ++ xs) [] (queue ++ xs)
  pushes_lem [] {acc} {queue} f =
      subst (λ u. Fifo u [] (queue ++ [])) (sym (append_nil acc))
        (subst (Fifo acc []) (sym (append_nil queue)) f)
  pushes_lem (x ∷ xs) {acc} {queue} f =
      subst (λ u. Fifo u [] (queue ++ (x ∷ xs))) (append_assoc acc (x ∷ []) xs)
        (subst (Fifo ((acc ++ (x ∷ [])) ++ xs) []) (append_assoc queue (x ∷ []) xs)
          (pushes_lem xs (pushed x f)))

  pops_lem :
      (xs : List (Job A)) {acc out queue : List (Job A)}
      → Fifo acc out (xs ++ queue)
      → Fifo acc (out ++ xs) queue
  pops_lem [] {acc} {out} {queue} f = subst (λ u. Fifo acc u queue) (sym (append_nil out)) f
  pops_lem (x ∷ xs) {acc} {out} {queue} f =
      subst (λ u. Fifo acc u queue) (append_assoc out (x ∷ []) xs) (pops_lem xs (popped f))

  -- The pool refines one queue for each key, first in, first out: however the calls of any threads and
  -- the rounds of the workers are interleaved, the tasks accepted under a key, those of them that were
  -- started, in the order of their start, and those that wait at the worker of the key are what pushes
  -- and pops lead the queue of the key to. No accepted task is lost, none is started twice, and they
  -- start in the order in which they were accepted.
  pub Reach-Fifo :
      {n : ℕ} {l : Life A} (k : ℕ)
      → Reach n l
      → Fifo
          (of_key k l.accepted)
          (of_key k l.started)
          (of_key k (tasks_at (k % pool_threads n) l.pool))
  Reach-Fifo {n} {l} k r =
      let queue = of_key k (tasks_at (k % pool_threads n) l.pool) in
      subst (λ acc. Fifo acc (of_key k l.started) queue) ((Reach-IsOrdered r).fifo k)
        (pops_lem (of_key k l.started) {out = []} (pushes_lem (of_key k l.started ++ queue) empty))
