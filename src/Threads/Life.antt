-- ===== src/Threads/Life.antt =====
-- A ThreadPool with the history of its tasks, whose workers and callers act in any order.
use native.Mathlib.Decide.{ℕ_discrete}
use ll2games_rpg_server.Common.{
  some_inj, ℕ, ◌%◌, ◌≡◌, refl, sym, ap, ap₂, subst, ◌∙◌, ◌≢◌, Bool, false, Option, none, some, List,
  [], ◌∷◌, ◌++◌, arith, ◌==◌, if◌then◌else◌, length, append_assoc, append_nil, get_elem?, modify,
  length-modify, get-modify_ne, get-modify_self,
}
use ll2games_rpg_server.Threads.{
  start_at, WorkerThread, ThreadPool, take_task, finish_task, executed, executes, make_pool,
  stop_at, submit, submit_by_key,
}

-- A task with the key under which `SubmitByKey` was called, `none` for `Submit`.
abbrev pub Job : Type 0 → Type 0
Job A = Option ℕ × A

abbrev pub has_key : ℕ → Option ℕ → Bool
has_key k none = false
has_key k (some j) = k == j

-- A pool with its history: the jobs it accepted and those that a worker started, in order of time.
pub record Life (A : Type 0) : Type 0 where
  pub pool : ThreadPool (Job A)
  pub accepted : List (Job A)
  pub started : List (Job A)

module _ {A : Type 0} where
  -- The jobs of one key
  abbrev pub of_key : ℕ → List (Job A) → List (Job A)
  of_key k [] = []
  of_key k (job ∷ jobs) = if has_key k job.0 then job ∷ of_key k jobs else of_key k jobs

  pub of_key-append :
      (k : ℕ) (xs ys : List (Job A)) → of_key k (xs ++ ys) ≡ of_key k xs ++ of_key k ys
  of_key-append k [] ys = refl
  of_key-append k ((o, a) ∷ xs) ys = ground (arith, of_key-append k xs ys)

  abbrev pub tasks_of : Option (WorkerThread (Job A)) → List (Job A)
  tasks_of none = []
  tasks_of (some w) = w.tasks

  abbrev pub tasks_at : ℕ → ThreadPool (Job A) → List (Job A)
  tasks_at i p = tasks_of (get_elem? p.workers i)

  -- A job that a call at worker `i` adds to its queue
  abbrev pub accepted_at : Option (WorkerThread (Job A)) → Job A → List (Job A)
  accepted_at none job = []
  accepted_at (some w) job = if w.running then job ∷ [] else []

  abbrev pub change :
      ℕ → (WorkerThread (Job A) → WorkerThread (Job A)) → ThreadPool (Job A) → ThreadPool (Job A)
  change i f p = record p { workers = modify i f p.workers }

  abbrev pub new_life : ℕ → Life A
  new_life n = record { pool = make_pool n; accepted = []; started = [] }

  -- What callers and workers can bring a pool of `n` workers to.
  pub data Reach (n : ℕ) : Life A → Type 0 where
    begins : Reach n (new_life n)
    starts : {l : Life A} (i : ℕ) → Reach n l → Reach n (record l { pool = start_at i l.pool })
    stops : {l : Life A} (i : ℕ) → Reach n l → Reach n (record l { pool = stop_at i l.pool })
    submits :
        {l : Life A} (a : A)
        → Reach n l
        → Reach n (record l {
          pool = submit (none, a) l.pool;
          accepted =
              l.accepted ++ accepted_at (get_elem? l.pool.workers l.pool.next_index) (none, a);
        })
    submits_key :
        {l : Life A} (k : ℕ) (a : A)
        → Reach n l
        → Reach n (record l {
          pool = submit_by_key k (some k, a) l.pool;
          accepted =
              l.accepted
              ++ accepted_at (get_elem? l.pool.workers (k % length l.pool.workers)) (some k, a);
        })
    takes :
        {l : Life A} (i : ℕ) (w : WorkerThread (Job A))
        → get_elem? l.pool.workers i ≡ some w
        → w.task ≡ none
        → (take_task w).0 ≡ executes
        → Reach n l
        → Reach n (record l {
          pool = change i (λ v. (take_task v).1) l.pool;
          started = l.started ++ executed (take_task w).1;
        })
    finishes :
        {l : Life A} (i : ℕ) → Reach n l → Reach n (record l { pool = change i finish_task l.pool })

  -- Worker `i` of `n` has no job of a key that belongs elsewhere.
  abbrev pub IsOwn : ℕ → ℕ → WorkerThread (Job A) → Type 0
  IsOwn n i w = (k : ℕ) → i ≢ k % n → (of_key k w.tasks ≡ []) × (of_key k (executed w) ≡ [])

  pub record IsOrdered (n : ℕ) (l : Life A) : Type 0 where
    pub size : length l.pool.workers ≡ n
    pub own : (i : ℕ) (w : WorkerThread (Job A)) → get_elem? l.pool.workers i ≡ some w → IsOwn n i w
    pub fifo :
        (k : ℕ) → of_key k l.started ++ of_key k (tasks_at (k % n) l.pool) ≡ of_key k l.accepted

  moved_lem :
      (a b c d e acc : List (Job A)) → b ++ c ≡ d ++ e → a ++ d ≡ acc → (a ++ b) ++ c ≡ acc ++ e
  moved_lem a b c d e acc h g =
      append_assoc a b c ∙ ap (◌++◌ a) h ∙ sym (append_assoc a d e) ∙ ap (λ u. u ++ e) g

  -- A step at worker `i`, which turns `w` into `f w` and adds `da` and `ds` to the history.
  pub changed_lem :
      {n : ℕ} (l : Life A) (i : ℕ) (next : ℕ) (w : WorkerThread (Job A))
      (f : WorkerThread (Job A) → WorkerThread (Job A)) (da ds : List (Job A))
      → get_elem? l.pool.workers i ≡ some w
      → IsOrdered n l
      → (IsOwn n i w → IsOwn n i (f w))
      → ((k : ℕ) → i ≢ k % n → (of_key k da ≡ []) × (of_key k ds ≡ []))
      → ((k : ℕ)
          → i ≡ k % n
          → of_key k ds ++ of_key k (f w).tasks ≡ of_key k w.tasks ++ of_key k da)
      → IsOrdered n (record l {
        pool = record (change i f l.pool) { next_index = next };
        accepted = l.accepted ++ da;
        started = l.started ++ ds;
      })
  changed_lem {n} l i next w f da ds found ord keeps elsewhere here = record {
    size = length-modify i f l.pool.workers ∙ ord.size;
    own = λ j v h k far. own_at j v h k far;
    fifo = λ k. fifo_at k;
  }
    where
      after : ThreadPool (Job A)
      after = change i f l.pool

      now : get_elem? after.workers i ≡ some (f w)
      now = get-modify_self i f w l.pool.workers found

      own_at : (j : ℕ) (v : WorkerThread (Job A)) → get_elem? after.workers j ≡ some v → IsOwn n j v
      own_at j v h = elim (ℕ_discrete j i) [
        | yes e ↦
            subst (IsOwn n j)
              (some_inj (sym now ∙ subst (λ m. get_elem? after.workers m ≡ some v) e h))
              (subst (λ m. IsOwn n m (f w)) (sym e) (keeps (ord.own i w found)))
        | no far ↦ ord.own j v (sym (get-modify_ne j i f l.pool.workers far) ∙ h)
      ]

      fifo_at :
          (k : ℕ)
          → of_key k (l.started ++ ds) ++ of_key k (tasks_at (k % n) after)
            ≡ of_key k (l.accepted ++ da)
      fifo_at k = elim (ℕ_discrete i (k % n)) [
        | yes e ↦
            subst
              (λ o.
                of_key k (l.started ++ ds) ++ of_key k (tasks_of o) ≡ of_key k (l.accepted ++ da))
              (sym now ∙ ap (get_elem? after.workers) e)
              (ap (λ u. u ++ of_key k (f w).tasks) (of_key-append k l.started ds)
                ∙ moved_lem (of_key k l.started) (of_key k ds) (of_key k (f w).tasks)
                    (of_key k w.tasks) (of_key k da) (of_key k l.accepted) (here k e)
                    (subst (λ o. of_key k l.started ++ of_key k (tasks_of o) ≡ of_key k l.accepted)
                      (sym (ap (get_elem? l.pool.workers) e) ∙ found) (ord.fifo k))
                ∙ sym (of_key-append k l.accepted da))
        | no far ↦
            let (no_da, no_ds) = elsewhere k far in
            ap₂ ◌++◌
              (of_key-append k l.started ds ∙ ap (◌++◌ (of_key k l.started)) no_ds ∙ append_nil _)
              (ap (λ o. of_key k (tasks_of o))
                (get-modify_ne (k % n) i f l.pool.workers (λ e. far (sym e))))
            ∙ ord.fifo k
            ∙ sym (
                of_key-append k l.accepted da
                ∙ ap (◌++◌ (of_key k l.accepted)) no_da
                ∙ append_nil _)
      ]

  -- A step at worker `i` that starts no job.
  pub added_lem :
      {n : ℕ} (l : Life A) (i next : ℕ) (w : WorkerThread (Job A))
      (f : WorkerThread (Job A) → WorkerThread (Job A)) (da : List (Job A))
      → get_elem? l.pool.workers i ≡ some w
      → IsOrdered n l
      → (IsOwn n i w → IsOwn n i (f w))
      → ((k : ℕ) → i ≢ k % n → of_key k da ≡ [])
      → ((k : ℕ) → of_key k (f w).tasks ≡ of_key k w.tasks ++ of_key k da)
      → IsOrdered n (record l {
        pool = record (change i f l.pool) { next_index = next };
        accepted = l.accepted ++ da;
      })
  added_lem {n} l i next w f da found ord keeps elsewhere here =
      let made =
        changed_lem l i next w f da [] found ord keeps (λ k far. (elsewhere k far, refl))
          λ k near. here k in
      record {
        size = made.size;
        own = made.own;
        fifo = λ k.
            ap (λ u. of_key k u ++ of_key k (tasks_at (k % n) (change i f l.pool)))
              (sym (append_nil l.started))
            ∙ made.fifo k;
      }
