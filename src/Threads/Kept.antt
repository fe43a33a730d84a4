-- ===== src/Threads/Kept.antt =====
-- The steps of a ThreadPool, one by one.
use native.Mathlib.Decide.{ℕ_discrete}
use ll2games_rpg_server.Common.{
  ℕ, ◌%◌, ◌≡◌, refl, sym, ap, subst, ◌∙◌, ◌≢◌, false, Option, none, some, List, [], ◌∷◌, ◌++◌,
  arith, ◌==◌, if◌then◌else◌, length, append_nil, get_elem?, modify-none, true, Bool-cases, inl,
  inr, replicate, get_elem?-none, if_cases, get-replicate, length-replicate,
}
use ll2games_rpg_server.Threads.{
  take_from, start_at, WorkerThread, ThreadPool, take_task, finish_task, executed, executes,
  make_pool, stop_at, submit, submit_by_key, push_task, start_worker, stop_worker, pool_threads,
  make_worker,
}
use ll2games_rpg_server.Threads.Life.{
  Job, has_key, of_key, of_key-append, tasks_of, accepted_at, Life, change, new_life, Reach, begins,
  starts, stops, submits, submits_key, takes, finishes, IsOwn, IsOrdered, changed_lem, added_lem,
}

other : (m n k j : ℕ) → k % m ≡ k % n → k % m ≢ j % n → (j == k) ≡ false
other m n k j same far = elim (ℕ_discrete j k) [
  | yes e ↦ absurd (far (same ∙ ap (λ (i : ℕ). i % n) (sym e)))
  | no ne ↦ ground arith
]

module _ {A : Type 0} where
  -- A step at worker `i` that leaves its jobs alone.
  quiet_lem :
      {n : ℕ} (l : Life A) (i : ℕ) (f : WorkerThread (Job A) → WorkerThread (Job A))
      → ((w : WorkerThread (Job A)) → (f w).tasks ≡ w.tasks)
      → ((w : WorkerThread (Job A)) → IsOwn n i w → IsOwn n i (f w))
      → IsOrdered n l
      → IsOrdered n (record l { pool = change i f l.pool })
  quiet_lem {n} l i f same keeps ord = by_worker (get_elem? l.pool.workers i) refl
    where
      by_worker :
          (o : Option (WorkerThread (Job A)))
          → get_elem? l.pool.workers i ≡ o
          → IsOrdered n (record l { pool = change i f l.pool })
      by_worker none e =
          subst (λ ws. IsOrdered n (record l { pool = record l.pool { workers = ws } }))
            (sym (modify-none i f l.pool.workers e)) ord
      by_worker (some w) e =
          let made =
            added_lem l i l.pool.next_index w f [] e ord (keeps w) (λ k far. refl)
              λ k. ap (of_key k) (same w) ∙ sym (append_nil _) in
          record {
            size = made.size;
            own = made.own;
            fifo = λ k. made.fifo k ∙ ap (of_key k) (append_nil l.accepted);
          }

  -- A call at worker `i` that pushes a job whose key, if it has one, belongs there.
  push_lem :
      {n : ℕ} (l : Life A) (i next : ℕ) (job : Job A)
      → ((k : ℕ) → i ≢ k % n → has_key k job.0 ≡ false)
      → IsOrdered n l
      → IsOrdered n (record l {
        pool = record (change i (push_task job) l.pool) { next_index = next };
        accepted = l.accepted ++ accepted_at (get_elem? l.pool.workers i) job;
      })
  unfolding push_task
  push_lem {n} l i next job belongs ord = by_worker (get_elem? l.pool.workers i) refl
    where
      after : ThreadPool (Job A)
      after = record (change i (push_task job) l.pool) { next_index = next }

      Goal : Option (WorkerThread (Job A)) → Type 0
      Goal o = IsOrdered n (record l { pool = after; accepted = l.accepted ++ accepted_at o job })

      by_worker : (o : Option (WorkerThread (Job A))) → get_elem? l.pool.workers i ≡ o → Goal o
      by_worker none e =
          subst
            (λ ws. IsOrdered n (record l {
              pool = record l.pool { workers = ws; next_index = next };
              accepted = l.accepted ++ [];
            }))
            (sym (modify-none i (push_task job) l.pool.workers e))
            (record {
              size = ord.size;
              own = ord.own;
              fifo = λ k. ord.fifo k ∙ ap (of_key k) (sym (append_nil l.accepted));
            })
      by_worker (some w) e = elim (Bool-cases w.running) [
        | inl on ↦
            subst
              (λ b.
                IsOrdered n (record l {
                  pool = after;
                  accepted = l.accepted ++ (if b then job ∷ [] else []);
                }))
              (sym on)
              (added_lem l i next w (push_task job) (job ∷ []) e ord (own_on on)
                (λ k far. rw (belongs k far) refl)
                λ k.
                  ap (of_key k) (ap WorkerThread.tasks (pushed on))
                  ∙ of_key-append k w.tasks (job ∷ []))
        | inr off ↦
            subst
              (λ b.
                IsOrdered n (record l {
                  pool = after;
                  accepted = l.accepted ++ (if b then job ∷ [] else []);
                }))
              (sym off)
              (added_lem l i next w (push_task job) [] e ord (subst (IsOwn n i) (sym (ignored off)))
                (λ k far. refl)
                λ k. ap (of_key k) (ap WorkerThread.tasks (ignored off)) ∙ sym (append_nil _))
      ]
        where
          pushed : w.running ≡ true → push_task job w ≡ record w { tasks = w.tasks ++ (job ∷ []) }
          pushed on = rw on refl

          ignored : w.running ≡ false → push_task job w ≡ w
          ignored off = rw off refl

          own_on : w.running ≡ true → IsOwn n i w → IsOwn n i (push_task job w)
          own_on on own = subst (IsOwn n i) (sym (pushed on)) λ k far. (
            of_key-append k w.tasks (job ∷ [])
                ∙ ap (λ u. u ++ of_key k (job ∷ [])) (own k far).0
                ∙ rw (belongs k far) refl,
            (own k far).1,
          )

  new_pool_lem : (n : ℕ) → IsOrdered (pool_threads n) (new_life {A = A} n)
  unfolding make_pool
  new_pool_lem n = record {
    size = length-replicate (pool_threads n) make_worker;
    own = λ i w h.
        subst (IsOwn (pool_threads n) i) (get-replicate (pool_threads n) i make_worker w h)
          λ k far. (refl, refl);
    fifo = λ k.
        by_worker k (get_elem? (replicate (pool_threads n) make_worker) (k % pool_threads n)) refl;
  }
    where
      by_worker :
          (k : ℕ) (o : Option (WorkerThread (Job A)))
          → get_elem? (replicate (pool_threads n) make_worker) (k % pool_threads n) ≡ o
          → of_key k (tasks_of o) ≡ []
      by_worker k none e = refl
      by_worker k (some w) e =
          subst (λ v. of_key k (WorkerThread.tasks v) ≡ [])
            (get-replicate (pool_threads n) _ make_worker w e) refl

  split_none :
      (k : ℕ) (t : Job A) (ts : List (Job A))
      → of_key k (t ∷ ts) ≡ []
      → (of_key k ts ≡ []) × (of_key k (t ∷ []) ≡ [])
  split_none k t ts h = ground arith

  take_lem :
      {n : ℕ} (l : Life A) (i : ℕ) (w : WorkerThread (Job A))
      → get_elem? l.pool.workers i ≡ some w
      → (take_task w).0 ≡ executes
      → IsOrdered n l
      → IsOrdered n (record l {
        pool = change i (λ v. (take_task v).1) l.pool;
        started = l.started ++ executed (take_task w).1;
      })
  unfolding take_task
  take_lem {n} l i w found some_task ord = by_tasks w.tasks refl
    where
      by_tasks :
          (ts : List (Job A))
          → w.tasks ≡ ts
          → IsOrdered n (record l {
            pool = change i (λ v. (take_task v).1) l.pool;
            started = l.started ++ executed (take_task w).1;
          })
      by_tasks [] e =
          let f = ap (λ (u : List (Job A)). (take_from u w).0) e in absurd (ground arith)
      by_tasks (t ∷ ts) e =
          let taken : (take_task w).1 ≡ record w { tasks = ts; task = some t } =
            ap (λ u. (take_from u w).1) e in
          let made =
            changed_lem l i l.pool.next_index w (λ v. (take_task v).1) [] (t ∷ []) found ord
              (λ own.
                subst (IsOwn n i) (sym taken)
                  λ k far. split_none k t ts (ap (of_key k) (sym e) ∙ (own k far).0))
              (λ k far.
                (refl, (split_none k t ts (ap (of_key k) (sym e) ∙ (ord.own i w found k far).0)).1))
              λ k near.
                ap (λ v. of_key k (t ∷ []) ++ of_key k (WorkerThread.tasks v)) taken
                ∙ sym (of_key-append k (t ∷ []) ts)
                ∙ ap (of_key k) (sym e)
                ∙ sym (append_nil _) in
          subst
            (λ v. IsOrdered n (record l {
              pool = change i (λ v. (take_task v).1) l.pool;
              started = l.started ++ executed v;
            }))
            (sym taken)
            (record {
              size = made.size;
              own = made.own;
              fifo = λ k. made.fifo k ∙ ap (of_key k) (append_nil l.accepted);
            })

  no_worker :
      {n : ℕ} (l : Life A) (i : ℕ) (job : Job A)
      → length l.pool.workers ≡ 0
      → IsOrdered n l
      → IsOrdered n
          (record l { accepted = l.accepted ++ accepted_at (get_elem? l.pool.workers i) job })
  no_worker {n} l i job empty ord =
      subst (λ o. IsOrdered n (record l { accepted = l.accepted ++ accepted_at o job }))
        (sym (get_elem?-none i l.pool.workers empty))
        (record {
          size = ord.size;
          own = ord.own;
          fifo = λ k. ord.fifo k ∙ ap (of_key k) (sym (append_nil l.accepted));
        })

  pub Reach-IsOrdered : {n : ℕ} {l : Life A} → Reach n l → IsOrdered (pool_threads n) l
  unfolding start_worker stop_worker finish_task start_at stop_at submit submit_by_key
  Reach-IsOrdered begins = new_pool_lem _
  Reach-IsOrdered (starts i r) =
      quiet_lem _ i start_worker (λ w. refl) (λ w own. own) (Reach-IsOrdered r)
  Reach-IsOrdered (stops i r) =
      quiet_lem _ i stop_worker (λ w. refl) (λ w own. own) (Reach-IsOrdered r)
  Reach-IsOrdered {n} (submits {l} a r) =
      if_cases
        (λ q. IsOrdered (pool_threads n) (record l {
          pool = q;
          accepted =
              l.accepted ++ accepted_at (get_elem? l.pool.workers l.pool.next_index) (none, a);
        }))
        (length l.pool.workers == 0) (λ e. no_worker l _ _ (ground arith) (Reach-IsOrdered r))
        λ e. push_lem l l.pool.next_index _ (none, a) (λ k far. refl) (Reach-IsOrdered r)
  Reach-IsOrdered {n} (submits_key {l} k a r) =
      if_cases
        (λ q. IsOrdered (pool_threads n) (record l {
          pool = q;
          accepted =
              l.accepted
              ++ accepted_at (get_elem? l.pool.workers (k % length l.pool.workers)) (some k, a);
        }))
        (length l.pool.workers == 0) (λ e. no_worker l _ _ (ground arith) (Reach-IsOrdered r))
        λ e.
          let ord = Reach-IsOrdered r in
          push_lem l (k % length l.pool.workers) _ (some k, a)
            (λ j far. other _ _ k j (ap (λ m. k % m) ord.size) far) ord
  Reach-IsOrdered (takes i w found idle t r) = take_lem _ i w found t (Reach-IsOrdered r)
  Reach-IsOrdered (finishes i r) =
      quiet_lem _ i finish_task (λ w. refl) (λ w own k far. ((own k far).0, refl))
        (Reach-IsOrdered r)
