-- ===== src/TcpServer/Owed.antt =====
-- The answers that are still to come for a request: its task is in the pool's queue, a worker is in
-- it, or it is in the queue of completed tasks.
use nova_kv.Prelude.{
  ℕ, zero, suc, ◌+◌, ◌≡◌, ap, ◌∙◌, arith, Bool, true, false, ◌&&◌, List, [], ◌∷◌, ◌++◌, some,
  get_elem?, ◌==◌,
}
use nova_kv.ThreadPool.{
  Worker, asleep, awake, runs, returned, ThreadPool, set_worker, look_from, look, wake_one, finish,
  enqueue,
}
use nova_kv.ThreadPool.Steps.{one_if, wake_one_lem, look_lem, enqueue_cases}
use nova_kv.Server.{CompletedTask}
use nova_kv.TcpServer.{WorkerTask, TcpServer}

module _ (fd g j : ℕ) where
  unfoldable pub is_request : ℕ → ℕ → ℕ → Bool
  is_request a b c = (a == fd) && (b == g) && (c == j)

  unfoldable pub is_task : WorkerTask → ℕ
  is_task t = one_if (is_request t.fd t.generation t.seq)

  unfoldable pub is_completed : ℕ × CompletedTask → ℕ
  is_completed (a, t) = one_if (is_request a t.generation t.seq)

  unfoldable pub in_tasks : List WorkerTask → ℕ
  in_tasks [] = 0
  in_tasks (t ∷ ts) = is_task t + in_tasks ts

  unfoldable pub in_worker : Worker WorkerTask → ℕ
  in_worker asleep = 0
  in_worker awake = 0
  in_worker (runs t) = is_task t
  in_worker returned = 0

  unfoldable pub in_workers : List (Worker WorkerTask) → ℕ
  in_workers [] = 0
  in_workers (w ∷ ws) = in_worker w + in_workers ws

  unfoldable pub in_completed : List (ℕ × CompletedTask) → ℕ
  in_completed [] = 0
  in_completed (t ∷ ts) = is_completed t + in_completed ts

  unfoldable pub in_pool : ThreadPool WorkerTask → ℕ
  in_pool p = in_tasks p.tasks + in_workers p.workers

  pub in_tasks-append :
      (ts : List WorkerTask) (t : WorkerTask) → in_tasks (ts ++ t ∷ []) ≡ in_tasks ts + is_task t
  unfolding in_tasks
  in_tasks-append [] t = omega arith
  in_tasks-append (u ∷ ts) t = omega (arith, in_tasks-append ts t)

  pub in_completed-append :
      (ts : List (ℕ × CompletedTask)) (t : ℕ × CompletedTask)
      → in_completed (ts ++ t ∷ []) ≡ in_completed ts + is_completed t
  unfolding in_completed
  in_completed-append [] t = omega arith
  in_completed-append (u ∷ ts) t = omega (arith, in_completed-append ts t)

  pub in_workers-set_worker :
      (i : ℕ) (v w : Worker WorkerTask) (ws : List (Worker WorkerTask))
      → get_elem? ws i ≡ some w
      → in_workers (set_worker i v ws) + in_worker w ≡ in_workers ws + in_worker v
  unfolding in_workers set_worker
  in_workers-set_worker i v w [] e = cc
  in_workers-set_worker zero v w (x ∷ ws) e = grind arith
  in_workers-set_worker (suc i) v w (x ∷ ws) e = omega (arith, in_workers-set_worker i v w ws e)

  in_pool-from :
      (i : ℕ) (ws : List (Worker WorkerTask)) (ts : List WorkerTask) (b stop : Bool)
      → get_elem? ws i ≡ some awake
      → in_pool (record {
        workers = set_worker i (look_from ts b).0 ws;
        tasks = (look_from ts b).1;
        stop = stop;
      })
        ≡ in_pool (record { workers = ws; tasks = ts; stop = stop })
  unfolding look_from in_pool in_tasks in_worker
  in_pool-from i ws [] true stop e = omega (arith, in_workers-set_worker i returned awake ws e)
  in_pool-from i ws [] false stop e = omega (arith, in_workers-set_worker i asleep awake ws e)
  in_pool-from i ws (t ∷ ts) b stop e = omega (arith, in_workers-set_worker i (runs t) awake ws e)

  -- A step of a worker that looks at the queue moves a task at most.
  pub in_pool-look :
      (i : ℕ) (p : ThreadPool WorkerTask)
      → get_elem? p.workers i ≡ some awake
      → in_pool (look i p) ≡ in_pool p
  in_pool-look i p e =
      ap in_pool (look_lem i p e) ∙ in_pool-from i p.workers p.tasks p.stop p.stop e

  pub in_pool-wake_one :
      (i : ℕ) (p : ThreadPool WorkerTask)
      → get_elem? p.workers i ≡ some asleep
      → in_pool (wake_one i p) ≡ in_pool p
  in_pool-wake_one i p e =
      ap in_pool (wake_one_lem i p e)
      ∙ (unfold in_pool in_worker in
          omega (arith, in_workers-set_worker i awake asleep p.workers e))

  pub in_pool-finish :
      (i : ℕ) (t : WorkerTask) (p : ThreadPool WorkerTask)
      → get_elem? p.workers i ≡ some (runs t)
      → in_pool (finish i p) + is_task t ≡ in_pool p
  unfolding finish in_pool in_worker
  in_pool-finish i t p e = omega (arith, in_workers-set_worker i awake (runs t) p.workers e)

  pub in_pool-enqueue :
      (t : WorkerTask) (p p' : ThreadPool WorkerTask)
      → enqueue t p ≡ some p'
      → in_pool p' ≡ in_pool p + is_task t
  in_pool-enqueue t p p' e =
      ap in_pool (enqueue_cases t p p' e).1
      ∙ (unfold in_pool in omega (arith, in_tasks-append p.tasks t))

-- How many answers are to come for the request `j` of the connection `g` at `fd`.
unfoldable pub owed : TcpServer → ℕ → ℕ → ℕ → ℕ
owed s fd g j = in_pool fd g j s.thread_pool + in_completed fd g j s.completed_queue
