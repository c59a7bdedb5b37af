-- ===== src/ThreadPool/Runs.antt =====
-- A pool with two threads, three tasks and a stop.
use nova_kv.Prelude.{ℕ, ◌<◌, ◌≡◌, ◌⊎◌, refl, Bool, true, false, List, [], ◌∷◌, ◌++◌, none}
use nova_kv.ThreadPool.{
  Worker, awake, runs, returned, ThreadPool, new_pool, set_worker, enqueue, shutdown, wake,
  wake_one, notify_all, look_from, look_by, look, finish,
}
use nova_kv.ThreadPool.Steps.{
  one_if, count, is_returned, is_asleep, is_busy, Signals, Reach, starts, enqueues, notifies,
  sleeps, takes, finishes, stops, notifies_all,
}
use nova_kv.ThreadPool.Order.{tasks_in_order}
use nova_kv.ThreadPool.Awake.{no_lost_wakeup}

abbrev pool : List (Worker ℕ) → List ℕ → Bool → ThreadPool ℕ
pool ws ts b = record { workers = ws; tasks = ts; stop = b }

abbrev signals : ℕ → Bool → Signals
signals k b = record { one = k; all = b }

abbrev task : List ℕ
task = 7 ∷ []

-- One worker sleeps, a task comes and wakes it, and it takes the task.
one_taken : Reach 2 (pool (runs 7 ∷ awake ∷ []) [] false) (signals 0 false) task task
unfolding new_pool look look_by look_from set_worker enqueue wake_one wake
one_taken =
    takes 0 7 [] (notifies 0 0 (enqueues 7 (sleeps 0 starts refl refl) refl) refl refl) refl refl

-- Stopped with nothing left to do: both workers return.
ended : Reach 2 (pool (returned ∷ returned ∷ []) [] true) (signals 0 false) task task
unfolding look look_by look_from set_worker finish shutdown notify_all wake
ended =
    sleeps 0 (sleeps 1 (notifies_all (stops (finishes 0 7 one_taken refl) refl) refl) refl refl)
      refl refl

tasks_in_order_example :
    (task ≡ task ++ [])
    × (0 < count is_returned (pool (returned ∷ returned ∷ []) [] true).workers
        → (task ≡ task) × ((t : ℕ) → enqueue t (pool (returned ∷ returned ∷ []) [] true) ≡ none))
tasks_in_order_example =
    tasks_in_order 2 (pool (returned ∷ returned ∷ []) [] true) (signals 0 false) task task ended

nobody_busy : count is_busy (pool (returned ∷ returned ∷ []) [] true).workers ≡ 0
unfolding count is_busy one_if
nobody_busy = refl

no_lost_wakeup_example :
    ((pool (returned ∷ returned ∷ []) [] true).tasks ≡ [])
    × (((true ≡ false) × (count is_asleep (pool (returned ∷ returned ∷ []) [] true).workers ≡ 2))
        ⊎ ((true ≡ true)
            × (count is_returned (pool (returned ∷ returned ∷ []) [] true).workers ≡ 2)))
no_lost_wakeup_example =
    no_lost_wakeup 1 (pool (returned ∷ returned ∷ []) [] true) (signals 0 false) task task ended
      refl refl nobody_busy
