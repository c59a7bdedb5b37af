-- ===== src/ThreadPool.antt =====
-- include/network/ThreadPool.h: the queue of tasks, the workers and the condition that they wait for.
-- Each operation is what happens while the mutex is held, or between two such times.
pub mod Steps
pub mod Order
pub mod Counts
pub mod Awake
mod Runs
use nova_kv.Prelude.{
  ℕ, zero, suc, Bool, true, false, List, [], ◌∷◌, ◌++◌, map, Option, none, some, get_elem?,
  replicate, if◌then◌else◌,
}

-- Where a worker is in its loop: asleep in condition.wait, at the test of its predicate, in task(),
-- or returned.
pub data Worker {ℓ} (T : Type ℓ) : Type ℓ where
  asleep awake : Worker T
  runs : T → Worker T
  returned : Worker T

pub record ThreadPool {ℓ} (T : Type ℓ) : Type ℓ where
  pub workers : List (Worker T)
  pub tasks : List T
  pub stop : Bool

module _ {ℓ} {T : Type ℓ} where
  -- The constructor, with as many threads.
  unfoldable pub new_pool : ℕ → ThreadPool T
  new_pool threads = record { workers = replicate threads awake; tasks = []; stop = false }

  unfoldable pub set_worker : ℕ → Worker T → List (Worker T) → List (Worker T)
  set_worker i w [] = []
  set_worker zero w (x ∷ xs) = w ∷ xs
  set_worker (suc i) w (x ∷ xs) = x ∷ set_worker i w xs

  -- The critical section of enqueue. `none` is the exception.
  unfoldable pub enqueue : T → ThreadPool T → Option (ThreadPool T)
  enqueue t p = if p.stop then none else some (record p { tasks = p.tasks ++ t ∷ [] })

  -- The critical section of Shutdown. `none` is its early return.
  unfoldable pub shutdown : ThreadPool T → Option (ThreadPool T)
  shutdown p = if p.stop then none else some (record p { stop = true })

  unfoldable pub wake : Worker T → Worker T
  wake asleep = awake
  wake awake = awake
  wake (runs t) = runs t
  wake returned = returned

  -- A worker that waits is woken, by notify_one or for no reason.
  unfoldable pub wake_one : ℕ → ThreadPool T → ThreadPool T
  wake_one i p = elim (get_elem? p.workers i) [
    | none ↦ p
    | some w ↦ record p { workers = set_worker i (wake w) p.workers }
  ]

  unfoldable pub notify_all : ThreadPool T → ThreadPool T
  notify_all p = record p { workers = map wake p.workers }

  -- A worker has the lock: it returns, sleeps or takes the first task.
  unfoldable pub look_from : List T → Bool → Worker T × List T
  look_from [] stop = (if stop then returned else asleep, [])
  look_from (t ∷ ts) stop = (runs t, ts)

  unfoldable pub look_by : ℕ → Worker T → ThreadPool T → ThreadPool T
  look_by i awake p =
      let (w, ts) = look_from p.tasks p.stop in
      record p { workers = set_worker i w p.workers; tasks = ts }
  look_by i asleep p = p
  look_by i (runs t) p = p
  look_by i returned p = p

  unfoldable pub look : ℕ → ThreadPool T → ThreadPool T
  look i p = elim (get_elem? p.workers i) [ none ↦ p | some w ↦ look_by i w p ]

  -- task() is over.
  unfoldable pub finish : ℕ → ThreadPool T → ThreadPool T
  finish i p = record p { workers = set_worker i awake p.workers }

  -- The tasks that the workers are in.
  unfoldable pub running : List (Worker T) → List T
  running [] = []
  running (asleep ∷ ws) = running ws
  running (awake ∷ ws) = running ws
  running (runs t ∷ ws) = t ∷ running ws
  running (returned ∷ ws) = running ws
