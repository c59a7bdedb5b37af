-- ===== src/ThreadPool/Steps.antt =====
-- Every history of a pool: the calls of its users, its workers' steps and wakeups, in any order.
use nova_kv.Prelude.{
  ℕ, zero, suc, ◌+◌, ◌≡◌, refl, ap, ◌∙◌, arith, Bool, true, false, List, [], ◌∷◌, ◌++◌, map, some,
  length, get_elem?, replicate,
}
use nova_kv.ThreadPool.{
  Worker, asleep, awake, runs, returned, ThreadPool, new_pool, set_worker, enqueue, shutdown, wake,
  wake_one, notify_all, look_from, look_by, look, finish,
}

-- How many workers pass a test.
unfoldable pub one_if : Bool → ℕ
one_if true = 1
one_if false = 0

module _ {ℓ} {T : Type ℓ} where
  unfoldable pub count : (Worker T → Bool) → List (Worker T) → ℕ
  count f [] = 0
  count f (w ∷ ws) = one_if (f w) + count f ws

  unfoldable pub is_asleep : Worker T → Bool
  is_asleep asleep = true
  is_asleep awake = false
  is_asleep (runs t) = false
  is_asleep returned = false

  unfoldable pub is_busy : Worker T → Bool
  is_busy asleep = false
  is_busy awake = true
  is_busy (runs t) = true
  is_busy returned = false

  unfoldable pub is_returned : Worker T → Bool
  is_returned asleep = false
  is_returned awake = false
  is_returned (runs t) = false
  is_returned returned = true

  pub count-set_worker :
      (f : Worker T → Bool) (i : ℕ) (v w : Worker T) (ws : List (Worker T))
      → get_elem? ws i ≡ some w
      → count f (set_worker i v ws) + one_if (f w) ≡ count f ws + one_if (f v)
  unfolding count set_worker
  count-set_worker f i v w [] e = cc
  count-set_worker f zero v w (x ∷ ws) e = grind arith
  count-set_worker f (suc i) v w (x ∷ ws) e = omega (arith, count-set_worker f i v w ws e)

  pub count-new_pool :
      (f : Worker T → Bool) (n : ℕ) → f awake ≡ false → count f (replicate n awake) ≡ 0
  unfolding count one_if
  count-new_pool f zero e = refl
  count-new_pool f (suc n) e = rw e (omega (arith, count-new_pool f n e))

  pub returned-wake :
      (ws : List (Worker T)) → count is_returned (map wake ws) ≡ count is_returned ws
  unfolding count wake is_returned one_if
  returned-wake [] = refl
  returned-wake (asleep ∷ ws) = ap (λ n. 0 + n) (returned-wake ws)
  returned-wake (awake ∷ ws) = ap (λ n. 0 + n) (returned-wake ws)
  returned-wake (runs t ∷ ws) = ap (λ n. 0 + n) (returned-wake ws)
  returned-wake (returned ∷ ws) = ap (λ n. 1 + n) (returned-wake ws)

  pub asleep-wake : (ws : List (Worker T)) → count is_asleep (map wake ws) ≡ 0
  unfolding count wake is_asleep one_if
  asleep-wake [] = refl
  asleep-wake (asleep ∷ ws) = omega (arith, asleep-wake ws)
  asleep-wake (awake ∷ ws) = omega (arith, asleep-wake ws)
  asleep-wake (runs t ∷ ws) = omega (arith, asleep-wake ws)
  asleep-wake (returned ∷ ws) = omega (arith, asleep-wake ws)

  -- Each worker is in one of three ways.
  pub count-all :
      (ws : List (Worker T))
      → count is_asleep ws + count is_busy ws + count is_returned ws ≡ length ws
  unfolding count is_asleep is_busy is_returned one_if
  count-all [] = refl
  count-all (asleep ∷ ws) = omega (arith, count-all ws)
  count-all (awake ∷ ws) = omega (arith, count-all ws)
  count-all (runs t ∷ ws) = omega (arith, count-all ws)
  count-all (returned ∷ ws) = omega (arith, count-all ws)

  pub length-set_worker :
      (i : ℕ) (w : Worker T) (ws : List (Worker T)) → length (set_worker i w ws) ≡ length ws
  unfolding set_worker
  length-set_worker i w [] = refl
  length-set_worker zero w (x ∷ ws) = refl
  length-set_worker (suc i) w (x ∷ ws) = ap suc (length-set_worker i w ws)

  pub length-wake : (ws : List (Worker T)) → length (map wake ws) ≡ length ws
  length-wake [] = refl
  length-wake (w ∷ ws) = ap suc (length-wake ws)

-- The calls of notify_one and notify_all that are still to come: each follows its critical section
-- after the lock is given up.
pub record Signals : Type 0 where
  pub one : ℕ
  pub all : Bool

module _ {ℓ} {T : Type ℓ} where
  -- A pool of `threads` workers, with the tasks that enqueue accepted and those that were started,
  -- the first first.
  pub data Reach (threads : ℕ) : ThreadPool T → Signals → List T → List T → Type ℓ where
    starts : Reach threads (new_pool threads) (record { one = 0; all = false }) [] []
    enqueues :
        {p p' : ThreadPool T} {s : Signals} {accepted started : List T} (t : T)
        → Reach threads p s accepted started
        → enqueue t p ≡ some p'
        → Reach threads p' (record s { one = suc s.one }) (accepted ++ t ∷ []) started
    notifies :
        {p : ThreadPool T} {s : Signals} {accepted started : List T} (k i : ℕ)
        → Reach threads p s accepted started
        → s.one ≡ suc k
        → get_elem? p.workers i ≡ some asleep
        → Reach threads (wake_one i p) (record s { one = k }) accepted started
    notifies_nobody :
        {p : ThreadPool T} {s : Signals} {accepted started : List T} (k : ℕ)
        → Reach threads p s accepted started
        → s.one ≡ suc k
        → count is_asleep p.workers ≡ 0
        → Reach threads p (record s { one = k }) accepted started
    wakes :
        {p : ThreadPool T} {s : Signals} {accepted started : List T} (i : ℕ)
        → Reach threads p s accepted started
        → get_elem? p.workers i ≡ some asleep
        → Reach threads (wake_one i p) s accepted started
    sleeps :
        {p : ThreadPool T} {s : Signals} {accepted started : List T} (i : ℕ)
        → Reach threads p s accepted started
        → get_elem? p.workers i ≡ some awake
        → p.tasks ≡ []
        → Reach threads (look i p) s accepted started
    takes :
        {p : ThreadPool T} {s : Signals} {accepted started : List T} (i : ℕ) (t : T) (ts : List T)
        → Reach threads p s accepted started
        → get_elem? p.workers i ≡ some awake
        → p.tasks ≡ t ∷ ts
        → Reach threads (look i p) s accepted (started ++ t ∷ [])
    finishes :
        {p : ThreadPool T} {s : Signals} {accepted started : List T} (i : ℕ) (t : T)
        → Reach threads p s accepted started
        → get_elem? p.workers i ≡ some (runs t)
        → Reach threads (finish i p) s accepted started
    stops :
        {p p' : ThreadPool T} {s : Signals} {accepted started : List T}
        → Reach threads p s accepted started
        → shutdown p ≡ some p'
        → Reach threads p' (record s { all = true }) accepted started
    notifies_all :
        {p : ThreadPool T} {s : Signals} {accepted started : List T}
        → Reach threads p s accepted started
        → s.all ≡ true
        → Reach threads (notify_all p) (record s { all = false }) accepted started

  -- What one step does, as equations.
  pub enqueue_cases :
      (t : T) (p p' : ThreadPool T)
      → enqueue t p ≡ some p'
      → (p.stop ≡ false) × (p' ≡ record p { tasks = p.tasks ++ t ∷ [] })
  unfolding enqueue
  enqueue_cases t p p' e = ground arith

  pub shutdown_cases :
      (p p' : ThreadPool T)
      → shutdown p ≡ some p'
      → (p.stop ≡ false) × (p' ≡ record p { stop = true })
  unfolding shutdown
  shutdown_cases p p' e = ground arith

  pub wake_one_lem :
      (i : ℕ) (p : ThreadPool T)
      → get_elem? p.workers i ≡ some asleep
      → wake_one i p ≡ record p { workers = set_worker i awake p.workers }
  unfolding wake_one
  wake_one_lem i p e = rw (e, wake_one) (unfold wake in refl)

  pub look_lem :
      (i : ℕ) (p : ThreadPool T)
      → get_elem? p.workers i ≡ some awake
      → look i p ≡ record p {
        workers = set_worker i (look_from p.tasks p.stop).0 p.workers;
        tasks = (look_from p.tasks p.stop).1;
      }
  unfolding look look_by
  look_lem i p e = rw (e, look) refl

  -- `look` of a worker that is awake.
  unfoldable pub looked : ThreadPool T → ℕ → List T → ThreadPool T
  looked p i ts = record p {
    workers = set_worker i (look_from ts p.stop).0 p.workers;
    tasks = (look_from ts p.stop).1;
  }

  pub looked_lem :
      (i : ℕ) (p : ThreadPool T) (ts : List T)
      → get_elem? p.workers i ≡ some awake
      → p.tasks ≡ ts
      → look i p ≡ looked p i ts
  unfolding looked
  looked_lem i p ts e same = look_lem i p e ∙ ap (looked p i) same
