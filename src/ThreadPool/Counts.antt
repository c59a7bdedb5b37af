-- ===== src/ThreadPool/Counts.antt =====
-- How many workers of a pool are asleep, busy and returned, and what its steps do to that.
use nova_kv.Prelude.{
  ℕ, suc, ◌+◌, ◌<◌, ◌≤◌, ◌≡◌, ◌≢◌, refl, sym, subst, ◌∙◌, ◌⊎◌, inl, inr, arith, Bool, true, false,
  List, [], ◌∷◌, ◌++◌, some, length, get_elem?, length-replicate, if◌then◌else◌, Bool-cases,
}
use nova_kv.ThreadPool.{
  Worker, asleep, awake, runs, returned, ThreadPool, new_pool, set_worker, notify_all, look_from,
  finish,
}
use nova_kv.ThreadPool.Steps.{
  one_if, count, is_returned, is_asleep, is_busy, count-set_worker, count-new_pool, count-all,
  returned-wake, asleep-wake, length-wake, length-set_worker, Signals, looked,
}

-- A pool of `n` threads that has so many asleep, busy and returned, with the calls of notify_one to
-- come.
pub record Counts {ℓ} {T : Type ℓ} (n : ℕ) (ws : List (Worker T)) (tasks : List T) (stop : Bool)
    (s : Signals) : Type ℓ where
  pub here : length ws ≡ n
  pub stopped : stop ≡ true → (s.all ≡ true) ⊎ (count is_asleep ws ≡ 0)
  pub working : stop ≡ false → tasks ≢ [] → 0 < s.one + count is_busy ws
  pub early : stop ≡ false → (count is_returned ws ≡ 0) × (s.all ≡ false)
  pub late : 0 < count is_returned ws → tasks ≡ []

-- The same of a pool.
abbrev pub IsAwake {ℓ} : {T : Type ℓ} → ℕ → ThreadPool T → Signals → Type ℓ
IsAwake n p s = Counts n p.workers p.tasks p.stop s

module _ {ℓ} {T : Type ℓ} where
  -- What a worker's step from `w` to `v` does to the counts.
  pub record Moved (i : ℕ) (v w : Worker T) (ws : List (Worker T)) : Type ℓ where
    pub asleep :
        count is_asleep (set_worker i v ws) + one_if (is_asleep w)
        ≡ count is_asleep ws + one_if (is_asleep v)
    pub busy :
        count is_busy (set_worker i v ws) + one_if (is_busy w)
        ≡ count is_busy ws + one_if (is_busy v)
    pub returned :
        count is_returned (set_worker i v ws) + one_if (is_returned w)
        ≡ count is_returned ws + one_if (is_returned v)
    pub length : length (set_worker i v ws) ≡ length ws

  pub moved :
      (i : ℕ) (v w : Worker T) (ws : List (Worker T)) → get_elem? ws i ≡ some w → Moved i v w ws
  moved i v w ws e = record {
    asleep = count-set_worker is_asleep i v w ws e;
    busy = count-set_worker is_busy i v w ws e;
    returned = count-set_worker is_returned i v w ws e;
    length = length-set_worker i v ws;
  }

  -- A worker that slept is awake, and at most one signal is gone.
  pub woken :
      (n i k : ℕ) (p : ThreadPool T) (s : Signals)
      → IsAwake n p s
      → s.one ≤ suc k
      → get_elem? p.workers i ≡ some asleep
      → IsAwake n (record p { workers = set_worker i awake p.workers }) (record s { one = k })
  unfolding is_asleep is_busy is_returned one_if
  woken n i k p s ok le e =
      let m = moved i awake asleep p.workers e in
      record {
        here = Moved.length m ∙ ok.here;
        stopped = λ on. elim (ok.stopped on) [
          | inl all ↦ inl all
          | inr nobody ↦ inr (omega (arith, nobody, Moved.asleep m))
        ];
        working = λ off some_task. omega (arith, Moved.busy m);
        early = λ off. (omega (arith, (ok.early off).0, Moved.returned m), (ok.early off).1);
        late = λ some_one. ok.late (omega (arith, some_one, Moved.returned m));
      }

  -- After a look at an empty queue.
  abbrev pub Stays : ℕ → ℕ → ThreadPool T → Signals → Bool → Type ℓ
  Stays n i p s b = Counts n (set_worker i (if b then returned else asleep) p.workers) [] b s

  pub slept :
      (n i : ℕ) (p : ThreadPool T) (s : Signals)
      → IsAwake n p s
      → get_elem? p.workers i ≡ some awake
      → p.tasks ≡ []
      → IsAwake n (looked p i []) s
  unfolding looked look_from is_asleep is_busy is_returned one_if
  slept n i p s ok e empty = elim (Bool-cases p.stop) [
    | inl on ↦
        let m = moved i returned awake p.workers e in
        let c : Counts n (set_worker i returned p.workers) [] true s = record {
          here = Moved.length m ∙ ok.here;
          stopped = λ _. elim (ok.stopped on) [
            | inl all ↦ inl all
            | inr nobody ↦ inr (omega (arith, nobody, Moved.asleep m))
          ];
          working = λ off some_task. absurd (some_task refl);
          early = λ off. absurd (cc off);
          late = λ some_one. refl;
        } in
        subst (Stays n i p s) (sym on) c
    | inr off ↦
        let m = moved i asleep awake p.workers e in
        let c : Counts n (set_worker i asleep p.workers) [] false s = record {
          here = Moved.length m ∙ ok.here;
          stopped = λ on. absurd (cc on);
          working = λ _ some_task. absurd (some_task refl);
          early = λ _. (omega (arith, (ok.early off).0, Moved.returned m), (ok.early off).1);
          late = λ some_one. refl;
        } in
        subst (Stays n i p s) (sym off) c
  ]

  pub took :
      (n i : ℕ) (p : ThreadPool T) (t : T) (ts : List T) (s : Signals)
      → IsAwake n p s
      → get_elem? p.workers i ≡ some awake
      → p.tasks ≡ t ∷ ts
      → IsAwake n (looked p i (t ∷ ts)) s
  unfolding looked look_from is_asleep is_busy is_returned one_if
  took n i p t ts s ok e first =
      let m = moved i (runs t) awake p.workers e in
      record {
        here = Moved.length m ∙ ok.here;
        stopped = λ on. elim (ok.stopped on) [
          | inl all ↦ inl all
          | inr nobody ↦ inr (omega (arith, nobody, Moved.asleep m))
        ];
        working = λ off some_task.
            let before = ok.working off (λ empty. cc (first, empty)) in
            omega (arith, Moved.busy m, before);
        early = λ off. (omega (arith, (ok.early off).0, Moved.returned m), (ok.early off).1);
        late = λ some_one.
            let empty = ok.late (omega (arith, some_one, Moved.returned m)) in
            absurd (cc (first, empty));
      }

  pub finished :
      (n i : ℕ) (p : ThreadPool T) (t : T) (s : Signals)
      → IsAwake n p s
      → get_elem? p.workers i ≡ some (runs t)
      → IsAwake n (finish i p) s
  unfolding finish is_asleep is_busy is_returned one_if
  finished n i p t s ok e =
      let m = moved i awake (runs t) p.workers e in
      record {
        here = Moved.length m ∙ ok.here;
        stopped = λ on. elim (ok.stopped on) [
          | inl all ↦ inl all
          | inr nobody ↦ inr (omega (arith, nobody, Moved.asleep m))
        ];
        working = λ off some_task.
            let before = ok.working off some_task in omega (arith, Moved.busy m, before);
        early = λ off. (omega (arith, (ok.early off).0, Moved.returned m), (ok.early off).1);
        late = λ some_one. ok.late (omega (arith, some_one, Moved.returned m));
      }

  pub all_woken :
      (n : ℕ) (p : ThreadPool T) (s : Signals)
      → IsAwake n p s
      → s.all ≡ true
      → IsAwake n (notify_all p) (record s { all = false })
  unfolding notify_all
  all_woken n p s ok all = record {
    here = length-wake p.workers ∙ ok.here;
    stopped = λ on. inr (asleep-wake p.workers);
    working = λ off some_task. absurd (cc ((ok.early off).1, all));
    early = λ off. absurd (cc ((ok.early off).1, all));
    late = λ some_one. ok.late (omega (arith, some_one, returned-wake p.workers));
  }

  pub accepted_one :
      (n : ℕ) (p : ThreadPool T) (t : T) (s : Signals)
      → IsAwake n p s
      → p.stop ≡ false
      → IsAwake n (record p { tasks = p.tasks ++ t ∷ [] }) (record s { one = suc s.one })
  accepted_one n p t s ok off = record {
    here = ok.here;
    stopped = ok.stopped;
    working = λ _ some_task. omega arith;
    early = ok.early;
    late = λ some_one. absurd (omega (arith, some_one, (ok.early off).0));
  }

  -- A notify_one that finds nobody asleep: whoever is not asleep is at work.
  pub nobody_woken :
      (n k : ℕ) (p : ThreadPool T) (s : Signals)
      → IsAwake (suc n) p s
      → count is_asleep p.workers ≡ 0
      → IsAwake (suc n) p (record s { one = k })
  nobody_woken n k p s ok nobody = record {
    here = ok.here;
    stopped = ok.stopped;
    working =
        λ off some_task. omega (arith, count-all p.workers, nobody, (ok.early off).0, ok.here);
    early = ok.early;
    late = ok.late;
  }

  pub stopped_now :
      (n : ℕ) (p : ThreadPool T) (s : Signals)
      → IsAwake n p s
      → IsAwake n (record p { stop = true }) (record s { all = true })
  stopped_now n p s ok = record {
    here = ok.here;
    stopped = λ on. inl refl;
    working = λ off. absurd (cc off);
    early = λ off. absurd (cc off);
    late = ok.late;
  }

  pub begun : (n : ℕ) → IsAwake n (new_pool {T = T} n) (record { one = 0; all = false })
  unfolding new_pool is_asleep is_returned
  begun n = record {
    here = length-replicate n awake;
    stopped = λ on. absurd (cc on);
    working = λ off some_task. absurd (some_task refl);
    early = λ off. (count-new_pool {T = T} is_returned n refl, refl);
    late = λ some_one. refl;
  }
