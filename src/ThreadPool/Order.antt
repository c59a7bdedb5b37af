-- ===== src/ThreadPool/Order.antt =====
-- The order in which the tasks of a pool start, and which are left when the workers return.
use nova_kv.Prelude.{
  ℕ, ◌+◌, ◌<◌, ◌≡◌, refl, sym, ap, subst, ◌∙◌, inl, inr, arith, true, false, List, [], ◌∷◌, ◌++◌,
  append_assoc, append-nil, none, some, get_elem?, Bool-cases,
}
use nova_kv.ThreadPool.{
  Worker, asleep, awake, runs, ThreadPool, new_pool, set_worker, enqueue, wake_one, notify_all,
  look_from, finish,
}
use nova_kv.ThreadPool.Steps.{
  one_if, count, is_returned, count-set_worker, count-new_pool, returned-wake, Signals, Reach,
  starts, enqueues, notifies, notifies_nobody, wakes, sleeps, takes, finishes, stops, notifies_all,
  enqueue_cases, shutdown_cases, wake_one_lem, looked, looked_lem,
}

module _ {ℓ} {T : Type ℓ} where
  record IsOrdered (p : ThreadPool T) (accepted started : List T) : Type ℓ where
    pub order : accepted ≡ started ++ p.tasks
    pub ended : 0 < count is_returned p.workers → (p.stop ≡ true) × (p.tasks ≡ [])

  -- A worker moves to a place that is not its end.
  moved :
      (i : ℕ) (v w : Worker T) (ws : List (Worker T))
      → get_elem? ws i ≡ some w
      → is_returned w ≡ false
      → is_returned v ≡ false
      → count is_returned (set_worker i v ws) ≡ count is_returned ws
  unfolding one_if
  moved i v w ws e hw hv =
      let same = count-set_worker is_returned i v w ws e in
      let same' : count is_returned (set_worker i v ws) + 0 ≡ count is_returned ws + 0 =
        rw (hw, hv) at same in
      omega (arith, same')

  moved-IsOrdered :
      (p : ThreadPool T) (ws : List (Worker T)) (accepted started : List T)
      → IsOrdered p accepted started
      → count is_returned ws ≡ count is_returned p.workers
      → IsOrdered (record p { workers = ws }) accepted started
  moved-IsOrdered p ws accepted started ok same = record {
    order = ok.order;
    ended = λ some_one. ok.ended (omega (arith, some_one, same));
  }

  woken-IsOrdered :
      (i : ℕ) (p : ThreadPool T) (accepted started : List T)
      → IsOrdered p accepted started
      → get_elem? p.workers i ≡ some asleep
      → IsOrdered (wake_one i p) accepted started
  woken-IsOrdered i p accepted started ok e =
      subst (λ q. IsOrdered q accepted started) (sym (wake_one_lem i p e))
        (moved-IsOrdered p _ accepted started ok (
          moved i awake asleep p.workers e (unfold is_returned in refl)
            (unfold is_returned in refl)))

  sleeps-IsOrdered :
      (i : ℕ) (p : ThreadPool T) (accepted started : List T)
      → IsOrdered p accepted started
      → get_elem? p.workers i ≡ some awake
      → p.tasks ≡ []
      → IsOrdered (looked p i []) accepted started
  unfolding looked look_from
  sleeps-IsOrdered i p accepted started ok e empty = record {
    order = ok.order ∙ ap (λ ts. started ++ ts) empty;
    ended = λ some_one. elim (Bool-cases p.stop) [
      | inl on ↦ (on, refl)
      | inr off ↦
          let here : 0 < count is_returned (set_worker i asleep p.workers) = rw off at some_one in
          let same =
            moved i asleep awake p.workers e (unfold is_returned in refl)
              (unfold is_returned in refl) in
          let (on, rest) = ok.ended (omega (arith, here, same)) in (on, refl)
    ];
  }

  takes-IsOrdered :
      (i : ℕ) (p : ThreadPool T) (t : T) (ts accepted started : List T)
      → IsOrdered p accepted started
      → get_elem? p.workers i ≡ some awake
      → p.tasks ≡ t ∷ ts
      → IsOrdered (looked p i (t ∷ ts)) accepted (started ++ t ∷ [])
  unfolding looked look_from
  takes-IsOrdered i p t ts accepted started ok e first = record {
    order = ok.order ∙ ap (λ us. started ++ us) first ∙ sym (append_assoc started (t ∷ []) ts);
    ended = λ some_one.
        let same =
          moved i (runs t) awake p.workers e (unfold is_returned in refl)
            (unfold is_returned in refl) in
        let (on, rest) = ok.ended (omega (arith, some_one, same)) in
        let none_left : p.tasks ≡ [] = rest in absurd (cc (first, none_left));
  }

  finish-IsOrdered :
      (i : ℕ) (p : ThreadPool T) (t : T) (accepted started : List T)
      → IsOrdered p accepted started
      → get_elem? p.workers i ≡ some (runs t)
      → IsOrdered (finish i p) accepted started
  unfolding finish
  finish-IsOrdered i p t accepted started ok e =
      moved-IsOrdered p _ accepted started ok (
        moved i awake (runs t) p.workers e (unfold is_returned in refl)
          (unfold is_returned in refl))

  notify_all-IsOrdered :
      (p : ThreadPool T) (accepted started : List T)
      → IsOrdered p accepted started
      → IsOrdered (notify_all p) accepted started
  unfolding notify_all
  notify_all-IsOrdered p accepted started ok =
      moved-IsOrdered p _ accepted started ok (returned-wake p.workers)

  enqueues-IsOrdered :
      (p : ThreadPool T) (t : T) (accepted started : List T)
      → IsOrdered p accepted started
      → p.stop ≡ false
      → IsOrdered (record p { tasks = p.tasks ++ t ∷ [] }) (accepted ++ t ∷ []) started
  enqueues-IsOrdered p t accepted started ok off = record {
    order = ap (λ us. us ++ t ∷ []) ok.order ∙ append_assoc started p.tasks (t ∷ []);
    ended = λ some_one. let (on, rest) = ok.ended some_one in absurd (cc (on, off));
  }

  Reach-IsOrdered :
      (threads : ℕ) (p : ThreadPool T) (s : Signals) (accepted started : List T)
      → Reach threads p s accepted started
      → IsOrdered p accepted started
  Reach-IsOrdered n _ _ _ _ starts =
      unfold new_pool in
      record {
        order = refl;
        ended = λ some_one.
            let nobody = count-new_pool {T = T} is_returned n (unfold is_returned in refl) in
            absurd (omega (arith, some_one, nobody));
      }
  Reach-IsOrdered n p' _ _ started (enqueues {p = p} {accepted = accepted} t r e) =
      let (off, same) = enqueue_cases t p p' e in
      subst (λ q. IsOrdered q (accepted ++ t ∷ []) started) (sym same)
        (enqueues-IsOrdered p t accepted started (Reach-IsOrdered n p _ accepted started r) off)
  Reach-IsOrdered n _ _ accepted started (notifies {p = p} k i r one e) =
      woken-IsOrdered i p accepted started (Reach-IsOrdered n p _ accepted started r) e
  Reach-IsOrdered n p _ accepted started (notifies_nobody k r one nobody) =
      Reach-IsOrdered n p _ accepted started r
  Reach-IsOrdered n _ s accepted started (wakes {p = p} i r e) =
      woken-IsOrdered i p accepted started (Reach-IsOrdered n p s accepted started r) e
  Reach-IsOrdered n _ s accepted started (sleeps {p = p} i r e empty) =
      subst (λ q. IsOrdered q accepted started) (sym (looked_lem i p [] e empty))
        (sleeps-IsOrdered i p accepted started (Reach-IsOrdered n p s accepted started r) e empty)
  Reach-IsOrdered n _ s accepted _ (takes {p = p} {started = started} i t ts r e first) =
      subst (λ q. IsOrdered q accepted (started ++ t ∷ [])) (sym (looked_lem i p (t ∷ ts) e first))
        (takes-IsOrdered i p t ts accepted started (Reach-IsOrdered n p s accepted started r) e
          first)
  Reach-IsOrdered n _ s accepted started (finishes {p = p} i t r e) =
      finish-IsOrdered i p t accepted started (Reach-IsOrdered n p s accepted started r) e
  Reach-IsOrdered n p' _ accepted started (stops {p = p} r e) =
      let (off, same) = shutdown_cases p p' e in
      let ok = Reach-IsOrdered n p _ accepted started r in
      subst (λ q. IsOrdered q accepted started) (sym same)
        (record { order = ok.order; ended = λ some_one. (refl, (ok.ended some_one).1) })
  Reach-IsOrdered n _ _ accepted started (notifies_all {p = p} r all) =
      notify_all-IsOrdered p accepted started (Reach-IsOrdered n p _ accepted started r)

  -- Tasks start in the order in which enqueue accepted them, each once, and those that have not
  -- started wait in the queue. Once a worker has returned, the pool has stopped, enqueue throws,
  -- and every accepted task was started.
  pub tasks_in_order :
      (threads : ℕ) (p : ThreadPool T) (s : Signals) (accepted started : List T)
      → Reach threads p s accepted started
      → (accepted ≡ started ++ p.tasks)
        × (0 < count is_returned p.workers → (accepted ≡ started) × ((t : T) → enqueue t p ≡ none))
  unfolding enqueue
  tasks_in_order n p s accepted started r =
      let ok = Reach-IsOrdered n p s accepted started r in
      (
        ok.order,
        λ some_one.
            let (on, empty) = ok.ended some_one in
            (ok.order ∙ ap (λ ts. started ++ ts) empty ∙ append-nil started, λ t. rw on refl),
      )
