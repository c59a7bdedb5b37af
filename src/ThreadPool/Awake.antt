-- ===== src/ThreadPool/Awake.antt =====
-- The wakeups of a pool, and the states in which it rests.
use nova_kv.Prelude.{
  ℕ, suc, ◌≡◌, ◌≢◌, refl, sym, subst, ◌⊎◌, inl, inr, arith, true, false, List, [], ◌∷◌, Bool-cases,
}
use nova_kv.ThreadPool.{ThreadPool}
use nova_kv.ThreadPool.Steps.{
  count, is_returned, is_asleep, is_busy, count-all, Signals, Reach, starts, enqueues, notifies,
  notifies_nobody, wakes, sleeps, takes, finishes, stops, notifies_all, enqueue_cases,
  shutdown_cases, wake_one_lem, looked_lem,
}
use nova_kv.ThreadPool.Counts.{
  IsAwake, woken, slept, took, finished, all_woken, accepted_one, nobody_woken, stopped_now, begun,
}

module _ {ℓ} {T : Type ℓ} where
  Reach-IsAwake :
      (n : ℕ) (p : ThreadPool T) (s : Signals) (accepted started : List T)
      → Reach (suc n) p s accepted started
      → IsAwake (suc n) p s
  Reach-IsAwake n _ _ _ _ starts = begun (suc n)
  Reach-IsAwake n p' _ _ started (enqueues {p = p} {s = s} {accepted = accepted} t r e) =
      let (off, same) = enqueue_cases t p p' e in
      subst (λ q. IsAwake (suc n) q (record s { one = suc s.one })) (sym same)
        (accepted_one (suc n) p t s (Reach-IsAwake n p s accepted started r) off)
  Reach-IsAwake n _ _ accepted started (notifies {p = p} {s = s} k i r one e) =
      subst (λ q. IsAwake (suc n) q (record s { one = k })) (sym (wake_one_lem i p e))
        (woken (suc n) i k p s (Reach-IsAwake n p s accepted started r) (omega (arith, one)) e)
  Reach-IsAwake n p _ accepted started (notifies_nobody {s = s} k r one nobody) =
      nobody_woken n k p s (Reach-IsAwake n p s accepted started r) nobody
  Reach-IsAwake n _ s accepted started (wakes {p = p} i r e) =
      subst (λ q. IsAwake (suc n) q s) (sym (wake_one_lem i p e))
        (woken (suc n) i s.one p s (Reach-IsAwake n p s accepted started r) (omega arith) e)
  Reach-IsAwake n _ s accepted started (sleeps {p = p} i r e empty) =
      subst (λ q. IsAwake (suc n) q s) (sym (looked_lem i p [] e empty))
        (slept (suc n) i p s (Reach-IsAwake n p s accepted started r) e empty)
  Reach-IsAwake n _ s accepted _ (takes {p = p} {started = started} i t ts r e first) =
      subst (λ q. IsAwake (suc n) q s) (sym (looked_lem i p (t ∷ ts) e first))
        (took (suc n) i p t ts s (Reach-IsAwake n p s accepted started r) e first)
  Reach-IsAwake n _ s accepted started (finishes {p = p} i t r e) =
      finished (suc n) i p t s (Reach-IsAwake n p s accepted started r) e
  Reach-IsAwake n p' _ accepted started (stops {p = p} {s = s} r e) =
      let (off, same) = shutdown_cases p p' e in
      subst (λ q. IsAwake (suc n) q (record s { all = true })) (sym same)
        (stopped_now (suc n) p s (Reach-IsAwake n p s accepted started r))
  Reach-IsAwake n _ _ accepted started (notifies_all {p = p} {s = s} r all) =
      all_woken (suc n) p s (Reach-IsAwake n p s accepted started r) all

  -- No wakeup is lost. In a pool with at least one thread, when no call of notify_one or notify_all
  -- is still to come and no worker is awake, the queue is empty, and either the pool has not stopped
  -- and each worker sleeps, or it has stopped and each worker has returned, so that the joins of
  -- Shutdown end.
  pub no_lost_wakeup :
      (n : ℕ) (p : ThreadPool T) (s : Signals) (accepted started : List T)
      → Reach (suc n) p s accepted started
      → s.one ≡ 0
      → s.all ≡ false
      → count is_busy p.workers ≡ 0
      → (p.tasks ≡ [])
        × (((p.stop ≡ false) × (count is_asleep p.workers ≡ suc n))
            ⊎ ((p.stop ≡ true) × (count is_returned p.workers ≡ suc n)))
  no_lost_wakeup n p s accepted started r one all quiet =
      let ok = Reach-IsAwake n p s accepted started r in
      elim (Bool-cases p.stop) [
        | inl on ↦ elim (ok.stopped on) [
          | inl again ↦ absurd (cc (again, all))
          | inr nobody ↦
              let gone : count is_returned p.workers ≡ suc n =
                omega (arith, count-all p.workers, nobody, ok.here, quiet) in
              (ok.late (omega (arith, gone)), inr (on, gone))
        ]
        | inr off ↦
            let rest : count is_asleep p.workers ≡ suc n =
              omega (arith, count-all p.workers, (ok.early off).0, ok.here, quiet) in
            (
              no_tasks p.tasks (λ some_task.
                  let more = ok.working off some_task in omega (arith, more, one, quiet)),
              inl (off, rest),
            )
      ]
    where
      no_tasks : (ts : List T) → ¬ (ts ≢ []) → ts ≡ []
      no_tasks [] h = refl
      no_tasks (t ∷ ts) h = absurd (h (λ e. cc e))
