-- ===== src/TcpServer/Completions.antt =====
-- What HandleWorkerCompletions does to the connections of the server.
use nova_kv.Prelude.{
  ℕ, suc, ◌≡◌, refl, sym, ap, subst, ◌∙◌, inl, inr, arith, Bool, true, false, List, [], ◌∷◌, some,
  ◌==◌, Bool-cases, Option-cases,
}
use nova_kv.Server.{Connection, CompletedTask, complete_task}
use nova_kv.TcpServer.Sockets.{find_socket}
use nova_kv.TcpServer.{Interest, Socket, TcpServer, put_socket, maybe_finish_shutdown}
use nova_kv.TcpServer.Writes.{
  after_completion, complete_one, complete_all, WakeRead, drain_wake, handle_worker_completions,
}
use nova_kv.TcpServer.Owed.{owed}
use nova_kv.TcpServer.Sound.{IsSound, same-IsSound}
use nova_kv.TcpServer.Changes.{maybe_finish_shutdown-IsSound, switch_events-IsSound}
use nova_kv.TcpServer.Taken.{
  with_queue, after_completion-with_queue, dropped-IsSound, taken-IsSound, put_back-IsSound,
}

after_completion-IsSound :
    (log : List (ℕ × CompletedTask)) (fd : ℕ) (ok b : Bool) (sock : Socket) (c' : Connection)
    (s : TcpServer)
    → ((i : Interest)
        → IsSound
            (put_socket fd (record { connection = c'; interest = i; sent = sock.sent }) s)
            log)
    → IsSound (after_completion ok fd sock (c', b) s) log
unfolding after_completion
after_completion-IsSound log fd ok true sock c' s sound =
    switch_events-IsSound ok _ fd (record sock { connection = c' }) s log sound
after_completion-IsSound log fd ok false sock c' s sound = sound sock.interest

pub complete_one-IsSound :
    (log : List (ℕ × CompletedTask)) (ok : Bool) (fd : ℕ) (task : CompletedTask)
    (tasks : List (ℕ × CompletedTask)) (s s1 : TcpServer)
    → IsSound (with_queue ((fd, task) ∷ tasks) s) log
    → complete_one ok fd task s ≡ some s1
    → IsSound (with_queue tasks s1) log
unfolding complete_one
complete_one-IsSound log ok fd task tasks s s1 sound e =
    elim (Option-cases (find_socket fd s.connections)) [
      | inl off ↦
          let e' : some s ≡ some s1 = rw (off, complete_one) at e in
          let is : s ≡ s1 = cc e' in
          subst (λ t. IsSound (with_queue tasks t) log) is
            (dropped-IsSound log fd task tasks s sound (λ sock there. absurd (cc (off, there))))
      | inr (sock, there) ↦ elim (Option-cases (complete_task sock.connection task)) [
        | inl off ↦ absurd (cc (rw off at (rw (there, complete_one) at e)))
        | inr ((c', b), done) ↦
            let e1 : some (after_completion ok fd sock (c', b) s) ≡ some s1 =
              rw done at (rw (there, complete_one) at e) in
            let is : after_completion ok fd sock (c', b) s ≡ s1 = cc e1 in
            subst (λ t. IsSound (with_queue tasks t) log) is
              (subst (λ t. IsSound t log) (after_completion-with_queue tasks ok fd sock (c', b) s)
                (after_completion-IsSound log fd ok b sock c' (with_queue tasks s) (λ i.
                  elim (Bool-cases (sock.connection.generation == task.generation)) [
                    | inl same ↦
                        taken-IsSound log fd task tasks s sock c' b i sound there (ground arith)
                          done
                    | inr other ↦
                        put_back-IsSound log fd task tasks s sock c' b i sound there other done
                  ])))
      ]
    ]

complete_all-IsSound :
    (log : List (ℕ × CompletedTask)) (ok : ℕ → Bool) (n : ℕ) (tasks : List (ℕ × CompletedTask))
    (s s1 : TcpServer)
    → IsSound (with_queue tasks s) log
    → complete_all ok n tasks s ≡ some s1
    → IsSound (with_queue [] s1) log
unfolding complete_all
complete_all-IsSound log ok n [] s s1 sound e =
    let is : s ≡ s1 = cc e in subst (λ t. IsSound (with_queue [] t) log) is sound
complete_all-IsSound log ok n ((fd, task) ∷ tasks) s s1 sound e =
    elim (Option-cases (complete_one (ok n) fd task s)) [
      | inl off ↦ absurd (cc (rw (off, complete_all) at e))
      | inr (t, done) ↦
          complete_all-IsSound log ok (suc n) tasks t s1
            (complete_one-IsSound log (ok n) fd task tasks s t sound done)
            (rw (done, complete_all) at e)
    ]

-- The queue is empty while its tasks are handled.
complete_one-queue :
    (ok : Bool) (fd : ℕ) (task : CompletedTask) (s s1 : TcpServer)
    → complete_one ok fd task s ≡ some s1
    → s1.completed_queue ≡ s.completed_queue
unfolding complete_one
complete_one-queue ok fd task s s1 e = elim (Option-cases (find_socket fd s.connections)) [
  | inl off ↦
      let e' : some s ≡ some s1 = rw (off, complete_one) at e in
      let is : s ≡ s1 = cc e' in ap (λ t. t.completed_queue) (sym is)
  | inr (sock, there) ↦ elim (Option-cases (complete_task sock.connection task)) [
    | inl off ↦ absurd (cc (rw off at (rw (there, complete_one) at e)))
    | inr (r, done) ↦
        let e1 : some (after_completion ok fd sock r s) ≡ some s1 =
          rw done at (rw (there, complete_one) at e) in
        let is : after_completion ok fd sock r s ≡ s1 = cc e1 in
        ap (λ t. t.completed_queue)
          (sym is ∙ after_completion-with_queue s.completed_queue ok fd sock r s)
  ]
]

complete_all-queue :
    (ok : ℕ → Bool) (n : ℕ) (tasks : List (ℕ × CompletedTask)) (s s1 : TcpServer)
    → complete_all ok n tasks s ≡ some s1
    → s1.completed_queue ≡ s.completed_queue
unfolding complete_all
complete_all-queue ok n [] s s1 e = let is : s ≡ s1 = cc e in ap (λ t. t.completed_queue) (sym is)
complete_all-queue ok n ((fd, task) ∷ tasks) s s1 e =
    elim (Option-cases (complete_one (ok n) fd task s)) [
      | inl off ↦ absurd (cc (rw (off, complete_all) at e))
      | inr (t, done) ↦
          complete_all-queue ok (suc n) tasks t s1 (rw (done, complete_all) at e)
          ∙ complete_one-queue (ok n) fd task s t done
    ]

pub handle_worker_completions-IsSound :
    (log : List (ℕ × CompletedTask)) (rs : List WakeRead) (ok : ℕ → Bool) (s s' : TcpServer)
    → IsSound s log
    → handle_worker_completions rs ok s ≡ some s'
    → IsSound s' log
unfolding handle_worker_completions
handle_worker_completions-IsSound log rs ok s s' sound e =
    let s0 = record s { completed_queue = []; woken = drain_wake rs s.woken } in
    elim (Option-cases (complete_all ok 0 s.completed_queue s0)) [
      | inl off ↦ absurd (cc (rw (off, handle_worker_completions) at e))
      | inr (s1, done) ↦
          let e' : some (maybe_finish_shutdown s1) ≡ some s' =
            rw (done, handle_worker_completions) at e in
          let is : maybe_finish_shutdown s1 ≡ s' = cc e' in
          let empty = complete_all-queue ok 0 s.completed_queue s0 s1 done in
          subst (λ t. IsSound t log) is
            (maybe_finish_shutdown-IsSound s1 log (
              subst (λ q. IsSound (with_queue q s1) log) (sym empty)
                (complete_all-IsSound log ok 0 s.completed_queue s0 s1
                  (same-IsSound s (with_queue s.completed_queue s0) log sound refl refl
                    (λ fd g j. unfold owed in refl) sound.done)
                  done)))
    ]
