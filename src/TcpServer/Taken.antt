-- ===== src/TcpServer/Taken.antt =====
-- What one completed task does to the connections of the server.
use nova_kv.Prelude.{
  ℕ, ◌+◌, ◌≡◌, refl, sym, ap, subst, ◌∙◌, inl, inr, arith, Bool, true, false, not, ◌&&◌, List, ◌∷◌,
  some, ◌==◌, if◌then◌else◌, Bool-cases, Option-cases,
}
use nova_kv.ThreadPool.Steps.{one_if}
use nova_kv.Server.{Connection, CompletedTask, complete_task}
use nova_kv.TcpServer.Sockets.{find_socket}
use nova_kv.TcpServer.{
  Interest, Socket, TcpServer, put_socket, switch_events, close_connection, maybe_finish_shutdown,
  wake_event_loop, no_connections,
}
use nova_kv.TcpServer.Writes.{after_completion}
use nova_kv.TcpServer.Owed.{owed, is_request, is_completed, in_completed}
use nova_kv.TcpServer.Sound.{InLog, IsKept, IsSound, IsKept-out, put-IsSound}
use nova_kv.TcpServer.Changes.{put_socket-IsSound}
use nova_kv.TcpServer.Kept.{kept_completes, kept_switches}
use nova_kv.TcpServer.Alike.{Alike, complete_task-Alike}

-- The server with another queue of completed tasks, which the handlers that run for one of them
-- neither read nor change.
abbrev pub with_queue : List (ℕ × CompletedTask) → TcpServer → TcpServer
with_queue q s = record s { completed_queue = q }

pub maybe_finish_shutdown-with_queue :
    (q : List (ℕ × CompletedTask)) (s : TcpServer)
    → maybe_finish_shutdown (with_queue q s) ≡ with_queue q (maybe_finish_shutdown s)
unfolding maybe_finish_shutdown wake_event_loop
maybe_finish_shutdown-with_queue q s =
    by_test (s.stopping && not s.listening && no_connections s.connections)
  where
    by_test :
        (b : Bool)
        → (if b
            then record s { completed_queue = q; running = false; woken = true }
            else with_queue q s)
          ≡ with_queue q (if b then record s { running = false; woken = true } else s)
    by_test true = refl
    by_test false = refl

pub close_connection-with_queue :
    (q : List (ℕ × CompletedTask)) (fd : ℕ) (s : TcpServer)
    → close_connection fd (with_queue q s) ≡ with_queue q (close_connection fd s)
unfolding close_connection
close_connection-with_queue q fd s = elim (Option-cases (find_socket fd s.connections)) [
  | inl off ↦ rw (off, close_connection) refl
  | inr (sock, there) ↦ rw (there, close_connection) (maybe_finish_shutdown-with_queue q _)
]

pub after_completion-with_queue :
    (q : List (ℕ × CompletedTask)) (ok : Bool) (fd : ℕ) (sock : Socket) (r : Connection × Bool)
    (s : TcpServer)
    → after_completion ok fd sock r (with_queue q s)
      ≡ with_queue q (after_completion ok fd sock r s)
unfolding after_completion switch_events put_socket
after_completion-with_queue q ok fd sock (c, false) s = refl
after_completion-with_queue q true fd sock (c, true) s = refl
after_completion-with_queue q false fd sock (c, true) s = close_connection-with_queue q fd _

module _ (log : List (ℕ × CompletedTask)) (fd : ℕ) (task : CompletedTask)
    (tasks : List (ℕ × CompletedTask)) where
  -- The first task of the queue is for nobody.
  pub dropped-IsSound :
      (s : TcpServer)
      → IsSound (with_queue ((fd, task) ∷ tasks) s) log
      → ((sock : Socket)
          → find_socket fd s.connections ≡ some sock
          → (sock.connection.generation == task.generation) ≡ false)
      → IsSound (with_queue tasks s) log
  dropped-IsSound s ok nobody = record {
    kept = λ a x e.
        IsKept-out (owed (with_queue ((fd, task) ∷ tasks) s) a x.connection.generation)
          (owed (with_queue tasks s) a x.connection.generation) log a x (λ j. less a x j e)
          (ok.kept a x e);
    older = ok.older;
    unused = λ a g j le.
        let none_before = ok.unused a g j le in
        (unfold owed in_completed in omega (arith, none_before));
    done = ok.done.1;
    bound = ok.bound;
  }
    where
      less :
          (a : ℕ) (x : Socket) (j : ℕ)
          → find_socket a s.connections ≡ some x
          → owed (with_queue tasks s) a x.connection.generation j
            ≡ owed (with_queue ((fd, task) ∷ tasks) s) a x.connection.generation j
      less a x j e = elim (Bool-cases (fd == a)) [
        | inl same ↦
            let at : fd ≡ a = ground arith in
            let other = nobody x (ap (λ b. find_socket b s.connections) at ∙ e) in
            (unfold owed in_completed is_completed is_request one_if in ground (arith, other))
        | inr other ↦
            (unfold owed in_completed is_completed is_request one_if in ground (arith, other))
      ]

  -- It is for a connection, which takes it.
  pub taken-IsSound :
      (s : TcpServer) (sock : Socket) (c' : Connection) (b : Bool) (i : Interest)
      → IsSound (with_queue ((fd, task) ∷ tasks) s) log
      → find_socket fd s.connections ≡ some sock
      → sock.connection.generation ≡ task.generation
      → complete_task sock.connection task ≡ some (c', b)
      → IsSound
          (put_socket fd
            (record { connection = c'; interest = i; sent = sock.sent })
            (with_queue tasks s))
          log
  unfolding put_socket
  taken-IsSound s sock c' b i ok there same e =
      put-IsSound before after log fd sock sock' ok there alike.generation refl refl
        (λ a g j other. not_mine a g j other) ok.done.1
        (subst (λ g. IsKept (owed after fd g) log fd sock') (sym alike.generation)
          (kept_completes log fd (owed before fd sock.connection.generation)
            (owed after fd sock.connection.generation) sock i task.seq task.response c' b
            (ok.kept fd sock there)
            (subst
              (λ g.
                complete_task sock.connection
                  (record { generation = g; seq = task.seq; response = task.response })
                ≡ some (c', b))
              (sym same) e)
            (λ j. mine j)
            (subst
              (λ g.
                InLog (fd, record { generation = g; seq = task.seq; response = task.response }) log)
              (sym same) ok.done.0)))
    where
      before : TcpServer
      before = with_queue ((fd, task) ∷ tasks) s

      sock' : Socket
      sock' = record { connection = c'; interest = i; sent = sock.sent }

      after : TcpServer
      after = put_socket fd sock' (with_queue tasks s)

      alike : Alike sock.connection c'
      alike = complete_task-Alike sock.connection c' task b e

      not_mine :
          (a g j : ℕ)
          → ((a == fd) && (g == sock.connection.generation)) ≡ false
          → owed (put_socket fd sock' (with_queue tasks s)) a g j
            ≡ owed (with_queue ((fd, task) ∷ tasks) s) a g j
      not_mine a g j other =
          (unfold owed in_completed is_completed is_request one_if put_socket in
            ground (arith, other, same))

      mine :
          (j : ℕ)
          → owed (with_queue ((fd, task) ∷ tasks) s) fd sock.connection.generation j
            ≡ owed (put_socket fd sock' (with_queue tasks s)) fd sock.connection.generation j
              + one_if (task.seq == j)
      mine j =
          (unfold owed in_completed is_completed is_request one_if put_socket in
            ground (arith, same))

  -- It is for an older connection, and the one that is there keeps its answers.
  pub put_back-IsSound :
      (s : TcpServer) (sock : Socket) (c' : Connection) (b : Bool) (i : Interest)
      → IsSound (with_queue ((fd, task) ∷ tasks) s) log
      → find_socket fd s.connections ≡ some sock
      → (sock.connection.generation == task.generation) ≡ false
      → complete_task sock.connection task ≡ some (c', b)
      → IsSound
          (put_socket fd
            (record { connection = c'; interest = i; sent = sock.sent })
            (with_queue tasks s))
          log
  unfolding complete_task
  put_back-IsSound s sock c' b i ok there other e =
      let e' : some (sock.connection, false) ≡ some (c', b) = rw (other, complete_task) at e in
      let is : sock.connection ≡ c' = cc e' in
      let nobody : (x : Socket)
          → find_socket fd s.connections ≡ some x
          → (x.connection.generation == task.generation) ≡ false =
        λ x there'.
          let one : some sock ≡ some x = sym there ∙ there' in
          let same : sock ≡ x = cc one in
          subst (λ y. (y.connection.generation == task.generation) ≡ false) same other in
      let ok' = dropped-IsSound s ok nobody in
      subst
        (λ c.
          IsSound
            (put_socket fd (record { connection = c; interest = i; sent = sock.sent })
              (with_queue tasks s))
            log)
        is
        (put_socket-IsSound fd sock (record sock { interest = i }) (with_queue tasks s) log ok'
          there refl
          (kept_switches log fd (owed (with_queue tasks s) fd sock.connection.generation) sock i
            (ok'.kept fd sock there)))
