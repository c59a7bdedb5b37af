-- ===== src/TcpServer/Served.antt =====
-- Every history of the server: its event loop, its workers and its shutdown, interleaved in any way.
use nova_kv.Prelude.{
  ℕ, ◌+◌, ◌<◌, ◌≡◌, refl, ap, inl, inr, arith, Bool, Bytes, List, [], ◌∷◌, ◌++◌, Option, none, some,
  All, All-append, length, get_elem?, ltb, u64_mod,
}
use nova_kv.NetworkBuffer.Queue.{Holds}
use nova_kv.ThreadPool.{asleep, awake, runs, look, wake_one, new_pool}
use nova_kv.ThreadPool.Steps.{one_if}
use nova_kv.Server.{CompletedTask}
use nova_kv.Server.Pending.{Responses, find_response}
use nova_kv.Server.Order.{replies}
use nova_kv.Server.Served.{answers_in_order}
use nova_kv.TcpServer.Sockets.{find_socket}
use nova_kv.TcpServer.{
  WorkerTask, Socket, TcpServer, started, close_connection, AcceptResult, handle_accept, ReadResult,
  handle_read, wake_event_loop,
}
use nova_kv.TcpServer.Writes.{
  WriteResult, handle_write, WakeRead, handle_worker_completions, completed_by, finish_task,
}
use nova_kv.TcpServer.Stops.{stop}
use nova_kv.TcpServer.Owed.{
  owed, in_pool, in_pool-look, in_pool-wake_one, in_pool-finish, is_task, is_completed,
  in_completed, in_completed-append, in_tasks, in_workers, in_worker,
}
use nova_kv.TcpServer.Sound.{answered, InLog, IsFrom, IsSound, same-IsSound}
use nova_kv.TcpServer.Changes.{close_connection-IsSound}
use nova_kv.TcpServer.Accepts.{handle_accept-IsSound}
use nova_kv.TcpServer.Sends.{handle_write-IsSound}
use nova_kv.TcpServer.Reads.{FewRequests, handle_read-IsSound}
use nova_kv.TcpServer.Completions.{handle_worker_completions-IsSound}
use nova_kv.TcpServer.Stopped.{stop-IsSound}

-- The states of a server after its start, with the tasks that the workers completed, the newest
-- first, up to where Run leaves its loop: one step for each handler that a turn of the loop calls, for
-- Stop, and for what a worker does. An epoll_wait that fails takes no step; Run leaves the loop then.
-- The numbers of connections and of requests stay below 2^64.
pub data Reach : TcpServer → List (ℕ × CompletedTask) → Type 0 where
  starts : Reach started []
  accepts :
      {s : TcpServer} {log : List (ℕ × CompletedTask)} (rs : List AcceptResult)
      → Reach s log
      → s.next_generation + length rs < u64_mod
      → Reach (handle_accept rs s) log
  reads :
      {s : TcpServer} {log : List (ℕ × CompletedTask)} (ok : Bool) (result : ReadResult) (fd : ℕ)
      (s' : TcpServer)
      → Reach s log
      → FewRequests result fd s
      → handle_read ok result fd s ≡ some s'
      → Reach s' log
  writes :
      {s : TcpServer} {log : List (ℕ × CompletedTask)} (ok : Bool) (ws : List WriteResult) (fd : ℕ)
      → Reach s log
      → Reach (handle_write ok ws fd s) log
  completes :
      {s : TcpServer} {log : List (ℕ × CompletedTask)} (rs : List WakeRead) (ok : ℕ → Bool)
      (s' : TcpServer)
      → Reach s log
      → handle_worker_completions rs ok s ≡ some s'
      → Reach s' log
  breaks :
      {s : TcpServer} {log : List (ℕ × CompletedTask)} (fd : ℕ)
      → Reach s log
      → Reach (close_connection fd s) log
  stops :
      {s : TcpServer} {log : List (ℕ × CompletedTask)} (ok : ℕ → Bool)
      → Reach s log
      → Reach (stop ok s) log
  wakes :
      {s : TcpServer} {log : List (ℕ × CompletedTask)} (i : ℕ)
      → Reach s log
      → get_elem? s.thread_pool.workers i ≡ some asleep
      → Reach (record s { thread_pool = wake_one i s.thread_pool }) log
  looks :
      {s : TcpServer} {log : List (ℕ × CompletedTask)} (i : ℕ)
      → Reach s log
      → get_elem? s.thread_pool.workers i ≡ some awake
      → Reach (record s { thread_pool = look i s.thread_pool }) log
  finishes :
      {s : TcpServer} {log : List (ℕ × CompletedTask)} (i : ℕ) (t : WorkerTask)
      (outcome : Option Bytes)
      → Reach s log
      → get_elem? s.thread_pool.workers i ≡ some (runs t)
      → Reach (finish_task i t outcome s) (completed_by t outcome ∷ log)

-- A longer log.
more_log :
    (x : ℕ × CompletedTask) (log tasks : List (ℕ × CompletedTask))
    → All (λ y. InLog y log) tasks
    → All (λ y. InLog y (x ∷ log)) tasks
more_log x log [] h = tt
more_log x log (t ∷ ts) h = (inr h.0, more_log x log ts h.1)

logged_before :
    (log : List (ℕ × CompletedTask)) (x : ℕ × CompletedTask) (fd g j : ℕ) (r : Bytes)
    → IsFrom log fd g j r
    → IsFrom (x ∷ log) fd g j r
logged_before log x fd g j r (inl there) = inl (inr there)
logged_before log x fd g j r (inr failed) = inr failed

finish_task-IsSound :
    (s : TcpServer) (log : List (ℕ × CompletedTask)) (i : ℕ) (t : WorkerTask)
    (outcome : Option Bytes)
    → IsSound s log
    → get_elem? s.thread_pool.workers i ≡ some (runs t)
    → IsSound (finish_task i t outcome s) (completed_by t outcome ∷ log)
finish_task-IsSound s log i t outcome ok e =
    let x = completed_by t outcome in
    let longer : IsSound s (x ∷ log) = record {
      kept = λ fd sock there.
          let k = ok.kept fd sock there in
          record {
            h = k.h;
            served = k.served;
            counted = k.counted;
            origin = λ j r found.
                logged_before log x fd sock.connection.generation j r (k.origin j r found);
            parses = k.parses;
          };
      older = ok.older;
      unused = ok.unused;
      done = more_log x log s.completed_queue ok.done;
      bound = ok.bound;
    } in
    same-IsSound s (finish_task i t outcome s) (x ∷ log) longer
      (unfold finish_task wake_event_loop in refl) (unfold finish_task wake_event_loop in refl)
      (λ fd g j. moved fd g j)
      (unfold finish_task wake_event_loop in
        All-append (λ y. InLog y (x ∷ log)) s.completed_queue (x ∷ [])
          (more_log x log s.completed_queue ok.done) (inl refl, tt))
  where
    moved : (fd g j : ℕ) → owed (finish_task i t outcome s) fd g j ≡ owed s fd g j
    moved fd g j =
        let gone = in_pool-finish fd g j i t s.thread_pool e in
        let come = in_completed-append fd g j s.completed_queue (completed_by t outcome) in
        let same : is_completed fd g j (completed_by t outcome) ≡ is_task fd g j t =
          (unfold is_completed completed_by is_task in refl) in
        (unfold owed finish_task wake_event_loop in omega (arith, gone, come, same))

woken-IsSound :
    (s : TcpServer) (log : List (ℕ × CompletedTask)) (i : ℕ)
    → IsSound s log
    → get_elem? s.thread_pool.workers i ≡ some asleep
    → IsSound (record s { thread_pool = wake_one i s.thread_pool }) log
unfolding owed
woken-IsSound s log i ok e =
    same-IsSound s (record s { thread_pool = wake_one i s.thread_pool }) log ok refl refl
      (λ fd g j.
        ap (λ n. n + in_completed fd g j s.completed_queue)
          (in_pool-wake_one fd g j i s.thread_pool e))
      ok.done

looked-IsSound :
    (s : TcpServer) (log : List (ℕ × CompletedTask)) (i : ℕ)
    → IsSound s log
    → get_elem? s.thread_pool.workers i ≡ some awake
    → IsSound (record s { thread_pool = look i s.thread_pool }) log
unfolding owed
looked-IsSound s log i ok e =
    same-IsSound s (record s { thread_pool = look i s.thread_pool }) log ok refl refl
      (λ fd g j.
        ap (λ n. n + in_completed fd g j s.completed_queue) (in_pool-look fd g j i s.thread_pool e))
      ok.done

started-IsSound : IsSound started []
unfolding find_socket owed in_pool in_completed in_tasks new_pool in_workers in_worker
started-IsSound = record {
  kept = λ fd sock e. absurd (cc e);
  older = λ fd sock e. absurd (cc e);
  unused = λ fd g j le. omega arith;
  done = tt;
  bound = omega arith;
}

pub Reach-IsSound : (s : TcpServer) (log : List (ℕ × CompletedTask)) → Reach s log → IsSound s log
Reach-IsSound _ _ starts = started-IsSound
Reach-IsSound _ log (accepts {s = s} rs r few) =
    handle_accept-IsSound rs s log (Reach-IsSound s log r) few
Reach-IsSound s' log (reads {s = s} ok result fd _ r few e) =
    handle_read-IsSound log fd ok result s s' (Reach-IsSound s log r) few e
Reach-IsSound _ log (writes {s = s} ok ws fd r) =
    handle_write-IsSound ok ws fd s log (Reach-IsSound s log r)
Reach-IsSound s' log (completes {s = s} rs ok _ r e) =
    handle_worker_completions-IsSound log rs ok s s' (Reach-IsSound s log r) e
Reach-IsSound _ log (breaks {s = s} fd r) =
    close_connection-IsSound fd s log (Reach-IsSound s log r)
Reach-IsSound _ log (stops {s = s} ok r) = stop-IsSound log ok s (Reach-IsSound s log r)
Reach-IsSound _ log (wakes {s = s} i r e) = woken-IsSound s log i (Reach-IsSound s log r) e
Reach-IsSound _ log (looks {s = s} i r e) = looked-IsSound s log i (Reach-IsSound s log r) e
Reach-IsSound _ _ (finishes {s = s} {log = log} i t outcome r e) =
    finish_task-IsSound s log i t outcome (Reach-IsSound s log r) e

-- Whatever the order of accepts, reads, writes, worker steps, completions and a stop, on every open
-- connection: what was written to the client, and then what waits in the output buffer, are the
-- answers to the first requests in the order of the requests, and the answer to the request after
-- them is not there yet. Each answer is what a worker completed
-- for that descriptor, generation and number, or the one to a protocol error, so none goes to a
-- later connection with the same descriptor. Each request before next_request_seq either is answered
-- or has exactly one task in the pool's queue, in a worker or in the queue of completed tasks, and
-- no other number has one. The numbers of connections and of requests stay below 2^64.
pub connections_served :
    (s : TcpServer) (log : List (ℕ × CompletedTask)) (fd : ℕ) (sock : Socket)
    → Reach s log
    → find_socket fd s.connections ≡ some sock
    → (h : Responses) × ((queue : Bytes) × Holds sock.connection.output_buffer queue
        × (sock.sent ++ queue ≡ replies sock.connection.next_write_seq h))
      × ((j : ℕ) (r : Bytes)
          → find_response j h ≡ some r
          → IsFrom log fd sock.connection.generation j r)
      × (find_response sock.connection.next_write_seq h ≡ none)
      × ((j : ℕ)
          → owed s fd sock.connection.generation j + answered j h
            ≡ one_if (ltb j sock.connection.next_request_seq))
connections_served s log fd sock r there =
    let k = IsSound.kept (Reach-IsSound s log r) fd sock there in
    let all = answers_in_order sock.connection.generation k.h sock.sent sock.connection k.served in
    (k.h, all.0, k.origin, all.2, k.counted)
