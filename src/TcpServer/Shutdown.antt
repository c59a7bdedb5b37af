-- ===== src/TcpServer/Shutdown.antt =====
-- The shutdown of the server, over all its histories.
use nova_kv.Prelude.{
  ℕ, ◌≡◌, refl, ◌↔◌, Bool, true, false, Bytes, List, [], ◌∷◌, Option, if◌then◌else◌, if_cases, inl,
  inr, some, none, ◌⊎◌, ◌≢◌,
}
use nova_kv.Server.{CompletedTask}
use nova_kv.TcpServer.{WorkerTask, TcpServer, started, close_connection, wake_event_loop}
use nova_kv.TcpServer.Writes.{finish_task}
use nova_kv.TcpServer.Stops.{
  stop_sockets, to_close, close_all, stop_running, stop, handle_events, PollResult, poll_ready,
  poll_interrupted, poll_failed, leaves, after_events, after_poll, run_turn,
}
use nova_kv.TcpServer.Served.{
  Reach, starts, accepts, reads, writes, completes, breaks, stops, wakes, looks, finishes,
}
use nova_kv.TcpServer.Ends.{
  IsNearly, IsStopping, open-IsStopping, same-IsStopping, maybe_finish_shutdown-IsStopping,
  close_connection-IsNearly, close_connection-IsStopping,
}
use nova_kv.TcpServer.Flags.{
  handle_accept-IsStopping, handle_read-IsStopping, handle_write-IsStopping,
  handle_worker_completions-IsStopping,
}

close_all-IsNearly : (fds : List ℕ) (s : TcpServer) → IsNearly s → IsNearly (close_all fds s)
unfolding close_all
close_all-IsNearly [] s near = near
close_all-IsNearly (fd ∷ fds) s near =
    close_all-IsNearly fds (close_connection fd s) (close_connection-IsNearly fd s near)

stop-IsStopping : (ok : ℕ → Bool) (s : TcpServer) → IsStopping s → IsStopping (stop ok s)
unfolding stop stop_running wake_event_loop
stop-IsStopping ok s good =
    if_cases IsStopping s.running (if s.stopping then wake_event_loop s else stop_running ok s) s
      (λ on.
        if_cases IsStopping s.stopping (wake_event_loop s) (stop_running ok s)
          (λ _. same-IsStopping s (wake_event_loop s) good refl refl refl refl)
          (λ _.
            let s1 = record s {
              stopping = true;
              listening = false;
              connections = stop_sockets ok 0 s.connections;
            } in
            let near : IsNearly s1 = record {
              closed = λ _. refl;
              ended = λ off. absurd (cc (on, off));
            } in
            let s2 = close_all (to_close ok 0 s.connections) s1 in
            let near2 = close_all-IsNearly (to_close ok 0 s.connections) s1 near in
            maybe_finish_shutdown-IsStopping (record s2 { woken = true })
              (record { closed = near2.closed; ended = near2.ended })))
      (λ _. good)

finish_task-IsStopping :
    (i : ℕ) (t : WorkerTask) (outcome : Option Bytes) (s : TcpServer)
    → IsStopping s
    → IsStopping (finish_task i t outcome s)
unfolding finish_task wake_event_loop
finish_task-IsStopping i t outcome s ok =
    same-IsStopping s (finish_task i t outcome s) ok refl refl refl refl

Reach-IsStopping : (s : TcpServer) (log : List (ℕ × CompletedTask)) → Reach s log → IsStopping s
Reach-IsStopping _ _ starts = open-IsStopping started refl refl
Reach-IsStopping _ log (accepts {s = s} rs r few) =
    handle_accept-IsStopping rs s (Reach-IsStopping s log r)
Reach-IsStopping s' log (reads {s = s} ok result fd _ r few e) =
    handle_read-IsStopping ok result fd s s' (Reach-IsStopping s log r) e
Reach-IsStopping _ log (writes {s = s} ok ws fd r) =
    handle_write-IsStopping ok ws fd s (Reach-IsStopping s log r)
Reach-IsStopping s' log (completes {s = s} rs ok _ r e) =
    handle_worker_completions-IsStopping rs ok s s' (Reach-IsStopping s log r) e
Reach-IsStopping _ log (breaks {s = s} fd r) =
    close_connection-IsStopping fd s (Reach-IsStopping s log r)
Reach-IsStopping _ log (stops {s = s} ok r) = stop-IsStopping ok s (Reach-IsStopping s log r)
Reach-IsStopping _ log (wakes {s = s} i r e) =
    same-IsStopping s _ (Reach-IsStopping s log r) refl refl refl refl
Reach-IsStopping _ log (looks {s = s} i r e) =
    same-IsStopping s _ (Reach-IsStopping s log r) refl refl refl refl
Reach-IsStopping _ _ (finishes {s = s} {log = log} i t outcome r e) =
    finish_task-IsStopping i t outcome s (Reach-IsStopping s log r)

after_events_goes_on : (o : Option TcpServer) (t : TcpServer) → after_events o ≢ some (leaves t)
unfolding after_events
after_events_goes_on none t e = cc
after_events_goes_on (some u) t e = cc

after_poll_leaves :
    (r : PollResult) (s t : TcpServer)
    → after_poll r s ≡ some (leaves t)
    → (t ≡ s) × (r ≡ poll_failed)
unfolding after_poll
after_poll_leaves (poll_ready es) s t e = absurd (after_events_goes_on (handle_events es s) t e)
after_poll_leaves poll_interrupted s t e = cc
after_poll_leaves poll_failed s t e =
    let e' : some (leaves s) ≡ some (leaves t) = e in (cc e', refl)

-- A turn that leaves the loop changes nothing, and epoll_wait failed or the server no longer runs.
leaves_when :
    (r : PollResult) (s t : TcpServer)
    → run_turn r s ≡ some (leaves t)
    → (t ≡ s) × (((r ≡ poll_failed) × (s.running ≡ true)) ⊎ (s.running ≡ false))
unfolding run_turn
leaves_when r s t =
    if_cases
      (λ o.
        o ≡ some (leaves t)
        → (t ≡ s) × (((r ≡ poll_failed) × (s.running ≡ true)) ⊎ (s.running ≡ false)))
      s.running (after_poll r s) (some (leaves s))
      (λ on e. let (same, failed) = after_poll_leaves r s t e in (same, inl (failed, on)))
      (λ off e. (cc e, inr off))

-- In every reachable state: a server that stops has closed its listening socket, and running_ is false
-- exactly when no connection is open; a server with running_ false was stopped. A turn of the loop of
-- Run leaves it only where epoll_wait failed while running_ was still true, or where the server was
-- stopped and no connection is open, and the turn changes nothing then.
pub stop_ends :
    (s : TcpServer) (log : List (ℕ × CompletedTask))
    → Reach s log
    → (s.stopping ≡ true → (s.listening ≡ false) × (s.running ≡ false ↔ s.connections ≡ []))
      × (s.running ≡ false → s.stopping ≡ true)
      × ((r : PollResult) (t : TcpServer)
          → run_turn r s ≡ some (leaves t)
          → (t ≡ s)
            × (((r ≡ poll_failed) × (s.running ≡ true))
                ⊎ ((s.stopping ≡ true) × (s.connections ≡ []))))
stop_ends s log r =
    let ok = Reach-IsStopping s log r in
    (
      λ on. (ok.nearly.closed on, (λ off. (ok.nearly.ended off).1, ok.ends on)),
      λ off. (ok.nearly.ended off).0,
      λ polled t e.
          let (same, why) = leaves_when polled s t e in
          (same, elim why [ inl failed ↦ inl failed | inr off ↦ inr (ok.nearly.ended off) ]),
    )
