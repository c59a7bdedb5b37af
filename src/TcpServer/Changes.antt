-- ===== src/TcpServer/Changes.antt =====
-- Connections of the server are closed or changed.
use nova_kv.Prelude.{
  ℕ, ◌≡◌, refl, sym, subst, ◌∙◌, inl, inr, arith, Bool, true, false, ◌&&◌, List, none, some, ◌==◌,
  ==_refl, if◌then◌else◌, Option-cases, not, if_cases,
}
use nova_kv.Server.{CompletedTask}
use nova_kv.TcpServer.Sockets.{
  find_socket, set_socket, erase_socket, find_socket-set_socket, find_socket-erase_socket,
}
use nova_kv.TcpServer.{
  Interest, Socket, TcpServer, put_socket, switch_events, no_connections, maybe_finish_shutdown,
  wake_event_loop, close_connection,
}
use nova_kv.TcpServer.Owed.{owed}
use nova_kv.TcpServer.Sound.{IsKept, IsSound, same-IsSound, put-IsSound}

-- Connections are closed.
pub fewer-IsSound :
    (s : TcpServer) (conns : List (ℕ × Socket)) (log : List (ℕ × CompletedTask))
    → IsSound s log
    → ((a : ℕ) (x : Socket) → find_socket a conns ≡ some x → find_socket a s.connections ≡ some x)
    → IsSound (record s { connections = conns }) log
unfolding owed
fewer-IsSound s conns log ok was_there = record {
  kept = λ a x e. ok.kept a x (was_there a x e);
  older = λ a x e. ok.older a x (was_there a x e);
  unused = ok.unused;
  done = ok.done;
  bound = ok.bound;
}

pub erased_was_there :
    (fd a : ℕ) (x : Socket) (m : List (ℕ × Socket))
    → find_socket a (erase_socket fd m) ≡ some x
    → ((fd == a) ≡ false) × (find_socket a m ≡ some x)
erased_was_there fd a x m e =
    let e' : (if fd == a then none else find_socket a m) ≡ some x =
      sym (find_socket-erase_socket fd a m) ∙ e in
    ground arith

pub maybe_finish_shutdown-IsSound :
    (s : TcpServer) (log : List (ℕ × CompletedTask))
    → IsSound s log
    → IsSound (maybe_finish_shutdown s) log
unfolding maybe_finish_shutdown wake_event_loop owed
maybe_finish_shutdown-IsSound s log ok =
    if_cases (λ x. IsSound x log) (s.stopping && not s.listening && no_connections s.connections)
      (record s { running = false; woken = true }) s
      (λ _. same-IsSound s _ log ok refl refl (λ fd g j. refl) ok.done) (λ _. ok)

pub close_connection-IsSound :
    (fd : ℕ) (s : TcpServer) (log : List (ℕ × CompletedTask))
    → IsSound s log
    → IsSound (close_connection fd s) log
unfolding close_connection
close_connection-IsSound fd s log ok = elim (Option-cases (find_socket fd s.connections)) [
  | inl off ↦ rw (off, close_connection) ok
  | inr (sock, there) ↦
      rw (there, close_connection)
        (maybe_finish_shutdown-IsSound _ log (
          fewer-IsSound s (erase_socket fd s.connections) log ok
            (λ a x e. (erased_was_there fd a x s.connections e).1)))
]

-- A connection is changed and closed.
pub close_put-IsSound :
    (fd : ℕ) (y : Socket) (s : TcpServer) (log : List (ℕ × CompletedTask))
    → IsSound s log
    → IsSound (close_connection fd (put_socket fd y s)) log
unfolding close_connection put_socket
close_put-IsSound fd y s log ok =
    let m = set_socket fd y s.connections in
    let there : find_socket fd m ≡ some y =
      find_socket-set_socket fd fd y s.connections ∙ rw (==_refl fd) refl in
    rw (there, close_connection)
      (maybe_finish_shutdown-IsSound _ log (
        fewer-IsSound s (erase_socket fd m) log ok (λ a x e.
          let (other, e') = erased_was_there fd a x m e in
          rw other at (sym (find_socket-set_socket fd a y s.connections) ∙ e'))))

pub put_socket-IsSound :
    (fd : ℕ) (sock sock' : Socket) (s : TcpServer) (log : List (ℕ × CompletedTask))
    → IsSound s log
    → find_socket fd s.connections ≡ some sock
    → sock'.connection.generation ≡ sock.connection.generation
    → IsKept (owed s fd sock.connection.generation) log fd sock'
    → IsSound (put_socket fd sock' s) log
unfolding put_socket owed
put_socket-IsSound fd sock sock' s log ok there same kept =
    put-IsSound s _ log fd sock sock' ok there same refl refl (λ a b j other. refl) ok.done
      (subst (λ g. IsKept (owed s fd g) log fd sock') (sym same) kept)

-- The connection that is put back is kept whatever events are watched.
pub switch_events-IsSound :
    (done : Bool) (i : Interest) (fd : ℕ) (sock : Socket) (s : TcpServer)
    (log : List (ℕ × CompletedTask))
    → ((i' : Interest) → IsSound (put_socket fd (record sock { interest = i' }) s) log)
    → IsSound (switch_events done i fd sock s) log
unfolding switch_events
switch_events-IsSound true i fd sock s log ok = ok i
switch_events-IsSound false i fd sock s log ok =
    close_connection-IsSound fd (put_socket fd sock s) log (ok sock.interest)

pub find-put_socket :
    (fd : ℕ) (x : Socket) (s : TcpServer) → find_socket fd (put_socket fd x s).connections ≡ some x
unfolding put_socket
find-put_socket fd x s = find_socket-set_socket fd fd x s.connections ∙ rw (==_refl fd) refl
