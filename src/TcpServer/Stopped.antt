-- ===== src/TcpServer/Stopped.antt =====
-- What Stop does to the connections of the server.
use nova_kv.Prelude.{
  ℕ, suc, ◌≡◌, refl, sym, ap, subst, inl, inr, arith, Bool, true, false, List, [], ◌∷◌, some, ◌==◌,
  if◌then◌else◌, Bool-cases, if_cases,
}
use nova_kv.Server.{CompletedTask, is_connection_drained}
use nova_kv.TcpServer.Sockets.{find_socket}
use nova_kv.TcpServer.{Interest, Socket, TcpServer, wake_event_loop, close_connection}
use nova_kv.TcpServer.Stops.{
  stop_connection, stop_socket, stop_sockets, to_close, close_all, stop_running, stop,
}
use nova_kv.TcpServer.Owed.{owed}
use nova_kv.TcpServer.Sound.{IsKept, IsSound, same-IsSound}
use nova_kv.TcpServer.Changes.{close_connection-IsSound, maybe_finish_shutdown-IsSound}
use nova_kv.TcpServer.Kept.{kept_stops, kept_switches}

find_socket-stop_sockets :
    (ok : ℕ → Bool) (n a : ℕ) (m : List (ℕ × Socket)) (x : Socket)
    → find_socket a (stop_sockets ok n m) ≡ some x
    → (b : Bool) × (y : Socket) × (find_socket a m ≡ some y) × ((stop_socket b y).0 ≡ x)
unfolding find_socket stop_sockets
find_socket-stop_sockets ok n a [] x e = absurd (cc e)
find_socket-stop_sockets ok n a ((i, y) ∷ m) x e = elim (Bool-cases (i == a)) [
  | inl same ↦
      let e' : some (stop_socket (ok n) y).0 ≡ some x = rw same at e in
      (ok n, y, rw same refl, cc e')
  | inr other ↦
      let (b, z, there, is) = find_socket-stop_sockets ok (suc n) a m x (rw other at e) in
      (b, z, rw other there, is)
]

stop_socket-IsKept :
    (log : List (ℕ × CompletedTask)) (fd : ℕ) (out : ℕ → ℕ) (b : Bool) (sock : Socket)
    → IsKept out log fd sock
    → IsKept out log fd (stop_socket b sock).0
      × ((stop_socket b sock).0.connection.generation ≡ sock.connection.generation)
unfolding stop_socket
stop_socket-IsKept log fd out b sock ok =
    let stopped = kept_stops log fd out sock ok in
    let off : Interest = record { input = false; output = true } in
    if_cases Good (is_connection_drained (stop_connection sock.connection)) (at sock.interest, true)
      (if b then (at off, false) else (at sock.interest, true))
      (λ _. (stopped, (unfold stop_connection in refl)))
      (λ _.
        if_cases Good b (at off, false) (at sock.interest, true)
          (λ _. (
            kept_switches log fd out (at sock.interest) off stopped,
            (unfold stop_connection in refl),
          ))
          (λ _. (stopped, (unfold stop_connection in refl))))
  where
    at : Interest → Socket
    at i = record { connection = stop_connection sock.connection; interest = i; sent = sock.sent }

    Good : Socket × Bool → Type 0
    Good r = IsKept out log fd r.0 × (r.0.connection.generation ≡ sock.connection.generation)

stop_sockets-IsSound :
    (log : List (ℕ × CompletedTask)) (ok : ℕ → Bool) (s : TcpServer)
    → IsSound s log
    → IsSound
        (record s {
          stopping = true;
          listening = false;
          connections = stop_sockets ok 0 s.connections;
        })
        log
unfolding owed
stop_sockets-IsSound log ok s sound = record {
  kept = λ a x e.
      let (b, y, there, is) = find_socket-stop_sockets ok 0 a s.connections x e in
      let (kept, same) =
        stop_socket-IsKept log a (owed s a y.connection.generation) b y (sound.kept a y there) in
      subst (λ z. IsKept (owed s a z.connection.generation) log a z) is
        (subst (λ g. IsKept (owed s a g) log a (stop_socket b y).0) (sym same) kept);
  older = λ a x e.
      let (b, y, there, is) = find_socket-stop_sockets ok 0 a s.connections x e in
      let (kept, same) =
        stop_socket-IsKept log a (owed s a y.connection.generation) b y (sound.kept a y there) in
      let g : (stop_socket b y).0.connection.generation ≡ x.connection.generation =
        ap (λ z. z.connection.generation) is in
      let before = sound.older a y there in omega (arith, before, same, g);
  unused = sound.unused;
  done = sound.done;
  bound = sound.bound;
}

close_all-IsSound :
    (log : List (ℕ × CompletedTask)) (fds : List ℕ) (s : TcpServer)
    → IsSound s log
    → IsSound (close_all fds s) log
unfolding close_all
close_all-IsSound log [] s sound = sound
close_all-IsSound log (fd ∷ fds) s sound =
    close_all-IsSound log fds (close_connection fd s) (close_connection-IsSound fd s log sound)

pub wake_event_loop-IsSound :
    (log : List (ℕ × CompletedTask)) (s : TcpServer)
    → IsSound s log
    → IsSound (wake_event_loop s) log
unfolding wake_event_loop owed
wake_event_loop-IsSound log s sound =
    same-IsSound s _ log sound refl refl (λ fd g j. refl) sound.done

pub stop-IsSound :
    (log : List (ℕ × CompletedTask)) (ok : ℕ → Bool) (s : TcpServer)
    → IsSound s log
    → IsSound (stop ok s) log
unfolding stop stop_running
stop-IsSound log ok s sound =
    if_cases (λ x. IsSound x log) s.running
      (if s.stopping then wake_event_loop s else stop_running ok s) s
      (λ _.
        if_cases (λ x. IsSound x log) s.stopping (wake_event_loop s) (stop_running ok s)
          (λ _. wake_event_loop-IsSound log s sound)
          (λ _. maybe_finish_shutdown-IsSound _ log (
            wake_event_loop-IsSound log _ (
              close_all-IsSound log (to_close ok 0 s.connections) _
                (stop_sockets-IsSound log ok s sound)))))
      (λ _. sound)
