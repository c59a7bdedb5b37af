-- ===== src/TcpServer/Sends.antt =====
-- What HandleWrite does to the connections of the server.
use nova_kv.Prelude.{
  ℕ, ◌≡◌, refl, inl, inr, Bool, true, false, List, [], ◌∷◌, some, ◌==◌, if◌then◌else◌, Option-cases,
  if_cases,
}
use nova_kv.NetworkBuffer.{readable_bytes}
use nova_kv.Server.{CompletedTask, is_connection_drained, wrote}
use nova_kv.TcpServer.Sockets.{find_socket}
use nova_kv.TcpServer.{Interest, Socket, TcpServer, put_socket, switch_events, close_connection}
use nova_kv.TcpServer.Writes.{
  WriteResult, writes, writes_nothing, write_interrupted, write_again, write_failed, write_some,
  write_by, write_loop, after_writing, written, handle_write,
}
use nova_kv.TcpServer.Owed.{owed}
use nova_kv.TcpServer.Sound.{IsKept, IsSound}
use nova_kv.TcpServer.Changes.{close_put-IsSound, put_socket-IsSound, switch_events-IsSound}
use nova_kv.TcpServer.Kept.{kept_writes, kept_switches}

module _ (log : List (ℕ × CompletedTask)) (fd : ℕ) (out : ℕ → ℕ) (g : ℕ) where
  -- A connection of the generation `g` that is kept.
  abbrev IsHeld : Socket → Type 0
  IsHeld sock = IsKept out log fd sock × (sock.connection.generation ≡ g)

  write_by-IsHeld :
      (more : Socket → Socket × Bool) (w : WriteResult) (sock : Socket)
      → ((x : Socket) → IsHeld x → IsHeld (more x).0)
      → IsHeld sock
      → IsHeld (write_by more w sock).0
  unfolding write_by
  write_by-IsHeld more (writes n) sock rest (ok, same) =
      rest (write_some n sock) (kept_writes log fd out n sock ok, (unfold write_some wrote in same))
  write_by-IsHeld more writes_nothing sock rest held = held
  write_by-IsHeld more write_interrupted sock rest held = rest sock held
  write_by-IsHeld more write_again sock rest held = held
  write_by-IsHeld more write_failed sock rest held = held

  write_loop-IsHeld :
      (ws : List WriteResult) (sock : Socket) → IsHeld sock → IsHeld (write_loop ws sock).0
  unfolding write_loop
  write_loop-IsHeld [] sock held = held
  write_loop-IsHeld (w ∷ ws) sock held =
      if_cases (λ (r : Socket × Bool). IsHeld r.0)
        (readable_bytes sock.connection.output_buffer == 0) (sock, false)
        (write_by (λ x. write_loop ws x) w sock) (λ _. held)
        (λ _. write_by-IsHeld (λ x. write_loop ws x) w sock (λ x h. write_loop-IsHeld ws x h) held)

module _ (log : List (ℕ × CompletedTask)) (fd : ℕ) (sock sock' : Socket) (s : TcpServer)
    (ok : IsSound s log) (there : find_socket fd s.connections ≡ some sock)
    (held : IsHeld log fd
      (owed s fd sock.connection.generation)
      sock.connection.generation
      sock') where
  put_held : (i : Interest) → IsSound (put_socket fd (record sock' { interest = i }) s) log
  put_held i =
      put_socket-IsSound fd sock (record sock' { interest = i }) s log ok there held.1
        (kept_switches log fd (owed s fd sock.connection.generation) sock' i held.0)

  after_writing-IsSound : (done : Bool) → IsSound (after_writing done fd sock' s) log
  unfolding after_writing
  after_writing-IsSound done =
      if_cases (λ x. IsSound x log) sock'.connection.closing
        (if is_connection_drained sock'.connection
          then close_connection fd (put_socket fd sock' s)
          else switch_events done (record { input = false; output = false }) fd sock' s)
        (switch_events done (record { input = true; output = false }) fd sock' s)
        (λ _.
          if_cases (λ x. IsSound x log) (is_connection_drained sock'.connection)
            (close_connection fd (put_socket fd sock' s))
            (switch_events done (record { input = false; output = false }) fd sock' s)
            (λ _. close_put-IsSound fd sock' s log ok)
            (λ _. switch_events-IsSound done _ fd sock' s log put_held))
        (λ _. switch_events-IsSound done _ fd sock' s log put_held)

  written-IsSound : (done failed : Bool) → IsSound (written done fd (sock', failed) s) log
  unfolding written
  written-IsSound done true = close_put-IsSound fd sock' s log ok
  written-IsSound done false =
      if_cases (λ x. IsSound x log) (readable_bytes sock'.connection.output_buffer == 0)
        (after_writing done fd sock' s) (put_socket fd sock' s) (λ _. after_writing-IsSound done)
        (λ _. put_held sock'.interest)

pub handle_write-IsSound :
    (done : Bool) (ws : List WriteResult) (fd : ℕ) (s : TcpServer) (log : List (ℕ × CompletedTask))
    → IsSound s log
    → IsSound (handle_write done ws fd s) log
unfolding handle_write
handle_write-IsSound done ws fd s log ok = elim (Option-cases (find_socket fd s.connections)) [
  | inl off ↦ rw (off, handle_write) ok
  | inr (sock, there) ↦
      let held =
        write_loop-IsHeld log fd (owed s fd sock.connection.generation) sock.connection.generation
          ws sock (ok.kept fd sock there, refl) in
      rw (there, handle_write)
        (written-IsSound log fd sock (write_loop ws sock).0 s ok there held done
          (write_loop ws sock).1)
]
