-- ===== src/TcpServer/Reads.antt =====
-- What HandleRead does to the connections of the server.
use nova_kv.Prelude.{
  ℕ, zero, suc, ◌+◌, ◌<◌, ◌≡◌, refl, sym, subst, ◌∙◌, inl, inr, arith, Bool, false, Bytes, List,
  ◌++◌, Option, some, if◌then◌else◌, Bool-cases, Option-cases, u64_mod,
}
use nova_kv.NetworkBuffer.{NetworkBuffer, readable_bytes, read_from_fd}
use nova_kv.Resp.Parser.{ParseStatus, success, incomplete, error, Parsed, parse}
use nova_kv.NetworkBuffer.Queue.{read_from_fd-Holds}
use nova_kv.Resp.Progress.{parse-Moves}
use nova_kv.ThreadPool.{enqueue}
use nova_kv.Server.{CompletedTask, fail_connection_protocol}
use nova_kv.TcpServer.Sockets.{find_socket}
use nova_kv.TcpServer.{
  Socket, TcpServer, put_socket, switch_events, close_connection, protocol_error, fail_protocol,
  parsed_connection, after_parse, read_loop, ReadResult, received, end_of_stream, read_again,
  read_failed, read_socket, handle_read,
}
use nova_kv.TcpServer.Owed.{owed}
use nova_kv.TcpServer.Sound.{IsReading, IsSound}
use nova_kv.TcpServer.Changes.{
  close_put-IsSound, close_connection-IsSound, put_socket-IsSound, switch_events-IsSound,
  find-put_socket,
}
use nova_kv.TcpServer.Kept.{kept_reads, kept_fails}
use nova_kv.TcpServer.Alike.{fail_connection_protocol-Failed}
use nova_kv.TcpServer.Asked.{
  asked, asked-closing, asked-next_request_seq, the_task, with_task, with_task-IsSound, there_now,
  parsed_socket, parsed_socket-IsKept, parsed_socket-same,
}

-- What Parse leaves can be parsed on, but for an error.
abbrev Leaves : Parsed NetworkBuffer → Type 0
Leaves r =
    (r.status ≡ success → IsReading r.buffer r.parser)
    × (r.status ≡ incomplete → IsReading r.buffer r.parser)

IsReading-Leaves :
    (sock : Socket) (r : Parsed NetworkBuffer)
    → IsReading sock.connection.input_buffer sock.connection.parser
    → parse sock.connection.parser sock.connection.input_buffer ≡ some r
    → Leaves r
IsReading-Leaves sock r ((t, holds), ok) e =
    let (q, eq, t', left, moves) =
      parse-Moves sock.connection.parser sock.connection.input_buffer t ok holds in
    let one : some q ≡ some r = sym eq ∙ e in
    let same : q ≡ r = cc one in
    subst Leaves same (λ done. ((t', left), (moves.0 done).1), λ waits. ((t', left), moves.1 waits))

module _ (log : List (ℕ × CompletedTask)) (fd : ℕ) where
  fail_protocol-IsSound :
      (done : Bool) (sock : Socket) (r : Parsed NetworkBuffer) (s s' : TcpServer)
      → IsSound s log
      → find_socket fd s.connections ≡ some sock
      → sock.connection.next_request_seq + 1 < u64_mod
      → fail_protocol done fd (parsed_socket sock r) s ≡ some s'
      → IsSound s' log
  unfolding fail_protocol parsed_socket parsed_connection
  fail_protocol-IsSound done sock r s s' ok there small e =
      let c = record sock.connection { input_buffer = r.buffer; parser = r.parser } in
      elim (Option-cases (fail_connection_protocol c protocol_error)) [
        | inl off ↦ absurd (cc (rw (off, fail_protocol) at e))
        | inr ((c', b), failed) ↦
            let sock' = record sock { connection = c' } in
            let e' : some (switch_events done (record { input = false; output = b }) fd sock' s)
                ≡ some s' =
              rw (failed, fail_protocol) at e in
            let is : switch_events done (record { input = false; output = b }) fd sock' s ≡ s' =
              cc e' in
            let alike = fail_connection_protocol-Failed c c' b small failed in
            subst (λ x. IsSound x log) is
              (switch_events-IsSound done _ fd sock' s log (λ i.
                put_socket-IsSound fd sock (record sock' { interest = i }) s log ok there
                  alike.generation
                  (kept_fails log fd (owed s fd sock.connection.generation) sock r.buffer r.parser i
                    c' b (ok.kept fd sock there) small failed)))
      ]

  -- The loop keeps every connection sound: `more` are the rounds to come, with their fuel.
  abbrev Keeps : ℕ → (Socket → TcpServer → Option TcpServer) → Type 0
  Keeps fuel more =
      (sock : Socket) (s s' : TcpServer)
      → IsSound s log
      → find_socket fd s.connections ≡ some sock
      → sock.connection.closing ≡ false
      → sock.connection.next_request_seq + fuel < u64_mod
      → more sock s ≡ some s'
      → IsSound s' log

  after_parse-IsSound :
      (fuel : ℕ) (more : Socket → TcpServer → Option TcpServer) (done : Bool) (sock : Socket)
      (r : Parsed NetworkBuffer) (s s' : TcpServer) (status : ParseStatus)
      → r.status ≡ status
      → Leaves r
      → Keeps fuel more
      → IsSound s log
      → find_socket fd s.connections ≡ some sock
      → sock.connection.closing ≡ false
      → sock.connection.next_request_seq + suc fuel < u64_mod
      → after_parse more done fd sock r s status ≡ some s'
      → IsSound s' log
  unfolding after_parse
  after_parse-IsSound fuel more done sock r s s' success status left rest ok there reading small e =
      elim (Option-cases (enqueue (the_task fd sock r) s.thread_pool)) [
        | inl off ↦
            let e' : some (close_connection fd (put_socket fd (asked sock r) s)) ≡ some s' =
              (unfold the_task asked in rw (off, after_parse) at e) in
            let is : close_connection fd (put_socket fd (asked sock r) s) ≡ s' = cc e' in
            subst (λ x. IsSound x log) is (close_put-IsSound fd (asked sock r) s log ok)
        | inr (pool, on) ↦
            let e' : more (asked sock r) (with_task fd sock r s pool on) ≡ some s' =
              (unfold the_task asked with_task in rw (on, after_parse) at e) in
            let next = asked-next_request_seq sock r in
            rest (asked sock r) (with_task fd sock r s pool on) s'
              (with_task-IsSound log fd sock r s pool on ok there (left.0 status)
                (omega (arith, small)))
              (there_now fd sock r s pool on) ((asked-closing sock r).0 ∙ reading)
              (omega (arith, small, next)) e'
      ]
  after_parse-IsSound fuel more done sock r s s' incomplete status left rest ok there reading small
        e =
      let is : put_socket fd (parsed_socket sock r) s ≡ s' = unfold parsed_socket in cc e in
      subst (λ x. IsSound x log) is
        (put_socket-IsSound fd sock (parsed_socket sock r) s log ok there
          (parsed_socket-same sock r).0
          (parsed_socket-IsKept log fd (owed s fd sock.connection.generation) sock r
            (ok.kept fd sock there) (λ _. left.1 status)))
  after_parse-IsSound fuel more done sock r s s' error status left rest ok there reading small e =
      fail_protocol-IsSound done sock r s s' ok there (omega (arith, small))
        (unfold parsed_socket in e)

  read_loop-IsSound : (fuel : ℕ) (done : Bool) → Keeps fuel (read_loop fuel done fd)
  unfolding read_loop
  read_loop-IsSound zero done sock s s' ok there reading small e = absurd (cc e)
  read_loop-IsSound (suc fuel) done sock s s' ok there reading small e =
      elim (Option-cases (parse sock.connection.parser sock.connection.input_buffer)) [
        | inl off ↦ absurd (cc (rw (off, read_loop) at e))
        | inr (r, parsed) ↦
            after_parse-IsSound fuel (λ x t. read_loop fuel done fd x t) done sock r s s' r.status
              refl (IsReading-Leaves sock r ((ok.kept fd sock there).parses reading) parsed)
              (λ x t t' o f c b g. read_loop-IsSound fuel done x t t' o f c b g) ok there reading
              small (rw (parsed, read_loop) at e)
      ]

-- The rounds that a read can cause do not wrap the number of the next request around.
abbrev pub FewRequests : ReadResult → ℕ → TcpServer → Type 0
FewRequests result fd s =
    (sock : Socket) (data_read : Bytes)
    → find_socket fd s.connections ≡ some sock
    → result ≡ received data_read
    → sock.connection.next_request_seq
        + suc (readable_bytes (read_from_fd sock.connection.input_buffer (some data_read)))
      < u64_mod

module _ (log : List (ℕ × CompletedTask)) (fd : ℕ) where
  read_socket-IsSound :
      (done : Bool) (result : ReadResult) (sock : Socket) (s s' : TcpServer)
      → IsSound s log
      → find_socket fd s.connections ≡ some sock
      → sock.connection.closing ≡ false
      → FewRequests result fd s
      → read_socket done result fd sock s ≡ some s'
      → IsSound s' log
  unfolding read_socket
  read_socket-IsSound done (received data_read) sock s s' ok there reading few e =
      let b = read_from_fd sock.connection.input_buffer (some data_read) in
      let sock1 = record sock { connection = record sock.connection { input_buffer = b } } in
      let ((t, holds), p) = (ok.kept fd sock there).parses reading in
      read_loop-IsSound log fd (suc (readable_bytes b)) done sock1 (put_socket fd sock1 s) s'
        (put_socket-IsSound fd sock sock1 s log ok there refl (
          kept_reads log fd (owed s fd sock.connection.generation) sock b sock.connection.parser
            (ok.kept fd sock there)
            (λ _. ((t ++ data_read, read_from_fd-Holds data_read holds), p))))
        (find-put_socket fd sock1 s) reading (few sock data_read there refl) e
  read_socket-IsSound done end_of_stream sock s s' ok there reading few e =
      subst (λ x. IsSound x log) (cc e) (close_connection-IsSound fd s log ok)
  read_socket-IsSound done read_again sock s s' ok there reading few e =
      subst (λ x. IsSound x log) (cc e) ok
  read_socket-IsSound done read_failed sock s s' ok there reading few e =
      subst (λ x. IsSound x log) (cc e) (close_connection-IsSound fd s log ok)

  pub handle_read-IsSound :
      (done : Bool) (result : ReadResult) (s s' : TcpServer)
      → IsSound s log
      → FewRequests result fd s
      → handle_read done result fd s ≡ some s'
      → IsSound s' log
  unfolding handle_read
  handle_read-IsSound done result s s' ok few e =
      elim (Option-cases (find_socket fd s.connections)) [
        | inl off ↦
            let e' : some s ≡ some s' = rw (off, handle_read) at e in
            subst (λ x. IsSound x log) (cc e') ok
        | inr (sock, there) ↦
            let e1 : (if sock.connection.closing then some s else read_socket done result fd sock s)
                ≡ some s' =
              rw (there, handle_read) at e in
            elim (Bool-cases sock.connection.closing) [
              | inl closing ↦
                  let e2 : some s ≡ some s' = subst (by_closing sock) closing e1 in
                  subst (λ x. IsSound x log) (cc e2) ok
              | inr reading ↦
                  read_socket-IsSound done result sock s s' ok there reading few
                    (subst (by_closing sock) reading e1)
            ]
      ]
    where
      by_closing : Socket → Bool → Type 0
      by_closing sock b = (if b then some s else read_socket done result fd sock s) ≡ some s'
