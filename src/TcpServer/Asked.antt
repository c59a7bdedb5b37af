-- ===== src/TcpServer/Asked.antt =====
-- The next command of a connection: its task goes to the pool.
use nova_kv.Prelude.{
  ℕ, ◌+◌, ◌%◌, ◌<◌, ◌≡◌, refl, sym, subst, ◌∙◌, arith, false, ◌&&◌, List, some, ◌==◌, ==_refl,
  u64_mod,
}
use nova_kv.NetworkBuffer.{NetworkBuffer}
use nova_kv.Resp.Parser.{Parsed}
use nova_kv.ThreadPool.{ThreadPool, enqueue}
use nova_kv.ThreadPool.Steps.{one_if}
use nova_kv.Server.{CompletedTask, next_request}
use nova_kv.TcpServer.Sockets.{find_socket, find_socket-set_socket}
use nova_kv.TcpServer.{WorkerTask, Socket, TcpServer, put_socket, worker_task, parsed_connection}
use nova_kv.TcpServer.Owed.{owed, is_task, is_request, in_pool-enqueue}
use nova_kv.TcpServer.Sound.{IsReading, IsKept, IsSound, put-IsSound}
use nova_kv.TcpServer.Kept.{kept_reads, kept_requests}

-- The connection when its next command has been parsed.
unfoldable pub asked : Socket → Parsed NetworkBuffer → Socket
asked sock r = record sock {
  connection = (next_request (parsed_connection sock.connection r.parser r.buffer)).0;
}

pub asked-generation :
    (sock : Socket) (r : Parsed NetworkBuffer)
    → (asked sock r).connection.generation ≡ sock.connection.generation
unfolding asked next_request parsed_connection
asked-generation sock r = refl

pub asked-closing :
    (sock : Socket) (r : Parsed NetworkBuffer)
    → ((asked sock r).connection.closing ≡ sock.connection.closing)
      × ((asked sock r).connection.input_buffer ≡ r.buffer)
      × ((asked sock r).connection.parser ≡ r.parser)
unfolding asked next_request parsed_connection
asked-closing sock r = (refl, refl, refl)

pub asked-next_request_seq :
    (sock : Socket) (r : Parsed NetworkBuffer)
    → (asked sock r).connection.next_request_seq ≡ (sock.connection.next_request_seq + 1) % u64_mod
unfolding asked next_request parsed_connection
asked-next_request_seq sock r = refl

unfoldable pub parsed_socket : Socket → Parsed NetworkBuffer → Socket
parsed_socket sock r = record sock {
  connection = parsed_connection sock.connection r.parser r.buffer;
}

pub parsed_socket-same :
    (sock : Socket) (r : Parsed NetworkBuffer)
    → ((parsed_socket sock r).connection.generation ≡ sock.connection.generation)
      × ((parsed_socket sock r).connection.next_request_seq ≡ sock.connection.next_request_seq)
unfolding parsed_socket parsed_connection
parsed_socket-same sock r = (refl, refl)

module _ (fd : ℕ) where
  unfoldable pub the_task : Socket → Parsed NetworkBuffer → WorkerTask
  the_task sock r = worker_task fd (parsed_connection sock.connection r.parser r.buffer) r.command

  is_task-other :
      (sock : Socket) (r : Parsed NetworkBuffer) (a b j : ℕ)
      → ((a == fd) && (b == sock.connection.generation)) ≡ false
      → is_task a b j (the_task sock r) ≡ 0
  unfolding is_task is_request the_task worker_task parsed_connection one_if
  is_task-other sock r a b j other = ground (arith, other)

  is_task-this :
      (sock : Socket) (r : Parsed NetworkBuffer) (j : ℕ)
      → is_task fd sock.connection.generation j (the_task sock r)
        ≡ one_if (sock.connection.next_request_seq == j)
  unfolding is_task is_request the_task worker_task parsed_connection
  is_task-this sock r j = rw (==_refl fd, ==_refl sock.connection.generation) refl

  -- A task of the connection is put into the queue of the pool.
  module _ (sock : Socket) (r : Parsed NetworkBuffer) (s : TcpServer) (pool : ThreadPool WorkerTask)
      (e : enqueue (the_task sock r) s.thread_pool ≡ some pool) where
    unfoldable pub with_task : TcpServer
    with_task = put_socket fd (asked sock r) (record s { thread_pool = pool })

    owed-with_task :
        (a b j : ℕ) → owed with_task a b j ≡ owed s a b j + is_task a b j (the_task sock r)
    unfolding with_task put_socket owed
    owed-with_task a b j =
        let more = in_pool-enqueue a b j (the_task sock r) s.thread_pool pool e in
        omega (arith, more)

    pub there_now : find_socket fd with_task.connections ≡ some (asked sock r)
    unfolding with_task put_socket
    there_now = find_socket-set_socket fd fd (asked sock r) s.connections ∙ rw (==_refl fd) refl

module _ (log : List (ℕ × CompletedTask)) (fd : ℕ) where
  pub asked-IsKept :
      (out out' : ℕ → ℕ) (sock : Socket) (r : Parsed NetworkBuffer)
      → IsKept out log fd sock
      → IsReading r.buffer r.parser
      → sock.connection.next_request_seq + 1 < u64_mod
      → ((j : ℕ) → out' j ≡ out j + one_if (sock.connection.next_request_seq == j))
      → IsKept out' log fd (asked sock r)
  unfolding asked parsed_connection
  asked-IsKept out out' sock r ok can small more =
      kept_requests log fd out out' sock r.buffer r.parser ok (λ _. can) small more

  pub parsed_socket-IsKept :
      (out : ℕ → ℕ) (sock : Socket) (r : Parsed NetworkBuffer)
      → IsKept out log fd sock
      → (sock.connection.closing ≡ false → IsReading r.buffer r.parser)
      → IsKept out log fd (parsed_socket sock r)
  unfolding parsed_socket parsed_connection
  parsed_socket-IsKept out sock r ok can = kept_reads log fd out sock r.buffer r.parser ok can

  module _ (sock : Socket) (r : Parsed NetworkBuffer) (s : TcpServer) (pool : ThreadPool WorkerTask)
      (e : enqueue (the_task fd sock r) s.thread_pool ≡ some pool) where
    pub with_task-IsSound :
        IsSound s log
        → find_socket fd s.connections ≡ some sock
        → IsReading r.buffer r.parser
        → sock.connection.next_request_seq + 1 < u64_mod
        → IsSound (with_task fd sock r s pool e) log
    with_task-IsSound ok there can small =
        put-IsSound s (with_task fd sock r s pool e) log fd sock (asked sock r) ok there
          (asked-generation sock r) (unfold with_task put_socket in refl)
          (unfold with_task put_socket in refl)
          (λ a b j other.
            let none_new = is_task-other fd sock r a b j other in
            let more = owed-with_task fd sock r s pool e a b j in omega (arith, more, none_new))
          (unfold with_task put_socket in ok.done) kept
      where
        kept :
            IsKept
              (owed (with_task fd sock r s pool e) fd (asked sock r).connection.generation)
              log
              fd
              (asked sock r)
        kept =
            subst (λ g. IsKept (owed (with_task fd sock r s pool e) fd g) log fd (asked sock r))
              (sym (asked-generation sock r))
              (asked-IsKept (owed s fd sock.connection.generation)
                (owed (with_task fd sock r s pool e) fd sock.connection.generation) sock r
                (IsSound.kept ok fd sock there) can small
                (λ j.
                  let more = owed-with_task fd sock r s pool e fd sock.connection.generation j in
                  let this = is_task-this fd sock r j in omega (arith, more, this)))
