-- ===== src/TcpServer.antt =====
-- include/network/TcpServer.h and src/network/TcpServer.cpp: the event loop's handlers over all
-- connections, with the thread pool and the queue of completed tasks. What the kernel answers to
-- accept, readv, write and epoll_ctl is an argument of the handler that calls it: `ok n` says whether
-- the n-th epoll_ctl of the call succeeds.
pub mod Sockets
pub mod Writes
pub mod Stops
pub mod Owed
pub mod Sound
pub mod Changes
pub mod Alike
pub mod Kept
pub mod Accepts
pub mod Sends
pub mod Asked
pub mod Reads
pub mod Taken
pub mod Completions
pub mod Stopped
pub mod Served
pub mod Returns
pub mod Ends
pub mod Flags
pub mod Shutdown
mod Runs
use nova_kv.Prelude.{
  ℕ, zero, suc, ◌+◌, ◌%◌, Bool, true, false, not, ◌&&◌, Bytes, List, [], ◌∷◌, ◌++◌, Option, none,
  some, length, take, ◌==◌, if◌then◌else◌, ascii, u64_mod,
}
use nova_kv.NetworkBuffer.{
  NetworkBuffer, new_buffer, readable_bytes, peek, retrieve_all, retrieve_all_as_string,
  read_from_fd,
}
use nova_kv.Resp.Encoder.{encode_error}
use nova_kv.Resp.Parser.{Parser, ParseStatus, success, incomplete, error, Parsed, parse}
use nova_kv.ThreadPool.{ThreadPool, new_pool, enqueue, shutdown, notify_all}
use nova_kv.Server.{
  Connection, CompletedTask, new_connection, next_request, complete_task, fail_connection_protocol,
  wrote, is_connection_drained,
}
use nova_kv.TcpServer.Sockets.{find_socket, set_socket, erase_socket}

pub record WorkerTask : Type 0 where
  pub fd : ℕ
  pub generation : ℕ
  pub seq : ℕ
  pub command : List Bytes

-- The events that the kernel watches a descriptor for, besides EPOLLRDHUP: EPOLLIN and EPOLLOUT.
pub record Interest : Type 0 where
  pub input : Bool
  pub output : Bool

-- An entry of connections_, with what the kernel has of its descriptor: the events that are watched
-- and the bytes that were written.
pub record Socket : Type 0 where
  pub connection : Connection
  pub interest : Interest
  pub sent : Bytes

-- The server. `listening` says that listen_fd_ is open, and `woken` that the eventfd of wake_fd_ is
-- readable. A completed task stands with its fd.
pub record TcpServer : Type 0 where
  pub listening : Bool
  pub running : Bool
  pub stopping : Bool
  pub woken : Bool
  pub next_generation : ℕ
  pub connections : List (ℕ × Socket)
  pub completed_queue : List (ℕ × CompletedTask)
  pub thread_pool : ThreadPool WorkerTask

-- After Start: the constructor asks for 8 threads.
abbrev pub started : TcpServer
started = record {
  listening = true;
  running = true;
  stopping = false;
  woken = false;
  next_generation = 1;
  connections = [];
  completed_queue = [];
  thread_pool = new_pool 8;
}

unfoldable pub wake_event_loop : TcpServer → TcpServer
wake_event_loop s = record s { woken = true }

unfoldable pub no_connections : List (ℕ × Socket) → Bool
no_connections [] = true
no_connections (c ∷ cs) = false

unfoldable pub maybe_finish_shutdown : TcpServer → TcpServer
maybe_finish_shutdown s =
    if s.stopping && not s.listening && no_connections s.connections
    then wake_event_loop (record s { running = false })
    else s

unfoldable pub close_connection : ℕ → TcpServer → TcpServer
close_connection fd s = elim (find_socket fd s.connections) [
  | none ↦ s
  | some sock ↦ maybe_finish_shutdown (record s { connections = erase_socket fd s.connections })
]

unfoldable pub put_socket : ℕ → Socket → TcpServer → TcpServer
put_socket fd sock s = record s { connections = set_socket fd sock s.connections }

-- The end of a handler that switches the events of a descriptor: a failure closes the connection.
unfoldable pub switch_events : Bool → Interest → ℕ → Socket → TcpServer → TcpServer
switch_events done i fd sock s =
    if done
    then put_socket fd (record sock { interest = i }) s
    else close_connection fd (put_socket fd sock s)

-- One accepted client in HandleAccept: whether SetNonBlocking and AddEpollEvent succeed.
unfoldable pub accept_one : ℕ → Bool → Bool → TcpServer → TcpServer
accept_one fd nonblocking added s =
    let g = s.next_generation in
    let s1 = record s { next_generation = (g + 1) % u64_mod } in
    if nonblocking
    then elim (find_socket fd s.connections) [
      | some old ↦ s1
      | none ↦
          if added
          then put_socket fd
              (record {
                connection = new_connection g;
                interest = record { input = true; output = false };
                sent = [];
              })
              s1
          else s1
    ]
    else s

pub data AcceptResult : Type 0 where
  accepted : ℕ → Bool → Bool → AcceptResult
  accept_interrupted accept_failed : AcceptResult

-- HandleAccept, with the answers of accept. After them it has EAGAIN for an answer.
unfoldable pub accept_loop : List AcceptResult → TcpServer → TcpServer
accept_loop [] s = s
accept_loop (accepted fd nonblocking added ∷ rs) s =
    accept_loop rs (accept_one fd nonblocking added s)
accept_loop (accept_interrupted ∷ rs) s = accept_loop rs s
accept_loop (accept_failed ∷ rs) s = s

unfoldable pub handle_accept : List AcceptResult → TcpServer → TcpServer
handle_accept rs s = if s.running && s.listening then accept_loop rs s else s

unfoldable pub protocol_error : Bytes
protocol_error = ascii "protocol error"

-- FailConnectionProtocol with the change of the events.
unfoldable pub fail_protocol : Bool → ℕ → Socket → TcpServer → Option TcpServer
fail_protocol ok fd sock s = elim (fail_connection_protocol sock.connection protocol_error) [
  | none ↦ none
  | some r ↦ some (
      switch_events ok (record { input = false; output = r.1 }) fd
        (record sock { connection = r.0 }) s)
]

-- The task that is made of a command.
unfoldable pub worker_task : ℕ → Connection → List Bytes → WorkerTask
worker_task fd c command = record {
  fd = fd;
  generation = c.generation;
  seq = c.next_request_seq;
  command = command;
}

-- The connection after Parse.
unfoldable pub parsed_connection : Connection → Parser → NetworkBuffer → Connection
parsed_connection c p b = record c { input_buffer = b; parser = p }

-- What follows a Parse in HandleRead: `more` is the loop.
unfoldable pub after_parse :
    (Socket → TcpServer → Option TcpServer)
    → Bool
    → ℕ
    → Socket
    → Parsed NetworkBuffer
    → TcpServer
    → ParseStatus
    → Option TcpServer
after_parse more ok fd sock r s success =
    let c = parsed_connection sock.connection r.parser r.buffer in
    let sock1 = record sock { connection = (next_request c).0 } in
    elim (enqueue (worker_task fd c r.command) s.thread_pool) [
      | none ↦ some (close_connection fd (put_socket fd sock1 s))
      | some pool ↦ more sock1 (put_socket fd sock1 (record s { thread_pool = pool }))
    ]
after_parse more ok fd sock r s incomplete =
    let c = parsed_connection sock.connection r.parser r.buffer in
    some (put_socket fd (record sock { connection = c }) s)
after_parse more ok fd sock r s error =
    let c = parsed_connection sock.connection r.parser r.buffer in
    fail_protocol ok fd (record sock { connection = c }) s

-- The loop of HandleRead. `none` means that the fuel ran out: each round takes bytes from the buffer.
unfoldable pub read_loop : ℕ → Bool → ℕ → Socket → TcpServer → Option TcpServer
read_loop zero ok fd sock s = none
read_loop (suc fuel) ok fd sock s =
    elim (parse sock.connection.parser sock.connection.input_buffer) [
      | none ↦ none
      | some r ↦ after_parse (λ sock1 s1. read_loop fuel ok fd sock1 s1) ok fd sock r s r.status
    ]

-- What readv gives: bytes, the end of the stream, EAGAIN or EINTR, or another error.
pub data ReadResult : Type 0 where
  received : Bytes → ReadResult
  end_of_stream read_again read_failed : ReadResult

unfoldable pub read_socket : Bool → ReadResult → ℕ → Socket → TcpServer → Option TcpServer
read_socket ok (received data_read) fd sock s =
    let b = read_from_fd sock.connection.input_buffer (some data_read) in
    let sock1 = record sock { connection = record sock.connection { input_buffer = b } } in
    read_loop (suc (readable_bytes b)) ok fd sock1 (put_socket fd sock1 s)
read_socket ok end_of_stream fd sock s = some (close_connection fd s)
read_socket ok read_again fd sock s = some s
read_socket ok read_failed fd sock s = some (close_connection fd s)

unfoldable pub handle_read : Bool → ReadResult → ℕ → TcpServer → Option TcpServer
handle_read ok result fd s = elim (find_socket fd s.connections) [
  | none ↦ some s
  | some sock ↦ if sock.connection.closing then some s else read_socket ok result fd sock s
]
