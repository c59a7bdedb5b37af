-- ===== src/TcpServer/Writes.antt =====
-- src/network/TcpServer.cpp: HandleWrite and HandleWorkerCompletions, and the end of a worker's task.
use nova_kv.Prelude.{
  ℕ, suc, Bool, true, false, not, Bytes, List, [], ◌∷◌, ◌++◌, Option, none, some, take, ◌==◌,
  if◌then◌else◌, ascii,
}
use nova_kv.NetworkBuffer.{new_buffer, readable_bytes, peek, retrieve_all_as_string}
use nova_kv.Resp.Encoder.{encode_error}
use nova_kv.ThreadPool.{finish}
use nova_kv.Server.{Connection, CompletedTask, complete_task, wrote, is_connection_drained}
use nova_kv.TcpServer.Sockets.{find_socket}
use nova_kv.TcpServer.{
  WorkerTask, Socket, TcpServer, wake_event_loop, maybe_finish_shutdown, close_connection,
  put_socket, switch_events,
}

-- What write gives: a count of bytes, nothing, EINTR, EAGAIN, or another error.
pub data WriteResult : Type 0 where
  writes : ℕ → WriteResult
  writes_nothing write_interrupted write_again write_failed : WriteResult

unfoldable pub write_some : ℕ → Socket → Socket
write_some n sock = record sock {
  connection = wrote n sock.connection;
  sent = sock.sent ++ take n (peek sock.connection.output_buffer);
}

-- One answer of write, and whether it is an error: `more` is the loop.
unfoldable pub write_by : (Socket → Socket × Bool) → WriteResult → Socket → Socket × Bool
write_by more (writes n) sock = more (write_some n sock)
write_by more writes_nothing sock = (sock, false)
write_by more write_interrupted sock = more sock
write_by more write_again sock = (sock, false)
write_by more write_failed sock = (sock, true)

-- The loop of HandleWrite, with the answers of write. After them write has EAGAIN for an answer.
unfoldable pub write_loop : List WriteResult → Socket → Socket × Bool
write_loop [] sock = (sock, false)
write_loop (w ∷ ws) sock =
    let rest = write_by (λ sock1. write_loop ws sock1) w sock in
    if readable_bytes sock.connection.output_buffer == 0 then (sock, false) else rest

-- What HandleWrite does when nothing is left to write.
unfoldable pub after_writing : Bool → ℕ → Socket → TcpServer → TcpServer
after_writing ok fd sock s =
    if sock.connection.closing
    then if is_connection_drained sock.connection
      then close_connection fd (put_socket fd sock s)
      else switch_events ok (record { input = false; output = false }) fd sock s
    else switch_events ok (record { input = true; output = false }) fd sock s

unfoldable pub written : Bool → ℕ → Socket × Bool → TcpServer → TcpServer
written ok fd (sock, true) s = close_connection fd (put_socket fd sock s)
written ok fd (sock, false) s =
    if readable_bytes sock.connection.output_buffer == 0
    then after_writing ok fd sock s
    else put_socket fd sock s

unfoldable pub handle_write : Bool → List WriteResult → ℕ → TcpServer → TcpServer
handle_write ok ws fd s = elim (find_socket fd s.connections) [
  | none ↦ s
  | some sock ↦ written ok fd (write_loop ws sock) s
]

-- What a worker answers: what Execute wrote, or `none` where it threw.
unfoldable pub worker_response : Option Bytes → Bytes
worker_response none =
    (retrieve_all_as_string (encode_error (new_buffer 1024) (ascii "internal server error"))).0
worker_response (some answer) = answer

unfoldable pub completed_by : WorkerTask → Option Bytes → ℕ × CompletedTask
completed_by t outcome =
    (t.fd, record { generation = t.generation; seq = t.seq; response = worker_response outcome })

-- The i-th worker ends its task: the answer goes to completed_queue_ and the event loop is woken.
unfoldable pub finish_task : ℕ → WorkerTask → Option Bytes → TcpServer → TcpServer
finish_task i t outcome s = wake_event_loop (record s {
  completed_queue = s.completed_queue ++ completed_by t outcome ∷ [];
  thread_pool = finish i s.thread_pool;
})

-- A connection after complete_task, and whether a response went to its output.
unfoldable pub after_completion : Bool → ℕ → Socket → Connection × Bool → TcpServer → TcpServer
after_completion ok fd sock (c, appended) s =
    if appended
    then switch_events ok (record { input = not c.closing; output = true }) fd
        (record sock { connection = c }) s
    else put_socket fd (record sock { connection = c }) s

-- One round of HandleWorkerCompletions. `none` is that of complete_task.
unfoldable pub complete_one : Bool → ℕ → CompletedTask → TcpServer → Option TcpServer
complete_one ok fd task s = elim (find_socket fd s.connections) [
  | none ↦ some s
  | some sock ↦ elim (complete_task sock.connection task) [
    | none ↦ none
    | some r ↦ some (after_completion ok fd sock r s)
  ]
]

unfoldable pub complete_all :
    (ℕ → Bool) → ℕ → List (ℕ × CompletedTask) → TcpServer → Option TcpServer
complete_all ok n [] s = some s
complete_all ok n ((fd, task) ∷ tasks) s = elim (complete_one (ok n) fd task s) [
  | none ↦ none
  | some s1 ↦ complete_all ok (suc n) tasks s1
]

-- What read of wake_fd_ gives: the counter, which is zero from then on, EAGAIN, EINTR, or another
-- error.
pub data WakeRead : Type 0 where
  reads_counter wake_again wake_interrupted wake_failed : WakeRead

-- The loop of reads at the start of HandleWorkerCompletions, on whether wake_fd_ is readable. After
-- the answers read has EAGAIN for an answer.
unfoldable pub drain_wake : List WakeRead → Bool → Bool
drain_wake [] woken = woken
drain_wake (reads_counter ∷ rs) woken = drain_wake rs false
drain_wake (wake_again ∷ rs) woken = woken
drain_wake (wake_interrupted ∷ rs) woken = drain_wake rs woken
drain_wake (wake_failed ∷ rs) woken = woken

unfoldable pub handle_worker_completions : List WakeRead → (ℕ → Bool) → TcpServer → Option TcpServer
handle_worker_completions rs ok s =
    elim (complete_all ok 0 s.completed_queue
      (record s { completed_queue = []; woken = drain_wake rs s.woken })) [
        | none ↦ none
        | some s1 ↦ some (maybe_finish_shutdown s1)
      ]
