-- ===== src/TcpServer/Stops.antt =====
-- src/network/TcpServer.cpp: Stop, Cleanup, HandleConnectionEvent and the round of Run.
use nova_kv.Prelude.{ℕ, suc, Bool, true, false, List, [], ◌∷◌, Option, none, some, if◌then◌else◌}
use nova_kv.NetworkBuffer.{retrieve_all}
use nova_kv.ThreadPool.{shutdown, notify_all}
use nova_kv.Server.{Connection, is_connection_drained}
use nova_kv.TcpServer.{
  Socket, TcpServer, wake_event_loop, maybe_finish_shutdown, close_connection, AcceptResult,
  handle_accept, ReadResult, handle_read,
}
use nova_kv.TcpServer.Writes.{WriteResult, handle_write, WakeRead, handle_worker_completions}

-- A connection that is stopped reads no further request.
unfoldable pub stop_connection : Connection → Connection
stop_connection c = record c { closing = true; input_buffer = retrieve_all c.input_buffer }

-- One round of the loop of Stop, with whether the connection is to be closed. A connection whose
-- epoll_ctl fails is closed too.
unfoldable pub stop_socket : Bool → Socket → Socket × Bool
stop_socket ok sock =
    let c = stop_connection sock.connection in
    if is_connection_drained c
    then (record sock { connection = c }, true)
    else if ok
    then (record sock { connection = c; interest = record { input = false; output = true } }, false)
    else (record sock { connection = c }, true)

unfoldable pub stop_sockets : (ℕ → Bool) → ℕ → List (ℕ × Socket) → List (ℕ × Socket)
stop_sockets ok n [] = []
stop_sockets ok n ((fd, sock) ∷ m) = (fd, (stop_socket (ok n) sock).0) ∷ stop_sockets ok (suc n) m

-- to_close
unfoldable pub to_close : (ℕ → Bool) → ℕ → List (ℕ × Socket) → List ℕ
to_close ok n [] = []
to_close ok n ((fd, sock) ∷ m) =
    let rest = to_close ok (suc n) m in if (stop_socket (ok n) sock).1 then fd ∷ rest else rest

unfoldable pub close_all : List ℕ → TcpServer → TcpServer
close_all [] s = s
close_all (fd ∷ fds) s = close_all fds (close_connection fd s)

-- The first Stop of a running server.
unfoldable pub stop_running : (ℕ → Bool) → TcpServer → TcpServer
stop_running ok s =
    let s1 = record s {
      stopping = true;
      listening = false;
      connections = stop_sockets ok 0 s.connections;
    } in
    maybe_finish_shutdown (wake_event_loop (close_all (to_close ok 0 s.connections) s1))

unfoldable pub stop : (ℕ → Bool) → TcpServer → TcpServer
stop ok s = if s.running then if s.stopping then wake_event_loop s else stop_running ok s else s

-- Cleanup, after the joins of Shutdown.
unfoldable pub cleanup : TcpServer → TcpServer
cleanup s = record s {
  listening = false;
  thread_pool = elim (shutdown s.thread_pool) [ none ↦ s.thread_pool | some p ↦ notify_all p ];
  completed_queue = [];
  connections = [];
}

-- The events of a connection that epoll_wait reports, with what the calls on it will answer.
pub record Reported : Type 0 where
  pub failed : Bool
  pub input : Bool
  pub output : Bool
  pub read_result : ReadResult
  pub write_results : List WriteResult
  pub read_ok : Bool
  pub write_ok : Bool

unfoldable pub handle_connection_event : ℕ → Reported → TcpServer → Option TcpServer
handle_connection_event fd e s =
    if s.running
    then if e.failed
      then some (close_connection fd s)
      else elim (if e.input then handle_read e.read_ok e.read_result fd s else some s) [
        | none ↦ none
        | some s1 ↦ some (if e.output then handle_write e.write_ok e.write_results fd s1 else s1)
      ]
    else some s

pub data Event : Type 0 where
  accepts : List AcceptResult → Event
  completions : List WakeRead → (ℕ → Bool) → Event
  reports : ℕ → Reported → Event

unfoldable pub handle_event : Event → TcpServer → Option TcpServer
handle_event (accepts rs) s = some (handle_accept rs s)
handle_event (completions rs ok) s = handle_worker_completions rs ok s
handle_event (reports fd e) s = handle_connection_event fd e s

-- The inner loop of Run over the events of one epoll_wait.
unfoldable pub handle_events : List Event → TcpServer → Option TcpServer
handle_events [] s = some s
handle_events (e ∷ es) s =
    if s.running
    then elim (handle_event e s) [ none ↦ none | some s1 ↦ handle_events es s1 ]
    else some s

-- What epoll_wait gives: events, EINTR, or another error.
pub data PollResult : Type 0 where
  poll_ready : List Event → PollResult
  poll_interrupted poll_failed : PollResult

-- Where a turn of the loop of Run ends: at the test of running_, or behind the loop, where Cleanup
-- comes next.
pub data Turn : Type 0 where
  goes_on leaves : TcpServer → Turn

unfoldable pub after_events : Option TcpServer → Option Turn
after_events none = none
after_events (some s) = some (goes_on s)

unfoldable pub after_poll : PollResult → TcpServer → Option Turn
after_poll (poll_ready es) s = after_events (handle_events es s)
after_poll poll_interrupted s = some (goes_on s)
after_poll poll_failed s = some (leaves s)

-- One turn of the loop of Run. `none` is that of a handler.
unfoldable pub run_turn : PollResult → TcpServer → Option Turn
run_turn r s = if s.running then after_poll r s else some (leaves s)
