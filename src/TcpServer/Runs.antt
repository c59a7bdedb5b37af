-- ===== src/TcpServer/Runs.antt =====
-- A server with one client: a request, its worker, its answer, and a stop.
use nova_kv.Prelude.{
  ◌⊎◌, ℕ, suc, ◌+◌, ◌<◌, ◌≡◌, refl, sym, subst, ◌∙◌, ◌↔◌, arith, Bool, true, false, Bytes, ascii,
  List, [], ◌∷◌, ◌++◌, Option, some, none, ltb, u64_mod,
}
use nova_kv.NetworkBuffer.{
  new_buffer, readable_bytes, writable_bytes, peek, make_space, ensure_writable_bytes, copy_at,
  append, retrieve, retrieve_all, retrieve_all_as_string, search_crlf, read_from_fd,
}
use nova_kv.NetworkBuffer.Queue.{Holds}
use nova_kv.Resp.Decimal.{from_chars, from_digits, starts_with_digit, is_digit, signed, read_digits}
use nova_kv.Resp.Parser.{
  parse, parse_loop, after_round, parse_round, state_round, header_round, first_is, whole_number,
  set_array_size, set_bulk_len, on_array_size, on_bulk_len, data_round, data_len, byte_is,
  push_element, has_size, reset,
}
use nova_kv.ThreadPool.{new_pool, set_worker, enqueue, look, look_by, look_from, finish}
use nova_kv.ThreadPool.Steps.{one_if}
use nova_kv.Server.{
  CompletedTask, new_connection, send_ready, drain_loop, drain_ready, next_request, complete_task,
  wrote, is_connection_drained,
}
use nova_kv.Server.Pending.{Responses, find_response, emplace_response, erase_response}
use nova_kv.Server.Order.{replies}
use nova_kv.TcpServer.Sockets.{find_socket, set_socket, erase_socket}
use nova_kv.TcpServer.{
  WorkerTask, Socket, TcpServer, started, wake_event_loop, no_connections, maybe_finish_shutdown,
  close_connection, put_socket, switch_events, accept_one, accepted, accept_loop, handle_accept,
  worker_task, parsed_connection, after_parse, read_loop, ReadResult, received, read_socket,
  handle_read,
}
use nova_kv.TcpServer.Writes.{
  write_some, write_by, write_loop, after_writing, written, handle_write, worker_response,
  completed_by, finish_task, after_completion, complete_one, complete_all, WakeRead, reads_counter,
  drain_wake, handle_worker_completions,
}
use nova_kv.TcpServer.Owed.{owed}
use nova_kv.TcpServer.Sound.{answered, IsFrom}
use nova_kv.TcpServer.Reads.{FewRequests}
use nova_kv.TcpServer.Returns.{Returns, handlers_return}
use nova_kv.TcpServer.Stops.{
  stop_connection, stop_socket, stop_sockets, to_close, close_all, stop_running, stop,
  handle_events, PollResult, poll_ready, poll_failed, goes_on, leaves, after_events, after_poll,
  run_turn,
}
use nova_kv.TcpServer.Shutdown.{stop_ends}
use nova_kv.TcpServer.Served.{
  stops, Reach, starts, accepts, reads, completes, looks, finishes, connections_served,
}

-- The server behind a handler that returned.
abbrev result : Option TcpServer → TcpServer
result none = started
result (some s) = s

abbrev returned : Option TcpServer → Bool
returned none = false
returned (some s) = true

result_lem : (o : Option TcpServer) → returned o ≡ true → o ≡ some (result o)
result_lem none e = absurd (cc e)
result_lem (some s) e = refl

opened : Unit {0}
unfolding new_buffer readable_bytes writable_bytes peek make_space ensure_writable_bytes copy_at
    append retrieve retrieve_all retrieve_all_as_string search_crlf read_from_fd from_chars
    from_digits starts_with_digit is_digit signed read_digits parse parse_loop after_round
    parse_round state_round header_round first_is whole_number set_array_size set_bulk_len
    on_array_size on_bulk_len data_round data_len byte_is push_element has_size reset new_pool
    set_worker enqueue look look_by look_from finish send_ready drain_loop drain_ready next_request
    complete_task wrote is_connection_drained find_response emplace_response erase_response
    find_socket set_socket erase_socket wake_event_loop no_connections maybe_finish_shutdown
    close_connection put_socket switch_events accept_one accept_loop handle_accept worker_task
    parsed_connection after_parse read_loop read_socket handle_read write_some write_by write_loop
    after_writing written handle_write worker_response completed_by finish_task after_completion
    complete_one complete_all drain_wake handle_worker_completions stop_connection stop_socket
    stop_sockets to_close close_all stop_running stop handle_events after_events after_poll run_turn
opened = tt

abbrev connected : TcpServer
connected = handle_accept (accepted 5 true true ∷ []) started

abbrev ping : Bytes
ping = ascii "*1\r\n$4\r\nPING\r\n"

abbrev asked : TcpServer
asked = result (handle_read true (received ping) 5 connected)

asked_returns : returned (handle_read true (received ping) 5 connected) ≡ true
unfolding opened
asked_returns = refl

abbrev ping_task : WorkerTask
ping_task = record { fd = 5; generation = 1; seq = 0; command = ascii "PING" ∷ [] }

abbrev at_work : TcpServer
at_work = record asked { thread_pool = look 0 asked.thread_pool }

abbrev pong : Bytes
pong = ascii "+PONG\r\n"

abbrev worked : TcpServer
worked = finish_task 0 ping_task (some pong) at_work

abbrev answered_one : TcpServer
answered_one = result (handle_worker_completions (reads_counter ∷ []) (λ n. true) worked)

abbrev log : List (ℕ × CompletedTask)
log = completed_by ping_task (some pong) ∷ []

abbrev socket_of : TcpServer → Option Socket
socket_of s = find_socket 5 s.connections

abbrev socket : Socket
socket = elim (socket_of answered_one) [
  | some sock ↦ sock
  | none ↦ record {
    connection = new_connection 0;
    interest = record { input = false; output = false };
    sent = [];
  }
]

socket_there : find_socket 5 answered_one.connections ≡ some socket
unfolding opened
socket_there = refl

answer_waits : peek socket.connection.output_buffer ≡ pong
unfolding opened
answer_waits = refl

completions_return :
    returned (handle_worker_completions (reads_counter ∷ []) (λ n. true) worked) ≡ true
unfolding opened
completions_return = refl

connected-Reach : Reach connected []
connected-Reach = accepts (accepted 5 true true ∷ []) starts (omega arith)

abbrev new_socket : Socket
new_socket = record {
  connection = new_connection 1;
  interest = record { input = true; output = false };
  sent = [];
}

received_is : {a b : Bytes} → received a ≡ received b → a ≡ b
received_is e = cc e

new_there : find_socket 5 connected.connections ≡ some new_socket
unfolding opened
new_there = refl

abbrev IsFew : Socket → Bytes → Type 0
IsFew x d =
    x.connection.next_request_seq
      + suc (readable_bytes (read_from_fd x.connection.input_buffer (some d)))
    < u64_mod

ping-IsFew : IsFew new_socket ping
unfolding opened
ping-IsFew = omega arith

few_requests : FewRequests (received ping) 5 connected
few_requests sock d there is =
    let one : some new_socket ≡ some sock = sym new_there ∙ there in
    let same : new_socket ≡ sock = cc one in
    subst (λ x. IsFew x d) same (subst (IsFew new_socket) (received_is is) ping-IsFew)

answered_one-Reach : Reach answered_one log
unfolding opened
answered_one-Reach =
    completes (reads_counter ∷ []) (λ n. true) answered_one
      (finishes 0 ping_task (some pong)
        (looks 0
          (reads true (received ping) 5 asked connected-Reach few_requests
            (result_lem (handle_read true (received ping) 5 connected) asked_returns))
          refl)
        refl)
      (result_lem (handle_worker_completions (reads_counter ∷ []) (λ n. true) worked)
        completions_return)

connections_served_example :
    (h : Responses) × ((queue : Bytes) × Holds socket.connection.output_buffer queue
      × (socket.sent ++ queue ≡ replies socket.connection.next_write_seq h))
    × ((j : ℕ) (r : Bytes)
        → find_response j h ≡ some r
        → IsFrom log 5 socket.connection.generation j r)
    × (find_response socket.connection.next_write_seq h ≡ none)
    × ((j : ℕ)
        → owed answered_one 5 socket.connection.generation j + answered j h
          ≡ one_if (ltb j socket.connection.next_request_seq))
connections_served_example =
    connections_served answered_one log 5 socket answered_one-Reach socket_there

handlers_return_example :
    ((rs : List WakeRead) (ok : ℕ → Bool) → Returns (handle_worker_completions rs ok connected))
    × ((ok : Bool) (read_result : ReadResult) (fd : ℕ)
        → FewRequests read_result fd connected
        → Returns (handle_read ok read_result fd connected))
handlers_return_example = handlers_return connected [] connected-Reach

abbrev stopped : TcpServer
stopped = stop (λ n. true) connected

-- A client without a request is closed at once, and the loop ends.
stopped_at_once : stopped.running ≡ false
unfolding opened
stopped_at_once = refl

-- The next turn leaves the loop, and so does one where epoll_wait fails.
stopped_leaves : run_turn (poll_ready []) stopped ≡ some (leaves stopped)
unfolding opened
stopped_leaves = refl

failed_leaves : run_turn poll_failed connected ≡ some (leaves connected)
unfolding opened
failed_leaves = refl

connected_goes_on : run_turn (poll_ready []) connected ≡ some (goes_on connected)
unfolding opened
connected_goes_on = refl

stop_ends_example :
    (stopped.stopping ≡ true
      → (stopped.listening ≡ false) × (stopped.running ≡ false ↔ stopped.connections ≡ []))
    × (stopped.running ≡ false → stopped.stopping ≡ true)
    × ((r : PollResult) (t : TcpServer)
        → run_turn r stopped ≡ some (leaves t)
        → (t ≡ stopped)
          × (((r ≡ poll_failed) × (stopped.running ≡ true))
              ⊎ ((stopped.stopping ≡ true) × (stopped.connections ≡ []))))
stop_ends_example = stop_ends stopped [] (stops (λ n. true) connected-Reach)
