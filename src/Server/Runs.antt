-- ===== src/Server/Runs.antt =====
-- A connection whose two requests are finished in the other order, and the theorems for it.
use nova_kv.Prelude.{
  ℕ, ◌≤◌, ◌<◌, ◌≡◌, ◌≢◌, refl, arith, true, false, Bytes, ascii, [], ◌∷◌, ◌++◌, none, some, zero,
  suc,
}
use nova_kv.NetworkBuffer.{
  new_buffer, readable_bytes, writable_bytes, peek, make_space, ensure_writable_bytes, copy_at,
  append, retrieve, retrieve_all,
}
use nova_kv.NetworkBuffer.Queue.{Holds}
use nova_kv.Server.{
  Connection, new_connection, send_ready, drain_loop, drain_ready, next_request, complete_task,
  wrote, is_connection_drained,
}
use nova_kv.Server.Pending.{Responses, find_response, emplace_response, erase_response}
use nova_kv.Server.Order.{replies, reply}
use nova_kv.Server.Served.{
  Served, starts, requests, completes, writes, answers_in_order, all_answered,
}

opened : Unit {0}
unfolding new_buffer readable_bytes writable_bytes peek make_space ensure_writable_bytes copy_at
    append retrieve retrieve_all send_ready drain_loop drain_ready next_request complete_task wrote
    is_connection_drained find_response emplace_response erase_response replies reply
opened = tt

abbrev new : Connection
new = new_connection 7

-- The parser's state and the input do not matter here.
abbrev requested : Connection → Connection
requested c = record (next_request c).0 { input_buffer = c.input_buffer; parser = c.parser }

abbrev finished : ℕ → Bytes → Connection → Connection
finished seq r c =
    elim (complete_task c (record { generation = c.generation; seq = seq; response = r })) [
      | some (c', b) ↦ c'
      | none ↦ c
    ]

abbrev two_requests : Connection
two_requests = requested (requested new)

abbrev second_done : Connection
second_done = finished 1 (ascii "+B\r\n") two_requests

abbrev both_done : Connection
both_done = finished 0 (ascii "+A\r\n") second_done

held_back : peek second_done.output_buffer ≡ []
unfolding opened
held_back = refl

in_order : peek both_done.output_buffer ≡ ascii "+A\r\n+B\r\n"
unfolding opened
in_order = refl

abbrev answers : Responses
answers = (0, ascii "+A\r\n") ∷ (1, ascii "+B\r\n") ∷ []

both_done-Served : Served 7 answers [] both_done
unfolding opened
both_done-Served =
    completes 0 (ascii "+A\r\n") both_done true
      (completes 1 (ascii "+B\r\n") second_done false
        (requests new.input_buffer new.parser
          (requests new.input_buffer new.parser starts (omega arith)) (omega arith))
        (omega arith) refl refl)
      (omega arith) refl refl

abbrev sent : Connection
sent = wrote 8 both_done

sent-Served : Served 7 answers (ascii "+A\r\n+B\r\n") sent
unfolding opened
sent-Served = writes 8 both_done-Served

answers_in_order_example :
    ((queue : Bytes) × Holds both_done.output_buffer queue
      × ([] ++ queue ≡ replies both_done.next_write_seq answers))
    × ((j : ℕ) → j < both_done.next_write_seq → find_response j answers ≢ none)
    × (find_response both_done.next_write_seq answers ≡ none)
    × (both_done.next_write_seq ≤ both_done.next_request_seq)
answers_in_order_example = answers_in_order 7 answers [] both_done both_done-Served

every_answer : (j : ℕ) → j < sent.next_request_seq → find_response j answers ≢ none
unfolding opened
every_answer zero lt e = cc
every_answer (suc zero) lt e = cc
every_answer (suc (suc j)) lt e = omega (arith, lt)

all_written : readable_bytes sent.output_buffer ≡ 0
unfolding opened
all_written = refl

all_answered_example :
    (ascii "+A\r\n+B\r\n" ≡ replies sent.next_request_seq answers)
    × (is_connection_drained sent ≡ true)
all_answered_example =
    all_answered 7 answers (ascii "+A\r\n+B\r\n") sent sent-Served every_answer all_written
