-- ===== src/NetworkBuffer/Runs.antt =====
-- Runs of the buffer, and the theorems at concrete inputs.
use nova_kv.Prelude.{List, [], ◌∷◌, ◌+◌, ◌≤◌, ◌≡◌, refl, ascii, ◌++◌, some, length}
use nova_kv.NetworkBuffer.{
  NetworkBuffer, new_buffer, readable_bytes, writable_bytes, peek, make_space,
  ensure_writable_bytes, copy_at, append, retrieve, retrieve_all, search_crlf, find_crlf,
  read_from_fd,
}
use nova_kv.NetworkBuffer.Queue.{Holds, append-Holds}
use nova_kv.NetworkBuffer.History.{
  BufferCall, appends, receives, retrieves, run_buffer, run_queue, call_queue, buffer_is_queue,
}

opened : Unit {0}
unfolding new_buffer readable_bytes writable_bytes peek make_space ensure_writable_bytes copy_at
    append retrieve retrieve_all search_crlf find_crlf read_from_fd
opened = tt

abbrev used : NetworkBuffer
used = record { buffer = ascii "abcdef__"; read_index = 3; write_index = 6 }

used-Holds : Holds used (ascii "def")
used-Holds = record {
  front = ascii "abc";
  room = ascii "__";
  layout = refl;
  reads = refl;
  writes = refl;
}

-- Four bytes do not fit behind, but they do once the rest is moved to the front.
append_moves :
    append used (ascii "ghij")
    ≡ record { buffer = ascii "defghij_"; read_index = 0; write_index = 7 }
unfolding opened
append_moves = refl

append_grows : (append used (ascii "ghijklm")).buffer ≡ ascii "abcdefghijklm"
unfolding opened
append_grows = refl

find_second : find_crlf (append used (ascii "\r\n")) ≡ some 3
unfolding opened
find_second = refl

append-Holds_example :
    Holds (append used (ascii "ghij")) (ascii "def" ++ ascii "ghij")
    × ((ensure_writable_bytes 4 used).write_index + 4
        ≤ length (ensure_writable_bytes 4 used).buffer)
append-Holds_example = append-Holds (ascii "ghij") used-Holds

abbrev calls : List BufferCall
calls =
    appends (ascii "abc")
    ∷ retrieves 1
    ∷ receives (ascii "de")
    ∷ retrieves 7
    ∷ appends (ascii "f")
    ∷ []

buffer_is_queue_example :
    (peek (run_buffer calls (new_buffer 4)) ≡ run_queue calls [])
    × (readable_bytes (run_buffer calls (new_buffer 4)) ≡ length (run_queue calls []))
buffer_is_queue_example = buffer_is_queue 4 calls

-- The run of a queue that is left after the calls.
calls_left : run_queue calls [] ≡ ascii "f"
unfolding run_queue call_queue
calls_left = refl
