-- ===== src/NetworkBuffer/History.antt =====
-- Every history of a buffer, next to a plain queue of bytes.
use nova_kv.Prelude.{ℕ, ◌≡◌, refl, Bytes, List, [], ◌∷◌, ◌++◌, some, length, drop}
use nova_kv.NetworkBuffer.{
  NetworkBuffer, new_buffer, readable_bytes, peek, append, retrieve, retrieve_all, read_from_fd,
}
use nova_kv.NetworkBuffer.Queue.{
  Holds, append-Holds, retrieve-Holds, read_from_fd-Holds, Holds-new_buffer, peek-Holds,
  readable_bytes-Holds,
}

-- The calls that change a buffer.
pub data BufferCall : Type 0 where
  appends receives : Bytes → BufferCall
  retrieves : ℕ → BufferCall
  retrieves_all : BufferCall

unfoldable pub call_buffer : BufferCall → NetworkBuffer → NetworkBuffer
call_buffer (appends s) b = append b s
call_buffer (receives s) b = read_from_fd b (some s)
call_buffer (retrieves n) b = retrieve n b
call_buffer retrieves_all b = retrieve_all b

unfoldable pub call_queue : BufferCall → Bytes → Bytes
call_queue (appends s) q = q ++ s
call_queue (receives s) q = q ++ s
call_queue (retrieves n) q = drop n q
call_queue retrieves_all q = []

unfoldable pub run_buffer : List BufferCall → NetworkBuffer → NetworkBuffer
run_buffer [] b = b
run_buffer (c ∷ cs) b = run_buffer cs (call_buffer c b)

unfoldable pub run_queue : List BufferCall → Bytes → Bytes
run_queue [] q = q
run_queue (c ∷ cs) q = run_queue cs (call_queue c q)

call_buffer-Holds :
    (c : BufferCall) (b : NetworkBuffer) (q : Bytes)
    → Holds b q
    → Holds (call_buffer c b) (call_queue c q)
unfolding call_buffer call_queue retrieve_all
call_buffer-Holds (appends s) b q h = (append-Holds s h).0
call_buffer-Holds (receives s) b q h = read_from_fd-Holds s h
call_buffer-Holds (retrieves n) b q h = retrieve-Holds n h
call_buffer-Holds retrieves_all b q h = record {
  front = [];
  room = b.buffer;
  layout = refl;
  reads = refl;
  writes = refl;
}

run_buffer-Holds :
    (cs : List BufferCall) (b : NetworkBuffer) (q : Bytes)
    → Holds b q
    → Holds (run_buffer cs b) (run_queue cs q)
unfolding run_buffer run_queue
run_buffer-Holds [] b q h = h
run_buffer-Holds (c ∷ cs) b q h =
    run_buffer-Holds cs (call_buffer c b) (call_queue c q) (call_buffer-Holds c b q h)

-- A new buffer of any size is a queue of bytes: after any calls of Append, ReadFromFd, Retrieve and
-- RetrieveAll, what Peek and ReadableBytes give is what a plain queue would hold, on which Append and
-- ReadFromFd put bytes behind, Retrieve drops bytes in front and RetrieveAll empties.
pub buffer_is_queue :
    (n : ℕ) (cs : List BufferCall)
    → (peek (run_buffer cs (new_buffer n)) ≡ run_queue cs [])
      × (readable_bytes (run_buffer cs (new_buffer n)) ≡ length (run_queue cs []))
buffer_is_queue n cs =
    let h = run_buffer-Holds cs (new_buffer n) [] (Holds-new_buffer n) in
    (peek-Holds h, readable_bytes-Holds h)
