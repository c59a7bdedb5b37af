-- ===== src/Server.antt =====
-- include/network/Connection.h and the part of src/network/TcpServer.cpp that keeps the answers of a
-- connection in the order of its requests, while workers finish them in any order.
pub mod Pending
pub mod Order
pub mod Steps
pub mod Served
pub mod Returns
mod Runs
use mathlib.Core.Option
use nova_kv.Prelude.{
  ℕ, zero, suc, ◌+◌, ◌%◌, Bool, true, false, ◌&&◌, Bytes, List, [], ◌∷◌, Option, none, some, length,
  ◌==◌, if◌then◌else◌, u64_mod,
}
use nova_kv.NetworkBuffer.{
  NetworkBuffer, new_buffer, readable_bytes, append, retrieve, retrieve_all, retrieve_all_as_string,
}
use nova_kv.Resp.Encoder.{encode_error}
use nova_kv.Resp.Parser.{Parser, new_parser}
use nova_kv.Server.Pending.{Responses, find_response, emplace_response, erase_response}

-- struct Connection, without its fd.
pub record Connection : Type 0 where
  pub generation : ℕ
  pub input_buffer : NetworkBuffer
  pub output_buffer : NetworkBuffer
  pub parser : Parser
  pub closing : Bool
  pub next_request_seq : ℕ
  pub next_write_seq : ℕ
  pub pending_responses : Responses

abbrev pub new_connection : ℕ → Connection
new_connection g = record {
  generation = g;
  input_buffer = new_buffer 1024;
  output_buffer = new_buffer 1024;
  parser = new_parser;
  closing = false;
  next_request_seq = 0;
  next_write_seq = 0;
  pending_responses = [];
}

pub record CompletedTask : Type 0 where
  pub generation : ℕ
  pub seq : ℕ
  pub response : Bytes

-- One ready response goes to the output.
unfoldable pub send_ready : Connection → Bytes → Connection
send_ready c response = record c {
  output_buffer = append c.output_buffer response;
  pending_responses = erase_response c.next_write_seq c.pending_responses;
  next_write_seq = (c.next_write_seq + 1) % u64_mod;
}

-- The loop over the responses that are next, with whether any was appended. `none` means that the
-- fuel ran out; each round erases a response.
unfoldable pub drain_loop : ℕ → Connection → Bool → Option (Connection × Bool)
drain_loop zero c appended = none
drain_loop (suc fuel) c appended = elim (find_response c.next_write_seq c.pending_responses) [
  | none ↦ some (c, appended)
  | some response ↦ drain_loop fuel (send_ready c response) true
]

unfoldable pub drain_ready : Connection → Option (Connection × Bool)
drain_ready c = drain_loop (suc (length c.pending_responses)) c false

-- The next request has been parsed: its number, for the worker's task.
unfoldable pub next_request : Connection → Connection × ℕ
next_request c =
    (record c { next_request_seq = (c.next_request_seq + 1) % u64_mod }, c.next_request_seq)

-- HandleWorkerCompletions for one task of this fd: a task of an older connection is dropped.
unfoldable pub complete_task : Connection → CompletedTask → Option (Connection × Bool)
complete_task c task =
    if c.generation == task.generation
    then drain_ready (record c {
      pending_responses = emplace_response task.seq task.response c.pending_responses;
    })
    else some (c, false)

-- FailConnectionProtocol.
unfoldable pub fail_response : Bytes → Bytes
fail_response msg = (retrieve_all_as_string (encode_error (new_buffer 1024) msg)).0

unfoldable pub fail_connection_protocol : Connection → Bytes → Option (Connection × Bool)
fail_connection_protocol c msg =
    let (c1, seq) = next_request c in
    drain_ready (record c1 {
      pending_responses = emplace_response seq (fail_response msg) c1.pending_responses;
      closing = true;
      input_buffer = retrieve_all c1.input_buffer;
    })

-- HandleWrite after a write of `n` bytes.
unfoldable pub wrote : ℕ → Connection → Connection
wrote n c = record c { output_buffer = retrieve n c.output_buffer }

unfoldable pub is_connection_drained : Connection → Bool
is_connection_drained c =
    (readable_bytes c.output_buffer == 0)
    && (length c.pending_responses == 0)
    && (c.next_write_seq == c.next_request_seq)
