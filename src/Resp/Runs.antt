-- ===== src/Resp/Runs.antt =====
-- Runs of the protocol, and the theorems at concrete inputs.
use nova_kv.Prelude.{
  ℕ, ◌≡◌, refl, arith, Bytes, ascii, List, [], ◌∷◌, some, none, length, sym, append-nil,
}
use nova_kv.NetworkBuffer.{
  NetworkBuffer, new_buffer, readable_bytes, writable_bytes, peek, make_space,
  ensure_writable_bytes, copy_at, append, retrieve, retrieve_all, search_crlf,
}
use nova_kv.NetworkBuffer.Queue.{Holds}
use nova_kv.Resp.Decimal.{
  negsuc, decimal, decimal_ℤ, from_chars, from_digits, starts_with_digit, is_digit, signed,
  read_digits,
}
use nova_kv.Resp.Encoder.{encode_array, encode_elements, encode_bulk_string, encode_integer}
use nova_kv.Resp.Parser.{
  Parsed, ParseStatus, success, incomplete, error, new_parser, parse, parse_loop, after_round,
  parse_round, state_round, header_round, first_is, whole_number, set_array_size, set_bulk_len,
  on_array_size, on_bulk_len, data_round, data_len, byte_is, push_element, has_size, reset,
}
use nova_kv.Resp.Grammar.{IsArray}
use nova_kv.Resp.Complete.{parse_accepts_arrays}
use nova_kv.Resp.Chunks.{Continues, parse_in_pieces}
use nova_kv.Resp.RoundTrip.{parse-encode_array}

opened : Unit {0}
unfolding new_buffer readable_bytes writable_bytes peek make_space ensure_writable_bytes copy_at
    append retrieve retrieve_all search_crlf decimal decimal_ℤ from_chars from_digits
    starts_with_digit is_digit signed read_digits encode_array encode_elements encode_bulk_string
    encode_integer parse parse_loop after_round parse_round state_round header_round first_is
    whole_number set_array_size set_bulk_len on_array_size on_bulk_len data_round data_len byte_is
    push_element has_size reset
opened = tt

abbrev holding : Bytes → NetworkBuffer
holding s = record { buffer = s; read_index = 0; write_index = length s }

holding-Holds : (s : Bytes) → Holds (holding s) s
holding-Holds s = record {
  front = [];
  room = [];
  layout = sym (append-nil s);
  reads = refl;
  writes = omega arith;
}

abbrev status_of : List ℕ → ParseStatus
status_of s = elim (parse new_parser (holding s)) [ some r ↦ r.status | none ↦ error ]

abbrev command_of : List ℕ → List Bytes
command_of s = elim (parse new_parser (holding s)) [ some r ↦ r.command | none ↦ [] ]

parse_get : command_of (ascii "*2\r\n$3\r\nGET\r\n$1\r\na\r\nrest") ≡ ascii "GET" ∷ ascii "a" ∷ []
unfolding opened
parse_get = refl

parse_half : status_of (ascii "*2\r\n$3\r\nGE") ≡ incomplete
unfolding opened
parse_half = refl

parse_inline : status_of (ascii "PING\r\n") ≡ error
unfolding opened
parse_inline = refl

parse_null_element : command_of (ascii "*1\r\n$-1\r\n") ≡ [] ∷ []
unfolding opened
parse_null_element = refl

encode_integer_negative : peek (encode_integer (new_buffer 8) (negsuc 41)) ≡ ascii ":-42\r\n"
unfolding opened
encode_integer_negative = refl

abbrev first_part : Bytes
first_part = ascii "*1\r\n$4\r\nPI"

parse_in_pieces_example :
    (r : Parsed NetworkBuffer) × (parse new_parser (holding first_part) ≡ some r)
    × Continues (ascii "NG\r\n") r (parse new_parser (append (holding first_part) (ascii "NG\r\n")))
parse_in_pieces_example =
    parse_in_pieces new_parser (holding first_part) first_part (ascii "NG\r\n") tt
      (holding-Holds first_part)

abbrev ping : Bytes
ping = ascii "\r\n*1\r\n$4\r\nPING\r\n*"

-- What is left of the one call of Parse.
abbrev pinged : Parsed NetworkBuffer
pinged = record {
  status = success;
  command = ascii "PING" ∷ [];
  parser = new_parser;
  buffer = record (holding ping) { read_index = 16 };
}

ping_is_read : parse new_parser (holding ping) ≡ some pinged
unfolding opened
ping_is_read = refl

parse_accepts_arrays_example :
    ((r : Parsed NetworkBuffer)
      → parse new_parser (holding ping) ≡ some r
      → r.status ≡ success
      → (rest : Bytes) × IsArray r.command ping rest × Holds r.buffer rest)
    × ((command : List Bytes) (rest : Bytes)
        → IsArray command ping rest
        → (r : Parsed NetworkBuffer) × (parse new_parser (holding ping) ≡ some r)
          × (r.status ≡ success)
          × (r.command ≡ command)
          × (r.parser ≡ new_parser)
          × Holds r.buffer rest)
parse_accepts_arrays_example = parse_accepts_arrays (holding ping) ping (holding-Holds ping)

-- The bytes that were read are an array indeed.
ping-IsArray : (rest : Bytes) × IsArray (ascii "PING" ∷ []) ping rest × Holds pinged.buffer rest
ping-IsArray =
    (parse_accepts_arrays (holding ping) ping (holding-Holds ping)).0 pinged ping_is_read refl

abbrev set_command : List Bytes
set_command = ascii "SET" ∷ ascii "k" ∷ [] ∷ []

parse-encode_array_example :
    (r : Parsed NetworkBuffer) × (parse new_parser
        (append (encode_array (holding []) set_command) (ascii "*"))
      ≡ some r)
    × (r.status ≡ success)
    × (r.command ≡ set_command)
    × (r.parser ≡ new_parser)
    × Holds r.buffer (ascii "*")
parse-encode_array_example =
    parse-encode_array set_command (ascii "*") (holding []) (holding-Holds []) (omega arith)
      (omega arith, (omega arith, (omega arith, tt)))
