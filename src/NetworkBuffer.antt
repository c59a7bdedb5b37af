-- ===== src/NetworkBuffer.antt =====
-- include/network/NetworkBuffer.h and src/network/NetworkBuffer.cpp: a byte vector with a read and
-- a write index.
pub mod Queue
pub mod History
mod Runs
use nova_kv.Prelude.{
  ℕ, zero, suc, ◌+◌, ◌-◌, ◌≤◌, Bool, true, false, ◌&&◌, Bytes, List, [], ◌∷◌, ◌++◌, Option, none,
  some, length, take, drop, replicate, ltb, leb, ◌==◌, if◌then◌else◌,
}
use mathlib.Core.Option

pub record NetworkBuffer : Type 0 where
  pub buffer : Bytes
  pub read_index : ℕ
  pub write_index : ℕ

unfoldable pub new_buffer : ℕ → NetworkBuffer
new_buffer initial_size = record {
  buffer = replicate initial_size 0;
  read_index = 0;
  write_index = 0;
}

unfoldable pub readable_bytes : NetworkBuffer → ℕ
readable_bytes b = b.write_index - b.read_index

unfoldable pub writable_bytes : NetworkBuffer → ℕ
writable_bytes b = length b.buffer - b.write_index

-- The bytes in [Peek(), Peek() + ReadableBytes()).
unfoldable pub peek : NetworkBuffer → Bytes
peek b = take (b.write_index - b.read_index) (drop b.read_index b.buffer)

-- buffer_.resize(n)
unfoldable pub resize : ℕ → Bytes → Bytes
resize n s = take n s ++ replicate (n - length s) 0

-- MakeSpace: grow, or move what is not read yet to the front.
unfoldable pub make_space : ℕ → NetworkBuffer → NetworkBuffer
unfolding resize
make_space len b =
    if ltb (writable_bytes b + b.read_index) len
    then record b { buffer = resize (b.write_index + len) b.buffer }
    else record {
      buffer = peek b ++ drop (readable_bytes b) b.buffer;
      read_index = 0;
      write_index = readable_bytes b;
    }

unfoldable pub ensure_writable_bytes : ℕ → NetworkBuffer → NetworkBuffer
ensure_writable_bytes len b = if ltb (writable_bytes b) len then make_space len b else b

-- std::copy_n at `at`, within the vector.
unfoldable pub copy_at : ℕ → Bytes → Bytes → Bytes
copy_at at xs s = take at s ++ (xs ++ drop (at + length xs) s)

unfoldable pub append : NetworkBuffer → Bytes → NetworkBuffer
append b xs =
    let b1 = ensure_writable_bytes (length xs) b in
    record b1 {
      buffer = copy_at b1.write_index xs b1.buffer;
      write_index = b1.write_index + length xs;
    }

unfoldable pub retrieve_all : NetworkBuffer → NetworkBuffer
retrieve_all b = record b { read_index = 0; write_index = 0 }

unfoldable pub retrieve : ℕ → NetworkBuffer → NetworkBuffer
retrieve len b =
    if ltb len (readable_bytes b)
    then record b { read_index = b.read_index + len }
    else retrieve_all b

unfoldable pub retrieve_all_as_string : NetworkBuffer → Bytes × NetworkBuffer
retrieve_all_as_string b = (peek b, retrieve_all b)

-- The offset of the first "\r\n" in a range.
unfoldable pub search_crlf : Bytes → Option ℕ
search_crlf [] = none
search_crlf (a ∷ []) = none
search_crlf (a ∷ b ∷ s) =
    if (a == 13) && (b == 10) then some 0 else Option.map suc (search_crlf (b ∷ s))

unfoldable pub find_crlf : NetworkBuffer → Option ℕ
find_crlf b = search_crlf (peek b)

-- ReadFromFd after a readv that put `received`, at most what is writable and 65536 bytes more, into
-- the two vectors. A failed readv changes nothing.
unfoldable pub read_from_fd : NetworkBuffer → Option Bytes → NetworkBuffer
read_from_fd b none = b
read_from_fd b (some received) =
    let writable = writable_bytes b in
    let stored = record b { buffer = copy_at b.write_index (take writable received) b.buffer } in
    if leb (length received) writable
    then record stored { write_index = b.write_index + length received }
    else append (record stored { write_index = length b.buffer }) (drop writable received)
