-- ===== src/SsTable/Block.antt =====
-- include/BlockBuilder.h and src/BlockBuilder.cpp: the bytes of a block.
use nova_kv.Prelude.{
  ℕ, ◌+◌, ◌%◌, Bool, true, false, Bytes, [], ◌∷◌, ◌++◌, length, encode_le, u32_mod,
}
use nova_kv.ValueRecord.{ValueType, type_byte}

pub record BlockBuilder : Type 0 where
  pub buffer : Bytes
  pub counter : ℕ
  pub finished : Bool

abbrev pub new_block : BlockBuilder
new_block = record { buffer = []; counter = 0; finished = false }

-- What Add puts behind the buffer. The lengths are uint32_t.
unfoldable pub entry_bytes : Bytes → Bytes → ValueType → Bytes
entry_bytes key value type =
    encode_le 4 (length key % u32_mod)
    ++ (key ++ (encode_le 1 (type_byte type) ++ (encode_le 4 (length value % u32_mod) ++ value)))

unfoldable pub add_to_block : Bytes → Bytes → ValueType → BlockBuilder → BlockBuilder
add_to_block key value type b = record b {
  buffer = b.buffer ++ entry_bytes key value type;
  counter = b.counter + 1;
}

unfoldable pub finish_block : BlockBuilder → BlockBuilder × Bytes
finish_block b = (record b { finished = true }, b.buffer)

unfoldable pub reset_block : BlockBuilder → BlockBuilder
reset_block b = record { buffer = []; counter = 0; finished = false }

unfoldable pub current_size_estimate : BlockBuilder → ℕ
current_size_estimate b = length b.buffer

unfoldable pub is_empty_string : Bytes → Bool
is_empty_string [] = true
is_empty_string (b ∷ s) = false

unfoldable pub is_empty_block : BlockBuilder → Bool
is_empty_block b = is_empty_string b.buffer
