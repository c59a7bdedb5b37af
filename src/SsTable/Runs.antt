-- ===== src/SsTable/Runs.antt =====
-- Runs of the table files, and the theorems at concrete inputs.
use nova_kv.Prelude.{
  ◌≡◌, refl, arith, true, ascii, Bytes, [], ◌∷◌, ◌++◌, some, none, length, encode_le, bytes_lt,
}
use nova_kv.ValueRecord.{ValueType, type_byte}
use nova_kv.SortedMap.{Rows, find}
use nova_kv.BloomFilter.{
  create_filter, filter_bytes, hash_count, add_keys, set_bits, set_bit, or_at, bloom_hash,
  hash_bytes, hash_byte, char_word, delta,
}
use nova_kv.SsTable.Format.{
  BlockHandle, IsHandle, append, encode_to, handle_bytes, new_file, magic_number,
}
use nova_kv.SsTable.Block.{
  entry_bytes, add_to_block, finish_block, reset_block, current_size_estimate, is_empty_block,
  is_empty_string,
}
use nova_kv.SsTable.Builder.{
  new_builder, write_data_block, add, add_entries, write_index_block, write_filter_of,
  write_filter_block, finish, add_rows, table_file,
}
use nova_kv.SsTable.Reader.{SsTableReader, get_record, for_each, build_sst, open_table}
use nova_kv.SsTable.Built.{FitsTable, build_sst_lem}
use nova_kv.SsTable.Corrupt.{footer_bytes, open_table_refuses, wrapped_index_outside}

abbrev two_rows : Rows
two_rows =
    (ascii "a", record { type = ValueType.value; value = ascii "12" })
    ∷ (ascii "b", record { type = ValueType.deletion; value = [] })
    ∷ []

-- What a run of the builder computes with.
built : Unit {0}
unfolding append encode_to handle_bytes entry_bytes add_to_block finish_block reset_block
    current_size_estimate is_empty_block is_empty_string new_builder write_data_block add
    add_entries write_index_block write_filter_of write_filter_block finish add_rows table_file
    create_filter filter_bytes hash_count add_keys set_bits set_bit or_at bloom_hash hash_bytes
    hash_byte char_word delta encode_le type_byte
built = tt

two_rows_size : length (table_file two_rows new_file).contents ≡ 97
unfolding built
two_rows_size = refl

two_rows-FitsTable : FitsTable two_rows
unfolding bytes_lt
two_rows-FitsTable = record {
  not_empty = tt;
  sorted = ((refl, tt), (tt, tt));
  storable = (
    record { key = omega arith; value = omega arith; type = tt },
    (record { key = omega arith; value = omega arith; type = refl }, tt),
  );
  size = omega (arith, two_rows_size);
  bits = omega arith;
}

build_sst_lem_example :
    (r : SsTableReader) × (build_sst true true two_rows ≡ some (some r))
    × ((key : Bytes) → get_record key r ≡ some (find key two_rows))
    × (for_each r ≡ some two_rows)
build_sst_lem_example = build_sst_lem two_rows two_rows-FitsTable

abbrev handle : BlockHandle
handle = record { offset = 0; size = 9 }

handle-IsHandle : IsHandle handle
handle-IsHandle = record { offset = omega arith; size = omega arith }

open_table_refuses_example :
    open_table true (some (ascii "some bytes" ++ footer_bytes handle handle 7)) ≡ some none
open_table_refuses_example =
    open_table_refuses (ascii "some bytes") handle handle 7 handle-IsHandle handle-IsHandle
      (omega arith) true (omega arith)

-- The sum of the offset and the size is 2^64 + 4.
abbrev far_handle : BlockHandle
far_handle = record { offset = 0xffff_ffff_ffff_fffc; size = 8 }

far_handle-IsHandle : IsHandle far_handle
far_handle-IsHandle = record { offset = omega arith; size = omega arith }

wrapped_index_outside_example :
    open_table true (some (ascii "some bytes" ++ footer_bytes far_handle handle magic_number))
    ≡ none
wrapped_index_outside_example =
    wrapped_index_outside (ascii "some bytes") far_handle handle magic_number far_handle-IsHandle
      handle-IsHandle (omega arith) refl (omega arith) (omega arith) (omega arith) (omega arith)
