-- ===== src/SsTable/Builder.antt =====
-- include/SSTableBuilder.h and src/SSTableBuilder.cpp: rows are collected in blocks, and the blocks,
-- the filter, the index and the footer are appended to the file.
use nova_kv.Prelude.{
  ℕ, ◌+◌, ◌-◌, ◌%◌, leb, if◌then◌else◌, Bytes, List, [], ◌∷◌, ◌++◌, length, u64_mod,
}
use nova_kv.ValueRecord.{ValueType}
use nova_kv.SortedMap.{Rows}
use nova_kv.BloomFilter.{create_filter}
use nova_kv.SsTable.Format.{
  WritableFile, append, BlockHandle, new_handle, IndexEntry, handle_bytes, encode_to,
}
use nova_kv.SsTable.Block.{
  BlockBuilder, new_block, add_to_block, finish_block, reset_block, current_size_estimate,
  is_empty_block,
}

pub record SsTableBuilder : Type 0 where
  pub file : WritableFile
  pub data_block : BlockBuilder
  pub last_key : Bytes
  pub index_entries : List IndexEntry
  pub keys : List Bytes
  pub filter_handle : BlockHandle

unfoldable pub new_builder : WritableFile → SsTableBuilder
new_builder file = record {
  file = file;
  data_block = new_block;
  last_key = [];
  index_entries = [];
  keys = [];
  filter_handle = new_handle;
}

unfoldable pub write_data_block : SsTableBuilder → SsTableBuilder
write_data_block b =
    let (block, content) = finish_block b.data_block in
    record b {
      file = append content b.file;
      data_block = reset_block block;
      index_entries =
          b.index_entries
          ++ record {
            last_key = b.last_key;
            handle = record { offset = b.file.size; size = length content };
          }
            ∷ [];
    }

abbrev pub block_limit : ℕ
block_limit = 4096

unfoldable pub add : Bytes → Bytes → ValueType → SsTableBuilder → SsTableBuilder
add key value type b =
    let b1 =
      if leb block_limit (current_size_estimate b.data_block) then write_data_block b else b in
    record b1 {
      data_block = add_to_block key value type b1.data_block;
      keys = b1.keys ++ key ∷ [];
      last_key = key;
    }

-- The loop of WriteIndexBlock over the entries.
unfoldable pub add_entries : List IndexEntry → BlockBuilder → BlockBuilder
add_entries [] index = index
add_entries (e ∷ es) index =
    add_entries es (add_to_block e.last_key (handle_bytes e.handle) ValueType.value index)

unfoldable pub write_index_block : SsTableBuilder → SsTableBuilder
write_index_block b = record b {
  file = append (finish_block (add_entries b.index_entries new_block)).1 b.file;
}

unfoldable pub write_filter_of : List Bytes → SsTableBuilder → SsTableBuilder
write_filter_of [] b = b
write_filter_of (key ∷ keys) b =
    let filter = create_filter 10 (key ∷ keys) in
    record b {
      file = append filter b.file;
      filter_handle = record { offset = b.file.size; size = length filter };
    }

unfoldable pub write_filter_block : SsTableBuilder → SsTableBuilder
write_filter_block b = write_filter_of b.keys b

unfoldable pub finish : SsTableBuilder → SsTableBuilder
finish b =
    let b1 = if is_empty_block b.data_block then b else write_data_block b in
    let b2 = write_filter_block b1 in
    let offset = b2.file.size in
    let b3 = write_index_block b2 in
    let index : BlockHandle = record {
      offset = offset;
      size = (b3.file.size + u64_mod - offset) % u64_mod;
    } in
    record b3 {
      file =
          append (encode_to (record { index_handle = index; filter_handle = b3.filter_handle }))
            b3.file;
    }

-- The loop of BuildMinorSST and BuildL0ToL1SST over the rows.
unfoldable pub add_rows : Rows → SsTableBuilder → SsTableBuilder
add_rows [] b = b
add_rows ((k, r) ∷ rows) b = add_rows rows (add k r.value r.type b)

-- The file of a table with the rows.
unfoldable pub table_file : Rows → WritableFile → WritableFile
table_file rows file = (finish (add_rows rows (new_builder file))).file
