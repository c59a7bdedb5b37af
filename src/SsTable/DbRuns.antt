-- ===== src/SsTable/DbRuns.antt =====
-- A compaction of L0 over table files, and the theorem at it.
use nova_kv.Prelude.{
  ◌≡◌, refl, ap, ◌∙◌, sym, subst, true, false, ◌≢◌, ascii, [], ◌∷◌, Option, some, none, encode_le,
  bytes_lt, bytes_eq,
}
use nova_kv.ValueRecord.{ValueType, type_byte, is_value, is_deletion}
use nova_kv.SortedMap.{Rows, try_emplace, emplace_all}
use nova_kv.Tables.{TableOps}
use nova_kv.Manifest.{no_faults, allocate_file_number}
use nova_kv.Compaction.{
  get_level, has_visible_value_in_l1, merge_tables, kept, emplace_kept, level_ids,
}
use nova_kv.Db.{Db, begin_compact}
use nova_kv.Db.Progress.{InStep, BuildsOutput, compaction_output, run_compact, compact_empties_l0}
use nova_kv.SkipList.{SkipList, new_list}
use nova_kv.SkipList.Memory.{skip_list_mems}
use nova_kv.BloomFilter.{
  create_filter, filter_bytes, hash_count, add_keys, set_bits, set_bit, or_at, bloom_hash,
  hash_bytes, hash_byte, char_word, delta,
}
use nova_kv.SsTable.Format.{append, encode_to, handle_bytes}
use nova_kv.SsTable.Block.{
  entry_bytes, add_to_block, finish_block, reset_block, current_size_estimate, is_empty_block,
  is_empty_string,
}
use nova_kv.SsTable.Builder.{
  new_builder, write_data_block, add, add_entries, write_index_block, write_filter_of,
  write_filter_block, finish, add_rows, table_file,
}
use nova_kv.SsTable.Reader.{SsTableReader, for_each}
use nova_kv.SsTable.Built.{build_sst_lem}
use nova_kv.SsTable.Interface.{
  sst_tables, fits_table, is_not_empty, is_sorted, all_below, are_storable, type_fits, no_value,
  FitsTable-fits_table, build_fitting_some, rows_or_none,
}

abbrev rows_written : Rows
rows_written =
    (ascii "a", record { type = ValueType.value; value = ascii "12" })
    ∷ (ascii "b", record { type = ValueType.deletion; value = [] })
    ∷ []

-- The tombstone has nothing to hide in L1.
abbrev rows_left : Rows
rows_left = (ascii "a", record { type = ValueType.value; value = ascii "12" }) ∷ []

-- What a run of the builder and of the compaction computes with.
built : Unit {0}
unfolding append encode_to handle_bytes entry_bytes add_to_block finish_block reset_block
    current_size_estimate is_empty_block is_empty_string new_builder write_data_block add
    add_entries write_index_block write_filter_of write_filter_block finish add_rows table_file
    create_filter filter_bytes hash_count add_keys set_bits set_bit or_at bloom_hash hash_bytes
    hash_byte char_word delta encode_le type_byte fits_table is_not_empty is_sorted all_below
    are_storable type_fits no_value bytes_lt try_emplace emplace_all get_level
    has_visible_value_in_l1 merge_tables kept emplace_kept level_ids bytes_eq is_value is_deletion
built = tt

written_fits : fits_table rows_written ≡ true
unfolding built
written_fits = refl

left_fits : fits_table rows_left ≡ true
unfolding built
left_fits = refl

abbrev tables : TableOps SsTableReader
tables = sst_tables (λ n. true) (λ n. true)

-- The table of level 0, as BuildMinorSST wrote and opened it.
abbrev reader : SsTableReader
reader = (build_sst_lem rows_written (FitsTable-fits_table rows_written written_fits)).0

abbrev one_table : Db SkipList SsTableReader
one_table = record {
  mem = new_list 16;
  imm = none;
  levels = record { l0 = reader ∷ []; l1 = [] };
  manifest = record {
    state = record { next_file_number = 7; live_wals = []; sst_levels = (7, 0) ∷ [] };
    edits_since_checkpoint = 0;
    manifest = none;
    log = none;
  };
  active_wal_id = 6;
  imm_wal_id = 0;
  bg_compaction_scheduled = false;
}

abbrev merged : Option Rows → Rows
merged o = emplace_kept tables one_table.levels (emplace_all (rows_or_none o) []) []

reader_rows : for_each reader ≡ some rows_written
reader_rows = (build_sst_lem rows_written (FitsTable-fits_table rows_written written_fits)).3

merged_rows : merged (some rows_written) ≡ rows_left
unfolding built rows_or_none
merged_rows = refl

output_rows : compaction_output tables one_table.levels ≡ rows_left
unfolding merge_tables
output_rows = ap merged reader_rows ∙ merged_rows

one_table-BuildsOutput : BuildsOutput tables no_faults one_table.manifest one_table.levels
one_table-BuildsOutput = λ full.
    subst
      (λ rows.
        TableOps.build tables (allocate_file_number no_faults one_table.manifest).1 rows ≢ none)
      (sym output_rows) (build_fitting_some _ rows_left left_fits)

one_table-InStep : InStep one_table.manifest one_table.levels
unfolding level_ids
one_table-InStep = refl

compact_empties_l0_example :
    (run_compact
      (skip_list_mems (λ n. []))
      tables
      (λ n. no_faults)
      (begin_compact (skip_list_mems (λ n. [])) tables no_faults one_table)).levels.l0
    ≡ []
compact_empties_l0_example =
    compact_empties_l0 (skip_list_mems (λ n. [])) tables no_faults (λ n. no_faults) one_table
      (λ e. cc) one_table-InStep one_table-BuildsOutput
