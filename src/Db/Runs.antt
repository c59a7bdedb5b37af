-- ===== src/Db/Runs.antt =====
-- Runs of the database over the plainest tables, and the theorems at concrete inputs.
use nova_kv.Prelude.{
  set_id, erase_id, has_id, insert_id, remove_id, bytes_eq, bytes_lt, ℕ, ◌≡◌, refl, arith, Bool,
  true, false, Bytes, ascii, [], ◌∷◌, subst, Option, some, none, if◌then◌else◌,
}
use nova_kv.ValueRecord.{ValueRecord, ValueType, is_value, is_deletion, IsEnumerator}
use nova_kv.SortedMap.{Rows, find, try_emplace, emplace_all}
use nova_kv.Tables.{TableOps}
use nova_kv.Tables.Reference.{put_row, row_mems, row_tables}
use nova_kv.Manifest.{Manager, Faults, no_faults}
use nova_kv.Compaction.{
  get_level, has_visible_value_in_l1, merge_tables, kept, emplace_kept, empty_ctx, output_ctx,
  prepare_l0_to_l1, build_at, build_l0_to_l1_sst, consume_l0, installed_with, install_l0_to_l1,
  is_empty, remove_ssts, same_numbers, id_of, level_ids, insert_number, sort_numbers,
}
use nova_kv.Db.{
  Db, MinorCtx, get, hit_in_memory, hit_on_disk, get_on_disk, search_imm, is_some, rotate,
  make_room, write_mem, begin_minor_of, begin_minor, build_minor_sst, finish_minor, begin_compact,
  finish_compact, finish_compact_of, finish_compact_with, seen_rows, rows_of_imm, visible_rows,
  new_iterator,
}
use nova_kv.Db.View.{IsDb, answer}
use nova_kv.Db.Background.{
  waiting, flushing, System, bg_step, rest, after_minor, after_begin_minor, after_begin_compact,
  bg_step_from, Reach, opens, makes_room, writes, works,
}
use nova_kv.Db.Reachable.{after_writes, get-Reach}
use nova_kv.Db.Iterator.{value_at, IsAscending, new_iterator-get}
use nova_kv.Db.Stuck.{failed_flush_blocks_puts}

abbrev Mem : Type 0
Mem = Rows × ℕ

abbrev plain_manager : Manager
plain_manager = record {
  state = record { next_file_number = 3; live_wals = []; sst_levels = [] };
  edits_since_checkpoint = 0;
  manifest = none;
  log = none;
}

abbrev all_build : TableOps Rows
all_build = row_tables (λ id. true)

abbrev live : Bytes → ValueRecord
live v = record { type = ValueType.value; value = v }

abbrev tombstone : ValueRecord
tombstone = record { type = ValueType.deletion; value = [] }

-- A full memory table, nothing in imm_ and no tables on disk.
abbrev start : Db Mem Rows
start = record {
  mem = ((ascii "a", live (ascii "1")) ∷ [], 10000);
  imm = none;
  levels = record { l0 = []; l1 = [] };
  manifest = plain_manager;
  active_wal_id = 3;
  imm_wal_id = 0;
  bg_compaction_scheduled = false;
}

start-IsDb : (tables : TableOps Rows) → IsDb row_mems tables start
unfolding find get_level search_imm
start-IsDb tables = record {
  mem = (tt, tt);
  mem_types = λ k r e. one_record (bytes_eq (ascii "a") k) r e;
  imm = tt;
  imm_types = λ k r e. cc;
  l0 = tt;
  l0_types = λ k r e. cc;
  l1 = tt;
  l1_types = λ k r e. cc;
}
  where
    IfTyped : Option ValueRecord → Type 0
    IfTyped none = Unit
    IfTyped (some r) = IsEnumerator r.type

    one_record :
        (b : Bool) (r : ValueRecord)
        → (if b then some (live (ascii "1")) else none) ≡ some r
        → IsEnumerator r.type
    one_record true r e = subst IfTyped e tt
    one_record false r e = cc

abbrev io : ℕ → Faults
io n = no_faults

opened : Unit {0}
unfolding make_room is_some rotate write_mem begin_minor_of begin_minor build_minor_sst finish_minor
    begin_compact finish_compact finish_compact_of finish_compact_with bg_step bg_step_from rest
    after_minor after_begin_minor after_begin_compact get hit_in_memory hit_on_disk get_on_disk
    search_imm seen_rows rows_of_imm visible_rows new_iterator find put_row try_emplace emplace_all
    get_level has_visible_value_in_l1 merge_tables kept emplace_kept empty_ctx output_ctx
    prepare_l0_to_l1 build_at build_l0_to_l1_sst consume_l0 installed_with install_l0_to_l1 is_empty
    remove_ssts same_numbers id_of level_ids insert_number sort_numbers is_value is_deletion
    bytes_eq bytes_lt set_id erase_id has_id insert_id remove_id
opened = tt

-- The full table is rotated out and flushed, while "b" is written and "a" is deleted.
abbrev step : System Mem Rows → System Mem Rows
step s = bg_step row_mems all_build io s

abbrev write : Bytes → ValueRecord → System Mem Rows → System Mem Rows
write k r s = record s { db = write_mem row_mems all_build k r s.db }

abbrev rotated : System Mem Rows
rotated = record { db = rotate row_mems all_build io start; bg = waiting }

abbrev with_b : System Mem Rows
with_b = step (write (ascii "b") (live (ascii "2")) (step rotated))

abbrev without_a : System Mem Rows
without_a = write (ascii "a") tombstone with_b

flushed_a : answer (get row_mems all_build (ascii "a") tombstone with_b.db) ≡ some (ascii "1")
unfolding opened
flushed_a = refl

one_table : with_b.db.levels.l0 ≡ ((ascii "a", live (ascii "1")) ∷ []) ∷ []
unfolding opened
one_table = refl

deleted_a : answer (get row_mems all_build (ascii "a") tombstone without_a.db) ≡ none
unfolding opened
deleted_a = refl

rows_left : new_iterator row_mems all_build without_a.db ≡ (ascii "b", ascii "2") ∷ []
unfolding opened
rows_left = refl

without_a-Reach :
    Reach row_mems all_build start
      ((ascii "a", tombstone) ∷ (ascii "b", live (ascii "2")) ∷ [])
      without_a
unfolding opened
without_a-Reach =
    writes (ascii "a") tombstone
      (works io (
        writes (ascii "b") (live (ascii "2"))
          (works io (makes_room io (rotate row_mems all_build io start) opens refl)) refl tt))
      refl tt

get-Reach_example :
    answer (get row_mems all_build (ascii "a") tombstone without_a.db)
    ≡ after_writes
        (find (ascii "a") ((ascii "a", tombstone) ∷ (ascii "b", live (ascii "2")) ∷ []))
        (answer (get row_mems all_build (ascii "a") tombstone start))
get-Reach_example =
    get-Reach row_mems all_build start ((ascii "a", tombstone) ∷ (ascii "b", live (ascii "2")) ∷ [])
      without_a (ascii "a") tombstone (start-IsDb all_build) without_a-Reach

new_iterator-get_example :
    IsAscending (new_iterator row_mems all_build start)
    × (value_at (ascii "a") (new_iterator row_mems all_build start)
        ≡ answer (get row_mems all_build (ascii "a") tombstone start))
new_iterator-get_example =
    new_iterator-get row_mems all_build start (ascii "a") tombstone (start-IsDb all_build)

-- No table can be built.
abbrev none_build : TableOps Rows
none_build = row_tables (λ id. false)

abbrev full : Db Mem Rows
full = record start { imm = some ((ascii "a", live (ascii "0")) ∷ [], 10000) }

abbrev full_ctx : MinorCtx Mem
full_ctx = record {
  flushing_imm = ((ascii "a", live (ascii "0")) ∷ [], 10000);
  new_sst_id = 5;
  old_wal_id = 2;
}

full_fails : build_minor_sst row_mems none_build full_ctx ≡ none
unfolding build_minor_sst
full_fails = refl

failed_flush_blocks_puts_example :
    let s = bg_step row_mems none_build io (record { db = full; bg = flushing full_ctx }) in
    ((later : ℕ → Faults) → make_room row_mems none_build later s.db ≡ none)
    × ((later : ℕ → Faults) → bg_step row_mems none_build later s ≡ s)
failed_flush_blocks_puts_example =
    failed_flush_blocks_puts row_mems none_build io full_ctx full refl full_fails (omega arith)
