-- ===== src/MemTable.antt =====
-- include/MemTable.h: a skip list with its write-ahead log. The lock makes each call one step.
pub mod Replay
mod Runs
use nova_kv.Prelude.{ℕ, ◌*◌, Bool, true, Bytes, List, [], ◌∷◌, Option, none, some, ◌>>=◌}
use nova_kv.ValueRecord.{ValueType, ValueRecord}
use nova_kv.SortedMap.{Rows}
use nova_kv.Wal.{LogRecord, add_log}
use nova_kv.SkipList.{
  SkipList, new_list, get_random_level, insert_element, search_element, snapshot,
}

-- The log file's contents and the list.
pub record MemTable : Type 0 where
  pub wal : Bytes
  pub table : SkipList

-- The constructor on a log file with some contents.
unfoldable pub new_mem_table : Bytes → ℕ → MemTable
new_mem_table wal max_level = record { wal = wal; table = new_list max_level }

-- ApplyWithoutWal; `coins` are the draws for a new node.
unfoldable pub apply_without_wal : List Bool → Bytes → ValueRecord → MemTable → Option MemTable
apply_without_wal coins key value m = do
  table ← insert_element key value (get_random_level m.table.max_level coins) m.table
  some (record m { table = table })

-- Put: first the log, then the list.
unfoldable pub put : List Bool → Bytes → ValueRecord → MemTable → Option MemTable
put coins key value m =
    let wal = add_log m.wal (record { type = value.type; key = key; value = value.value }) in
    apply_without_wal coins key value (record m { wal = wal })

-- Remove: a tombstone in both.
unfoldable pub remove : List Bool → Bytes → MemTable → Option (MemTable × Bool)
remove coins key m = do
  m1 ← put coins key (record { type = ValueType.deletion; value = [] }) m
  some (m1, true)

unfoldable pub get : Bytes → MemTable → Option (Option ValueRecord)
get key m = search_element key m.table

unfoldable pub count : MemTable → ℕ
count m = m.table.node_count

unfoldable pub snapshot_rows : MemTable → Option Rows
snapshot_rows m = snapshot m.table

unfoldable pub approximate_memory_usage : MemTable → ℕ
approximate_memory_usage m = count m * 128
