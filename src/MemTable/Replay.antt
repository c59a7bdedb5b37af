-- ===== src/MemTable/Replay.antt =====
-- include/MemTable.h with src/WalHandler.cpp: a table that is built again from its log.
use nova_kv.Prelude.{
  ℕ, ◌≡◌, ◌<◌, refl, ap, ◌∙◌, Bool, Bytes, List, [], ◌∷◌, Option, some, ◌>>=◌, length, All,
}
use nova_kv.ValueRecord.{ValueRecord}
use nova_kv.SortedMap.{Rows}
use nova_kv.Tables.Reference.{put_row}
use nova_kv.Wal.{LogRecord, Junk, add_log, add_logs, load_log}
use nova_kv.Wal.RoundTrip.{IsJunk, IsLoggable, load_log-add_logs}
use nova_kv.SkipList.{get_random_level}
use nova_kv.SkipList.Towers.{Tower}
use nova_kv.SkipList.Spelled.{rows_of, Spells}
use nova_kv.SkipList.Grown.{insert_element-Spells}
use nova_kv.SkipList.Memory.{get_random_level_bounds, snapshot-Spells, new_list-Spells}
use nova_kv.MemTable.{MemTable, new_mem_table, apply_without_wal, put, snapshot_rows}

-- A call of Put, with what is drawn for its node.
pub record Call : Type 0 where
  pub coins : List Bool
  pub entry : LogRecord

abbrev pub as_value : LogRecord → ValueRecord
as_value r = record { type = r.type; value = r.value }

-- Put after Put.
unfoldable pub puts : List Call → MemTable → Option MemTable
puts [] m = some m
puts (c ∷ cs) m = do m1 ← put c.coins c.entry.key (as_value c.entry) m; puts cs m1

-- The callback of a replay on each record, with what is drawn each time.
unfoldable pub replay : (ℕ → List Bool) → List LogRecord → MemTable → Option MemTable
replay coins [] m = some m
replay coins (r ∷ rs) m = do
  m1 ← apply_without_wal (coins (length rs)) r.key (as_value r) m
  replay coins rs m1

unfoldable pub entries : List Call → List LogRecord
entries [] = []
entries (c ∷ cs) = c.entry ∷ entries cs

-- The rows after the records, the last one on a key counting.
unfoldable pub rows_after : List LogRecord → Rows → Rows
rows_after [] rows = rows
rows_after (r ∷ rs) rows = rows_after rs (put_row r.key (as_value r) rows)

-- A table whose list spells the rows.
pub record Has (m : MemTable) (rows : Rows) : Type 0 where
  pub towers : List Tower
  pub spells : Spells m.table towers
  pub same : rows_of towers ≡ rows

apply_without_wal-Has :
    (coins : List Bool) (key : Bytes) (value : ValueRecord) (m : MemTable) (rows : Rows)
    → Has m rows
    → (m2 : MemTable) × (apply_without_wal coins key value m ≡ some m2)
      × Has m2 (put_row key value rows)
      × (m2.wal ≡ m.wal)
unfolding apply_without_wal
apply_without_wal-Has coins key value m rows has =
    let (tall, fits) = get_random_level_bounds m.table.max_level coins has.spells.some_level in
    let (l2, us, inserts, spells, same, max) =
      insert_element-Spells m.table has.towers key value (get_random_level m.table.max_level coins)
        has.spells tall fits in
    (
      record m { table = l2 },
      rw inserts refl,
      record { towers = us; spells = spells; same = same ∙ ap (put_row key value) has.same },
      refl,
    )

puts-Has :
    (cs : List Call) (m : MemTable) (rows : Rows)
    → Has m rows
    → (m2 : MemTable) × (puts cs m ≡ some m2)
      × Has m2 (rows_after (entries cs) rows)
      × (m2.wal ≡ add_logs m.wal (entries cs))
unfolding puts put entries rows_after add_logs
puts-Has [] m rows has = (m, refl, has, refl)
puts-Has (c ∷ cs) m rows has =
    let (m1, puts1, has1, wal1) =
      apply_without_wal-Has c.coins c.entry.key (as_value c.entry)
        (record m { wal = add_log m.wal c.entry }) rows
        (record { towers = has.towers; spells = has.spells; same = has.same }) in
    let (m2, puts2, has2, wal2) =
      puts-Has cs m1 (put_row c.entry.key (as_value c.entry) rows) has1 in
    (m2, rw puts1 puts2, has2, wal2 ∙ ap (λ w. add_logs w (entries cs)) wal1)

replay-Has :
    (coins : ℕ → List Bool) (rs : List LogRecord) (m : MemTable) (rows : Rows)
    → Has m rows
    → (m2 : MemTable) × (replay coins rs m ≡ some m2) × Has m2 (rows_after rs rows)
unfolding replay rows_after
replay-Has coins [] m rows has = (m, refl, has)
replay-Has coins (r ∷ rs) m rows has =
    let (m1, applies, has1, wal1) =
      apply_without_wal-Has (coins (length rs)) r.key (as_value r) m rows has in
    let (m2, replays, has2) = replay-Has coins rs m1 (put_row r.key (as_value r) rows) has1 in
    (m2, rw applies replays, has2)

new_mem_table-Has : (wal : Bytes) (max : ℕ) → 0 < max → Has (new_mem_table wal max) []
unfolding new_mem_table rows_of
new_mem_table-Has wal max h = record { towers = []; spells = new_list-Spells max h; same = refl }

-- A memory table that is lost after any Puts is had again: LoadLog on its log, and ApplyWithoutWal for
-- each record on a new table, end in a table whose iterator gives the same rows, whatever levels are
-- drawn. The log was empty before the first Put; the lengths of the keys and values are below 2^32,
-- their types are the two of the program, and the uninitialised variables of LoadLog hold anything
-- that fits them.
pub replay-puts :
    (junk : Junk) (cs : List Call) (coins : ℕ → List Bool) (wal : Bytes) (max : ℕ)
    → IsJunk junk
    → All IsLoggable (entries cs)
    → 0 < max
    → (lost again : MemTable) × (puts cs (new_mem_table [] max) ≡ some lost)
      × ((load_log junk lost.wal >>= λ rs. replay coins rs (new_mem_table wal max)) ≡ some again)
      × (rows : Rows) × (snapshot_rows lost ≡ some rows)
      × (snapshot_rows again ≡ some rows)
unfolding snapshot_rows
replay-puts junk cs coins wal max j loggable h =
    let (lost, puts_all, has, log) =
      puts-Has cs (new_mem_table [] max) [] (new_mem_table-Has [] max h) in
    let from_empty : lost.wal ≡ add_logs [] (entries cs) = unfold new_mem_table in log in
    let (again, replays, has2) =
      replay-Has coins (entries cs) (new_mem_table wal max) [] (new_mem_table-Has wal max h) in
    (
      lost,
      again,
      puts_all,
      rw from_empty (rw (load_log-add_logs junk j (entries cs) loggable) replays),
      rows_after (entries cs) [],
      snapshot-Spells lost.table has.towers has.spells ∙ ap some has.same,
      snapshot-Spells again.table has2.towers has2.spells ∙ ap some has2.same,
    )
