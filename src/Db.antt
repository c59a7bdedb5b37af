-- ===== src/Db.antt =====
-- include/DBImpl.h and src/DBImpl.cpp: the database over its tables, with the lock scopes of the
-- background thread as steps of their own. The tables are the two interfaces of `Tables`.
pub mod View
pub mod Background
pub mod Flush
pub mod Install
pub mod Compact
pub mod Reachable
pub mod Progress
pub mod Stuck
pub mod Iterator
mod Runs
use mathlib.Core.Option
use nova_kv.Prelude.{
  ℕ, zero, suc, ◌+◌, ◌≡◌, Bool, true, false, Bytes, List, [], ◌∷◌, ◌++◌, Option, none, some, length,
  ltb, leb, if◌then◌else◌,
}
use nova_kv.ValueRecord.{ValueRecord, ValueType, is_value, is_deletion}
use nova_kv.SortedMap.{Rows, find, try_emplace, emplace_all}
use nova_kv.Tables.{MemOps, TableOps}
use nova_kv.Manifest.{Manager, Faults, allocate_file_number, add_wal_id, remove_wal_id, add_sst_id}
use nova_kv.Compaction.{
  Levels, L0ToL1Ctx, get_level, merge_tables, prepare_l0_to_l1, build_l0_to_l1_sst,
  install_l0_to_l1,
}

-- The members of DBImpl that its operations change.
pub record Db (M T : Type 0) : Type 0 where
  pub mem : M
  pub imm : Option M
  pub levels : Levels T
  pub manifest : Manager
  pub active_wal_id : ℕ
  pub imm_wal_id : ℕ
  pub bg_compaction_scheduled : Bool

abbrev pub mem_limit : ℕ
mem_limit = 10000

-- MinorCtx: the table that is flushed, the number of the new table and the WAL to drop.
pub record MinorCtx (M : Type 0) : Type 0 where
  pub flushing_imm : M
  pub new_sst_id : ℕ
  pub old_wal_id : ℕ

-- Get's two kinds of answer on a hit: a memory table overwrites `value` in either case.
unfoldable pub hit_in_memory : ValueRecord → Bool × ValueRecord
hit_in_memory r = (is_value r.type, r)

unfoldable pub hit_on_disk : ValueRecord → ValueRecord → Bool × ValueRecord
hit_on_disk value r = if is_deletion r.type then (false, value) else (true, r)

unfoldable pub is_some {ℓ} : {A : Type ℓ} → Option A → Bool
is_some none = false
is_some (some a) = true

unfoldable pub visible_rows : Rows → List (Bytes × Bytes)
visible_rows [] = []
visible_rows ((k, r) ∷ rows) =
    let rest = visible_rows rows in if is_value r.type then (k, r.value) ∷ rest else rest

-- Every operation takes what the file system does at its calls of the manifest.
module _ {M T : Type 0} (mems : MemOps M) (tables : TableOps T) where
  unfoldable pub get_on_disk : Bytes → ValueRecord → Levels T → Bool × ValueRecord
  get_on_disk k value levels = elim (get_level tables k levels.l0) [
    | some r ↦ hit_on_disk value r
    | none ↦ elim (get_level tables k levels.l1) [
      | some r ↦ hit_on_disk value r
      | none ↦ (false, value)
    ]
  ]

  unfoldable pub search_imm : Bytes → Option M → Option ValueRecord
  search_imm k none = none
  search_imm k (some m) = MemOps.search mems k m

  -- Get: what it returns, and what `value` holds after it.
  unfoldable pub get : Bytes → ValueRecord → Db M T → Bool × ValueRecord
  get k value db = elim (MemOps.search mems k db.mem) [
    | some r ↦ hit_in_memory r
    | none ↦ elim (search_imm k db.imm) [
      | some r ↦ hit_in_memory r
      | none ↦ get_on_disk k value db.levels
    ]
  ]

  -- mem_ becomes imm_, with its WAL, and a table with a new WAL takes its place.
  unfoldable pub rotate : (ℕ → Faults) → Db M T → Db M T
  rotate io db =
      let (m1, id) = allocate_file_number (io 0) db.manifest in
      record {
        mem = MemOps.new_table mems;
        imm = some (db.mem);
        levels = db.levels;
        manifest = (add_wal_id (io 1) m1 id).0;
        active_wal_id = id;
        imm_wal_id = db.active_wal_id;
        bg_compaction_scheduled = true;
      }

  -- The first part of Put, under the state lock: `none` is a wait for the background thread.
  unfoldable pub make_room : (ℕ → Faults) → Db M T → Option (Db M T)
  make_room io db =
      if ltb (MemOps.count mems db.mem) mem_limit
      then some db
      else if is_some db.imm
      then none
      else some (rotate io db)

  -- The second part of Put: mem_->Put.
  unfoldable pub write_mem : Bytes → ValueRecord → Db M T → Db M T
  write_mem k r db = record db { mem = MemOps.insert mems k r db.mem }

  -- Put, where it need not wait.
  unfoldable pub put : (ℕ → Faults) → Bytes → ValueRecord → Db M T → Option (Db M T)
  put io k r db = elim (make_room io db) [ none ↦ none | some db' ↦ some (write_mem k r db') ]

  -- MinorCompaction, the first lock scope: the context, where imm_ is a table to flush.
  unfoldable pub begin_minor_of : Faults → Db M T → Option M → Db M T × Option (MinorCtx M)
  begin_minor_of io db none = (db, none)
  begin_minor_of io db (some m) =
      let (m1, id) = allocate_file_number io db.manifest in
      (
        record db { manifest = m1 },
        some (record { flushing_imm = m; new_sst_id = id; old_wal_id = db.imm_wal_id }),
      )

  unfoldable pub begin_minor : Faults → Db M T → Db M T × Option (MinorCtx M)
  begin_minor io db = begin_minor_of io db db.imm

  -- BuildMinorSST.
  unfoldable pub build_minor_sst : MinorCtx M → Option T
  build_minor_sst ctx = TableOps.build tables ctx.new_sst_id (MemOps.rows mems ctx.flushing_imm)

  -- MinorCompaction, the second lock scope: the database, and whether L0 is to be compacted.
  unfoldable pub finish_minor : (ℕ → Faults) → MinorCtx M → Option T → Db M T → Db M T × Bool
  finish_minor io ctx none db = (db, false)
  finish_minor io ctx (some t) db =
      let l0 = db.levels.l0 ++ t ∷ [] in
      let m1 = add_sst_id (io 0) db.manifest ctx.new_sst_id 0 in
      (
        record {
          mem = db.mem;
          imm = none;
          levels = record (db.levels) { l0 = l0 };
          manifest = (remove_wal_id (io 1) m1 ctx.old_wal_id).0;
          active_wal_id = db.active_wal_id;
          imm_wal_id = 0;
          bg_compaction_scheduled = db.bg_compaction_scheduled;
        },
        leb 2 (length l0),
      )

  -- CompactL0ToL1, the first lock scope.
  unfoldable pub begin_compact : Faults → Db M T → Db M T × Option L0ToL1Ctx
  begin_compact io db =
      let (m1, ctx) = prepare_l0_to_l1 tables io db.manifest db.levels in
      (record db { manifest = m1 }, ctx)

  -- CompactL0ToL1, the second lock scope. Where there was output but no reader it is not entered.
  unfoldable pub finish_compact : (ℕ → Faults) → L0ToL1Ctx → Option T → Db M T → Db M T
  finish_compact io ctx reader db =
      let installed = (install_l0_to_l1 tables io ctx reader db.manifest db.levels).1 in
      record db { manifest = installed.0; levels = installed.1 }

  unfoldable pub finish_compact_of : (ℕ → Faults) → L0ToL1Ctx → Option T → Db M T → Db M T
  finish_compact_of io ctx (some t) db = finish_compact io ctx (some t) db
  finish_compact_of io ctx none db = if ctx.has_output then db else finish_compact io ctx none db

  unfoldable pub finish_compact_with : (ℕ → Faults) → L0ToL1Ctx → Db M T → Db M T
  finish_compact_with io ctx db = finish_compact_of io ctx (build_l0_to_l1_sst tables ctx) db

  -- NewIterator: the newest record of every key, in order; then the values among them.
  unfoldable pub rows_of_imm : Option M → Rows
  rows_of_imm none = []
  rows_of_imm (some m) = MemOps.rows mems m

  unfoldable pub seen_rows : Db M T → Rows
  seen_rows db = merge_tables tables db.levels.l1 (
      merge_tables tables db.levels.l0
        (emplace_all (rows_of_imm db.imm) (emplace_all (MemOps.rows mems db.mem) [])))

  unfoldable pub new_iterator : Db M T → List (Bytes × Bytes)
  new_iterator db = visible_rows (seen_rows db)
