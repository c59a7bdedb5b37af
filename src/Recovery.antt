-- ===== src/Recovery.antt =====
-- src/RecoveryLoader.cpp: RecoverFromWals, over the numbers of the .wal files in the directory and
-- the contents of the files, and src/DBImpl.cpp: the constructor from where it has its levels.
pub mod Latest
pub mod Live
mod Runs
use mathlib.Core.Option
use nova_kv.Prelude.{ℕ, ◌+◌, false, Bytes, List, [], ◌∷◌, Option, none, some}
use nova_kv.ValueRecord.{ValueRecord}
use nova_kv.Tables.{MemOps}
use nova_kv.Wal.{LogRecord, Junk, load_log}
use nova_kv.Manifest.{Manager, Faults, allocate_file_number, add_wal_id}
use nova_kv.Compaction.{Levels, sort_numbers}
use nova_kv.Db.{Db}

-- AddWal for each number that the directory has, and what the file system does at its call.
unfoldable pub add_found : (ℕ → Faults) → List ℕ → Manager → Manager
add_found io [] m = m
add_found io (id ∷ found) m = add_found io found (add_wal_id (io id) m id).0

unfoldable pub value_of : LogRecord → ValueRecord
value_of r = record { type = r.type; value = r.value }

module _ {M : Type 0} (mems : MemOps M) where
  -- The callback of LoadLog, ApplyWithoutWal, on each record.
  unfoldable pub apply_records : List LogRecord → M → M
  apply_records [] mem = mem
  apply_records (r ∷ rs) mem = apply_records rs (MemOps.insert mems r.key (value_of r) mem)

  -- One file, where a file that is not there is skipped. `none` means that the fuel of the loop in
  -- LoadLog ran out.
  unfoldable pub replay_file : Junk → Option Bytes → M → Option M
  replay_file junk none mem = some mem
  replay_file junk (some file) mem = Option.map (λ rs. apply_records rs mem) (load_log junk file)

  unfoldable pub replay_wals : (ℕ → Junk) → (ℕ → Option Bytes) → List ℕ → M → Option M
  replay_wals junk files [] mem = some mem
  replay_wals junk files (id ∷ ids) mem = elim (replay_file (junk id) (files id) mem) [
    | none ↦ none
    | some mem1 ↦ replay_wals junk files ids mem1
  ]

  unfoldable pub recover_from_wals :
      (ℕ → Faults) → (ℕ → Junk) → List ℕ → (ℕ → Option Bytes) → Manager → M → Manager × Option M
  recover_from_wals io junk found files m mem =
      let m1 = add_found io found m in
      (m1, replay_wals junk files (sort_numbers m1.state.live_wals) mem)

-- The constructor's new log: its number, and the manager that has it.
unfoldable pub new_wal : (ℕ → Faults) → Manager → Manager × ℕ
new_wal io m = let (m1, id) = allocate_file_number (io 0) m in ((add_wal_id (io 1) m1 id).0, id)

unfoldable pub started : {M T : Type 0} → Levels T → ℕ → Manager → Option M → Option (Db M T)
started levels id m none = none
started levels id m (some mem) = some (record {
  mem = mem;
  imm = none;
  levels = levels;
  manifest = m;
  active_wal_id = id;
  imm_wal_id = 0;
  bg_compaction_scheduled = false;
})

-- The constructor of DBImpl after LoadSSTables.
unfoldable pub start_db :
    {M T : Type 0}
    → MemOps M
    → (ℕ → Faults)
    → (ℕ → Junk)
    → List ℕ
    → (ℕ → Option Bytes)
    → Levels T
    → Manager
    → Option (Db M T)
start_db mems io junk found files levels m =
    let (m1, id) = new_wal io m in
    let (m2, mem) =
      recover_from_wals mems (λ i. io (2 + i)) junk found files m1 (MemOps.new_table mems) in
    started levels id m2 mem
