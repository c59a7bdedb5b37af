-- ===== src/Recovery/Latest.antt =====
-- src/RecoveryLoader.cpp: what a Get finds in the memory table after RecoverFromWals.
use mathlib.Core.Option
use nova_kv.Prelude.{
  ℕ, ◌+◌, Bool, ◌≡◌, ◌<◌, refl, sym, ap, ◌∙◌, Bytes, List, [], ◌∷◌, ◌++◌, Option, none, some,
  length, if◌then◌else◌, bytes_eq, All,
}
use nova_kv.ValueRecord.{ValueRecord}
use nova_kv.Tables.{MemOps, TableOps}
use nova_kv.Wal.{LogRecord, Junk, add_logs}
use nova_kv.Wal.RoundTrip.{IsJunk, IsLoggable, load_log_cut}
use nova_kv.Recovery.{
  add_found, value_of, apply_records, replay_file, replay_wals, recover_from_wals, new_wal, started,
  start_db,
}
use nova_kv.Compaction.{Levels, sort_numbers}
use nova_kv.Db.{Db, get, get_on_disk, search_imm, hit_in_memory}
use nova_kv.Manifest.{Manager, Faults}

-- The last record on the key, or `old`.
unfoldable pub last_on : Bytes → List LogRecord → Option ValueRecord → Option ValueRecord
last_on j [] old = old
last_on j (r ∷ rs) old = last_on j rs (if bytes_eq r.key j then some (value_of r) else old)

-- A log that was written record by record, with what a crash left of the next checksum.
pub record Log : Type 0 where
  pub records : List LogRecord
  pub torn : Bytes

pub record IsLog (l : Log) : Type 0 where
  pub records : All IsLoggable l.records
  pub torn : length l.torn < 4

unfoldable pub file_of : Option Log → Option Bytes
file_of none = none
file_of (some l) = some (add_logs [] l.records ++ l.torn)

unfoldable pub AllLogs : Option Log → Type 0
AllLogs none = Unit
AllLogs (some l) = IsLog l

unfoldable pub records_of : Option Log → List LogRecord
records_of none = []
records_of (some l) = l.records

-- The records of the logs, in the order of the numbers.
unfoldable pub all_records : (ℕ → Option Log) → List ℕ → List LogRecord
all_records logs [] = []
all_records logs (id ∷ ids) = records_of (logs id) ++ all_records logs ids

last_on-append :
    (j : Bytes) (xs ys : List LogRecord) (old : Option ValueRecord)
    → last_on j (xs ++ ys) old ≡ last_on j ys (last_on j xs old)
unfolding last_on
last_on-append j [] ys old = refl
last_on-append j (x ∷ xs) ys old = last_on-append j xs ys _

-- A record of a log is a hit in memory.
unfoldable pub in_logs_or : Bool × ValueRecord → Option ValueRecord → Bool × ValueRecord
in_logs_or other none = other
in_logs_or other (some r) = hit_in_memory r

module _ {M : Type 0} (mems : MemOps M) where
  apply_records-IsMem :
      (rs : List LogRecord) (mem : M)
      → MemOps.IsMem mems mem
      → MemOps.IsMem mems (apply_records mems rs mem)
  unfolding apply_records
  apply_records-IsMem [] mem h = h
  apply_records-IsMem (r ∷ rs) mem h =
      apply_records-IsMem rs _ (MemOps.IsMem-insert mems r.key (value_of r) mem h)

  search-apply_records :
      (j : Bytes) (rs : List LogRecord) (mem : M)
      → MemOps.IsMem mems mem
      → MemOps.search mems j (apply_records mems rs mem) ≡ last_on j rs (MemOps.search mems j mem)
  unfolding apply_records last_on
  search-apply_records j [] mem h = refl
  search-apply_records j (r ∷ rs) mem h =
      search-apply_records j rs _ (MemOps.IsMem-insert mems r.key (value_of r) mem h)
      ∙ ap (last_on j rs) (MemOps.search-insert mems j r.key (value_of r) mem h)

  apply_records-append :
      (xs ys : List LogRecord) (mem : M)
      → apply_records mems (xs ++ ys) mem ≡ apply_records mems ys (apply_records mems xs mem)
  unfolding apply_records
  apply_records-append [] ys mem = refl
  apply_records-append (x ∷ xs) ys mem = apply_records-append xs ys _

  get-search :
      {T : Type 0} (tables : TableOps T) (j : Bytes) (value : ValueRecord) (db : Db M T)
      (o : Option ValueRecord)
      → db.imm ≡ none
      → MemOps.search mems j db.mem ≡ o
      → get mems tables j value db ≡ in_logs_or (get_on_disk mems tables j value db.levels) o
  unfolding get search_imm in_logs_or
  get-search tables j value db none no_imm e = rw (e, no_imm, get, search_imm) refl
  get-search tables j value db (some r) no_imm e = rw (e, get) refl

  module _ (junk : ℕ → Junk) (junks : (id : ℕ) → IsJunk (junk id)) (logs : ℕ → Option Log)
      (h : (id : ℕ) → AllLogs (logs id)) where
    replay_file-file_of :
        (id : ℕ) (o : Option Log) (mem : M)
        → AllLogs o
        → replay_file mems (junk id) (file_of o) mem ≡ some (apply_records mems (records_of o) mem)
    unfolding replay_file file_of records_of AllLogs apply_records
    replay_file-file_of id none mem ok = refl
    replay_file-file_of id (some l) mem ok =
        ap (Option.map (λ rs. apply_records mems rs mem))
          (load_log_cut (junk id) (junks id) l.records l.torn ok.records ok.torn)

    replay_wals-all_records :
        (ids : List ℕ) (mem : M)
        → replay_wals mems junk (λ id. file_of (logs id)) ids mem
          ≡ some (apply_records mems (all_records logs ids) mem)
    unfolding replay_wals all_records apply_records
    replay_wals-all_records [] mem = refl
    replay_wals-all_records (id ∷ ids) mem =
        rw (replay_file-file_of id (logs id) mem (h id), replay_wals)
          (replay_wals-all_records ids _
            ∙ ap some
                (sym (apply_records-append (records_of (logs id)) (all_records logs ids) mem)))

    -- After a start of the database, Get answers with the last record on the key in the logs, taken
    -- in the order of their numbers, and with what the tables on disk have where no log has the key.
    -- The logs are those of the manifest and of the directory, each file is one that AddLog wrote,
    -- perhaps with less than four bytes of a cut checksum behind it, or is missing. The lengths in the
    -- records are below 2^32, their types are the two of the program, and the uninitialised variables
    -- of LoadLog hold anything that fits them.
    pub get-start_db :
        {T : Type 0} (tables : TableOps T) (io : ℕ → Faults) (found : List ℕ) (levels : Levels T)
        (m : Manager) (j : Bytes) (value : ValueRecord)
        → Option.map
            (get mems tables j value)
            (start_db mems io junk found (λ id. file_of (logs id)) levels m)
          ≡ some (
              in_logs_or (get_on_disk mems tables j value levels) (
                last_on j
                  (all_records logs (
                    sort_numbers
                      (add_found (λ i. io (2 + i)) found (new_wal io m).0).state.live_wals))
                  none))
    unfolding start_db started recover_from_wals
    get-start_db tables io found levels m j value =
        let ids =
          sort_numbers (add_found (λ i. io (2 + i)) found (new_wal io m).0).state.live_wals in
        rw (replay_wals-all_records ids (MemOps.new_table mems)) (
          ap some (
            get-search tables j value _ _ refl (
              search-apply_records j (all_records logs ids) _ (MemOps.IsMem-new_table mems)
              ∙ ap (last_on j (all_records logs ids)) (MemOps.search-new_table mems j))))
