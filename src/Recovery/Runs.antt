-- ===== src/Recovery/Runs.antt =====
-- The start on two logs: its theorems at concrete inputs.
use mathlib.Core.Option
use nova_kv.Prelude.{
  ℕ, ◌+◌, ◌≡◌, ◌||◌, refl, arith, true, ascii, if_cases, [], ◌∷◌, Option, none, some, ◌==◌,
  if◌then◌else◌, has_id,
}
use nova_kv.ValueRecord.{ValueType}
use nova_kv.SortedMap.{Rows}
use nova_kv.Tables.{TableOps}
use nova_kv.Tables.Reference.{row_mems, row_tables}
use nova_kv.Wal.{LogRecord, Junk}
use nova_kv.Wal.RoundTrip.{IsJunk}
use nova_kv.Manifest.{Manager, Faults, no_faults}
use nova_kv.Manifest.Codec.{empty_state}
use nova_kv.Compaction.{Levels, sort_numbers}
use nova_kv.Db.{get, get_on_disk}
use nova_kv.Recovery.{add_found, new_wal, start_db, value_of}
use nova_kv.Recovery.Latest.{Log, AllLogs, file_of, all_records, last_on, in_logs_or, get-start_db}
use nova_kv.Recovery.Live.{has_id-add_found}

abbrev put_a : LogRecord
put_a = record { type = ValueType.value; key = ascii "a"; value = ascii "1" }

abbrev del_a : LogRecord
del_a = record { type = ValueType.deletion; key = ascii "a"; value = [] }

-- The log 2 has a deletion and two bytes of a checksum, the log 5 a value.
abbrev two_logs : ℕ → Option Log
two_logs id =
    if id == 2
    then some (record { records = del_a ∷ []; torn = 7 ∷ 7 ∷ [] })
    else if id == 5
    then some (record { records = put_a ∷ []; torn = [] })
    else none

two_logs-AllLogs : (id : ℕ) → AllLogs (two_logs id)
unfolding AllLogs
two_logs-AllLogs id =
    if_cases AllLogs (id == 2) _ _
      (λ e. record {
        records = (record { type = tt; key = omega arith; value = omega arith }, tt);
        torn = omega arith;
      })
      (λ e.
        if_cases AllLogs (id == 5) _ _
          (λ f. record {
            records = (record { type = tt; key = omega arith; value = omega arith }, tt);
            torn = omega arith;
          })
          (λ f. tt))

abbrev zeros : ℕ → Junk
zeros id = record { t = 0 ∷ []; k_len = 0 ∷ 0 ∷ 0 ∷ 0 ∷ []; v_len = 0 ∷ 0 ∷ 0 ∷ 0 ∷ [] }

zeros-IsJunk : (id : ℕ) → IsJunk (zeros id)
zeros-IsJunk id = record { t = refl; k_len = refl; v_len = refl }

abbrev io : ℕ → Faults
io n = no_faults

abbrev new_manager : Manager
new_manager = record {
  state = empty_state;
  edits_since_checkpoint = 0;
  manifest = none;
  log = none;
}

abbrev tables : TableOps Rows
tables = row_tables (λ id. true)

-- A table on disk has another value of the key.
abbrev levels : Levels Rows
levels = record {
  l0 = ((ascii "a", record { type = ValueType.value; value = ascii "9" }) ∷ []) ∷ [];
  l1 = [];
}

get-start_db_example :
    Option.map
      (get row_mems tables (ascii "a") (value_of del_a))
      (start_db row_mems io zeros (5 ∷ 2 ∷ []) (λ id. file_of (two_logs id)) levels new_manager)
    ≡ some (
        in_logs_or (get_on_disk row_mems tables (ascii "a") (value_of del_a) levels) (
          last_on
            (ascii "a")
            (all_records two_logs (
              sort_numbers
                (add_found
                  (λ i. io (2 + i))
                  (5 ∷ 2 ∷ [])
                  (new_wal io new_manager).0).state.live_wals))
            none))
get-start_db_example =
    get-start_db row_mems zeros zeros-IsJunk two_logs two_logs-AllLogs tables io (5 ∷ 2 ∷ []) levels
      new_manager (ascii "a") (value_of del_a)

has_id-add_found_example :
    has_id 5 (add_found io (5 ∷ 2 ∷ []) new_manager).state.live_wals
    ≡ (has_id 5 (5 ∷ 2 ∷ []) || has_id 5 new_manager.state.live_wals)
has_id-add_found_example = has_id-add_found io (5 ∷ 2 ∷ []) new_manager 5
