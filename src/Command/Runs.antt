-- ===== src/Command/Runs.antt =====
-- Commands on a new database, and the theorems at concrete inputs.
use nova_kv.Prelude.{
  ℕ, ◌≡◌, refl, subst, inr, Bool, true, false, ascii, [], ◌∷◌, ◌++◌, Option, some, none, bytes_eq,
  bytes_lt, if◌then◌else◌,
}
use nova_kv.ValueRecord.{ValueRecord, IsEnumerator}
use nova_kv.SortedMap.{Rows, find}
use nova_kv.Tables.{TableOps}
use nova_kv.Tables.Reference.{row_mems, row_tables}
use nova_kv.Manifest.{Faults, no_faults}
use nova_kv.Compaction.{get_level}
use nova_kv.NetworkBuffer.{NetworkBuffer}
use nova_kv.NetworkBuffer.Queue.{Holds}
use nova_kv.Resp.Encoder.{encode_array}
use nova_kv.Db.{Db, search_imm, get, new_iterator}
use nova_kv.Db.View.{IsDb, answer}
use nova_kv.DbIterator.{DbIterator, seek}
use nova_kv.DbIterator.Scan.{scan, from_key, scan-seek}
use nova_kv.Command.{
  to_upper, normalize_command_name, elements_of, value_record, deletion_record, execute,
}
use nova_kv.Command.Replies.{
  wire_value, wire_ok, IsWritten, set_and_del, get_command, rscan_command,
}

abbrev disk : TableOps Rows
disk = row_tables (λ id. true)

abbrev new_db : Db (Rows × ℕ) Rows
new_db = record {
  mem = ((ascii "k", value_record (ascii "old")) ∷ [], 1);
  imm = none;
  levels = record { l0 = []; l1 = [] };
  manifest = record {
    state = record { next_file_number = 1; live_wals = []; sst_levels = [] };
    edits_since_checkpoint = 0;
    manifest = none;
    log = none;
  };
  active_wal_id = 1;
  imm_wal_id = 0;
  bg_compaction_scheduled = false;
}

new_db-IsDb : IsDb row_mems disk new_db
unfolding find get_level search_imm
new_db-IsDb = record {
  mem = (tt, tt);
  mem_types = λ k r e. one_record (bytes_eq (ascii "k") k) r e;
  imm = tt;
  imm_types = λ k r e. cc;
  l0 = tt;
  l0_types = λ k r e. cc;
  l1 = tt;
  l1_types = λ k r e. cc;
}
  where
    IfTyped : Option ValueRecord → Type 0
    IfTyped none = Unit
    IfTyped (some r) = IsEnumerator r.type

    one_record :
        (b : Bool) (r : ValueRecord)
        → (if b then some (value_record (ascii "old")) else none) ≡ some r
        → IsEnumerator r.type
    one_record true r e = subst IfTyped e tt
    one_record false r e = cc

abbrev io : ℕ → Faults
io n = no_faults

abbrev output : NetworkBuffer
output = record { buffer = ascii ":1\r\n"; read_index = 0; write_index = 4 }

output-Holds : Holds output (ascii ":1\r\n")
output-Holds = record { front = []; room = []; layout = refl; reads = refl; writes = refl }

set_name : normalize_command_name (ascii "Set") ≡ ascii "SET"
unfolding to_upper normalize_command_name
set_name = refl

get_name : normalize_command_name (ascii "get") ≡ ascii "GET"
unfolding to_upper normalize_command_name
get_name = refl

rscan_name : normalize_command_name (ascii "rScan") ≡ ascii "RSCAN"
unfolding to_upper normalize_command_name
rscan_name = refl

set_and_del_example :
    (normalize_command_name (ascii "Set") ≡ ascii "SET"
      → (db' : Db (Rows × ℕ) Rows) × (b' : NetworkBuffer) × (execute row_mems disk io new_db
            (ascii "Set" ∷ ascii "k" ∷ ascii "v" ∷ [])
            output
          ≡ some (db', b'))
        × Holds b' (ascii ":1\r\n" ++ wire_ok)
        × IsWritten row_mems disk (ascii "k") (value_record (ascii "v")) new_db db')
    × (normalize_command_name (ascii "Set") ≡ ascii "DEL"
        → (db' : Db (Rows × ℕ) Rows) × (b' : NetworkBuffer) × (execute row_mems disk io new_db
              (ascii "Set" ∷ ascii "k" ∷ [])
              output
            ≡ some (db', b'))
          × Holds b' (ascii ":1\r\n" ++ wire_ok)
          × IsWritten row_mems disk (ascii "k") deletion_record new_db db')
set_and_del_example =
    set_and_del row_mems disk io (ascii "Set") (ascii "k") (ascii "v") new_db new_db-IsDb (inr refl)
      output-Holds

get_command_example :
    (b' : NetworkBuffer) × (execute row_mems disk io new_db (ascii "get" ∷ ascii "k" ∷ []) output
      ≡ some (new_db, b'))
    × Holds b' (
        ascii ":1\r\n"
        ++ wire_value (answer (get row_mems disk (ascii "k") (value_record []) new_db)))
get_command_example =
    get_command row_mems disk io (ascii "get") (ascii "k") new_db get_name output-Holds

rscan_command_example :
    execute row_mems disk io new_db (ascii "rScan" ∷ ascii "a" ∷ []) output
    ≡ some (
      new_db,
      encode_array output (elements_of (from_key (ascii "a") (new_iterator row_mems disk new_db))),
    )
rscan_command_example =
    rscan_command row_mems disk io (ascii "rScan") (ascii "a") new_db output rscan_name new_db-IsDb

abbrev cursor : DbIterator
cursor = record { rows = (ascii "a", ascii "1") ∷ (ascii "c", ascii "3") ∷ []; pos = 0 }

scan-seek_example : scan (seek (ascii "b") cursor) ≡ some (from_key (ascii "b") cursor.rows)
scan-seek_example = scan-seek (ascii "b") cursor (unfold bytes_lt in ((refl, tt), (tt, tt)))
