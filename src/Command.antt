-- ===== src/Command.antt =====
-- include/network/CommandExecutor.h and src/network/CommandExecutor.cpp: a command of the protocol is
-- run on the database and answered into a buffer.
pub mod Replies
mod Runs
use mathlib.Core.Option
use nova_kv.Prelude.{
  ℕ, ◌+◌, ◌-◌, Bool, true, false, ◌&&◌, Bytes, ascii, List, [], ◌∷◌, ◌++◌, Option, none, some, leb,
  if◌then◌else◌, bytes_eq,
}
use nova_kv.ValueRecord.{ValueRecord, ValueType}
use nova_kv.Tables.{MemOps, TableOps}
use nova_kv.Manifest.{Faults}
use nova_kv.NetworkBuffer.{NetworkBuffer}
use nova_kv.Resp.Encoder.{
  encode_simple_string, encode_error, encode_bulk_string, encode_null, encode_array,
}
use nova_kv.Db.{Db, get, put, new_iterator}
use nova_kv.DbIterator.{DbIterator, new_cursor, seek}
use nova_kv.DbIterator.Scan.{scan}

-- std::toupper in the "C" locale.
unfoldable pub to_upper : ℕ → ℕ
to_upper c = if leb 97 c && leb c 122 then c - 32 else c

unfoldable pub normalize_command_name : Bytes → Bytes
normalize_command_name [] = []
normalize_command_name (c ∷ s) = to_upper c ∷ normalize_command_name s

-- The answer of ExpectArgCount when the count is another.
unfoldable pub wrong_arg_count : List Bytes → NetworkBuffer → NetworkBuffer
wrong_arg_count [] b = encode_error b (ascii "wrong number of arguments for '' command")
wrong_arg_count (name ∷ arguments) b =
    encode_error b
      (ascii "wrong number of arguments for '" ++ normalize_command_name name ++ ascii "' command")

-- elements: the key and the value of every row.
unfoldable pub elements_of : List (Bytes × Bytes) → List Bytes
elements_of [] = []
elements_of ((k, v) ∷ rows) = k ∷ v ∷ elements_of rows

abbrev pub value_record : Bytes → ValueRecord
value_record v = record { type = ValueType.value; value = v }

abbrev pub deletion_record : ValueRecord
deletion_record = record { type = ValueType.deletion; value = [] }

unfoldable pub get_reply : NetworkBuffer → Bool × ValueRecord → NetworkBuffer
get_reply b (true, r) = encode_bulk_string b r.value
get_reply b (false, r) = encode_null b

module _ {M T : Type 0} (mems : MemOps M) (tables : TableOps T) where
  -- The database and the buffer after a command. `none` is a Put that waits for the background
  -- thread.
  abbrev pub Executed : Type 0
  Executed = Option (Db M T × NetworkBuffer)

  unfoldable pub answer_ok : NetworkBuffer → Option (Db M T) → Executed
  answer_ok b none = none
  answer_ok b (some db) = some (db, encode_simple_string b (ascii "OK"))

  unfoldable pub handle_set : (ℕ → Faults) → Db M T → List Bytes → NetworkBuffer → Executed
  handle_set io db (name ∷ key ∷ value ∷ []) b =
      answer_ok b (put mems tables io key (value_record value) db)
  handle_set io db command b = some (db, wrong_arg_count command b)

  unfoldable pub handle_get : Db M T → List Bytes → NetworkBuffer → Executed
  handle_get db (name ∷ key ∷ []) b =
      some (db, get_reply b (get mems tables key (value_record []) db))
  handle_get db command b = some (db, wrong_arg_count command b)

  unfoldable pub handle_del : (ℕ → Faults) → Db M T → List Bytes → NetworkBuffer → Executed
  handle_del io db (name ∷ key ∷ []) b = answer_ok b (put mems tables io key deletion_record db)
  handle_del io db command b = some (db, wrong_arg_count command b)

  unfoldable pub scan_reply : Db M T → NetworkBuffer → Option (List (Bytes × Bytes)) → Executed
  scan_reply db b none = none
  scan_reply db b (some rows) = some (db, encode_array b (elements_of rows))

  unfoldable pub handle_rscan : Db M T → List Bytes → NetworkBuffer → Executed
  handle_rscan db (name ∷ key ∷ []) b =
      scan_reply db b (scan (seek key (new_cursor (new_iterator mems tables db))))
  handle_rscan db command b = some (db, wrong_arg_count command b)

  unfoldable pub dispatch :
      (ℕ → Faults) → Db M T → Bytes → List Bytes → Bytes → NetworkBuffer → Executed
  dispatch io db cmd command name b =
      if bytes_eq cmd (ascii "SET")
      then handle_set io db command b
      else if bytes_eq cmd (ascii "GET")
      then handle_get db command b
      else if bytes_eq cmd (ascii "DEL")
      then handle_del io db command b
      else if bytes_eq cmd (ascii "RSCAN")
      then handle_rscan db command b
      else some (db, encode_error b (ascii "unknown command '" ++ name ++ ascii "'"))

  -- Execute with a database.
  unfoldable pub execute : (ℕ → Faults) → Db M T → List Bytes → NetworkBuffer → Executed
  execute io db [] b = some (db, encode_error b (ascii "empty command"))
  execute io db (name ∷ arguments) b =
      dispatch io db (normalize_command_name name) (name ∷ arguments) name b

-- Execute without one.
unfoldable pub execute_without_db : NetworkBuffer → NetworkBuffer
execute_without_db b = encode_error b (ascii "db is not initialized")
