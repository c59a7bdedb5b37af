-- ===== src/Wal/Runs.antt =====
-- Runs of the log on concrete bytes, and the theorems at concrete inputs.
use mathlib.Core.Option
use nova_kv.Prelude.{
  ◌≡◌, ◌≢◌, refl, arith, ascii, List, [], ◌∷◌, ◌++◌, some, encode_le, decode_le, All,
}
use nova_kv.ValueRecord.{ValueType, type_byte, type_of_byte}
use nova_kv.Wal.{
  LogRecord, Junk, calculate_crc32, payload, record_body, add_log, add_logs, read_over, read_fields,
  fields_body, fields_record, at_end, load_loop, load_log,
}
use nova_kv.Wal.Total.{load_log-terminates}
use nova_kv.Wal.RoundTrip.{
  IsJunk, IsLoggable, load_log-append, load_log-add_logs, load_log_cut, load_log_corrupt,
}

-- What a run computes with.
opened : Unit {0}
unfolding load_log load_loop at_end read_over read_fields fields_body fields_record add_logs add_log
    record_body payload calculate_crc32 encode_le decode_le type_byte type_of_byte
opened = tt

-- The check value of CRC-32.
crc_check : calculate_crc32 (ascii "123456789") ≡ 0xcbf43926
unfolding opened
crc_check = refl

abbrev put_a : LogRecord
put_a = record { type = ValueType.value; key = ascii "a"; value = ascii "12" }

abbrev del_a : LogRecord
del_a = record { type = ValueType.deletion; key = ascii "a"; value = [] }

abbrev zeros : Junk
zeros = record { t = 0 ∷ []; k_len = 0 ∷ 0 ∷ 0 ∷ 0 ∷ []; v_len = 0 ∷ 0 ∷ 0 ∷ 0 ∷ [] }

zeros-IsJunk : IsJunk zeros
zeros-IsJunk = record { t = refl; k_len = refl; v_len = refl }

two-IsLoggable : All IsLoggable (put_a ∷ del_a ∷ [])
two-IsLoggable = (
  record { type = tt; key = omega arith; value = omega arith },
  (record { type = tt; key = omega arith; value = omega arith }, tt),
)

load_two : load_log zeros (add_logs [] (put_a ∷ del_a ∷ [])) ≡ some (put_a ∷ del_a ∷ [])
unfolding opened
load_two = refl

-- The second record is cut inside its value length: the body that is rebuilt has another checksum.
load_torn :
    load_log zeros (add_logs [] (put_a ∷ []) ++ (1 ∷ 2 ∷ 3 ∷ 4 ∷ 2 ∷ 1 ∷ 0 ∷ 0 ∷ 0 ∷ []))
    ≡ some (put_a ∷ [])
unfolding opened
load_torn = refl

load_log-terminates_example :
    (rs : List LogRecord) × (load_log zeros (1 ∷ 2 ∷ 3 ∷ 4 ∷ 5 ∷ []) ≡ some rs)
load_log-terminates_example = load_log-terminates zeros (1 ∷ 2 ∷ 3 ∷ 4 ∷ 5 ∷ [])

load_log-append_example :
    load_log zeros (add_logs [] (put_a ∷ del_a ∷ []) ++ (7 ∷ 7 ∷ 7 ∷ 7 ∷ 1 ∷ []))
    ≡ Option.map (λ ys. (put_a ∷ del_a ∷ []) ++ ys) (load_log zeros (7 ∷ 7 ∷ 7 ∷ 7 ∷ 1 ∷ []))
load_log-append_example =
    load_log-append zeros zeros-IsJunk (put_a ∷ del_a ∷ []) (7 ∷ 7 ∷ 7 ∷ 7 ∷ 1 ∷ []) two-IsLoggable

load_log-add_logs_example :
    load_log zeros (add_logs [] (put_a ∷ del_a ∷ [])) ≡ some (put_a ∷ del_a ∷ [])
load_log-add_logs_example = load_log-add_logs zeros zeros-IsJunk (put_a ∷ del_a ∷ []) two-IsLoggable

load_log_cut_example :
    load_log zeros (add_logs [] (put_a ∷ del_a ∷ []) ++ (9 ∷ 9 ∷ 9 ∷ []))
    ≡ some (put_a ∷ del_a ∷ [])
load_log_cut_example =
    load_log_cut zeros zeros-IsJunk (put_a ∷ del_a ∷ []) (9 ∷ 9 ∷ 9 ∷ []) two-IsLoggable
      (omega arith)

crc_del_a : 5 ≢ calculate_crc32 (record_body del_a)
unfolding opened
crc_del_a = omega arith

load_log_corrupt_example :
    load_log zeros
      (add_logs [] (put_a ∷ del_a ∷ []) ++ (encode_le 4 5 ++ (record_body del_a ++ (1 ∷ []))))
    ≡ some (put_a ∷ del_a ∷ [])
load_log_corrupt_example =
    load_log_corrupt zeros zeros-IsJunk (put_a ∷ del_a ∷ []) del_a 5 (1 ∷ []) two-IsLoggable
      two-IsLoggable.1.0 (omega arith) crc_del_a
