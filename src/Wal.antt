-- ===== src/Wal.antt =====
-- include/WalHandler.h and src/WalHandler.cpp: the write-ahead log. A log file is its bytes;
-- `add_log` appends one record and `load_log` reads records back until the bytes end or a checksum
-- does not match. Opening, flushing and closing the stream are not modelled.
mod Total
pub mod RoundTrip
mod Runs
use nova_kv.Prelude.{
  ℕ, zero, suc, ◌+◌, ◌/◌, ◌%◌, bit_and, bit_xor, ◌==◌, ltb, leb, if◌then◌else◌, Bool, true, false,
  Bytes, List, [], ◌∷◌, ◌++◌, Option, none, some, length, take, drop, replicate, get_elem?,
  encode_le, decode_le, u32_mod,
}
use mathlib.Core.Option
use mathlib.Core.Bool.{◌||◌}
use nova_kv.ValueRecord.{ValueType, ValueRecord, type_byte, type_of_byte}

-- One entry of `crc_table`: eight rounds of the reflected polynomial.
crc_round : ℕ → ℕ
crc_round crc = bit_xor (crc / 2) (if bit_and crc 1 == 0 then 0 else 0xedb88320)

crc_rounds : ℕ → ℕ → ℕ
unfolding crc_round
crc_rounds zero crc = crc
crc_rounds (suc n) crc = crc_rounds n (crc_round crc)

crc_entry : ℕ → ℕ
unfolding crc_rounds
crc_entry i = crc_rounds 8 i

crc_loop : ℕ → Bytes → ℕ
unfolding crc_entry
crc_loop crc [] = crc
crc_loop crc (b ∷ bs) = crc_loop (bit_xor (crc / 256) (crc_entry (bit_and (bit_xor crc b) 0xff))) bs

-- CalculateCRC32, a uint32_t.
pub calculate_crc32 : Bytes → ℕ
unfolding crc_loop
calculate_crc32 bytes = bit_xor (crc_loop 0xffffffff bytes) 0xffffffff % u32_mod

-- A record as the callback of LoadLog receives it.
pub record LogRecord : Type 0 where
  pub type : ValueType
  pub key : Bytes
  pub value : Bytes

-- The body that the checksum covers: type, key length, key, value length, value. The lengths are
-- uint32_t, so a longer string is written whole behind a length that has wrapped.
pub payload : ℕ → ℕ → Bytes → ℕ → Bytes → Bytes
payload t k_len key v_len value =
    encode_le 1 t ++ (encode_le 4 k_len ++ (key ++ (encode_le 4 v_len ++ value)))

pub record_body : LogRecord → Bytes
record_body r =
    payload (type_byte r.type) (length r.key % u32_mod) r.key (length r.value % u32_mod) r.value

-- What AddLog appends to the file.
pub add_log : Bytes → LogRecord → Bytes
add_log file r = let body = record_body r in file ++ (encode_le 4 (calculate_crc32 body) ++ body)

-- An std::ifstream: the bytes that are not read yet, and the fail bit.
pub record Source : Type 0 where
  pub rest : Bytes
  pub failed : Bool

-- src.read into a variable that holds `old`. A short read stores what there is over the front of
-- it, and sets the fail bit; a failed stream stores nothing.
pub read_over : Bytes → Source → Bytes × Source
read_over old src =
    if src.failed
    then (old, src)
    else if leb (length old) (length src.rest)
    then (take (length old) src.rest, record { rest = drop (length old) src.rest; failed = false })
    else (src.rest ++ drop (length src.rest) old, record { rest = []; failed = true })

-- What the uninitialised variables `t`, `k_len` and `v_len` hold where a read does not store to
-- them. They are indeterminate in C++; each is a parameter here.
pub record Junk : Type 0 where
  pub t : Bytes
  pub k_len : Bytes
  pub v_len : Bytes

-- The fields of one record, each read whether or not the one before was.
pub record Fields : Type 0 where
  pub t : Bytes
  pub k_len : Bytes
  pub key : Bytes
  pub v_len : Bytes
  pub value : Bytes
  pub src : Source

pub read_fields : Junk → Source → Fields
read_fields junk s0 =
    let (t, s1) = read_over junk.t s0 in
    let (k_len, s2) = read_over junk.k_len s1 in
    let (key, s3) = read_over (replicate (decode_le k_len) 0) s2 in
    let (v_len, s4) = read_over junk.v_len s3 in
    let (value, s5) = read_over (replicate (decode_le v_len) 0) s4 in
    record { t = t; k_len = k_len; key = key; v_len = v_len; value = value; src = s5 }

pub fields_body : Fields → Bytes
fields_body f = f.t ++ (f.k_len ++ (f.key ++ (f.v_len ++ f.value)))

pub fields_record : Fields → LogRecord
fields_record f = record { type = type_of_byte (decode_le f.t); key = f.key; value = f.value }

-- `peek() != EOF` fails at the end of the bytes and on a failed stream.
at_end : Source → Bool
at_end src = src.failed || (length src.rest == 0)

-- The loop of LoadLog. The result is the sequence of calls of the callback; `none` means that the
-- fuel ran out.
pub load_loop : Junk → ℕ → Source → Option (List LogRecord)
load_loop junk zero src = none
load_loop junk (suc fuel) src =
    let (saved_crc, s1) = read_over (replicate 4 0) src in
    let f = read_fields junk s1 in
    let more = load_loop junk fuel f.src in
    if at_end src
    then some []
    else if s1.failed
    then some []
    else if calculate_crc32 (fields_body f) == decode_le saved_crc
    then Option.map (λ rs. fields_record f ∷ rs) more
    else some []

-- LoadLog on a file that holds `file`. Each round reads four bytes at least.
pub load_log : Junk → Bytes → Option (List LogRecord)
load_log junk file = load_loop junk (suc (length file)) (record { rest = file; failed = false })

-- The file after a sequence of AddLog calls.
unfoldable pub add_logs : Bytes → List LogRecord → Bytes
add_logs file [] = file
add_logs file (r ∷ rs) = add_logs (add_log file r) rs
