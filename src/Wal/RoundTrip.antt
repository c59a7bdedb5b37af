-- ===== src/Wal/RoundTrip.antt =====
-- What LoadLog reads from what AddLog wrote.
use mathlib.Core.Option
use nova_kv.Prelude.{
  ℕ, zero, suc, ◌<◌, ◌≡◌, ◌≢◌, refl, sym, ap, ◌∙◌, arith, false, Bytes, List, [], ◌∷◌, ◌++◌,
  append-nil, append_assoc, Option, none, some, length, length-append, length-replicate,
  take-length-append, drop-length-append, All, encode_le, length-encode_le, decode_le-encode_le1,
  decode_le-encode_le4, u32_mod, ==_refl, le→leb,
}
use native.Mathlib.Nat.{mod-eq_of_lt, mod-lt}
use nova_kv.ValueRecord.{IsEnumerator, type_byte, type_of_byte-type_byte, type_byte_lt}
use nova_kv.Wal.Total.{load_loop_fuel}
use nova_kv.Wal.{
  LogRecord, Source, Junk, Fields, calculate_crc32, payload, record_body, add_log, add_logs,
  read_over, read_fields, fields_body, fields_record, at_end, load_loop, load_log,
}

-- Variables of the sizes of uint8_t and uint32_t.
pub record IsJunk (j : Junk) : Type 0 where
  pub t : length j.t ≡ 1
  pub k_len : length j.k_len ≡ 4
  pub v_len : length j.v_len ≡ 4

-- The type is an enumerator, and the lengths fit a uint32_t.
pub record IsLoggable (r : LogRecord) : Type 0 where
  pub type : IsEnumerator r.type
  pub key : length r.key < u32_mod
  pub value : length r.value < u32_mod

abbrev pub open_at : Bytes → Source
open_at bytes = record { rest = bytes; failed = false }

pub read_over_full :
    (old xs ys : Bytes)
    → length old ≡ length xs
    → read_over old (open_at (xs ++ ys)) ≡ (xs, open_at ys)
unfolding read_over
read_over_full old xs ys h =
    rw (h, le→leb (length xs) (length (xs ++ ys)) (omega (arith, length-append xs ys)))
      (rw (take-length-append xs ys, drop-length-append xs ys) refl)

-- The fields that `read_fields` finds in front of `rest`.
abbrev fields_of : LogRecord → Bytes → Fields
fields_of r rest = record {
  t = encode_le 1 (type_byte r.type);
  k_len = encode_le 4 (length r.key);
  key = r.key;
  v_len = encode_le 4 (length r.value);
  value = r.value;
  src = open_at rest;
}

record_body-append :
    (r : LogRecord) (rest : Bytes)
    → IsLoggable r
    → record_body r ++ rest
      ≡ encode_le 1 (type_byte r.type)
        ++ (encode_le 4 (length r.key)
            ++ (r.key ++ (encode_le 4 (length r.value) ++ (r.value ++ rest))))
unfolding record_body payload
record_body-append r rest h = rw (mod-eq_of_lt h.key, mod-eq_of_lt h.value) (simp append_assoc)

calculate_crc32_lt : (bytes : Bytes) → calculate_crc32 bytes < u32_mod
unfolding calculate_crc32
calculate_crc32_lt bytes = mod-lt _ (omega arith)

at_end-encode_le : (crc : ℕ) (rest : Bytes) → at_end (open_at (encode_le 4 crc ++ rest)) ≡ false
unfolding at_end encode_le
at_end-encode_le crc rest = ground arith

module _ (junk : Junk) (j : IsJunk junk) (r : LogRecord) (rest : Bytes) (h : IsLoggable r) where
  read_fields-record : read_fields junk (open_at (record_body r ++ rest)) ≡ fields_of r rest
  unfolding read_fields
  read_fields-record = rw (record_body-append r rest h) (
      rw (read_over_full junk.t _ _ (j.t ∙ sym (length-encode_le 1 (type_byte r.type)))) (
        rw (read_over_full junk.k_len _ _ (j.k_len ∙ sym (length-encode_le 4 (length r.key)))) (
          rw (decode_le-encode_le4 (length r.key) h.key) (
            rw (read_over_full _ r.key _ (length-replicate (length r.key) 0)) (
              rw
                (read_over_full junk.v_len _ _
                  (j.v_len ∙ sym (length-encode_le 4 (length r.value))))
                (rw (decode_le-encode_le4 (length r.value) h.value)
                  (rw (read_over_full _ r.value _ (length-replicate (length r.value) 0)) refl)))))))

  fields_body-fields_of : fields_body (fields_of r rest) ≡ record_body r
  unfolding fields_body record_body payload
  fields_body-fields_of = rw (mod-eq_of_lt h.key, mod-eq_of_lt h.value) refl

  fields_record-fields_of : fields_record (fields_of r rest) ≡ r
  unfolding fields_record
  fields_record-fields_of =
      rw (decode_le-encode_le1 (type_byte r.type) (type_byte_lt r.type h.type))
        (rw (type_of_byte-type_byte r.type h.type) refl)

  -- One round of the loop on a record that is whole.
  load_loop-record :
      (fuel : ℕ)
      → load_loop junk
          (suc fuel)
          (open_at (encode_le 4 (calculate_crc32 (record_body r)) ++ (record_body r ++ rest)))
        ≡ Option.map (λ rs. r ∷ rs) (load_loop junk fuel (open_at rest))
  unfolding load_loop
  load_loop-record fuel =
      rw (at_end-encode_le (calculate_crc32 (record_body r)) (record_body r ++ rest)) (
        rw (read_over_full _ _ _ (sym (length-encode_le 4 (calculate_crc32 (record_body r))))) (
          rw (read_fields-record) (
            rw
              (
                fields_body-fields_of,
                decode_le-encode_le4 _ (calculate_crc32_lt (record_body r)),
                ==_refl (calculate_crc32 (record_body r)),
              )
              (rw fields_record-fields_of refl))))

-- The bytes of a sequence of records.
abbrev pub frames : List LogRecord → Bytes
frames [] = []
frames (r ∷ rs) = encode_le 4 (calculate_crc32 (record_body r)) ++ (record_body r ++ frames rs)

pub add_logs-frames : (file : Bytes) (rs : List LogRecord) → add_logs file rs ≡ file ++ frames rs
unfolding add_logs
add_logs-frames file [] = sym (append-nil file)
add_logs-frames file (r ∷ rs) = add_logs-frames (add_log file r) rs ∙ step
  where
    step : add_log file r ++ frames rs ≡ file ++ frames (r ∷ rs)
    step = unfold add_log in simp append_assoc

map-map_append :
    (r : LogRecord) (rs : List LogRecord) (o : Option (List LogRecord))
    → Option.map (λ ys. r ∷ ys) (Option.map (λ ys. rs ++ ys) o)
      ≡ Option.map (λ ys. (r ∷ rs) ++ ys) o
map-map_append r rs none = refl
map-map_append r rs (some ys) = refl

map_nil : (o : Option (List LogRecord)) → o ≡ Option.map (λ ys. [] ++ ys) o
map_nil none = refl
map_nil (some ys) = refl

frames_shorter :
    (r : LogRecord) (rs : List LogRecord) (tail : Bytes) {fuel : ℕ}
    → length (frames (r ∷ rs) ++ tail) < suc fuel
    → length (frames rs ++ tail) < fuel
frames_shorter r rs tail h =
    let body = record_body r in
    let crc = calculate_crc32 body in
    omega (
      arith,
      length-append (encode_le 4 crc ++ (body ++ frames rs)) tail,
      length-append (encode_le 4 crc) (body ++ frames rs),
      length-append body (frames rs),
      length-append (frames rs) tail,
      length-encode_le 4 crc,
    )

module _ (junk : Junk) (j : IsJunk junk) where
  load_loop-frames :
      (rs : List LogRecord) (tail : Bytes) (fuel : ℕ)
      → All IsLoggable rs
      → length (frames rs ++ tail) < fuel
      → load_loop junk fuel (open_at (frames rs ++ tail))
        ≡ Option.map (λ ys. rs ++ ys) (load_loop junk (suc (length tail)) (open_at tail))
  load_loop-frames [] tail fuel h enough =
      load_loop_fuel junk fuel (suc (length tail)) (open_at tail) enough (omega arith)
      ∙ map_nil (load_loop junk (suc (length tail)) (open_at tail))
  load_loop-frames (r ∷ rs) tail zero h enough = absurd (omega arith)
  load_loop-frames (r ∷ rs) tail (suc fuel) (hr, hs) enough =
      rw (append_assoc, append_assoc)
        (load_loop-record junk j r (frames rs ++ tail) hr fuel
          ∙ ap (Option.map (λ ys. r ∷ ys))
              (load_loop-frames rs tail fuel hs (frames_shorter r rs tail enough))
          ∙ map-map_append r rs _)

  -- Whatever follows the records of a log on disk, LoadLog hands out those records first, in the
  -- order of the AddLog calls, and then what it finds in the bytes that follow. The records of the
  -- log have lengths below 2^32 and the two types of the program, and the uninitialised variables
  -- hold anything that fits them.
  pub load_log-append :
      (rs : List LogRecord) (tail : Bytes)
      → All IsLoggable rs
      → load_log junk (add_logs [] rs ++ tail) ≡ Option.map (λ ys. rs ++ ys) (load_log junk tail)
  unfolding load_log
  load_log-append rs tail h =
      rw (add_logs-frames [] rs) (load_loop-frames rs tail _ h (omega arith))

  load_log-empty : load_log junk [] ≡ some []
  unfolding load_log load_loop at_end
  load_log-empty = refl

  -- LoadLog reads back exactly the records that AddLog wrote, in order. The keys and values are
  -- strings of bytes shorter than 2^32, the types are the two of the program, and the
  -- uninitialised variables hold anything that fits them.
  pub load_log-add_logs :
      (rs : List LogRecord) → All IsLoggable rs → load_log junk (add_logs [] rs) ≡ some rs
  load_log-add_logs rs h =
      ap (load_log junk) (sym (append-nil (add_logs [] rs)))
      ∙ load_log-append rs [] h
      ∙ rw load_log-empty (ap some (append-nil rs))

  -- A tail of less than four bytes holds no record.
  load_log_short : (tail : Bytes) → length tail < 4 → load_log junk tail ≡ some []
  unfolding load_log load_loop at_end read_over
  load_log_short tail h = ground arith

  -- An append that was cut inside its checksum loses no earlier record and adds none. The records
  -- of the log have lengths below 2^32 and the two types of the program, and the uninitialised
  -- variables hold anything that fits them.
  pub load_log_cut :
      (rs : List LogRecord) (tail : Bytes)
      → All IsLoggable rs
      → length tail < 4
      → load_log junk (add_logs [] rs ++ tail) ≡ some rs
  load_log_cut rs tail h short =
      load_log-append rs tail h ∙ rw (load_log_short tail short) (ap some (append-nil rs))

  load_log_bad :
      (r : LogRecord) (crc : ℕ) (more : Bytes)
      → IsLoggable r
      → crc < u32_mod
      → crc ≢ calculate_crc32 (record_body r)
      → load_log junk (encode_le 4 crc ++ (record_body r ++ more)) ≡ some []
  unfolding load_log load_loop
  load_log_bad r crc more h small ne = rw (at_end-encode_le crc (record_body r ++ more)) (
      rw (read_over_full _ _ _ (sym (length-encode_le 4 crc))) (
        rw (read_fields-record junk j r more h) (
          rw (fields_body-fields_of junk j r more h, decode_le-encode_le4 crc small)
            (ground arith))))

  -- A record whose stored checksum is not that of its body ends the replay: the records before it
  -- are handed out, it is not, and neither is anything behind it. The records of the log have
  -- lengths below 2^32 and the two types of the program, and the uninitialised variables hold
  -- anything that fits them.
  pub load_log_corrupt :
      (rs : List LogRecord) (r : LogRecord) (crc : ℕ) (more : Bytes)
      → All IsLoggable rs
      → IsLoggable r
      → crc < u32_mod
      → crc ≢ calculate_crc32 (record_body r)
      → load_log junk (add_logs [] rs ++ (encode_le 4 crc ++ (record_body r ++ more))) ≡ some rs
  load_log_corrupt rs r crc more hs h small ne =
      load_log-append rs _ hs ∙ rw (load_log_bad r crc more h small ne) (ap some (append-nil rs))
