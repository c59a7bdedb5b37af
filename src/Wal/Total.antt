-- ===== src/Wal/Total.antt =====
-- src/WalHandler.cpp: the loop of LoadLog and what each of its reads takes from the file.
use nova_kv.Prelude.{
  ℕ, zero, suc, ◌+◌, ◌≤◌, ◌<◌, ◌≡◌, refl, arith, false, Bytes, List, [], ◌∷◌, some, length,
  length-drop, replicate, Bool-cases, inl, inr, decode_le, ◌==◌,
}
use nova_kv.Wal.{
  LogRecord, Source, Junk, calculate_crc32, read_over, read_fields, fields_body, fields_record,
  at_end, load_loop, load_log,
}

-- A read never gives bytes back.
rest-read_over : (old : Bytes) (s : Source) → length (read_over old s).1.rest ≤ length s.rest
unfolding read_over
rest-read_over old s = ground (arith, length-drop (length old) s.rest)

-- A read of four bytes that does not fail takes four bytes.
rest-read_four :
    (s : Source)
    → (read_over (replicate 4 0) s).1.failed ≡ false
    → length (read_over (replicate 4 0) s).1.rest + 4 ≤ length s.rest
unfolding read_over
rest-read_four s h = ground (arith, length-drop 4 s.rest)

rest-read_fields : (junk : Junk) (s : Source) → length (read_fields junk s).src.rest ≤ length s.rest
unfolding read_fields
rest-read_fields junk s0 =
    let (t, s1) = read_over junk.t s0 in
    let (k_len, s2) = read_over junk.k_len s1 in
    let (key, s3) = read_over (replicate (decode_le k_len) 0) s2 in
    let (v_len, s4) = read_over junk.v_len s3 in
    omega (
      arith,
      rest-read_over junk.t s0,
      rest-read_over junk.k_len s1,
      rest-read_over (replicate (decode_le k_len) 0) s2,
      rest-read_over junk.v_len s3,
      rest-read_over (replicate (decode_le v_len) 0) s4,
    )

-- The source after one whole record.
abbrev after : Junk → Source → Source
after junk s = (read_fields junk (read_over (replicate 4 0) s).1).src

after_shorter :
    (junk : Junk) (s : Source)
    → (read_over (replicate 4 0) s).1.failed ≡ false
    → length (after junk s).rest < length s.rest
after_shorter junk s h =
    omega (arith, rest-read_four s h, rest-read_fields junk (read_over (replicate 4 0) s).1)

-- Any fuel above the length gives one result.
pub load_loop_fuel :
    (junk : Junk) (n m : ℕ) (s : Source)
    → length s.rest < n
    → length s.rest < m
    → load_loop junk n s ≡ load_loop junk m s
unfolding load_loop
load_loop_fuel junk zero m s hn hm = absurd (omega arith)
load_loop_fuel junk (suc n) zero s hn hm = absurd (omega arith)
load_loop_fuel junk (suc n) (suc m) s hn hm =
    elim (Bool-cases (read_over (replicate 4 0) s).1.failed) [
      | inl bad ↦ rw bad refl
      | inr good ↦
          rw
            (load_loop_fuel junk n m (after junk s) (omega (arith, after_shorter junk s good))
              (omega (arith, after_shorter junk s good)))
            refl
    ]

load_loop-some :
    (junk : Junk) (n : ℕ) (s : Source)
    → length s.rest < n
    → (rs : List LogRecord) × (load_loop junk n s ≡ some rs)
unfolding load_loop
load_loop-some junk zero s h = absurd (omega arith)
load_loop-some junk (suc n) s h = elim (Bool-cases (at_end s)) [
  | inl stop ↦ ([], rw stop refl)
  | inr go ↦ elim (Bool-cases (read_over (replicate 4 0) s).1.failed) [
    | inl bad ↦ ([], rw (go, bad) refl)
    | inr good ↦
        let (rs, e) =
          load_loop-some junk n (after junk s) (omega (arith, after_shorter junk s good)) in
        elim (Bool-cases (
          calculate_crc32 (fields_body (read_fields junk (read_over (replicate 4 0) s).1))
          == decode_le (read_over (replicate 4 0) s).0)) [
            | inl ok ↦ (
              fields_record (read_fields junk (read_over (replicate 4 0) s).1) ∷ rs,
              rw (go, good, ok, e) refl,
            )
            | inr bad ↦ ([], rw (go, good, bad) refl)
          ]
  ]
]

-- LoadLog returns on every file, whatever its bytes and whatever the uninitialised variables hold.
pub load_log-terminates :
    (junk : Junk) (file : Bytes) → (rs : List LogRecord) × (load_log junk file ≡ some rs)
unfolding load_log
load_log-terminates junk file =
    load_loop-some junk (suc (length file)) (record { rest = file; failed = false }) (omega arith)
