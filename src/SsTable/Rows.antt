-- ===== src/SsTable/Rows.antt =====
-- src/SSTableReader.cpp: the loop of ForEach on the bytes of one block.
use nova_kv.Prelude.{
  ℕ, zero, suc, ◌+◌, ◌-◌, ◌≡◌, ◌<◌, ◌≤◌, refl, arith, ◌==◌, ltb, Bytes, [], ◌∷◌, ◌++◌, some, length,
  encode_le, append_assoc, length-append, length-encode_le, decode_le-encode_le4,
  decode_le-encode_le1, All, false,
}
use nova_kv.ValueRecord.{ValueRecord, type_byte, type_of_byte-type_byte, type_byte_lt}
use nova_kv.SortedMap.{Rows}
use nova_kv.SsTable.Block.{entry_bytes}
use nova_kv.SsTable.Scan.{
  IsStorable, EmptyIf-IsEnumerator, block_bytes, length-entry_bytes, read-append,
  entry_bytes-append,
}
use nova_kv.SsTable.Reader.{read_in, read_row, rows_loop}

read_in-append :
    (xs ys : Bytes) (left : ℕ)
    → length xs ≤ left
    → read_in (length xs) (left, xs ++ ys) ≡ some (some (xs, left - length xs, ys))
unfolding read_in
read_in-append xs ys left h = rw (ltb_not left (length xs) h, read-append xs ys) refl
  where
    ltb_not : (a b : ℕ) → b ≤ a → ltb a b ≡ false
    ltb_not a b h = ground arith

read_in-encode_le :
    (w x : ℕ) (ys : Bytes) (left : ℕ)
    → w ≤ left
    → read_in w (left, encode_le w x ++ ys) ≡ some (some (encode_le w x, left - w, ys))
read_in-encode_le w x ys left h =
    rw (length-encode_le w x) at
      (read_in-append (encode_le w x) ys left (omega (arith, length-encode_le w x)))

read_row-entry_bytes :
    (k : Bytes) (r : ValueRecord) (rest : Bytes) (n : ℕ)
    → IsStorable (k, r)
    → read_row (length (entry_bytes k r.value r.type) + n) (entry_bytes k r.value r.type ++ rest)
      ≡ some (some ((k, r), n, rest))
unfolding read_row
read_row-entry_bytes k r rest n h =
    let t = EmptyIf-IsEnumerator r.type r.value h.type in
    let l = length-entry_bytes k r.value r.type in
    let left0 = length (entry_bytes k r.value r.type) + n in
    let e : left0 - 4 - length k - 1 - 4 - length r.value ≡ n = omega (arith, l) in
    rw (entry_bytes-append k r rest h) (
      rw (read_in-encode_le 4 (length k) _ left0 (omega (arith, l))) (
        rw (decode_le-encode_le4 (length k) h.key) (
          rw (read_in-append k _ (left0 - 4) (omega (arith, l))) (
            rw
              (
                read_in-encode_le 1 (type_byte r.type) _ (left0 - 4 - length k) (omega (arith, l)),
                read_in-encode_le 4 (length r.value) _ (left0 - 4 - length k - 1)
                    (omega (arith, l)),
                decode_le-encode_le4 (length r.value) h.value,
                read_in-append r.value rest (left0 - 4 - length k - 1 - 4) (omega (arith, l)),
                decode_le-encode_le1 (type_byte r.type) (type_byte_lt r.type t),
                type_of_byte-type_byte r.type t,
                e,
              )
              refl))))

-- The loop of ForEach hands out the rows of a block in their order.
pub rows_loop-block_bytes :
    (rows : Rows) (tail : Bytes) (fuel : ℕ)
    → All IsStorable rows
    → length (block_bytes rows) < fuel
    → rows_loop fuel (length (block_bytes rows)) (block_bytes rows ++ tail) ≡ some rows
unfolding block_bytes rows_loop
rows_loop-block_bytes rows tail zero h less = absurd (omega arith)
rows_loop-block_bytes [] tail (suc fuel) h less = refl
rows_loop-block_bytes ((k, r) ∷ rows) tail (suc fuel) h less =
    let l = length-append (entry_bytes k r.value r.type) (block_bytes rows) in
    let n = length-entry_bytes k r.value r.type in
    rw (append_assoc (entry_bytes k r.value r.type) (block_bytes rows) tail, l)
      (rounds (rows_loop-block_bytes rows tail fuel h.1 (omega (arith, l, n))))
  where
    rounds :
        rows_loop fuel (length (block_bytes rows)) (block_bytes rows ++ tail) ≡ some rows
        → rows_loop
            (suc fuel)
            (length (entry_bytes k r.value r.type) + length (block_bytes rows))
            (entry_bytes k r.value r.type ++ (block_bytes rows ++ tail))
          ≡ some ((k, r) ∷ rows)
    rounds ih =
        let more : (length (entry_bytes k r.value r.type) + length (block_bytes rows) == 0)
            ≡ false =
          ground (arith, length-entry_bytes k r.value r.type) in
        rw
          (
            more,
            read_row-entry_bytes k r (block_bytes rows ++ tail) (length (block_bytes rows)) h.0,
            rows_loop,
          )
          (rw ih refl)
