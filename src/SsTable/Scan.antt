-- ===== src/SsTable/Scan.antt =====
-- src/SSTableReader.cpp: the loops of GetRecord and ForEach on the bytes of one block as
-- src/BlockBuilder.cpp writes them.
use native.Mathlib.Nat.{mod-eq_of_lt}
use nova_kv.Prelude.{
  ℕ, zero, suc, ◌+◌, ◌-◌, ◌%◌, ◌≡◌, ◌<◌, refl, sym, ◌∙◌, arith, ◌==◌, true, false, Bytes, [], ◌∷◌,
  ◌++◌, Option, some, length, read, encode_le, u32_mod, bytes_eq, append_assoc, length-append,
  length-encode_le, read_word-encode_le4, read_word-encode_le1, Bool-cases, inl, inr, All,
  drop-length-append,
}
use nova_kv.ValueRecord.{
  ValueType, ValueRecord, type_byte, is_value, IsEnumerator, type_of_byte-type_byte, type_byte_lt,
}
use nova_kv.SortedMap.{Rows, find}
use nova_kv.SsTable.Block.{entry_bytes}
use nova_kv.SsTable.Reader.{EntryHead, read_head, entry_size, record_of, scan_block}

-- A row that a block holds as it is: lengths of uint32_t, one of the two types, and no value on a
-- tombstone.
abbrev pub EmptyIf : ValueType → Bytes → Type 0
EmptyIf ValueType.value v = Unit
EmptyIf ValueType.deletion v = v ≡ []
EmptyIf (ValueType.other t) v = ⊥

pub record IsStorable (row : Bytes × ValueRecord) : Type 0 where
  pub key : length row.0 < u32_mod
  pub value : length row.1.value < u32_mod
  pub type : EmptyIf row.1.type row.1.value

pub EmptyIf-IsEnumerator : (t : ValueType) (v : Bytes) → EmptyIf t v → IsEnumerator t
EmptyIf-IsEnumerator ValueType.value v h = tt
EmptyIf-IsEnumerator ValueType.deletion v h = tt
EmptyIf-IsEnumerator (ValueType.other t) v h = h

-- The bytes of a block with the rows.
unfoldable pub block_bytes : Rows → Bytes
block_bytes [] = []
block_bytes ((k, r) ∷ rows) = entry_bytes k r.value r.type ++ block_bytes rows

pub block_bytes-append : (xs ys : Rows) → block_bytes (xs ++ ys) ≡ block_bytes xs ++ block_bytes ys
unfolding block_bytes
block_bytes-append [] ys = refl
block_bytes-append ((k, r) ∷ xs) ys =
    rw (block_bytes-append xs ys)
      (sym (append_assoc (entry_bytes k r.value r.type) (block_bytes xs) (block_bytes ys)))

pub length-entry_bytes :
    (k v : Bytes) (t : ValueType) → length (entry_bytes k v t) ≡ 9 + length k + length v
unfolding entry_bytes
length-entry_bytes k v t = omega (
  arith,
  length-append (encode_le 4 (length k % u32_mod))
      (k ++ (encode_le 1 (type_byte t) ++ (encode_le 4 (length v % u32_mod) ++ v))),
  length-append k (encode_le 1 (type_byte t) ++ (encode_le 4 (length v % u32_mod) ++ v)),
  length-append (encode_le 1 (type_byte t)) (encode_le 4 (length v % u32_mod) ++ v),
  length-append (encode_le 4 (length v % u32_mod)) v,
  length-encode_le 4 (length k % u32_mod),
  length-encode_le 1 (type_byte t),
  length-encode_le 4 (length v % u32_mod),
)

-- read, of a string that stands in front.
pub read-append : (xs ys : Bytes) → read (length xs) (xs ++ ys) ≡ some (xs, ys)
unfolding read
read-append [] ys = refl
read-append (x ∷ xs) ys = rw (read-append xs ys) refl

module _ (k : Bytes) (r : ValueRecord) (rest : Bytes) (h : IsStorable (k, r)) where
  pub entry_bytes-append :
      entry_bytes k r.value r.type ++ rest
      ≡ encode_le 4 (length k)
        ++ (k
            ++ (encode_le 1 (type_byte r.type)
                ++ (encode_le 4 (length r.value) ++ (r.value ++ rest))))
  unfolding entry_bytes
  entry_bytes-append = rw (mod-eq_of_lt h.key, mod-eq_of_lt h.value) (simp append_assoc)

  abbrev head : EntryHead
  head = record { key = k; type = r.type; val_len = length r.value; rest = r.value ++ rest }

  read_head-entry_bytes : read_head (entry_bytes k r.value r.type ++ rest) ≡ some head
  unfolding read_head
  read_head-entry_bytes =
      let t = EmptyIf-IsEnumerator r.type r.value h.type in
      rw entry_bytes-append (
        rw (read_word-encode_le4 (length k) _ h.key) (
          rw (read-append k _) (
            rw (read_word-encode_le1 (type_byte r.type) _ (type_byte_lt r.type t)) (
              rw (read_word-encode_le4 (length r.value) (r.value ++ rest) h.value)
                (rw (type_of_byte-type_byte r.type t) refl)))))

  entry_size-head : entry_size head ≡ length (entry_bytes k r.value r.type)
  unfolding entry_size
  entry_size-head = omega (arith, length-entry_bytes k r.value r.type)

record_of-head :
    (k v rest : Bytes) (t : ValueType)
    → EmptyIf t v
    → record_of (record { key = k; type = t; val_len = length v; rest = v ++ rest })
      ≡ some (record { type = t; value = v })
unfolding record_of is_value
record_of-head k v rest ValueType.value h = rw (read-append v rest) refl
record_of-head k v rest ValueType.deletion h = rw h refl
record_of-head k v rest (ValueType.other t) h = absurd h

-- What is left of a block behind its first entry.
left_after :
    (k : Bytes) (r : ValueRecord) (rows : Rows) (rest : Bytes)
    → IsStorable (k, r)
    → length (entry_bytes k r.value r.type ++ block_bytes rows)
        - entry_size
            (record { key = k; type = r.type; val_len = length r.value; rest = r.value ++ rest })
      ≡ length (block_bytes rows)
left_after k r rows rest h = omega (
  arith,
  entry_size-head k r rest h,
  length-append (entry_bytes k r.value r.type) (block_bytes rows),
)

not_done :
    (k v : Bytes) (t : ValueType) (rest : Bytes) → (length (entry_bytes k v t ++ rest) == 0) ≡ false
not_done k v t rest =
    ground (arith, length-append (entry_bytes k v t) rest, length-entry_bytes k v t)

-- One round of the loop of GetRecord.
scan_block-entry :
    (j k : Bytes) (r : ValueRecord) (rows : Rows) (tail : Bytes) (fuel : ℕ)
    → IsStorable (k, r)
    → scan_block j
        (suc fuel)
        (length (entry_bytes k r.value r.type ++ block_bytes rows))
        (entry_bytes k r.value r.type ++ (block_bytes rows ++ tail))
      ≡ (elim (bytes_eq k j) as (λ b. Option (Option ValueRecord)) [
        | true ↦ some (some r)
        | false ↦ scan_block j fuel (length (block_bytes rows)) (block_bytes rows ++ tail)
      ])
unfolding scan_block
scan_block-entry j k r rows tail fuel h =
    rw
      (
        not_done k r.value r.type (block_bytes rows),
        read_head-entry_bytes k r (block_bytes rows ++ tail) h,
        scan_block,
      )
      (elim (Bool-cases (bytes_eq k j)) [
        | inl same ↦ rw same (rw (record_of-head k r.value _ r.type h.type) refl)
        | inr other ↦ rw other (
            rw
              (
                left_after k r rows (block_bytes rows ++ tail) h,
                drop-length-append r.value (block_bytes rows ++ tail),
              )
              refl)
      ])

-- GetRecord's loop finds in the bytes of a block what its rows have.
pub scan_block-block_bytes :
    (j : Bytes) (rows : Rows) (tail : Bytes) (fuel : ℕ)
    → All IsStorable rows
    → length (block_bytes rows) < fuel
    → scan_block j fuel (length (block_bytes rows)) (block_bytes rows ++ tail) ≡ some (find j rows)
unfolding block_bytes find
scan_block-block_bytes j rows tail zero h less = absurd (omega arith)
scan_block-block_bytes j [] tail (suc fuel) h less = unfold scan_block in refl
scan_block-block_bytes j ((k, r) ∷ rows) tail (suc fuel) h less =
    rw (append_assoc (entry_bytes k r.value r.type) (block_bytes rows) tail) (
      scan_block-entry j k r rows tail fuel h.0 ∙ (elim (Bool-cases (bytes_eq k j)) [
        | inl same ↦ rw same refl
        | inr other ↦ rw other (
            scan_block-block_bytes j rows tail fuel h.1 (
              omega (
                arith,
                length-append (entry_bytes k r.value r.type) (block_bytes rows),
                length-entry_bytes k r.value r.type,
              )))
      ]))
