-- ===== src/SsTable/Lookup.antt =====
-- src/SSTableReader.cpp: the search of GetRecord through the index, and ForEach over it, on the blocks
-- that a builder has written.
use nova_kv.Prelude.{
  ℕ, suc, ◌+◌, ◌%◌, ◌≡◌, ◌<◌, refl, arith, true, false, Bytes, List, [], ◌∷◌, ◌++◌, Option, some,
  none, length, drop, u64_mod, bytes_eq, bytes_lt, append_assoc, length-append, drop-eq-length,
  Bool-cases, inl, inr, All, bytes_lt_trans, bytes_lt_total, bytes_lt_ne, bytes_eq→eq, subst,
}
use nova_kv.ValueRecord.{ValueRecord}
use nova_kv.SortedMap.{Rows, find, or_else, IsSorted, Below, find-Below, Below-trans}
use nova_kv.SsTable.Reader.{find_entry, scan_entry, rows_of_entry, rows_of_entries}
use nova_kv.SsTable.Scan.{IsStorable, block_bytes, scan_block-block_bytes}
use nova_kv.SsTable.Rows.{rows_loop-block_bytes}
use nova_kv.SsTable.Layout.{joined, blocks_bytes, last_key_of, entry_at, entries_of}
use nova_kv.SsTable.Whole.{NotEmpty}

find-append : (j : Bytes) (xs ys : Rows) → find j (xs ++ ys) ≡ or_else (find j xs) (find j ys)
unfolding find
find-append j [] ys = refl
find-append j ((k, r) ∷ xs) ys = ground (arith, find-append j xs ys)

last_key_of_above :
    (k : Bytes) (rows : Rows) → NotEmpty rows → Below k rows → bytes_lt k (last_key_of rows) ≡ true
unfolding last_key_of
last_key_of_above k [] h b = absurd h
last_key_of_above k ((i, w) ∷ []) h b = b.0
last_key_of_above k (x ∷ y ∷ rows) h b = last_key_of_above k (y ∷ rows) tt b.1

-- All keys of sorted rows are at most the last.
find_above :
    (j : Bytes) (rows : Rows)
    → IsSorted rows
    → bytes_lt (last_key_of rows) j ≡ true
    → find j rows ≡ none
unfolding find last_key_of
find_above j [] s above = refl
find_above j ((k, r) ∷ []) s above = rw (bytes_lt_ne k j above) refl
find_above j ((k, r) ∷ (i, w) ∷ rows) s above =
    rw
      (bytes_lt_ne k j (
        bytes_lt_trans k (last_key_of ((i, w) ∷ rows)) j
          (last_key_of_above k ((i, w) ∷ rows) tt s.0) above))
      (find_above j ((i, w) ∷ rows) s.1 above)

Below-append_right : (k : Bytes) (xs ys : Rows) → Below k (xs ++ ys) → Below k ys
Below-append_right k [] ys b = b
Below-append_right k (x ∷ xs) ys b = Below-append_right k xs ys b.1

IsSorted-append_left : (xs ys : Rows) → IsSorted (xs ++ ys) → IsSorted xs
IsSorted-append_left [] ys s = tt
IsSorted-append_left (x ∷ xs) ys s = (Below_left x.0 xs ys s.0, IsSorted-append_left xs ys s.1)
  where
    Below_left : (k : Bytes) (xs ys : Rows) → Below k (xs ++ ys) → Below k xs
    Below_left k [] ys b = tt
    Below_left k (x ∷ xs) ys b = (b.0, Below_left k xs ys b.1)

IsSorted-append_right : (xs ys : Rows) → IsSorted (xs ++ ys) → IsSorted ys
IsSorted-append_right [] ys s = s
IsSorted-append_right (x ∷ xs) ys s = IsSorted-append_right xs ys s.1

-- The last key of rows is below what follows them.
last_key_of-Below : (xs ys : Rows) → NotEmpty xs → IsSorted (xs ++ ys) → Below (last_key_of xs) ys
unfolding last_key_of
last_key_of-Below [] ys h s = absurd h
last_key_of-Below ((k, r) ∷ []) ys h s = s.0
last_key_of-Below (x ∷ y ∷ xs) ys h s = last_key_of-Below (y ∷ xs) ys tt s.1

-- A key that is not above the last key of the first rows is not in those behind them.
find_not_behind :
    (j : Bytes) (xs ys : Rows)
    → NotEmpty xs
    → IsSorted (xs ++ ys)
    → bytes_lt (last_key_of xs) j ≡ false
    → find j ys ≡ none
find_not_behind j xs ys h s here = elim (Bool-cases (bytes_eq (last_key_of xs) j)) [
  | inl same ↦
      find-Below j ys (
        subst (λ k. Below k ys) (bytes_eq→eq (last_key_of xs) j same) (last_key_of-Below xs ys h s))
  | inr other ↦ find-Below j ys (
      Below-trans j (last_key_of xs) ys (bytes_lt_total (last_key_of xs) j here other)
        (last_key_of-Below xs ys h s))
]

-- The file from a block on.
drop_front :
    (front : Bytes) (offset : ℕ) (rest : Bytes)
    → offset ≡ length front
    → length front < u64_mod
    → drop (offset % u64_mod) (front ++ rest) ≡ rest
drop_front front offset rest e small = drop-eq-length (offset % u64_mod) front rest (omega (arith))

regroup :
    (front block more tail : Bytes)
    → front ++ ((block ++ more) ++ tail) ≡ (front ++ block) ++ (more ++ tail)
regroup front block more tail = simp append_assoc

or_else-none : (o : Option ValueRecord) → or_else o none ≡ o
or_else-none none = refl
or_else-none (some r) = refl

in_block :
    (j : Bytes) (b : Rows) (front more tail : Bytes) (offset : ℕ)
    → offset ≡ length front
    → length front < u64_mod
    → All IsStorable b
    → scan_entry j (front ++ ((block_bytes b ++ more) ++ tail)) (some (entry_at offset b))
      ≡ some (or_else (find j b) none)
unfolding scan_entry
in_block j b front more tail offset e small ok =
    rw
      (
        drop_front front offset ((block_bytes b ++ more) ++ tail) e small,
        append_assoc (block_bytes b) more tail,
        or_else-none (find j b),
      )
      (scan_block-block_bytes j b (more ++ tail) (suc (length (block_bytes b ++ (more ++ tail)))) ok
        (omega (arith, length-append (block_bytes b) (more ++ tail))))

-- The search for a key in the index and then in the block is a search in all rows. The blocks stand
-- behind `front`, and the rows are in the order of their keys.
pub scan_entry-entries_of :
    (j : Bytes) (bs : List Rows) (front tail : Bytes) (offset : ℕ)
    → offset ≡ length front
    → length front + length (blocks_bytes bs) < u64_mod
    → All NotEmpty bs
    → All (All IsStorable) bs
    → IsSorted (joined bs)
    → scan_entry j (front ++ (blocks_bytes bs ++ tail)) (find_entry j (entries_of offset bs))
      ≡ some (find j (joined bs))
unfolding entries_of find_entry joined blocks_bytes
scan_entry-entries_of j [] front tail offset e small ne ok sorted = unfold scan_entry find in refl
scan_entry-entries_of j (b ∷ bs) front tail offset e small ne ok sorted =
    let l = length-append (block_bytes b) (blocks_bytes bs) in
    let lf = length-append front (block_bytes b) in
    elim (Bool-cases (bytes_lt (last_key_of b) j)) [
      | inl above ↦
          rw
            (
              above,
              regroup front (block_bytes b) (blocks_bytes bs) tail,
              find-append j b (joined bs),
              find_above j b (IsSorted-append_left b (joined bs) sorted) above,
            )
            (scan_entry-entries_of j bs (front ++ block_bytes b) tail
              (offset + length (block_bytes b)) (omega (arith, lf)) (omega (arith, l, lf)) ne.1 ok.1
              (IsSorted-append_right b (joined bs) sorted))
      | inr here ↦
          rw (here, find-append j b (joined bs), find_not_behind j b (joined bs) ne.0 sorted here)
            (in_block j b front (blocks_bytes bs) tail offset e (omega (arith, small)) ok.0)
    ]

rows_of_entry-block :
    (b : Rows) (front more tail : Bytes) (offset : ℕ)
    → offset ≡ length front
    → length front < u64_mod
    → All IsStorable b
    → rows_of_entry (front ++ ((block_bytes b ++ more) ++ tail)) (entry_at offset b) ≡ some b
unfolding rows_of_entry
rows_of_entry-block b front more tail offset e small ok =
    rw
      (
        drop_front front offset ((block_bytes b ++ more) ++ tail) e small,
        append_assoc (block_bytes b) more tail,
      )
      (rows_loop-block_bytes b (more ++ tail) (suc (length (block_bytes b ++ (more ++ tail)))) ok
        (omega (arith, length-append (block_bytes b) (more ++ tail))))

-- ForEach over the index hands out all rows in their order.
pub rows_of_entries-entries_of :
    (bs : List Rows) (front tail : Bytes) (offset : ℕ)
    → offset ≡ length front
    → length front + length (blocks_bytes bs) < u64_mod
    → All (All IsStorable) bs
    → rows_of_entries (front ++ (blocks_bytes bs ++ tail)) (entries_of offset bs) ≡ some (joined bs)
unfolding entries_of rows_of_entries joined blocks_bytes
rows_of_entries-entries_of [] front tail offset e small ok = refl
rows_of_entries-entries_of (b ∷ bs) front tail offset e small ok =
    let l = length-append (block_bytes b) (blocks_bytes bs) in
    let lf = length-append front (block_bytes b) in
    let ih : rows_of_entries (front ++ (blocks_bytes (b ∷ bs) ++ tail))
          (entries_of (offset + length (block_bytes b)) bs)
        ≡ some (joined bs) =
      rw (regroup front (block_bytes b) (blocks_bytes bs) tail) (
        rows_of_entries-entries_of bs (front ++ block_bytes b) tail
          (offset + length (block_bytes b)) (omega (arith, lf)) (omega (arith, l, lf)) ok.1) in
    rw (rows_of_entry-block b front (blocks_bytes bs) tail offset e (omega (arith, small)) ok.0)
      (rw ih refl)
