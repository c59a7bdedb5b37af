-- ===== src/SsTable/Built.antt =====
-- src/CompactionEngine.cpp: BuildMinorSST and BuildL0ToL1SST over src/SSTableBuilder.cpp and
-- src/SSTableReader.cpp: a table is written and opened again.
use nova_kv.Prelude.{
  ℕ, suc, ◌+◌, ◌*◌, ◌≡◌, ◌<◌, refl, sym, ap, ◌∙◌, arith, not, ◌&&◌, Bool, true, false, Bytes, List,
  [], ◌∷◌, ◌++◌, some, none, length, u32_mod, u64_mod, length-append, Bool-cases, inl, inr, All,
  subst, bytes_eq, bytes_eq→eq,
}
use native.Mathlib.Nat.{mod-lt}
use nova_kv.SortedMap.{Rows, find, IsSorted}
use nova_kv.BloomFilter.{key_may_match}
use nova_kv.BloomFilter.Members.{members_match}
use nova_kv.SsTable.Format.{new_file}
use nova_kv.SsTable.Block.{is_empty_string}
use nova_kv.SsTable.Builder.{table_file}
use nova_kv.SsTable.Reader.{SsTableReader, get_record, for_each, has_entries, build_sst}
use nova_kv.SsTable.Scan.{IsStorable, block_bytes}
use nova_kv.SsTable.Layout.{joined, blocks_bytes, keys_of, last_key_of, entries_of}
use nova_kv.SsTable.Whole.{NotEmpty, filter_of, table_bytes, table_file_lem}
use nova_kv.SsTable.Opened.{IsIndexed, opened, length-table_bytes, open_table-table_bytes}
use nova_kv.SsTable.Lookup.{scan_entry-entries_of, rows_of_entries-entries_of}

-- Rows that a table file holds: some, in the order of their keys, each storable, in a file whose size
-- and whose filter's number of bits are size_t.
pub record FitsTable (rows : Rows) : Type 0 where
  pub not_empty : NotEmpty rows
  pub sorted : IsSorted rows
  pub storable : All IsStorable rows
  pub size : length (table_file rows new_file).contents < u64_mod
  pub bits : length rows * 10 + 7 < u64_mod

All-joined : (bs : List Rows) → All IsStorable (joined bs) → All (All IsStorable) bs
unfolding joined
All-joined [] h = tt
All-joined (b ∷ bs) h = (All_left b (joined bs) h, All-joined bs (All_right b (joined bs) h))
  where
    All_left : (xs ys : Rows) → All IsStorable (xs ++ ys) → All IsStorable xs
    All_left [] ys h = tt
    All_left (x ∷ xs) ys h = (h.0, All_left xs ys h.1)

    All_right : (xs ys : Rows) → All IsStorable (xs ++ ys) → All IsStorable ys
    All_right [] ys h = h
    All_right (x ∷ xs) ys h = All_right xs ys h.1

last_key_of-small : (b : Rows) → NotEmpty b → All IsStorable b → length (last_key_of b) < u32_mod
unfolding last_key_of
last_key_of-small [] h ok = absurd h
last_key_of-small ((k, r) ∷ []) h ok = ok.0.key
last_key_of-small (x ∷ y ∷ b) h ok = last_key_of-small (y ∷ b) tt ok.1

entries_of-IsIndexed :
    (bs : List Rows) (offset : ℕ)
    → All NotEmpty bs
    → All (All IsStorable) bs
    → length (blocks_bytes bs) < u64_mod
    → All IsIndexed (entries_of offset bs)
unfolding entries_of blocks_bytes
entries_of-IsIndexed [] offset ne ok small = tt
entries_of-IsIndexed (b ∷ bs) offset ne ok small =
    let l = length-append (block_bytes b) (blocks_bytes bs) in
    (
      record {
        last_key = last_key_of-small b ne.0 ok.0;
        handle = record { offset = mod-lt offset (omega arith); size = omega (arith, l) };
      },
      entries_of-IsIndexed bs (offset + length (block_bytes b)) ne.1 ok.1 (omega (arith, l)),
    )

has_entries-entries_of :
    (bs : List Rows) (offset : ℕ) → NotEmpty (joined bs) → has_entries (entries_of offset bs) ≡ true
unfolding entries_of joined has_entries
has_entries-entries_of [] offset h = absurd h
has_entries-entries_of (b ∷ bs) offset h = refl

length-keys_of : (rows : Rows) → length (keys_of rows) ≡ length rows
unfolding keys_of
length-keys_of [] = refl
length-keys_of ((k, r) ∷ rows) = ap suc (length-keys_of rows)

-- A key that every match test of a list refutes is not in the rows.
find_no_match :
    (j filter : Bytes) (rows : Rows)
    → All (λ key. key_may_match key filter ≡ true) (keys_of rows)
    → key_may_match j filter ≡ false
    → find j rows ≡ none
unfolding keys_of find
find_no_match j filter [] all h = refl
find_no_match j filter ((k, r) ∷ rows) all h =
    rw (other (bytes_eq k j) refl) (find_no_match j filter rows all.1 h)
  where
    other : (b : Bool) → bytes_eq k j ≡ b → bytes_eq k j ≡ false
    other false e = e
    other true e = let same = bytes_eq→eq k j e in cc

-- GetRecord and ForEach on the opened file of blocks.
module _ (bs : List Rows) (ne : All NotEmpty bs) (ok : All (All IsStorable) bs)
    (sorted : IsSorted (joined bs)) (small : length (table_bytes bs) < u64_mod)
    (bits : length (joined bs) * 10 + 7 < u64_mod) where
  data_small : length {A = ℕ} [] + length (blocks_bytes bs) < u64_mod
  data_small = omega (arith, length-table_bytes bs)

  get_record-opened : (j : Bytes) → get_record j (opened bs) ≡ some (find j (joined bs))
  unfolding get_record opened
  get_record-opened j =
      elim (Bool-cases
        (not (is_empty_string (filter_of bs)) && not (key_may_match j (filter_of bs)))) [
          | inl blocked ↦
              rw blocked
                (rw (find_no_match j (filter_of bs) (joined bs) matches (no_match blocked)) refl)
          | inr searched ↦
              rw searched (
                unfold table_bytes in
                scan_entry-entries_of j bs [] _ 0 refl data_small ne ok sorted)
        ]
    where
      matches : All (λ key. key_may_match key (filter_of bs) ≡ true) (keys_of (joined bs))
      matches =
          unfold filter_of in
          members_match 10 (keys_of (joined bs)) (rw (length-keys_of (joined bs)) bits)

      no_match :
          (not (is_empty_string (filter_of bs)) && not (key_may_match j (filter_of bs))) ≡ true
          → key_may_match j (filter_of bs) ≡ false
      no_match h = ground arith

  for_each-opened : for_each (opened bs) ≡ some (joined bs)
  unfolding for_each opened table_bytes
  for_each-opened = rows_of_entries-entries_of bs [] _ 0 refl data_small ok

-- A table of rows that fit is built and opened, GetRecord then finds for every key what the rows have
-- and nothing else, and ForEach hands out the rows in their order. The path is free, fstat and mmap
-- succeed, and so does every write; the reader reads nothing outside of the file.
pub build_sst_lem :
    (rows : Rows)
    → FitsTable rows
    → (r : SsTableReader) × (build_sst true true rows ≡ some (some r))
      × ((key : Bytes) → get_record key r ≡ some (find key rows))
      × (for_each r ≡ some rows)
unfolding build_sst
build_sst_lem rows fits =
    let t = table_file_lem rows fits.not_empty in
    let sorted = subst IsSorted (sym t.all) fits.sorted in
    let ok = All-joined t.blocks (subst (All IsStorable) (sym t.all) fits.storable) in
    let small = subst (λ s. length s < u64_mod) t.contents fits.size in
    let bits = subst (λ (m : Rows). length m * 10 + 7 < u64_mod) (sym t.all) fits.bits in
    let within = data_small t.blocks t.not_empty ok sorted small bits in
    (
      opened t.blocks,
      rw t.contents (
          open_table-table_bytes t.blocks small
            (entries_of-IsIndexed t.blocks 0 t.not_empty ok (omega (arith, within)))
            (has_entries-entries_of t.blocks 0 (subst NotEmpty (sym t.all) fits.not_empty))),
      λ key.
          get_record-opened t.blocks t.not_empty ok sorted small bits key
          ∙ ap (λ m. some (find key m)) t.all,
      for_each-opened t.blocks t.not_empty ok sorted small bits ∙ ap some t.all,
    )
