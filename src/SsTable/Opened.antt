-- ===== src/SsTable/Opened.antt =====
-- src/SSTableReader.cpp: Open on the file that the builder left.
use native.Mathlib.Nat.{mod-eq_of_lt}
use nova_kv.Prelude.{
  ℕ, zero, suc, ◌+◌, ◌-◌, ◌%◌, ◌≡◌, ◌<◌, refl, ap, arith, ltb, ◌==◌, true, false, Bytes, List, [],
  ◌∷◌, ◌++◌, some, length, drop, encode_le, u32_mod, u64_mod, append_assoc, length-append,
  drop-length-append, read_word-encode_le4, read_word-encode_le1, All, drop-eq-length, Bool-cases,
  inl, inr,
}
use nova_kv.ValueRecord.{ValueType, type_byte}
use nova_kv.SortedMap.{Rows}
use nova_kv.SsTable.Format.{
  IndexEntry, Footer, IsHandle, handle_bytes, encode_to, encoded_length, read_handle-handle_bytes,
  length-handle_bytes, length-encode_to, decode_from-encode_to,
}
use nova_kv.SsTable.Block.{entry_bytes}
use nova_kv.SsTable.Reader.{
  SsTableReader, new_reader, read_footer, read_index_entry, index_loop, has_entries,
  read_index_block, read_filter_block, load_table, open_table,
}
use nova_kv.SsTable.Scan.{read-append, length-entry_bytes}
use nova_kv.SsTable.Layout.{blocks_bytes, entries_of, index_bytes}
use nova_kv.SsTable.Whole.{filter_of, footer_of, table_bytes}

-- An entry that the index holds as it is.
pub record IsIndexed (e : IndexEntry) : Type 0 where
  pub last_key : length e.last_key < u32_mod
  pub handle : IsHandle e.handle

abbrev entry_of : IndexEntry → Bytes
entry_of e = entry_bytes e.last_key (handle_bytes e.handle) ValueType.value

read_index_entry-entry_bytes :
    (e : IndexEntry) (rest : Bytes)
    → IsIndexed e
    → read_index_entry (entry_of e ++ rest) ≡ some (e, 25 + length e.last_key, rest)
unfolding read_index_entry entry_bytes type_byte
read_index_entry-entry_bytes e rest h =
    let size : 4 + length e.last_key + 1 + 4 + 16 ≡ 25 + length e.last_key = omega arith in
    rw (mod-eq_of_lt h.last_key, length-handle_bytes e.handle)
      (rw (regroup) (
        rw (read_word-encode_le4 (length e.last_key) _ h.last_key) (
          rw (read-append e.last_key _) (
            rw (read_word-encode_le1 1 _ (omega arith)) (
              rw (read_word-encode_le4 16 (handle_bytes e.handle ++ rest) (omega arith))
                (rw (read_handle-handle_bytes e.handle rest h.handle, size) refl))))))
  where
    regroup :
        (encode_le 4 (length e.last_key)
            ++ (e.last_key ++ (encode_le 1 1 ++ (encode_le 4 16 ++ handle_bytes e.handle))))
          ++ rest
        ≡ encode_le 4 (length e.last_key)
          ++ (e.last_key ++ (encode_le 1 1 ++ (encode_le 4 16 ++ (handle_bytes e.handle ++ rest))))
    regroup = simp append_assoc

length-entry_of : (e : IndexEntry) → length (entry_of e) ≡ 25 + length e.last_key
length-entry_of e = omega (
  arith,
  length-entry_bytes e.last_key (handle_bytes e.handle) ValueType.value,
  length-handle_bytes e.handle,
)

index_loop-index_bytes :
    (es : List IndexEntry) (tail : Bytes) (fuel : ℕ)
    → All IsIndexed es
    → length (index_bytes es) < fuel
    → index_loop fuel (length (index_bytes es)) (index_bytes es ++ tail) ≡ some es
unfolding index_bytes index_loop
index_loop-index_bytes es tail zero h less = absurd (omega arith)
index_loop-index_bytes [] tail (suc fuel) h less = refl
index_loop-index_bytes (e ∷ es) tail (suc fuel) h less =
    let l = length-append (entry_of e) (index_bytes es) in
    let n = length-entry_of e in
    let more : (length (entry_of e ++ index_bytes es) == 0) ≡ false = ground (arith, l, n) in
    let left : length (entry_of e ++ index_bytes es) - (25 + length e.last_key)
        ≡ length (index_bytes es) =
      omega (arith, l, n) in
    rw (append_assoc (entry_of e) (index_bytes es) tail) (
      rw (more, read_index_entry-entry_bytes e (index_bytes es ++ tail) h.0, index_loop)
        (rw (left, index_loop-index_bytes es tail fuel h.1 (omega (arith, l, n))) refl))

-- The reader on a table's file, once it is open.
unfoldable pub opened : List Rows → SsTableReader
opened bs = record {
  contents = table_bytes bs;
  footer = footer_of bs;
  index_entries = entries_of 0 bs;
  filter_data = filter_of bs;
}

no_bytes : (s : Bytes) → (length s == 0) ≡ true → s ≡ []
no_bytes [] h = refl
no_bytes (b ∷ s) h = ground arith

module _ (bs : List Rows) where
  abbrev data_size : ℕ
  data_size = length (blocks_bytes bs)

  abbrev filter_size : ℕ
  filter_size = length (filter_of bs)

  abbrev index_size : ℕ
  index_size = length (index_bytes (entries_of 0 bs))

  pub length-table_bytes :
      length (table_bytes bs) ≡ data_size + filter_size + index_size + encoded_length
  unfolding table_bytes
  length-table_bytes = omega (
    arith,
    length-append (blocks_bytes bs)
        (filter_of bs ++ (index_bytes (entries_of 0 bs) ++ encode_to (footer_of bs))),
    length-append (filter_of bs) (index_bytes (entries_of 0 bs) ++ encode_to (footer_of bs)),
    length-append (index_bytes (entries_of 0 bs)) (encode_to (footer_of bs)),
    length-encode_to (footer_of bs),
  )

  drop-footer :
      drop (data_size + filter_size + index_size) (table_bytes bs) ≡ encode_to (footer_of bs)
  unfolding table_bytes
  drop-footer =
      let front = blocks_bytes bs ++ (filter_of bs ++ index_bytes (entries_of 0 bs)) in
      let e : front ++ encode_to (footer_of bs)
          ≡ blocks_bytes bs
            ++ (filter_of bs ++ (index_bytes (entries_of 0 bs) ++ encode_to (footer_of bs))) =
        simp append_assoc in
      rw (← e) (
        drop-eq-length _ front (encode_to (footer_of bs)) (
          omega (
            arith,
            length-append (blocks_bytes bs) (filter_of bs ++ index_bytes (entries_of 0 bs)),
            length-append (filter_of bs) (index_bytes (entries_of 0 bs)),
          )))

  drop-index :
      drop (data_size + filter_size) (table_bytes bs)
      ≡ index_bytes (entries_of 0 bs) ++ encode_to (footer_of bs)
  unfolding table_bytes
  drop-index =
      rw
        (← (
          append_assoc (blocks_bytes bs) (filter_of bs)
            (index_bytes (entries_of 0 bs) ++ encode_to (footer_of bs))))
        (drop-eq-length _ (blocks_bytes bs ++ filter_of bs) _
          (omega (arith, length-append (blocks_bytes bs) (filter_of bs))))

  drop-filter :
      drop data_size (table_bytes bs)
      ≡ filter_of bs ++ (index_bytes (entries_of 0 bs) ++ encode_to (footer_of bs))
  unfolding table_bytes
  drop-filter = drop-length-append (blocks_bytes bs) _

  module _ (small : length (table_bytes bs) < u64_mod) (indexed : All IsIndexed (entries_of 0 bs))
      (some_entries : has_entries (entries_of 0 bs) ≡ true) where
    sum_small : data_size + filter_size + index_size + encoded_length < u64_mod
    sum_small = rw (length-table_bytes) at small

    footer_sizes : footer_of bs ≡ record {
      index_handle = record { offset = data_size + filter_size; size = index_size };
      filter_handle = record { offset = data_size; size = filter_size };
    }
    unfolding footer_of
    footer_sizes =
        let at_filter : data_size % u64_mod ≡ data_size = omega (arith, sum_small) in
        let at_index : (data_size + filter_size) % u64_mod ≡ data_size + filter_size =
          omega (arith, sum_small) in
        let size : ((data_size + filter_size + index_size) % u64_mod
                + u64_mod
                - (data_size + filter_size))
              % u64_mod
            ≡ index_size =
          omega (arith, sum_small) in
        rw (at_filter, at_index, size) refl

    read_footer-opened :
        read_footer (new_reader (table_bytes bs))
        ≡ some (record (new_reader (table_bytes bs)) { footer = footer_of bs }, true)
    unfolding read_footer new_reader
    read_footer-opened =
        let e : length (table_bytes bs) - encoded_length ≡ data_size + filter_size + index_size =
          omega (arith, length-table_bytes) in
        rw (e, drop-footer) (rw (decode_from-encode_to _ (footer_of bs) index_ok filter_ok) refl)
      where
        index_ok : IsHandle (footer_of bs).index_handle
        index_ok =
            rw footer_sizes
              (record { offset = omega (arith, sum_small); size = omega (arith, sum_small) })

        filter_ok : IsHandle (footer_of bs).filter_handle
        filter_ok =
            rw footer_sizes
              (record { offset = omega (arith, sum_small); size = omega (arith, sum_small) })

    read_index_block-opened :
        read_index_block (record (new_reader (table_bytes bs)) { footer = footer_of bs })
        ≡ some (record (opened bs) { filter_data = [] }, true)
    unfolding read_index_block new_reader opened
    read_index_block-opened =
        let fits : ltb (length (table_bytes bs) - encoded_length)
              ((data_size + filter_size + index_size) % u64_mod)
            ≡ false =
          ground (arith, length-table_bytes, sum_small) in
        rw
          (
            ap (λ (f : Footer). f.index_handle.offset) footer_sizes,
            ap (λ (f : Footer). f.index_handle.size) footer_sizes,
          )
          (rw (fits, drop-index)
            (rw
              (index_loop-index_bytes (entries_of 0 bs) (encode_to (footer_of bs))
                (suc (length (index_bytes (entries_of 0 bs) ++ encode_to (footer_of bs)))) indexed
                (omega (
                  arith,
                  length-append (index_bytes (entries_of 0 bs)) (encode_to (footer_of bs)),
                )))
              (rw some_entries refl)))

    read_filter_block-opened :
        read_filter_block (record (opened bs) { filter_data = [] }) ≡ some (opened bs, true)
    unfolding read_filter_block opened
    read_filter_block-opened =
        let fits : ltb (length (table_bytes bs)) ((data_size + filter_size) % u64_mod) ≡ false =
          ground (arith, length-table_bytes, sum_small) in
        rw
          (
            ap (λ (f : Footer). f.filter_handle.offset) footer_sizes,
            ap (λ (f : Footer). f.filter_handle.size) footer_sizes,
          )
          (elim (Bool-cases (filter_size == 0)) [
            | inl nothing ↦ rw (nothing, no_bytes (filter_of bs) nothing) refl
            | inr something ↦
                rw
                  (
                    something,
                    fits,
                    drop-filter,
                    read-append (filter_of bs)
                        (index_bytes (entries_of 0 bs) ++ encode_to (footer_of bs)),
                  )
                  refl
          ])

    pub open_table-table_bytes : open_table true (some (table_bytes bs)) ≡ some (some (opened bs))
    unfolding open_table load_table
    open_table-table_bytes =
        let long : ltb (length (table_bytes bs)) encoded_length ≡ false =
          ground (arith, length-table_bytes) in
        rw (long, read_footer-opened, read_index_block-opened, read_filter_block-opened) refl
