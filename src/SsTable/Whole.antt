-- ===== src/SsTable/Whole.antt =====
-- src/SSTableBuilder.cpp: the whole file that Finish leaves.
use nova_kv.Prelude.{
  ℕ, ◌+◌, ◌-◌, ◌%◌, ◌≡◌, ◌≤◌, refl, sym, ap, ◌∙◌, arith, if◌then◌else◌, false, Bytes, List, [], ◌∷◌,
  ◌++◌, length, u64_mod, append-nil, append_assoc, All, All-append, encode_le, subst,
}
use nova_kv.ValueRecord.{ValueType, ValueRecord}
use nova_kv.SortedMap.{Rows}
use nova_kv.BloomFilter.{create_filter}
use nova_kv.SsTable.Format.{
  new_file, append, BlockHandle, new_handle, IndexEntry, Footer, handle_bytes, encode_to,
}
use nova_kv.SsTable.Block.{
  BlockBuilder, new_block, entry_bytes, add_to_block, finish_block, is_empty_block, is_empty_string,
}
use nova_kv.SsTable.Builder.{
  SsTableBuilder, new_builder, write_data_block, block_limit, add_entries, write_index_block,
  write_filter_of, write_filter_block, finish, add_rows, table_file,
}
use nova_kv.SsTable.Scan.{block_bytes}
use nova_kv.SsTable.Layout.{
  joined, blocks_bytes, keys_of, entries_of, index_bytes, IsLaid, joined-append,
  write_data_block-file, add_rows_lem,
}

abbrev pub NotEmpty : Rows → Type 0
NotEmpty [] = ⊥
NotEmpty (row ∷ rows) = Unit

abbrev NotNil : List Bytes → Type 0
NotNil [] = ⊥
NotNil (k ∷ keys) = Unit

-- The filter of the rows of the blocks.
unfoldable pub filter_of : List Rows → Bytes
filter_of bs = create_filter 10 (keys_of (joined bs))

-- The footer of a file with the blocks, its index behind its filter.
unfoldable pub footer_of : List Rows → Footer
footer_of bs =
    let offset = length (blocks_bytes bs) + length (filter_of bs) in
    let size = offset + length (index_bytes (entries_of 0 bs)) in
    record {
      index_handle = record {
        offset = offset % u64_mod;
        size = (size % u64_mod + u64_mod - offset % u64_mod) % u64_mod;
      };
      filter_handle = record {
        offset = length (blocks_bytes bs) % u64_mod;
        size = length (filter_of bs);
      };
    }

unfoldable pub table_bytes : List Rows → Bytes
table_bytes bs =
    blocks_bytes bs ++ (filter_of bs ++ (index_bytes (entries_of 0 bs) ++ encode_to (footer_of bs)))

-- Every block of the builder is in the file.
record IsWritten (b : SsTableBuilder) (bs : List Rows) : Type 0 where
  contents : b.file.contents ≡ blocks_bytes bs
  size : b.file.size ≡ length (blocks_bytes bs) % u64_mod
  entries : b.index_entries ≡ entries_of 0 bs
  keys : b.keys ≡ keys_of (joined bs)
  filter : b.filter_handle ≡ new_handle

NotEmpty-full : (b : Rows) → block_limit ≤ length (block_bytes b) → NotEmpty b
unfolding block_bytes
NotEmpty-full [] h = omega arith
NotEmpty-full (row ∷ rows) h = tt

All-NotEmpty :
    (bs : List Rows) → All (λ b. block_limit ≤ length (block_bytes b)) bs → All NotEmpty bs
All-NotEmpty [] h = tt
All-NotEmpty (b ∷ bs) h = (NotEmpty-full b h.0, All-NotEmpty bs h.1)

-- The builder once Finish has written the last block.
last_block : SsTableBuilder → SsTableBuilder
last_block b = if is_empty_block b.data_block then b else write_data_block b

record Written (b : SsTableBuilder) (rows : Rows) : Type 0 where
  blocks : List Rows
  written : IsWritten b blocks
  all : joined blocks ≡ rows
  not_empty : All NotEmpty blocks

some_bytes :
    (k : Bytes) (r : ValueRecord) (rest : Bytes)
    → is_empty_string (entry_bytes k r.value r.type ++ rest) ≡ false
unfolding is_empty_string entry_bytes encode_le
some_bytes k r rest = refl

joined_snoc : (bs : List Rows) (b : Rows) → joined (bs ++ b ∷ []) ≡ joined bs ++ b
joined_snoc bs b = joined-append bs (b ∷ []) ∙ ap (λ xs. joined bs ++ xs) (one b)
  where
    one : (b : Rows) → joined (b ∷ []) ≡ b
    one b = unfold joined in append-nil b

last_block-Written_of :
    (b : SsTableBuilder) (bs : List Rows) (cur : Rows) (rows : Rows)
    → IsLaid b bs cur
    → joined bs ++ cur ≡ rows
    → Written (last_block b) rows
unfolding last_block is_empty_block block_bytes
last_block-Written_of b bs [] rows l all = rw l.buffer (
    unfold is_empty_string in
    record {
      blocks = bs;
      written = record {
        contents = l.contents;
        size = l.size;
        entries = l.entries;
        keys = l.keys ∙ ap keys_of (append-nil (joined bs));
        filter = l.filter;
      };
      all = sym (append-nil (joined bs)) ∙ all;
      not_empty = All-NotEmpty bs l.full;
    })
last_block-Written_of b bs ((k, r) ∷ cur) rows l all =
    let (contents, size, entries) = write_data_block-file b bs ((k, r) ∷ cur) l in
    let more : is_empty_string b.data_block.buffer ≡ false =
      rw l.buffer (some_bytes k r (block_bytes cur)) in
    rw more (record {
      blocks = bs ++ ((k, r) ∷ cur) ∷ [];
      written = record {
        contents = contents;
        size = size;
        entries = entries;
        keys =
            unfold write_data_block in (l.keys ∙ ap keys_of (sym (joined_snoc bs ((k, r) ∷ cur))));
        filter = unfold write_data_block in l.filter;
      };
      all = joined_snoc bs ((k, r) ∷ cur) ∙ all;
      not_empty = All-append NotEmpty bs (((k, r) ∷ cur) ∷ []) (All-NotEmpty bs l.full) (tt, tt);
    })

add_entries-buffer :
    (es : List IndexEntry) (index : BlockBuilder)
    → (add_entries es index).buffer ≡ index.buffer ++ index_bytes es
unfolding add_entries add_to_block index_bytes
add_entries-buffer [] index = sym (append-nil index.buffer)
add_entries-buffer (e ∷ es) index =
    add_entries-buffer es _
    ∙ append_assoc index.buffer (entry_bytes e.last_key (handle_bytes e.handle) ValueType.value)
        (index_bytes es)

-- What Finish does behind the last block.
finish_rest : SsTableBuilder → SsTableBuilder
finish_rest b1 =
    let b2 = write_filter_block b1 in
    let offset = b2.file.size in
    let b3 = write_index_block b2 in
    let index : BlockHandle = record {
      offset = offset;
      size = (b3.file.size + u64_mod - offset) % u64_mod;
    } in
    record b3 {
      file =
          append (encode_to (record { index_handle = index; filter_handle = b3.filter_handle }))
            b3.file;
    }

finish-last_block : (b : SsTableBuilder) → finish b ≡ finish_rest (last_block b)
unfolding finish finish_rest last_block
finish-last_block b = refl

-- The filter behind the blocks, where there are keys.
write_filter_of-IsWritten :
    (b : SsTableBuilder) (bs : List Rows) (keys : List Bytes)
    → IsWritten b bs
    → keys ≡ keys_of (joined bs)
    → NotNil keys
    → ((write_filter_of keys b).file.contents ≡ blocks_bytes bs ++ filter_of bs)
      × ((write_filter_of keys b).file.size
          ≡ (length (blocks_bytes bs) + length (filter_of bs)) % u64_mod)
      × ((write_filter_of keys b).filter_handle
          ≡ record { offset = length (blocks_bytes bs) % u64_mod; size = length (filter_of bs) })
      × ((write_filter_of keys b).index_entries ≡ entries_of 0 bs)
unfolding write_filter_of append filter_of
write_filter_of-IsWritten b bs [] w e more = absurd more
write_filter_of-IsWritten b bs (k ∷ keys) w e more =
    rw e (rw (w.contents, w.size) (refl, omega arith, refl, w.entries))

finish_rest-contents :
    (b : SsTableBuilder) (bs : List Rows)
    → IsWritten b bs
    → NotNil (keys_of (joined bs))
    → (finish_rest b).file.contents ≡ table_bytes bs
unfolding finish_rest write_filter_block write_index_block append finish_block table_bytes footer_of
finish_rest-contents b bs w more =
    let (contents, size, handle, entries) =
      write_filter_of-IsWritten b bs b.keys w w.keys (subst NotNil (sym w.keys) more) in
    rw (contents, size, handle, entries, add_entries-buffer (entries_of 0 bs) new_block)
      (rw
        (behind (length (blocks_bytes bs) + length (filter_of bs))
          (length (index_bytes (entries_of 0 bs))))
        (simp append_assoc))
  where
    behind : (m n : ℕ) → (m % u64_mod + n) % u64_mod ≡ (m + n) % u64_mod
    behind m n = omega arith

-- The file of a table is that of blocks which hold the rows in their order.
pub record Table (rows : Rows) : Type 0 where
  pub blocks : List Rows
  pub all : joined blocks ≡ rows
  pub not_empty : All NotEmpty blocks
  pub contents : (table_file rows new_file).contents ≡ table_bytes blocks

NotNil-keys_of : (rows : Rows) → NotEmpty rows → NotNil (keys_of rows)
unfolding keys_of
NotNil-keys_of [] h = h
NotNil-keys_of ((k, r) ∷ rows) h = tt

pub table_file_lem : (rows : Rows) → NotEmpty rows → Table rows
unfolding table_file
table_file_lem rows h =
    let l = add_rows_lem rows in
    let w =
      last_block-Written_of (add_rows rows (new_builder new_file)) l.blocks l.current rows l.laid
        l.all in
    record {
      blocks = w.blocks;
      all = w.all;
      not_empty = w.not_empty;
      contents =
          ap (λ b. b.file.contents) (finish-last_block (add_rows rows (new_builder new_file)))
          ∙ finish_rest-contents (last_block (add_rows rows (new_builder new_file))) w.blocks
              w.written (subst (λ m. NotNil (keys_of m)) (sym w.all) (NotNil-keys_of rows h));
    }
