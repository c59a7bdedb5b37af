-- ===== src/SsTable/Layout.antt =====
-- src/SSTableBuilder.cpp: where the rows are in the file that the builder writes.
use nova_kv.Prelude.{
  ℕ, ◌+◌, ◌%◌, ◌≡◌, ◌≤◌, refl, sym, ap, ◌∙◌, arith, leb, true, false, Bytes, List, [], ◌∷◌, ◌++◌,
  length, u64_mod, append-nil, append_assoc, length-append, Bool-cases, inl, inr, All, All-append,
  leb→le,
}
use nova_kv.ValueRecord.{ValueType, ValueRecord}
use nova_kv.SortedMap.{Rows}
use nova_kv.SsTable.Format.{new_file, append, new_handle, IndexEntry, handle_bytes}
use nova_kv.SsTable.Block.{
  entry_bytes, add_to_block, finish_block, reset_block, current_size_estimate,
}
use nova_kv.SsTable.Builder.{
  SsTableBuilder, new_builder, write_data_block, block_limit, add, add_rows,
}
use nova_kv.SsTable.Scan.{block_bytes, block_bytes-append}

unfoldable pub joined : List Rows → Rows
joined [] = []
joined (b ∷ bs) = b ++ joined bs

unfoldable pub blocks_bytes : List Rows → Bytes
blocks_bytes [] = []
blocks_bytes (b ∷ bs) = block_bytes b ++ blocks_bytes bs

unfoldable pub last_key_of : Rows → Bytes
last_key_of [] = []
last_key_of ((k, r) ∷ []) = k
last_key_of (row ∷ next ∷ rows) = last_key_of (next ∷ rows)

unfoldable pub keys_of : Rows → List Bytes
keys_of [] = []
keys_of ((k, r) ∷ rows) = k ∷ keys_of rows

-- The entry of a block that begins at an offset.
abbrev pub entry_at : ℕ → Rows → IndexEntry
entry_at offset b = record {
  last_key = last_key_of b;
  handle = record { offset = offset % u64_mod; size = length (block_bytes b) };
}

-- The index of blocks that stand one behind the other from an offset on.
unfoldable pub entries_of : ℕ → List Rows → List IndexEntry
entries_of offset [] = []
entries_of offset (b ∷ bs) = entry_at offset b ∷ entries_of (offset + length (block_bytes b)) bs

unfoldable pub index_bytes : List IndexEntry → Bytes
index_bytes [] = []
index_bytes (e ∷ es) =
    entry_bytes e.last_key (handle_bytes e.handle) ValueType.value ++ index_bytes es

pub joined-append : (xs ys : List Rows) → joined (xs ++ ys) ≡ joined xs ++ joined ys
unfolding joined
joined-append [] ys = refl
joined-append (x ∷ xs) ys = rw (joined-append xs ys) (sym (append_assoc x (joined xs) (joined ys)))

blocks_bytes_snoc :
    (bs : List Rows) (b : Rows) → blocks_bytes (bs ++ b ∷ []) ≡ blocks_bytes bs ++ block_bytes b
unfolding blocks_bytes
blocks_bytes_snoc [] b = append-nil (block_bytes b)
blocks_bytes_snoc (x ∷ xs) b =
    rw (blocks_bytes_snoc xs b)
      (sym (append_assoc (block_bytes x) (blocks_bytes xs) (block_bytes b)))

entries_of_snoc :
    (offset : ℕ) (bs : List Rows) (b : Rows)
    → entries_of offset (bs ++ b ∷ [])
      ≡ entries_of offset bs ++ entry_at (offset + length (blocks_bytes bs)) b ∷ []
unfolding entries_of blocks_bytes
entries_of_snoc offset [] b = let e : offset + 0 ≡ offset = omega arith in rw e refl
entries_of_snoc offset (x ∷ xs) b =
    let e : offset + length (block_bytes x) + length (blocks_bytes xs)
        ≡ offset + length (block_bytes x ++ blocks_bytes xs) =
      omega (arith, length-append (block_bytes x) (blocks_bytes xs)) in
    rw (entries_of_snoc (offset + length (block_bytes x)) xs b, e) refl

keys_of-append : (xs ys : Rows) → keys_of (xs ++ ys) ≡ keys_of xs ++ keys_of ys
unfolding keys_of
keys_of-append [] ys = refl
keys_of-append ((k, r) ∷ xs) ys = rw (keys_of-append xs ys) refl

last_key_of_snoc :
    (rows : Rows) (k : Bytes) (r : ValueRecord) → last_key_of (rows ++ (k, r) ∷ []) ≡ k
unfolding last_key_of
last_key_of_snoc [] k r = refl
last_key_of_snoc (row ∷ []) k r = refl
last_key_of_snoc (row ∷ next ∷ rows) k r = last_key_of_snoc (next ∷ rows) k r

-- The builder has written the blocks `bs`, and `cur` is the block that it fills.
pub record IsLaid (b : SsTableBuilder) (bs : List Rows) (cur : Rows) : Type 0 where
  pub contents : b.file.contents ≡ blocks_bytes bs
  pub size : b.file.size ≡ length (blocks_bytes bs) % u64_mod
  pub buffer : b.data_block.buffer ≡ block_bytes cur
  pub last_key : b.last_key ≡ last_key_of cur
  pub entries : b.index_entries ≡ entries_of 0 bs
  pub keys : b.keys ≡ keys_of (joined bs ++ cur)
  pub filter : b.filter_handle ≡ new_handle
  pub full : All (λ block. block_limit ≤ length (block_bytes block)) bs

new_builder-IsLaid : IsLaid (new_builder new_file) [] []
unfolding new_builder blocks_bytes block_bytes last_key_of entries_of joined keys_of
new_builder-IsLaid = record {
  contents = refl;
  size = refl;
  buffer = refl;
  last_key = refl;
  entries = refl;
  keys = refl;
  filter = refl;
  full = tt;
}

-- The file after WriteDataBlock.
pub write_data_block-file :
    (b : SsTableBuilder) (bs : List Rows) (cur : Rows)
    → IsLaid b bs cur
    → ((write_data_block b).file.contents ≡ blocks_bytes (bs ++ cur ∷ []))
      × ((write_data_block b).file.size ≡ length (blocks_bytes (bs ++ cur ∷ [])) % u64_mod)
      × ((write_data_block b).index_entries ≡ entries_of 0 (bs ++ cur ∷ []))
unfolding write_data_block finish_block append
write_data_block-file b bs cur l = (
  rw (l.contents, l.buffer) (sym (blocks_bytes_snoc bs cur)),
  rw (l.size, l.buffer, blocks_bytes_snoc bs cur)
      (omega (arith, length-append (blocks_bytes bs) (block_bytes cur))),
  rw (l.entries, l.last_key, l.buffer, l.size, entries_of_snoc 0 bs cur) (rw zero_more refl),
)
  where
    zero_more : 0 + length (blocks_bytes bs) ≡ length (blocks_bytes bs)
    zero_more = omega arith

-- Add, where the block is not full.
add_to_current :
    (k : Bytes) (r : ValueRecord) (b : SsTableBuilder) (bs : List Rows) (cur : Rows)
    → IsLaid b bs cur
    → leb block_limit (length b.data_block.buffer) ≡ false
    → IsLaid (add k r.value r.type b) bs (cur ++ (k, r) ∷ [])
unfolding add add_to_block current_size_estimate keys_of block_bytes
add_to_current k r b bs cur l small = rw small (record {
  contents = l.contents;
  size = l.size;
  buffer =
      rw (l.buffer, block_bytes-append cur ((k, r) ∷ []), append-nil (entry_bytes k r.value r.type))
        refl;
  last_key = sym (last_key_of_snoc cur k r);
  entries = l.entries;
  keys =
      rw
        (
          l.keys,
          ← (append_assoc (joined bs) cur ((k, r) ∷ [])),
          keys_of-append (joined bs ++ cur) ((k, r) ∷ []),
        )
        refl;
  filter = l.filter;
  full = l.full;
})

-- Add, where the block is full and is written first.
add_to_new :
    (k : Bytes) (r : ValueRecord) (b : SsTableBuilder) (bs : List Rows) (cur : Rows)
    → IsLaid b bs cur
    → leb block_limit (length b.data_block.buffer) ≡ true
    → IsLaid (add k r.value r.type b) (bs ++ cur ∷ []) ((k, r) ∷ [])
unfolding add add_to_block current_size_estimate keys_of block_bytes last_key_of reset_block
    write_data_block finish_block joined
add_to_new k r b bs cur l big =
    let (contents, size, entries) = write_data_block-file b bs cur l in
    rw big (record {
      contents = contents;
      size = size;
      buffer = sym (append-nil (entry_bytes k r.value r.type));
      last_key = refl;
      entries = entries;
      keys =
          rw
            (
              l.keys,
              joined-append bs (cur ∷ []),
              append-nil cur,
              keys_of-append (joined bs ++ cur) ((k, r) ∷ []),
            )
            refl;
      filter = l.filter;
      full =
          All-append (λ block. block_limit ≤ length (block_bytes block)) bs (cur ∷ []) l.full
            (rw (l.buffer) at (leb→le block_limit (length b.data_block.buffer) big), tt);
    })

-- The builder has written some of the rows, and is filling a block with the others.
pub record Laid (b : SsTableBuilder) (rows : Rows) : Type 0 where
  pub blocks : List Rows
  pub current : Rows
  pub laid : IsLaid b blocks current
  pub all : joined blocks ++ current ≡ rows

add-Laid :
    (k : Bytes) (r : ValueRecord) (b : SsTableBuilder) (rows : Rows)
    → Laid b rows
    → Laid (add k r.value r.type b) (rows ++ (k, r) ∷ [])
unfolding joined
add-Laid k r b rows l = elim (Bool-cases (leb block_limit (length b.data_block.buffer))) [
  | inr small ↦ record {
    blocks = l.blocks;
    current = l.current ++ (k, r) ∷ [];
    laid = add_to_current k r b l.blocks l.current l.laid small;
    all =
        sym (append_assoc (joined l.blocks) l.current ((k, r) ∷ []))
        ∙ ap (λ xs. xs ++ (k, r) ∷ []) l.all;
  }
  | inl big ↦ record {
    blocks = l.blocks ++ l.current ∷ [];
    current = (k, r) ∷ [];
    laid = add_to_new k r b l.blocks l.current l.laid big;
    all = rw (joined-append l.blocks (l.current ∷ []), append-nil l.current, l.all) refl;
  }
]

add_rows-Laid :
    (more : Rows) (b : SsTableBuilder) (rows : Rows)
    → Laid b rows
    → Laid (add_rows more b) (rows ++ more)
unfolding add_rows
add_rows-Laid [] b rows l = rw (append-nil rows) l
add_rows-Laid ((k, r) ∷ more) b rows l =
    rw (← (append_assoc rows ((k, r) ∷ []) more))
      (add_rows-Laid more (add k r.value r.type b) (rows ++ (k, r) ∷ []) (add-Laid k r b rows l))

-- The builder on an empty file, after the rows.
pub add_rows_lem : (rows : Rows) → Laid (add_rows rows (new_builder new_file)) rows
unfolding joined
add_rows_lem rows =
    add_rows-Laid rows (new_builder new_file) []
      (record { blocks = []; current = []; laid = new_builder-IsLaid; all = refl })
