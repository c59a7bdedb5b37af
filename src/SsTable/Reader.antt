-- ===== src/SsTable/Reader.antt =====
-- include/SSTableReader.h and src/SSTableReader.cpp: the file as it is mapped, its index, and the
-- searches in it. A pointer into the mapping is the bytes from there on, and a position in a block is
-- what is left of the block. `none` is a read outside of the mapping, which C++ leaves undefined, or
-- a loop that has run out of fuel.
use mathlib.Core.Option
use nova_kv.Prelude.{
  ℕ, zero, suc, ◌+◌, ◌-◌, ◌%◌, ◌==◌, ltb, not, ◌&&◌, if◌then◌else◌, Bool, true, false, Bytes, List,
  [], ◌∷◌, ◌++◌, Option, none, some, ◌>>=◌, length, drop, read, read_word, decode_le, u64_mod,
  bytes_eq, bytes_lt,
}
use nova_kv.ValueRecord.{ValueType, ValueRecord, type_of_byte, is_value, is_deletion}
use nova_kv.SortedMap.{Rows}
use nova_kv.BloomFilter.{key_may_match}
use nova_kv.SsTable.Format.{
  new_file, new_handle, IndexEntry, Footer, encoded_length, read_handle, decode_from,
}
use nova_kv.SsTable.Block.{is_empty_string}
use nova_kv.SsTable.Builder.{table_file}

pub record SsTableReader : Type 0 where
  pub contents : Bytes
  pub footer : Footer
  pub index_entries : List IndexEntry
  pub filter_data : Bytes

unfoldable pub new_reader : Bytes → SsTableReader
new_reader contents = record {
  contents = contents;
  footer = record { index_handle = new_handle; filter_handle = new_handle };
  index_entries = [];
  filter_data = [];
}

-- ReadFooter, on a file that is long enough.
unfoldable pub read_footer : SsTableReader → Option (SsTableReader × Bool)
read_footer r = do
  (footer, ok) ← decode_from r.footer (drop (length r.contents - encoded_length) r.contents)
  some (record r { footer = footer }, ok)

-- One entry of the index, and how many bytes it takes: its key length, key, type, value length and
-- handle.
unfoldable pub read_index_entry : Bytes → Option (IndexEntry × ℕ × Bytes)
read_index_entry s = do
  (key_len, s1) ← read_word 4 s
  (key, s2) ← read key_len s1
  (type, s3) ← read_word 1 s2
  (val_len, s4) ← read_word 4 s3
  (handle, s5) ← read_handle s4
  some (record { last_key = key; handle = handle }, 4 + key_len + 1 + 4 + 16, s5)

-- The loop of ReadIndexBlock: `left` bytes of the block are not read yet.
unfoldable pub index_loop : ℕ → ℕ → Bytes → Option (List IndexEntry)
index_loop zero left s = none
index_loop (suc fuel) left s = elim (left == 0) [
  | true ↦ some []
  | false ↦ elim (read_index_entry s) [
    | none ↦ none
    | some (entry, n, rest) ↦
        Option.map (λ entries. entry ∷ entries) (index_loop fuel (left - n) rest)
  ]
]

unfoldable pub has_entries : List IndexEntry → Bool
has_entries [] = false
has_entries (e ∷ es) = true

unfoldable pub read_index_block : SsTableReader → Option (SsTableReader × Bool)
read_index_block r =
    let offset = r.footer.index_handle.offset in
    let size = r.footer.index_handle.size in
    if ltb (length r.contents - encoded_length) ((offset + size) % u64_mod)
    then some (r, false)
    else do
      let s = drop offset r.contents
      entries ← index_loop (suc (length s)) size s
      let all = r.index_entries ++ entries
      some (record r { index_entries = all }, has_entries all)

unfoldable pub read_filter_block : SsTableReader → Option (SsTableReader × Bool)
read_filter_block r =
    let offset = r.footer.filter_handle.offset in
    let size = r.footer.filter_handle.size in
    if size == 0
    then some (r, true)
    else if ltb (length r.contents) ((offset + size) % u64_mod)
    then some (r, false)
    else do
      (filter, s) ← read size (drop offset r.contents)
      some (record r { filter_data = filter }, true)

-- Open from the footer on. The inner `none` is the null pointer; a filter that cannot be read is only
-- logged.
unfoldable pub load_table : SsTableReader → Option (Option SsTableReader)
load_table r = do
  (r1, footer_ok) ← read_footer r
  (r2, index_ok) ← if footer_ok then read_index_block r1 else some (r1, false)
  (r3, filter_ok) ← if index_ok then read_filter_block r2 else some (r2, false)
  some (if index_ok then some r3 else none)

-- Open, on what the file holds, where `none` is a file that cannot be opened, and whether fstat and
-- mmap succeed.
unfoldable pub open_table : Bool → Option Bytes → Option (Option SsTableReader)
open_table mapped none = some none
open_table mapped (some contents) =
    if mapped && not (ltb (length contents) encoded_length)
    then load_table (new_reader contents)
    else some none

-- An entry of a data block up to its value: the key, the type, the length of the value, and the bytes
-- from the value on.
pub record EntryHead : Type 0 where
  pub key : Bytes
  pub type : ValueType
  pub val_len : ℕ
  pub rest : Bytes

unfoldable pub read_head : Bytes → Option EntryHead
read_head s = do
  (key_len, s1) ← read_word 4 s
  (key, s2) ← read key_len s1
  (type, s3) ← read_word 1 s2
  (val_len, s4) ← read_word 4 s3
  some (record { key = key; type = type_of_byte type; val_len = val_len; rest = s4 })

unfoldable pub entry_size : EntryHead → ℕ
entry_size h = 4 + length h.key + 1 + 4 + h.val_len

-- What GetRecord stores on a match.
unfoldable pub record_of : EntryHead → Option ValueRecord
record_of h =
    if is_value h.type
    then Option.map (λ p. record { type = h.type; value = p.0 }) (read h.val_len h.rest)
    else some (record { type = h.type; value = [] })

-- The loop of GetRecord over a block of which `left` bytes are not read yet. The inner `none` is that
-- the block does not have the key.
unfoldable pub scan_block : Bytes → ℕ → ℕ → Bytes → Option (Option ValueRecord)
scan_block key zero left s = none
scan_block key (suc fuel) left s = elim (left == 0) [
  | true ↦ some none
  | false ↦ elim (read_head s) [
    | none ↦ none
    | some h ↦ elim (bytes_eq h.key key) [
      | true ↦ Option.map some (record_of h)
      | false ↦ scan_block key fuel (left - entry_size h) (drop h.val_len h.rest)
    ]
  ]
]

-- std::lower_bound by last_key, on a sorted index: the first entry that is not below the key.
unfoldable pub find_entry : Bytes → List IndexEntry → Option IndexEntry
find_entry key [] = none
find_entry key (e ∷ es) = if bytes_lt e.last_key key then find_entry key es else some e

unfoldable pub scan_entry : Bytes → Bytes → Option IndexEntry → Option (Option ValueRecord)
scan_entry key contents none = some none
scan_entry key contents (some e) =
    let s = drop e.handle.offset contents in scan_block key (suc (length s)) e.handle.size s

-- GetRecord: the record that it stores, where it finds the key.
unfoldable pub get_record : Bytes → SsTableReader → Option (Option ValueRecord)
get_record key r =
    if not (is_empty_string r.filter_data) && not (key_may_match key r.filter_data)
    then some none
    else scan_entry key r.contents (find_entry key r.index_entries)

unfoldable pub value_of_record : Option ValueRecord → Option Bytes
value_of_record none = none
value_of_record (some r) = if is_deletion r.type then none else some r.value

-- Get, the old interface.
unfoldable pub get : Bytes → SsTableReader → Option (Option Bytes)
get key r = Option.map value_of_record (get_record key r)

-- A chain of reads that stops where the block ends: the inner `none`.
infixl 5 ◌>>?◌
abbrev pub ◌>>?◌ {ℓ κ} :
    {A : Type ℓ} {B : Type κ} → Option (Option A) → (A → Option (Option B)) → Option (Option B)
none >>? f = none
some none >>? f = some none
some (some a) >>? f = f a

-- The test of ForEach and the read behind it: `n` bytes where `left` are left of the block.
unfoldable pub read_in : ℕ → ℕ × Bytes → Option (Option (Bytes × ℕ × Bytes))
read_in n (left, s) =
    if ltb left n then some none else Option.map (λ p. some (p.0, left - n, p.1)) (read n s)

-- One entry: the row, what is left of the block, and the bytes behind the entry.
unfoldable pub read_row : ℕ → Bytes → Option (Option ((Bytes × ValueRecord) × ℕ × Bytes))
read_row left s = read_in 4 (left, s) >>? λ key_len.
    read_in (decode_le key_len.0) (key_len.1, key_len.2) >>? λ key.
    read_in 1 (key.1, key.2) >>? λ type. read_in 4 (type.1, type.2) >>? λ val_len.
    read_in (decode_le val_len.0) (val_len.1, val_len.2) >>? λ value. some (
      some (
        (key.0, record { type = type_of_byte (decode_le type.0); value = value.0 }),
        value.1,
        value.2,
      ))

-- The loop of ForEach over one block: the rows that the callback gets.
unfoldable pub rows_loop : ℕ → ℕ → Bytes → Option Rows
rows_loop zero left s = none
rows_loop (suc fuel) left s = elim (left == 0) [
  | true ↦ some []
  | false ↦ elim (read_row left s) [
    | none ↦ none
    | some none ↦ some []
    | some (some (row, left', rest)) ↦ Option.map (λ rows. row ∷ rows) (rows_loop fuel left' rest)
  ]
]

unfoldable pub rows_of_entry : Bytes → IndexEntry → Option Rows
rows_of_entry contents e =
    let s = drop e.handle.offset contents in rows_loop (suc (length s)) e.handle.size s

unfoldable pub rows_of_entries : Bytes → List IndexEntry → Option Rows
rows_of_entries contents [] = some []
rows_of_entries contents (e ∷ es) = do
  rows ← rows_of_entry contents e
  more ← rows_of_entries contents es
  some (rows ++ more)

-- ForEach: the calls of the callback.
unfoldable pub for_each : SsTableReader → Option Rows
for_each r = rows_of_entries r.contents r.index_entries

-- BuildMinorSST and BuildL0ToL1SST, on the rows and a path that is not empty: whether the path is free
-- or a file there can be removed, and whether fstat and mmap succeed.
unfoldable pub build_sst : Bool → Bool → Rows → Option (Option SsTableReader)
build_sst path_free mapped rows =
    if path_free then open_table mapped (some (table_file rows new_file).contents) else some none
