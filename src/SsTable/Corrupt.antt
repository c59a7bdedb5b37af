-- ===== src/SsTable/Corrupt.antt =====
-- src/SSTableReader.cpp: Open on files that a builder has not written.
use nova_kv.Prelude.{
  ℕ, suc, ◌+◌, ◌-◌, ◌%◌, ◌≡◌, ◌≢◌, ◌<◌, ◌≤◌, refl, arith, ltb, ◌==◌, Bool, true, false, Bytes, [],
  ◌++◌, some, none, length, drop, read, read_word, encode_le, u64_mod, append-nil, length-append,
  length-encode_le, drop-eq-length, drop-all, read_word-encode_le8,
}
use nova_kv.SsTable.Format.{
  BlockHandle, Footer, IsHandle, handle_bytes, encoded_length, magic_number, decode_from,
  decode_fields, read_handle-handle_bytes, length-handle_bytes,
}
use nova_kv.SsTable.Reader.{
  new_reader, read_footer, read_index_entry, index_loop, read_index_block, load_table, open_table,
}

-- The last forty bytes, with any eight bytes for the magic number.
unfoldable pub footer_bytes : BlockHandle → BlockHandle → ℕ → Bytes
footer_bytes index filter magic = handle_bytes index ++ (handle_bytes filter ++ encode_le 8 magic)

length-footer_bytes :
    (index filter : BlockHandle) (magic : ℕ) → length (footer_bytes index filter magic) ≡ 40
unfolding footer_bytes
length-footer_bytes index filter magic = omega (
  arith,
  length-append (handle_bytes index) (handle_bytes filter ++ encode_le 8 magic),
  length-append (handle_bytes filter) (encode_le 8 magic),
  length-handle_bytes index,
  length-handle_bytes filter,
  length-encode_le 8 magic,
)

read_word8 : (x : ℕ) → x < u64_mod → read_word 8 (encode_le 8 x) ≡ some (x, [])
read_word8 x h = let e = read_word-encode_le8 x [] h in rw (append-nil (encode_le 8 x)) at e

-- The first entry of an index behind the end of the file cannot be read.
no_first_entry : (fuel left : ℕ) → 0 < left → index_loop (suc fuel) left [] ≡ none
unfolding index_loop read_index_entry read_word read
no_first_entry fuel left h =
    let more : (left == 0) ≡ false = ground arith in rw (more, index_loop) refl

module _ (front : Bytes) (index filter : BlockHandle) (magic : ℕ) (i : IsHandle index)
    (f : IsHandle filter) (m : magic < u64_mod) where
  decode_from-footer_bytes :
      (old : Footer)
      → decode_from old (footer_bytes index filter magic)
        ≡ some (record { index_handle = index; filter_handle = filter }, magic == magic_number)
  unfolding decode_from decode_fields
  decode_from-footer_bytes old =
      let long : ltb (length (footer_bytes index filter magic)) encoded_length ≡ false =
        ground (arith, length-footer_bytes index filter magic) in
      rw long (
        unfold footer_bytes in
        rw (read_handle-handle_bytes index _ i)
          (rw (read_handle-handle_bytes filter _ f) (rw (read_word8 magic m) refl)))

  last_forty :
      drop
        (length (front ++ footer_bytes index filter magic) - encoded_length)
        (front ++ footer_bytes index filter magic)
      ≡ footer_bytes index filter magic
  last_forty = drop-eq-length _ front (footer_bytes index filter magic) (
      omega (
        arith,
        length-append front (footer_bytes index filter magic),
        length-footer_bytes index filter magic,
      ))

  read_footer-footer_bytes :
      read_footer (new_reader (front ++ footer_bytes index filter magic))
      ≡ some (
        record (new_reader (front ++ footer_bytes index filter magic)) {
          footer = record { index_handle = index; filter_handle = filter };
        },
        magic == magic_number,
      )
  unfolding read_footer new_reader
  read_footer-footer_bytes = rw last_forty (rw (decode_from-footer_bytes _) refl)

  long_enough : ltb (length (front ++ footer_bytes index filter magic)) encoded_length ≡ false
  long_enough = ground (
    arith,
    length-append front (footer_bytes index filter magic),
    length-footer_bytes index filter magic,
  )

  -- A file that does not end in the magic number is not opened, whatever is in front of it. The
  -- numbers are uint64_t.
  pub open_table_refuses :
      (mapped : Bool)
      → magic ≢ magic_number
      → open_table mapped (some (front ++ footer_bytes index filter magic)) ≡ some none
  unfolding open_table load_table
  open_table_refuses false other = refl
  open_table_refuses true other =
      let wrong : (magic == magic_number) ≡ false = ground arith in
      rw (long_enough, read_footer-footer_bytes, wrong) refl

  -- The test of ReadIndexBlock adds the offset and the size as uint64_t. Where the sum wraps around
  -- to a number within the file, the index is read from behind the end of the mapping, although the
  -- footer is one of a table.
  pub wrapped_index_outside :
      magic ≡ magic_number
      → length front + encoded_length ≤ index.offset
      → 0 < index.size
      → u64_mod ≤ index.offset + index.size
      → index.offset + index.size ≤ u64_mod + length front
      → open_table true (some (front ++ footer_bytes index filter magic)) ≡ none
  unfolding open_table load_table new_reader
  wrapped_index_outside right behind some_size wraps within =
      let good : (magic == magic_number) ≡ true = ground arith in
      rw (long_enough, read_footer-footer_bytes, good) (rw index_outside refl)
    where
      file : Bytes
      file = front ++ footer_bytes index filter magic

      size : length file ≡ length front + 40
      size = omega (
        arith,
        length-append front (footer_bytes index filter magic),
        length-footer_bytes index filter magic,
      )

      passes : ltb (length file - encoded_length) ((index.offset + index.size) % u64_mod) ≡ false
      passes = ground (arith, size, i.offset, i.size)

      index_outside :
          read_index_block (record (new_reader file) {
            footer = record { index_handle = index; filter_handle = filter };
          })
          ≡ none
      index_outside =
          unfold read_index_block in
          rw (passes, drop-all index.offset file (omega (arith, size)))
            (rw (no_first_entry 0 index.size some_size) refl)
