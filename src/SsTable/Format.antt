-- ===== src/SsTable/Format.antt =====
-- include/FileFormats.h and include/Storage.h: the file that a table is written to, and the formats of
-- its parts. A file is its bytes, and every write succeeds.
use nova_kv.Prelude.{
  ℕ, ◌+◌, ◌%◌, ◌≡◌, refl, arith, ◌==◌, ltb, if◌then◌else◌, Bool, true, false, Bytes, [], ◌++◌,
  Option, some, ◌>>=◌, length, encode_le, decode_le, read, read_word, u64_mod, read_word-encode_le8,
  length-encode_le, append_assoc, ◌<◌, length-append,
}

-- WritableFile, opened for appending: what the file holds, and what was appended since.
pub record WritableFile : Type 0 where
  pub contents : Bytes
  pub size : ℕ

-- The constructor on a path whose file has been removed.
abbrev pub new_file : WritableFile
new_file = record { contents = []; size = 0 }

unfoldable pub append : Bytes → WritableFile → WritableFile
append bytes f = record { contents = f.contents ++ bytes; size = (f.size + length bytes) % u64_mod }

pub record BlockHandle : Type 0 where
  pub offset : ℕ
  pub size : ℕ

abbrev pub new_handle : BlockHandle
new_handle = record { offset = 0; size = 0 }

pub record IndexEntry : Type 0 where
  pub last_key : Bytes
  pub handle : BlockHandle

abbrev pub magic_number : ℕ
magic_number = 0xDEAD_C0DE_FA11_2026

-- Footer::kEncodedLength
abbrev pub encoded_length : ℕ
encoded_length = 40

pub record Footer : Type 0 where
  pub index_handle : BlockHandle
  pub filter_handle : BlockHandle

unfoldable pub handle_bytes : BlockHandle → Bytes
handle_bytes h = encode_le 8 h.offset ++ encode_le 8 h.size

-- EncodeTo, into an empty string.
unfoldable pub encode_to : Footer → Bytes
encode_to f =
    handle_bytes f.index_handle ++ (handle_bytes f.filter_handle ++ encode_le 8 magic_number)

unfoldable pub read_handle : Bytes → Option (BlockHandle × Bytes)
read_handle s = do
  (offset, s1) ← read_word 8 s
  (size, s2) ← read_word 8 s1
  some (record { offset = offset; size = size }, s2)

unfoldable pub decode_fields : Bytes → Option (Footer × Bool)
decode_fields input = do
  (index, s1) ← read_handle input
  (filter, s2) ← read_handle s1
  (magic, s3) ← read_word 8 s2
  some (record { index_handle = index; filter_handle = filter }, magic == magic_number)

-- DecodeFrom: the footer and whether it is one. `none` is a read behind the end of the string, which
-- the test of its length excludes.
unfoldable pub decode_from : Footer → Bytes → Option (Footer × Bool)
decode_from f input =
    if ltb (length input) encoded_length then some (f, false) else decode_fields input

-- A handle of uint64_t fields.
pub record IsHandle (h : BlockHandle) : Type 0 where
  pub offset : h.offset < u64_mod
  pub size : h.size < u64_mod

pub read_handle-handle_bytes :
    (h : BlockHandle) (rest : Bytes)
    → IsHandle h
    → read_handle (handle_bytes h ++ rest) ≡ some (h, rest)
unfolding read_handle handle_bytes
read_handle-handle_bytes h rest ok =
    rw (append_assoc (encode_le 8 h.offset) (encode_le 8 h.size) rest) (
      rw (read_word-encode_le8 h.offset _ ok.offset)
        (rw (read_word-encode_le8 h.size rest ok.size) refl))

pub length-handle_bytes : (h : BlockHandle) → length (handle_bytes h) ≡ 16
unfolding handle_bytes
length-handle_bytes h = omega (
  arith,
  length-append (encode_le 8 h.offset) (encode_le 8 h.size),
  length-encode_le 8 h.offset,
  length-encode_le 8 h.size,
)

pub length-encode_to : (f : Footer) → length (encode_to f) ≡ 40
unfolding encode_to
length-encode_to f = omega (
  arith,
  length-append (handle_bytes f.index_handle)
      (handle_bytes f.filter_handle ++ encode_le 8 magic_number),
  length-append (handle_bytes f.filter_handle) (encode_le 8 magic_number),
  length-handle_bytes f.index_handle,
  length-handle_bytes f.filter_handle,
  length-encode_le 8 magic_number,
)

read_magic : read_word 8 (encode_le 8 magic_number) ≡ some (magic_number, [])
unfolding encode_le decode_le read read_word
read_magic = refl

decode_fields-encode_to :
    (f : Footer)
    → IsHandle f.index_handle
    → IsHandle f.filter_handle
    → decode_fields (encode_to f) ≡ some (f, true)
unfolding decode_fields encode_to
decode_fields-encode_to f index filter =
    rw (read_handle-handle_bytes f.index_handle _ index)
      (rw (read_handle-handle_bytes f.filter_handle _ filter) (rw read_magic refl))

pub decode_from-encode_to :
    (old f : Footer)
    → IsHandle f.index_handle
    → IsHandle f.filter_handle
    → decode_from old (encode_to f) ≡ some (f, true)
unfolding decode_from
decode_from-encode_to old f index filter = rw long (decode_fields-encode_to f index filter)
  where
    long : ltb (length (encode_to f)) encoded_length ≡ false
    long = ground (arith, length-encode_to f)
