-- ===== src/Manifest/Codec.antt =====
-- The state, the edits and the two file formats of the manifest.
use nova_kv.Prelude.{
  ℕ, zero, suc, ◌%◌, Bool, true, false, Bytes, [], ◌∷◌, ◌++◌, Option, none, some, ◌==◌,
  if◌then◌else◌, ◌>>=◌, IdMap, IdSet, insert_id, remove_id, set_id, erase_id, sort_entries,
  encode_le, read_word, length, u32_mod,
}

-- enum class ManifestOp : uint8_t
pub data ManifestOp : Type 0 where
  set_next_file_number add_sst del_sst add_wal del_wal : ManifestOp

-- static_cast<uint8_t>(op)
unfoldable pub op_byte : ManifestOp → ℕ
op_byte set_next_file_number = 1
op_byte add_sst = 2
op_byte del_sst = 3
op_byte add_wal = 4
op_byte del_wal = 5

-- static_cast<ManifestOp>(op_raw) with the range test behind it; `none` is "Unknown ManifestOp".
unfoldable pub op_of_byte : ℕ → Option ManifestOp
op_of_byte (suc zero) = some set_next_file_number
op_of_byte (suc (suc zero)) = some add_sst
op_of_byte (suc (suc (suc zero))) = some del_sst
op_of_byte (suc (suc (suc (suc zero)))) = some add_wal
op_of_byte (suc (suc (suc (suc (suc zero))))) = some del_wal
op_of_byte _ = none

abbrev pub manifest_magic : ℕ
manifest_magic = 0x12345678

abbrev pub manifest_version : ℕ
manifest_version = 1

-- struct ManifestState
pub record ManifestState : Type 0 where
  pub next_file_number : ℕ
  pub sst_levels : IdMap
  pub live_wals : IdSet

abbrev pub empty_state : ManifestState
empty_state = record { next_file_number = 0; sst_levels = []; live_wals = [] }

-- The arguments of one edit; `level` counts for `add_sst` alone.
pub record Edit : Type 0 where
  pub op : ManifestOp
  pub id : ℕ
  pub level : ℕ

apply_op : ManifestOp → ℕ → ℕ → ManifestState → ManifestState
apply_op set_next_file_number id level s = record s { next_file_number = id }
apply_op del_sst id level s = record s { sst_levels = erase_id id s.sst_levels }
apply_op add_wal id level s = record s { live_wals = insert_id id s.live_wals }
apply_op del_wal id level s = record s { live_wals = remove_id id s.live_wals }
apply_op add_sst id level s = record s { sst_levels = set_id id level s.sst_levels }

-- ApplyEdit. Its default branch, which returns false, is no enumerator.
unfoldable pub apply_edit : ManifestState → Edit → ManifestState
unfolding apply_op
apply_edit s e = apply_op e.op e.id e.level s

unfoldable pub payload_size : ManifestOp → ℕ
payload_size set_next_file_number = 8
payload_size add_sst = 12
payload_size del_sst = 8
payload_size add_wal = 8
payload_size del_wal = 8

unfoldable pub payload_bytes : ManifestOp → ℕ → ℕ → Bytes
payload_bytes set_next_file_number id level = encode_le 8 id
payload_bytes del_sst id level = encode_le 8 id
payload_bytes add_wal id level = encode_le 8 id
payload_bytes del_wal id level = encode_le 8 id
payload_bytes add_sst id level = encode_le 8 id ++ encode_le 4 level

-- What AppendEdit writes: magic, version, op, payload size, payload.
unfoldable pub edit_bytes : Edit → Bytes
edit_bytes e =
    encode_le 4 manifest_magic
    ++ (encode_le 4 manifest_version
        ++ (encode_le 1 (op_byte e.op)
            ++ (encode_le 4 (payload_size e.op) ++ payload_bytes e.op e.id e.level)))

-- One round of the loop of ReplayLog: the end of the log or a truncated record (`stop`), an error
-- (`bad`), or an edit and the bytes behind it.
pub data ReadEdit : Type 0 where
  stop : ReadEdit
  bad : ReadEdit
  edit : Edit → Bytes → ReadEdit

-- The id alone, as every operation but AddSST has it.
unfoldable pub read_id : ManifestOp → Bytes → ReadEdit
read_id op rest = elim (read_word 8 rest) [
  | none ↦ stop
  | some (id, r) ↦ edit (record { op = op; id = id; level = 0 }) r
]

unfoldable pub read_id_level : Bytes → ReadEdit
read_id_level rest = elim (read_word 8 rest) [
  | none ↦ stop
  | some (id, r) ↦ elim (read_word 4 r) [
    | none ↦ stop
    | some (level, r') ↦ edit (record { op = add_sst; id = id; level = level }) r'
  ]
]

unfoldable pub read_payload : ManifestOp → Bytes → ReadEdit
read_payload add_sst rest = read_id_level rest
read_payload set_next_file_number rest = read_id set_next_file_number rest
read_payload del_sst rest = read_id del_sst rest
read_payload add_wal rest = read_id add_wal rest
read_payload del_wal rest = read_id del_wal rest

unfoldable pub check_header : ℕ → ℕ → ℕ → Bytes → ReadEdit
check_header version op_raw size rest = elim (op_of_byte op_raw) [
  | none ↦ bad
  | some op ↦
      if size == payload_size op
      then if version == manifest_version then read_payload op rest else bad
      else bad
]

-- version, op, payload size; a short read of any of the three is a truncated header.
unfoldable pub read_header : Bytes → Option (ℕ × ℕ × ℕ × Bytes)
read_header s0 = do
  (version, s1) ← read_word 4 s0
  (op_raw, s2) ← read_word 1 s1
  (size, s3) ← read_word 4 s2
  some (version, op_raw, size, s3)

unfoldable pub after_magic : Bytes → ReadEdit
after_magic s = elim (read_header s) [
  | none ↦ stop
  | some (version, op_raw, size, rest) ↦ check_header version op_raw size rest
]

unfoldable pub read_edit : Bytes → ReadEdit
read_edit s = elim (read_word 4 s) [
  | none ↦ stop
  | some (magic, rest) ↦ if magic == manifest_magic then after_magic rest else bad
]

-- The loop of ReplayLog. The Boolean is its result; `none` means that the fuel ran out.
unfoldable pub replay_loop : ℕ → Bytes → ManifestState → Option (ManifestState × Bool)
replay_loop zero s st = none
replay_loop (suc fuel) s st = elim (read_edit s) [
  | stop ↦ some (st, true)
  | bad ↦ some (st, false)
  | edit e rest ↦ replay_loop fuel rest (apply_edit st e)
]

-- Each edit takes four bytes at least.
unfoldable pub replay_bytes : Bytes → ManifestState → Option (ManifestState × Bool)
replay_bytes s st = replay_loop (suc (length s)) s st

unfoldable pub entries_bytes : IdMap → Bytes
entries_bytes [] = []
entries_bytes ((id, level) ∷ m) = encode_le 8 id ++ (encode_le 4 level ++ entries_bytes m)

unfoldable pub wals_bytes : IdSet → Bytes
wals_bytes [] = []
wals_bytes (id ∷ s) = encode_le 8 id ++ wals_bytes s

-- What PersistState writes. The counts are cast to uint32_t.
unfoldable pub snapshot_bytes : ManifestState → Bytes
snapshot_bytes st =
    encode_le 4 manifest_magic
    ++ (encode_le 4 manifest_version
        ++ (encode_le 8 st.next_file_number
            ++ (encode_le 4 (length st.sst_levels % u32_mod)
                ++ (entries_bytes (sort_entries st.sst_levels)
                    ++ (encode_le 4 (length st.live_wals % u32_mod) ++ wals_bytes st.live_wals)))))

-- The two loops of LoadState, over the entries that are still to be read.
unfoldable pub load_entries : ℕ → Bytes → IdMap → IdMap × Option Bytes
load_entries zero s m = (m, some s)
load_entries (suc n) s m = elim (read_word 8 s) [
  | none ↦ (m, none)
  | some (id, r) ↦ elim (read_word 4 r) [
    | none ↦ (m, none)
    | some (level, r') ↦ load_entries n r' (set_id id level m)
  ]
]

unfoldable pub load_wals : ℕ → Bytes → IdSet → IdSet × Option Bytes
load_wals zero s w = (w, some s)
load_wals (suc n) s w = elim (read_word 8 s) [
  | none ↦ (w, none)
  | some (id, r) ↦ load_wals n r (insert_id id w)
]

-- `state.live_wals.clear()` and what follows it.
unfoldable pub load_wal_part : ManifestState → Bytes → ManifestState × Bool
load_wal_part st s = elim (read_word 4 s) [
  | none ↦ (record st { live_wals = [] }, false)
  | some (count, r) ↦
      let (w, rest) = load_wals count r [] in
      (record st { live_wals = w }, elim rest [ none ↦ false | some _ ↦ true ])
]

-- `state.next_file_number = …; state.sst_levels.clear()` and what follows it. A failure leaves the
-- state as far as it was read.
unfoldable pub load_sst_part : ManifestState → ℕ → ℕ → Bytes → ManifestState × Bool
load_sst_part st next count s =
    let (m, rest) = load_entries count s [] in
    let st' : ManifestState = record st { next_file_number = next; sst_levels = m } in
    elim rest [ none ↦ (st', false) | some r ↦ load_wal_part st' r ]

-- The four fields in front, with the tests between them.
unfoldable pub read_snapshot_header : Bytes → Option (ℕ × ℕ × Bytes)
read_snapshot_header s0 = do
  (magic, s1) ← read_word 4 s0
  (version, s2) ← if magic == manifest_magic then read_word 4 s1 else none
  (next, s3) ← if version == manifest_version then read_word 8 s2 else none
  (count, s4) ← read_word 4 s3
  some (next, count, s4)

-- LoadState on a MANIFEST that holds `s`.
unfoldable pub load_bytes : Bytes → ManifestState → ManifestState × Bool
load_bytes s st = elim (read_snapshot_header s) [
  | none ↦ (st, false)
  | some (next, count, rest) ↦ load_sst_part st next count rest
]
