-- ===== src/Manifest/Log.antt =====
-- MANIFEST.log: what ReplayLog reads from what AppendEdit wrote.
use nova_kv.Prelude.{
  ℕ, zero, suc, ◌+◌, ◌-◌, ◌≤◌, ◌<◌, ◌≡◌, refl, sym, ap, ◌∙◌, arith, true, false, Bytes, List, [],
  ◌∷◌, ◌++◌, append-nil, append_assoc, none, some, length, length-append, take, All, encode_le,
  length-encode_le, read_word_cut1, read_word_cut4, read_word_cut8, u32_mod, u64_mod, ltb, lt→ltb,
  if◌then◌else◌,
}
use nova_kv.Manifest.Codec.{
  ManifestOp, set_next_file_number, add_sst, del_sst, add_wal, del_wal, op_byte, op_of_byte,
  manifest_magic, manifest_version, ManifestState, Edit, apply_edit, payload_size, payload_bytes,
  edit_bytes, stop, edit, read_id, read_id_level, read_payload, check_header, read_header,
  after_magic, read_edit, replay_loop, replay_bytes,
}

-- The level is 0 where AppendEdit is called without one.
abbrev pub LevelFits : ManifestOp → ℕ → Type 0
LevelFits add_sst level = Unit
LevelFits set_next_file_number level = level ≡ 0
LevelFits del_sst level = level ≡ 0
LevelFits add_wal level = level ≡ 0
LevelFits del_wal level = level ≡ 0

-- The arguments fit their types.
abbrev pub IsEdit : Edit → Type 0
IsEdit e = (e.id < u64_mod) × (e.level < u32_mod) × LevelFits e.op e.level

abbrev pub apply_edits : ManifestState → List Edit → ManifestState
apply_edits st [] = st
apply_edits st (e ∷ es) = apply_edits (apply_edit st e) es

abbrev pub edits_bytes : List Edit → Bytes
edits_bytes [] = []
edits_bytes (e ∷ es) = edit_bytes e ++ edits_bytes es

op_byte_lt : (op : ManifestOp) → op_byte op < 256
unfolding op_byte
op_byte_lt set_next_file_number = omega arith
op_byte_lt add_sst = omega arith
op_byte_lt del_sst = omega arith
op_byte_lt add_wal = omega arith
op_byte_lt del_wal = omega arith

op_of_byte-op_byte : (op : ManifestOp) → op_of_byte (op_byte op) ≡ some op
unfolding op_byte op_of_byte
op_of_byte-op_byte set_next_file_number = refl
op_of_byte-op_byte add_sst = refl
op_of_byte-op_byte del_sst = refl
op_of_byte-op_byte add_wal = refl
op_of_byte-op_byte del_wal = refl

payload_size_lt : (op : ManifestOp) → payload_size op < u32_mod
unfolding payload_size
payload_size_lt set_next_file_number = omega arith
payload_size_lt add_sst = omega arith
payload_size_lt del_sst = omega arith
payload_size_lt add_wal = omega arith
payload_size_lt del_wal = omega arith

length-payload_bytes :
    (op : ManifestOp) (id level : ℕ) → length (payload_bytes op id level) ≡ payload_size op
unfolding payload_bytes payload_size
length-payload_bytes set_next_file_number id level = length-encode_le 8 id
length-payload_bytes del_sst id level = length-encode_le 8 id
length-payload_bytes add_wal id level = length-encode_le 8 id
length-payload_bytes del_wal id level = length-encode_le 8 id
length-payload_bytes add_sst id level = omega (
  arith,
  length-append (encode_le 8 id) (encode_le 4 level),
  length-encode_le 8 id,
  length-encode_le 4 level,
)

-- The payload behind the header, cut after `n` bytes.
read_id_cut :
    (op : ManifestOp) (id : ℕ) (ys : Bytes) (n : ℕ)
    → id < u64_mod
    → read_id op (take n (encode_le 8 id ++ ys))
      ≡ (if ltb n 8 then stop else edit (record { op = op; id = id; level = 0 }) (take (n - 8) ys))
unfolding read_id
read_id_cut op id ys n h = ground (arith, read_word_cut8 id ys n)

read_id_level_cut :
    (id level : ℕ) (ys : Bytes) (n : ℕ)
    → id < u64_mod
    → level < u32_mod
    → read_id_level (take n (encode_le 8 id ++ (encode_le 4 level ++ ys))) ≡ (
        if ltb n 12
        then stop
        else edit (record { op = add_sst; id = id; level = level }) (take (n - 8 - 4) ys))
unfolding read_id_level
read_id_level_cut id level ys n h k =
    ground (arith, read_word_cut8 id (encode_le 4 level ++ ys) n, read_word_cut4 level ys (n - 8))

-- Where the payload is cut, and what is behind it otherwise.
read_payload_cut :
    (op : ManifestOp) (id level : ℕ) (ys : Bytes) (n : ℕ)
    → id < u64_mod
    → level < u32_mod
    → LevelFits op level
    → read_payload op (take n (payload_bytes op id level ++ ys)) ≡ (
        if ltb n (payload_size op)
        then stop
        else edit (record { op = op; id = id; level = level }) (take (n - payload_size op) ys))
unfolding read_payload payload_bytes payload_size
read_payload_cut set_next_file_number id level ys n h k f = rw f (read_id_cut _ id ys n h)
read_payload_cut del_sst id level ys n h k f = rw f (read_id_cut _ id ys n h)
read_payload_cut add_wal id level ys n h k f = rw f (read_id_cut _ id ys n h)
read_payload_cut del_wal id level ys n h k f = rw f (read_id_cut _ id ys n h)
read_payload_cut add_sst id level ys n h k f =
    rw (append_assoc, sub_twelve) (read_id_level_cut id level ys n h k)
  where
    sub_twelve : n - 12 ≡ n - 8 - 4
    sub_twelve = omega arith

check_header_good :
    (op : ManifestOp) (rest : Bytes)
    → check_header manifest_version (op_byte op) (payload_size op) rest ≡ read_payload op rest
unfolding check_header
check_header_good op rest = ground (arith, op_of_byte-op_byte op)

read_header_cut :
    (v o z : ℕ) (ys : Bytes) (n : ℕ)
    → v < u32_mod
    → o < 256
    → z < u32_mod
    → read_header (take n (encode_le 4 v ++ (encode_le 1 o ++ (encode_le 4 z ++ ys))))
      ≡ (if ltb n 9 then none else some (v, o, z, take (n - 9) ys))
unfolding read_header
read_header_cut v o z ys n hv ho hz = rw (sub_nine) (
    ground (
      arith,
      read_word_cut4 v (encode_le 1 o ++ (encode_le 4 z ++ ys)) n,
      read_word_cut1 o (encode_le 4 z ++ ys) (n - 4),
      read_word_cut4 z ys (n - 4 - 1),
    ))
  where
    sub_nine : n - 9 ≡ n - 4 - 1 - 4
    sub_nine = omega arith

-- One round of the loop on the first `n` bytes of a log that begins with an edit.
read_edit_cut :
    (e : Edit) (ys : Bytes) (n : ℕ)
    → IsEdit e
    → read_edit (take n (edit_bytes e ++ ys)) ≡ (
        if ltb n (13 + payload_size e.op)
        then stop
        else edit e (take (n - (13 + payload_size e.op)) ys))
unfolding read_edit edit_bytes after_magic
read_edit_cut e ys n (hid, hlevel, fits) =
    let p = payload_bytes e.op e.id e.level in
    let z = payload_size e.op in
    let header =
      encode_le 4 manifest_version
      ++ (encode_le 1 (op_byte e.op) ++ (encode_le 4 z ++ (p ++ ys))) in
    rw (append_assoc, append_assoc, append_assoc, append_assoc, sub_thirteen)
      (ground (
        arith,
        read_word_cut4 manifest_magic header n,
        read_header_cut manifest_version (op_byte e.op) z (p ++ ys) (n - 4) (omega arith)
            (op_byte_lt e.op) (payload_size_lt e.op),
        check_header_good e.op (take (n - 4 - 9) (p ++ ys)),
        read_payload_cut e.op e.id e.level ys (n - 4 - 9) hid hlevel fits,
      ))
  where
    sub_thirteen : n - (13 + payload_size e.op) ≡ n - 4 - 9 - payload_size e.op
    sub_thirteen = omega arith

pub length-edit_bytes : (e : Edit) → length (edit_bytes e) ≡ 13 + payload_size e.op
unfolding edit_bytes
length-edit_bytes e =
    let p = payload_bytes e.op e.id e.level in
    let z = encode_le 4 (payload_size e.op) in
    let o = encode_le 1 (op_byte e.op) in
    omega (
      arith,
      length-append (encode_le 4 manifest_magic) (encode_le 4 manifest_version ++ (o ++ (z ++ p))),
      length-append (encode_le 4 manifest_version) (o ++ (z ++ p)),
      length-append o (z ++ p),
      length-append z p,
      length-payload_bytes e.op e.id e.level,
      length-encode_le 4 manifest_magic,
      length-encode_le 4 manifest_version,
      length-encode_le 1 (op_byte e.op),
      length-encode_le 4 (payload_size e.op),
    )

take_all {ℓ} : {A : Type ℓ} (xs : List A) → take (length xs) xs ≡ xs
take_all [] = refl
take_all (x ∷ xs) = ap (λ t. x ∷ t) (take_all xs)

read_edit-edit_bytes :
    (e : Edit) (ys : Bytes) → IsEdit e → read_edit (edit_bytes e ++ ys) ≡ edit e ys
read_edit-edit_bytes e ys h =
    let n = length (edit_bytes e ++ ys) in
    ap read_edit (sym (take_all (edit_bytes e ++ ys)))
    ∙ read_edit_cut e ys n h
    ∙ rw
        (
          ge→ltb n (13 + payload_size e.op)
              (omega (arith, length-append (edit_bytes e) ys, length-edit_bytes e)),
          rest_length,
        )
        (ap (edit e) (take_all ys))
  where
    ge→ltb : (a b : ℕ) → b ≤ a → ltb a b ≡ false
    ge→ltb a b h = ground arith

    rest_length : length (edit_bytes e ++ ys) - (13 + payload_size e.op) ≡ length ys
    rest_length = omega (arith, length-append (edit_bytes e) ys, length-edit_bytes e)

-- A proper prefix of one edit is a truncated record.
read_edit_torn :
    (e : Edit) (n : ℕ)
    → IsEdit e
    → n < length (edit_bytes e)
    → read_edit (take n (edit_bytes e)) ≡ stop
read_edit_torn e n h short =
    ap (λ s. read_edit (take n s)) (sym (append-nil (edit_bytes e)))
    ∙ read_edit_cut e [] n h
    ∙ rw (lt→ltb n (13 + payload_size e.op) (omega (arith, length-edit_bytes e))) refl

replay_loop_edit :
    (fuel : ℕ) (s r : Bytes) (st : ManifestState) (e : Edit)
    → read_edit s ≡ edit e r
    → replay_loop (suc fuel) s st ≡ replay_loop fuel r (apply_edit st e)
unfolding replay_loop
replay_loop_edit fuel s r st e h = rw (h, replay_loop) refl

replay_loop_stop :
    (fuel : ℕ) (s : Bytes) (st : ManifestState)
    → read_edit s ≡ stop
    → replay_loop (suc fuel) s st ≡ some (st, true)
unfolding replay_loop
replay_loop_stop fuel s st h = rw (h, replay_loop) refl

-- Enough fuel for what is written out, and any fuel behind it.
replay_loop-edits_bytes :
    (es : List Edit) (tail : Bytes) (st : ManifestState) (fuel : ℕ)
    → All IsEdit es
    → length (edits_bytes es ++ tail) < fuel
    → (left : ℕ) × (length tail < left)
      × (replay_loop fuel (edits_bytes es ++ tail) st ≡ replay_loop left tail (apply_edits st es))
replay_loop-edits_bytes [] tail st fuel h enough = (fuel, enough, refl)
replay_loop-edits_bytes (e ∷ es) tail st zero h enough = absurd (omega arith)
replay_loop-edits_bytes (e ∷ es) tail st (suc fuel) h enough =
    let (left, more, eq) = replay_loop-edits_bytes es tail (apply_edit st e) fuel h.1 (
      omega (
        arith,
        length-append (edit_bytes e ++ edits_bytes es) tail,
        length-append (edit_bytes e) (edits_bytes es),
        length-append (edits_bytes es) tail,
        length-edit_bytes e,
      )) in
    (
      left,
      more,
      rw append_assoc (
          replay_loop_edit fuel _ _ st e (read_edit-edit_bytes e (edits_bytes es ++ tail) h.0)
          ∙ eq),
    )

-- ReplayLog on a log of whole edits behind which an append was cut after `n` bytes: exactly the
-- whole edits are applied, in order, and the replay succeeds. The ids and levels of the edits fit
-- their integers.
pub replay_bytes_torn :
    (es : List Edit) (e : Edit) (n : ℕ) (st : ManifestState)
    → All IsEdit es
    → IsEdit e
    → n < length (edit_bytes e)
    → replay_bytes (edits_bytes es ++ take n (edit_bytes e)) st ≡ some (apply_edits st es, true)
unfolding replay_bytes
replay_bytes_torn es e n st hs h short =
    let tail = take n (edit_bytes e) in
    let (left, more, eq) =
      replay_loop-edits_bytes es tail st (suc (length (edits_bytes es ++ tail))) hs (omega arith) in
    eq ∙ go left more
  where
    go :
        (left : ℕ)
        → length (take n (edit_bytes e)) < left
        → replay_loop left (take n (edit_bytes e)) (apply_edits st es)
          ≡ some (apply_edits st es, true)
    go zero more = absurd (omega arith)
    go (suc left) more = replay_loop_stop left _ _ (read_edit_torn e n h short)

some_edit : Edit
some_edit = record { op = add_wal; id = 0; level = 0 }

some_edit-IsEdit : IsEdit some_edit
unfolding some_edit
some_edit-IsEdit = omega arith

pub replay_bytes-edits_bytes :
    (es : List Edit) (st : ManifestState)
    → All IsEdit es
    → replay_bytes (edits_bytes es) st ≡ some (apply_edits st es, true)
replay_bytes-edits_bytes es st hs =
    ap (λ s. replay_bytes s st) (sym (append-nil (edits_bytes es)))
    ∙ replay_bytes_torn es some_edit 0 st hs some_edit-IsEdit
        (omega (arith, length-edit_bytes some_edit))
