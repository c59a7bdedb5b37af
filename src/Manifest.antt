-- ===== src/Manifest.antt =====
-- include/ManifestManager.h and src/ManifestManager.cpp: the metadata of the database, its edit
-- log MANIFEST.log and its snapshot MANIFEST. The bytes of the two files and their readers are in
-- `Codec`; here are the manager's methods over what is on disk. The proofs are in the children.
pub mod Codec
pub mod Log
pub mod SameState
pub mod Snapshot
pub mod Durable
pub mod Calls
pub mod Fallback
pub mod Keeps
mod Runs
use nova_kv.Prelude.{
  ℕ, zero, suc, ◌+◌, ◌%◌, Bool, true, false, Bytes, [], ◌++◌, Option, none, some, ltb, leb, not,
  ◌&&◌, if◌then◌else◌, has_id, insert_id, remove_id, set_id, erase_id, u32_mod, u64_mod, take,
}
use nova_kv.Manifest.Codec.{
  ManifestOp, set_next_file_number, add_sst, del_sst, add_wal, del_wal, ManifestState, Edit,
  apply_edit, edit_bytes, snapshot_bytes, replay_bytes, load_bytes,
}

-- What the file system does with one rewrite or one append of a file: all bytes are written, the
-- file cannot be opened, or the stream fails after some bytes.
pub data Outcome : Type 0 where
  done : Outcome
  no_open : Outcome
  cut_after : ℕ → Outcome

-- The outcomes that one method meets: whether the directory is there, the append to MANIFEST.log,
-- the rewrite of MANIFEST.tmp, and the open for truncation of MANIFEST.log.
pub record Faults : Type 0 where
  pub dir : Bool
  pub append : Outcome
  pub persist : Outcome
  pub truncate : Bool

abbrev pub no_faults : Faults
no_faults = record { dir = true; append = done; persist = done; truncate = true }

-- The manager with the contents of its two files; `none` is a file that does not exist.
pub record Manager : Type 0 where
  pub state : ManifestState
  pub edits_since_checkpoint : ℕ
  pub manifest : Option Bytes
  pub log : Option Bytes

abbrev pub checkpoint_threshold : ℕ
checkpoint_threshold = 100

abbrev pub contents : Option Bytes → Bytes
contents none = []
contents (some s) = s

-- An open for appending creates the file.
append_with : Outcome → Option Bytes → Bytes → Option Bytes × Bool
append_with done file bytes = (some (contents file ++ bytes), true)
append_with no_open file bytes = (file, false)
append_with (cut_after n) file bytes = (some (contents file ++ take n bytes), false)

pub append_edit : Faults → Manager → Edit → Manager × Bool
unfolding append_with
append_edit io m e =
    if io.dir
    then (let (log', ok) = append_with io.append m.log (edit_bytes e) in
        (record m { log = log' }, ok))
    else (m, false)

-- PersistState writes MANIFEST.tmp and renames it over MANIFEST only when all was written. The rename
-- does not fail here: in the code it throws, and neither the manager nor the database catches it.
persist_with : Outcome → Manager → Manager × Bool
persist_with done m = (record m { manifest = some (snapshot_bytes m.state) }, true)
persist_with no_open m = (m, false)
persist_with (cut_after n) m = (m, false)

pub persist : Faults → Manager → Manager × Bool
unfolding persist_with
persist io m = if io.dir then persist_with io.persist m else (m, false)

has_file : Option Bytes → Bool
has_file none = false
has_file (some s) = true

pub truncate_log : Faults → Manager → Manager × Bool
unfolding has_file
truncate_log io m =
    if io.dir && has_file m.log && io.truncate
    then (record m { log = some [] }, true)
    else (m, false)

pub maybe_checkpoint : Faults → Manager → Manager
maybe_checkpoint io m =
    if ltb m.edits_since_checkpoint checkpoint_threshold
    then m
    else (let (m1, persisted) = persist io m in
        if persisted
        then (let (m2, truncated) = truncate_log io m1 in
            if truncated then record m2 { edits_since_checkpoint = 0 } else m2)
        else m1)

-- RecordEdit: a failed append falls back to a snapshot.
pub record_edit : Faults → Manager → Edit → Manager
record_edit io m e =
    let (m1, appended) = append_edit io m e in
    if appended
    then maybe_checkpoint io
        (record m1 { edits_since_checkpoint = (m1.edits_since_checkpoint + 1) % u32_mod })
    else (persist io m1).0

-- ++state_.next_file_number, a uint64_t.
pub allocate_file_number : Faults → Manager → Manager × ℕ
allocate_file_number io m =
    let n = (m.state.next_file_number + 1) % u64_mod in
    let m1 = record m { state = record (m.state) { next_file_number = n } } in
    (record_edit io m1 (record { op = set_next_file_number; id = n; level = 0 }), n)

pub add_wal_id : Faults → Manager → ℕ → Manager × Bool
add_wal_id io m id = if has_id id m.state.live_wals then (m, false) else (
  record_edit io
      (record m { state = record (m.state) { live_wals = insert_id id m.state.live_wals } })
      (record { op = add_wal; id = id; level = 0 }),
  true,
)

pub remove_wal_id : Faults → Manager → ℕ → Manager × Bool
remove_wal_id io m id =
    if has_id id m.state.live_wals
    then (
      record_edit io
          (record m { state = record (m.state) { live_wals = remove_id id m.state.live_wals } })
          (record { op = del_wal; id = id; level = 0 }),
      true,
    )
    else (m, false)

pub add_sst_id : Faults → Manager → ℕ → ℕ → Manager
add_sst_id io m id level =
    record_edit io
      (record m { state = record (m.state) { sst_levels = set_id id level m.state.sst_levels } })
      (record { op = add_sst; id = id; level = level })

pub remove_sst_id : Faults → Manager → ℕ → Manager
remove_sst_id io m id =
    record_edit io
      (record m { state = record (m.state) { sst_levels = erase_id id m.state.sst_levels } })
      (record { op = del_sst; id = id; level = 0 })

pub set_next_file_number_without_edit : Manager → ℕ → Manager
set_next_file_number_without_edit m n = record m {
  state = record (m.state) { next_file_number = n };
}

pub set_sst_level_without_edit : Manager → ℕ → ℕ → Manager
set_sst_level_without_edit m id level = record m {
  state = record (m.state) { sst_levels = set_id id level m.state.sst_levels };
}

-- Load: the state is read from MANIFEST, if the directory and the file are there.
pub load : Faults → Manager → Manager × Bool
load io m =
    let m0 = record m { edits_since_checkpoint = 0 } in
    if io.dir
    then elim (m.manifest) [
      | none ↦ (m0, false)
      | some s ↦ let (st, ok) = load_bytes s m.state in (record m0 { state = st }, ok)
    ]
    else (m0, false)

-- ReplayLog: the edits of MANIFEST.log are applied to the state. `none` means that the fuel of the
-- reading loop ran out.
pub replay_log : Faults → Manager → Option (Manager × Bool)
replay_log io m =
    if io.dir
    then elim (m.log) [
      | none ↦ some (m, true)
      | some s ↦ elim (replay_bytes s m.state) [
        | none ↦ none
        | some (st, ok) ↦ some (record m { state = st }, ok)
      ]
    ]
    else some (m, false)
