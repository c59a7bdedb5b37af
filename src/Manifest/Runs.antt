-- ===== src/Manifest/Runs.antt =====
-- Runs of the manifest on concrete bytes, and the theorems at concrete inputs.
use nova_kv.Prelude.{
  ◌<◌, ◌≡◌, refl, arith, true, false, List, [], ◌∷◌, ◌++◌, none, some, take, length, All, lookup_id,
  set_id, erase_id,
}
use nova_kv.Manifest.Codec.{
  ManifestState, Edit, set_next_file_number, add_sst, add_wal, del_wal, empty_state, payload_size,
  edit_bytes, snapshot_bytes, replay_bytes, load_bytes,
}
use nova_kv.Manifest.Log.{IsEdit, edits_bytes, apply_edits, replay_bytes_torn, length-edit_bytes}
use nova_kv.Manifest.SameState.{SameState, SameState-refl, apply_edits_twice}
use nova_kv.Manifest.Snapshot.{IsState, load_bytes-snapshot_bytes}
use nova_kv.Manifest.Durable.{IsDurable, reload}
use nova_kv.Manifest.Calls.{
  Call, sst_added, sst_removed, calls, AllFit, meanings, calls_survive_restart,
}
use nova_kv.Manifest.Fallback.{fallback_restores_removed}
use nova_kv.Manifest.{Manager, Faults, done, no_open, cut_after, remove_sst_id}

abbrev edits : List Edit
edits =
    record { op = set_next_file_number; id = 7; level = 0 }
    ∷ record { op = add_sst; id = 6; level = 1 }
    ∷ record { op = add_wal; id = 7; level = 0 }
    ∷ []

edits-IsEdit : All IsEdit edits
edits-IsEdit = omega arith

abbrev removal : Edit
removal = record { op = del_wal; id = 7; level = 0 }

removal-IsEdit : IsEdit removal
removal-IsEdit = omega arith

removal_cut : 20 < length (edit_bytes removal)
unfolding payload_size
removal_cut = omega (arith, length-edit_bytes removal)

abbrev state : ManifestState
state = record { next_file_number = 9; sst_levels = (8, 0) ∷ (3, 1) ∷ []; live_wals = 9 ∷ 2 ∷ [] }

state-IsState : IsState state
unfolding lookup_id
state-IsState = record {
  next = omega arith;
  map = (refl, (refl, tt));
  entries = omega arith;
  wals = omega arith;
  sst_count = omega arith;
  wal_count = omega arith;
}

replay_bytes_torn_example :
    replay_bytes (edits_bytes edits ++ take 20 (edit_bytes removal)) empty_state
    ≡ some (apply_edits empty_state edits, true)
replay_bytes_torn_example =
    replay_bytes_torn edits removal 20 empty_state edits-IsEdit removal-IsEdit removal_cut

apply_edits_twice_example :
    SameState (apply_edits (apply_edits state edits) edits) (apply_edits state edits)
apply_edits_twice_example = apply_edits_twice edits state

load_bytes-snapshot_bytes_example :
    ((load_bytes (snapshot_bytes state) empty_state).1 ≡ true)
    × SameState (load_bytes (snapshot_bytes state) empty_state).0 state
load_bytes-snapshot_bytes_example = load_bytes-snapshot_bytes state empty_state state-IsState

abbrev manager : Manager
manager = record {
  state = state;
  edits_since_checkpoint = 99;
  manifest = some (snapshot_bytes state);
  log = some [];
}

manager-IsDurable : IsDurable manager
manager-IsDurable = record {
  base = state;
  edits = [];
  base_fits = state-IsState;
  edits_fit = tt;
  snapshot = refl;
  logged = refl;
  same = SameState-refl state;
}

-- A checkpoint whose truncation fails, and one whose snapshot is cut.
abbrev no_truncate : Faults
no_truncate = record { dir = true; append = done; persist = done; truncate = false }

abbrev no_snapshot : Faults
no_snapshot = record { dir = true; append = done; persist = cut_after 3; truncate = true }

abbrev two_calls : List (Faults × Call)
two_calls = (no_truncate, sst_removed 8) ∷ (no_snapshot, sst_added 5 1) ∷ []

two_calls-AllFit : AllFit state two_calls
unfolding lookup_id set_id erase_id
two_calls-AllFit = (
  (refl, refl),
  omega arith,
  record {
    next = omega arith;
    map = (refl, tt);
    entries = omega arith;
    wals = omega arith;
    sst_count = omega arith;
    wal_count = omega arith;
  },
  (
    (refl, refl),
    omega arith,
    record {
      next = omega arith;
      map = (refl, (refl, tt));
      entries = omega arith;
      wals = omega arith;
      sst_count = omega arith;
      wal_count = omega arith;
    },
    tt,
  ),
)

calls_survive_restart_example :
    (m' : Manager) × (reload (calls manager two_calls) ≡ some (m', true))
    × SameState m'.state (meanings state two_calls)
calls_survive_restart_example =
    calls_survive_restart manager two_calls manager-IsDurable two_calls-AllFit

abbrev broken_append : Faults
broken_append = record { dir = true; append = no_open; persist = done; truncate = true }

abbrev with_table : Manager
with_table = record manager {
  log = some (edits_bytes (record { op = add_sst; id = 8; level = 0 } ∷ []));
}

without_table-IsState : IsState (record state { sst_levels = erase_id 8 state.sst_levels })
unfolding lookup_id erase_id
without_table-IsState = record {
  next = omega arith;
  map = (refl, tt);
  entries = omega arith;
  wals = omega arith;
  sst_count = omega arith;
  wal_count = omega arith;
}

fallback_restores_removed_example :
    (lookup_id 8 (remove_sst_id broken_append with_table 8).state.sst_levels ≡ none)
    × ((m' : Manager) × (reload (remove_sst_id broken_append with_table 8) ≡ some (m', true))
        × (lookup_id 8 m'.state.sst_levels ≡ some 0))
fallback_restores_removed_example =
    fallback_restores_removed broken_append with_table [] 8 0 refl refl refl refl (omega arith)
      without_table-IsState
