-- ===== src/Recovery/Live.antt =====
-- src/RecoveryLoader.cpp: the logs that are live after RecoverFromWals has read the directory.
use nova_kv.Prelude.{
  ℕ, ◌≡◌, refl, ap, ◌∙◌, arith, true, ◌||◌, List, [], ◌∷◌, ◌==◌, has_id, if◌then◌else◌,
  has_id-insert_id,
}
use nova_kv.Manifest.{Manager, Faults, add_wal_id}
use nova_kv.Manifest.Keeps.{live_wals-add_wal_id}
use nova_kv.Recovery.{add_found}

has_id-add_wal_id :
    (io : Faults) (m : Manager) (id j : ℕ)
    → has_id j (add_wal_id io m id).0.state.live_wals
      ≡ (if id == j then true else has_id j m.state.live_wals)
has_id-add_wal_id io m id j =
    ap (has_id j) (live_wals-add_wal_id io m id) ∙ has_id-insert_id id j m.state.live_wals

-- After the directory has been read, the live logs are those that the manager had and those whose
-- files the directory has, whatever the file system does at the appends to MANIFEST.log.
pub has_id-add_found :
    (io : ℕ → Faults) (found : List ℕ) (m : Manager) (j : ℕ)
    → has_id j (add_found io found m).state.live_wals
      ≡ (has_id j found || has_id j m.state.live_wals)
unfolding add_found has_id
has_id-add_found io [] m j = refl
has_id-add_found io (id ∷ found) m j =
    has_id-add_found io found _ j ∙ rw (has_id-add_wal_id (io id) m id j) (ground arith)
