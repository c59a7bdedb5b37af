-- ===== src/Manifest/Fallback.antt =====
-- The fallback of RecordEdit: after a failed append the state is written as a snapshot, and the
-- log keeps its older edits.
use nova_kv.Prelude.{
  ℕ, ◌≡◌, refl, ◌∙◌, true, List, [], ◌∷◌, ◌++◌, none, some, All, lookup_id, erase_id,
  lookup_id-set_id, lookup_id-erase_id, ==_refl,
}
use nova_kv.Manifest.Codec.{ManifestState, Edit, add_sst, del_sst, apply_edit, snapshot_bytes}
use nova_kv.Manifest.Log.{IsEdit, apply_edits, edits_bytes}
use nova_kv.Manifest.SameState.{SameState-refl, apply_edits-append}
use nova_kv.Manifest.Snapshot.{IsState}
use nova_kv.Manifest.Durable.{Leads, reload, reload-Leads}
use nova_kv.Manifest.{
  Manager, Faults, done, no_open, append_edit, persist, record_edit, remove_sst_id, contents,
}

record_edit_fallback :
    (io : Faults) (m : Manager) (e : Edit)
    → io.dir ≡ true
    → io.append ≡ no_open
    → io.persist ≡ done
    → record_edit io m e ≡ record m { manifest = some (snapshot_bytes m.state) }
unfolding record_edit append_edit persist
record_edit_fallback io m e d a p = rw (d, a, p) refl

abbrev added : ℕ → ℕ → Edit
added id level = record { op = add_sst; id = id; level = level }

lookup-added :
    (st : ManifestState) (es : List Edit) (id level : ℕ)
    → lookup_id id (apply_edits st (es ++ added id level ∷ [])).sst_levels ≡ some level
lookup-added st es id level =
    rw (apply_edits-append st es (added id level ∷ []))
      (unfold apply_edit in lookup_id-set_id id id level _ ∙ rw (==_refl id) refl)

-- A table file is removed whose AddSST is the last edit of the log, the append of its DelSST
-- cannot open the log, and the fallback snapshot is written. The table is gone from memory, but a
-- restart replays the old log over the new snapshot and has the table again. The numbers of the
-- edits and of the state fit their integers.
pub fallback_restores_removed :
    (io : Faults) (m : Manager) (es : List Edit) (id level : ℕ)
    → io.dir ≡ true
    → io.append ≡ no_open
    → io.persist ≡ done
    → contents m.log ≡ edits_bytes (es ++ added id level ∷ [])
    → All IsEdit (es ++ added id level ∷ [])
    → IsState (record (m.state) { sst_levels = erase_id id m.state.sst_levels })
    → (lookup_id id (remove_sst_id io m id).state.sst_levels ≡ none)
      × ((m' : Manager) × (reload (remove_sst_id io m id) ≡ some (m', true))
          × (lookup_id id m'.state.sst_levels ≡ some level))
unfolding remove_sst_id
fallback_restores_removed io m es id level d a p logged fit fits =
    let gone : ManifestState = record (m.state) { sst_levels = erase_id id m.state.sst_levels } in
    let m1 : Manager = record m { state = gone } in
    let del : Edit = record { op = del_sst; id = id; level = 0 } in
    let edits : List Edit = es ++ added id level ∷ [] in
    let files : Leads (some (snapshot_bytes gone)) m.log (apply_edits gone edits) = record {
      base = gone;
      edits = edits;
      base_fits = fits;
      edits_fit = fit;
      snapshot = refl;
      logged = logged;
      same = SameState-refl (apply_edits gone edits);
    } in
    let (m', loaded, same) =
      reload-Leads (record m1 { manifest = some (snapshot_bytes gone) }) _ files in
    rw (record_edit_fallback io m1 del d a p) (
      lookup_id-erase_id id id m.state.sst_levels ∙ rw (==_refl id) refl,
      (m', loaded, same.ssts id ∙ lookup-added gone es id level),
    )
