-- ===== src/Manifest/Keeps.antt =====
-- Recording an edit leaves the state in memory alone.
use nova_kv.Prelude.{◌≡◌, refl, ap, ◌∙◌, Bool, false, ◌&&◌, if_cases, ltb, ℕ, has_id, insert_id}
use nova_kv.Manifest.{
  Outcome, done, no_open, cut_after, Faults, Manager, append_edit, persist_with, persist, has_file,
  truncate_log, maybe_checkpoint, record_edit, allocate_file_number, checkpoint_threshold,
  add_wal_id,
}
use nova_kv.Manifest.Codec.{Edit}

abbrev Keeps : Manager → Manager → Type 0
Keeps m m' = m'.state ≡ m.state

persist_with-state : (o : Outcome) (m : Manager) → Keeps m (persist_with o m).0
unfolding persist_with
persist_with-state done m = refl
persist_with-state no_open m = refl
persist_with-state (cut_after n) m = refl

persist-state : (io : Faults) (m : Manager) → Keeps m (persist io m).0
unfolding persist
persist-state io m =
    if_cases {A = Manager × Bool} (λ r. Keeps m r.0) io.dir (persist_with io.persist m) (m, false)
      (λ e. persist_with-state io.persist m) (λ e. refl)

truncate_log-state : (io : Faults) (m : Manager) → Keeps m (truncate_log io m).0
unfolding truncate_log
truncate_log-state io m =
    if_cases {A = Manager × Bool} (λ r. Keeps m r.0) (io.dir && has_file m.log && io.truncate) _ _
      (λ e. refl) (λ e. refl)

append_edit-state : (io : Faults) (m : Manager) (e : Edit) → Keeps m (append_edit io m e).0
unfolding append_edit
append_edit-state io m e =
    if_cases {A = Manager × Bool} (λ r. Keeps m r.0) io.dir _ _ (λ h. refl) (λ h. refl)

maybe_checkpoint-state : (io : Faults) (m : Manager) → Keeps m (maybe_checkpoint io m)
unfolding maybe_checkpoint
maybe_checkpoint-state io m =
    if_cases (Keeps m) (ltb m.edits_since_checkpoint checkpoint_threshold) _ _ (λ e. refl)
      (λ e.
        if_cases (Keeps m) (persist io m).1 _ _
          (λ f.
            if_cases (Keeps m) (truncate_log io (persist io m).0).1 _ _
              (λ g. truncate_log-state io (persist io m).0 ∙ persist-state io m)
              (λ g. truncate_log-state io (persist io m).0 ∙ persist-state io m))
          (λ f. persist-state io m))

pub record_edit-state : (io : Faults) (m : Manager) (e : Edit) → Keeps m (record_edit io m e)
unfolding record_edit
record_edit-state io m e =
    if_cases (Keeps m) (append_edit io m e).1 _ _
      (λ h. maybe_checkpoint-state io _ ∙ append_edit-state io m e)
      (λ h. persist-state io (append_edit io m e).0 ∙ append_edit-state io m e)

pub allocate_file_number-sst_levels :
    (io : Faults) (m : Manager)
    → (allocate_file_number io m).0.state.sst_levels ≡ m.state.sst_levels
unfolding allocate_file_number
allocate_file_number-sst_levels io m = ap (λ s. s.sst_levels) (record_edit-state io _ _)

pub live_wals-add_wal_id :
    (io : Faults) (m : Manager) (id : ℕ)
    → (add_wal_id io m id).0.state.live_wals ≡ insert_id id m.state.live_wals
unfolding add_wal_id insert_id
live_wals-add_wal_id io m id =
    if_cases (λ (x : Manager × Bool). x.0.state.live_wals ≡ insert_id id m.state.live_wals)
      (has_id id m.state.live_wals) _ _ (λ e. rw e refl)
      (λ e. ap (λ s. s.live_wals) (record_edit-state io _ _))
