-- ===== src/Manifest/Calls.antt =====
-- Sequences of calls of the manager's public methods, each with the outcomes that it meets.
use nova_kv.Prelude.{
  ℕ, ◌+◌, ◌<◌, ◌%◌, ◌≡◌, refl, ap, subst, ◌∙◌, arith, true, false, List, [], ◌∷◌, some,
  if◌then◌else◌, has_id, insert_id, remove_id, set_id, erase_id, u32_mod, u64_mod, Bool-cases, inl,
  inr,
}
use nova_kv.Manifest.Codec.{
  set_next_file_number, add_sst, del_sst, add_wal, del_wal, ManifestState, Edit, apply_edit,
}
use nova_kv.Manifest.Log.{IsEdit}
use nova_kv.Manifest.SameState.{SameState, SameState-refl}
use nova_kv.Manifest.Snapshot.{IsState}
use nova_kv.Manifest.Durable.{IsDurable, reload, reload-Leads, record_edit-IsDurable}
use nova_kv.Manifest.{
  Manager, Faults, done, record_edit, allocate_file_number, add_wal_id, remove_wal_id, add_sst_id,
  remove_sst_id,
}

pub data Call : Type 0 where
  allocate : Call
  wal_added : ℕ → Call
  wal_removed : ℕ → Call
  sst_added : ℕ → ℕ → Call
  sst_removed : ℕ → Call

unfoldable pub call : Faults → Manager → Call → Manager
call io m allocate = (allocate_file_number io m).0
call io m (wal_added id) = (add_wal_id io m id).0
call io m (wal_removed id) = (remove_wal_id io m id).0
call io m (sst_added id level) = add_sst_id io m id level
call io m (sst_removed id) = remove_sst_id io m id

-- What a call means for the state alone, with no file in sight.
abbrev pub meaning : ManifestState → Call → ManifestState
meaning s allocate = record s { next_file_number = (s.next_file_number + 1) % u64_mod }
meaning s (wal_added id) = record s { live_wals = insert_id id s.live_wals }
meaning s (wal_removed id) =
    if has_id id s.live_wals then record s { live_wals = remove_id id s.live_wals } else s
meaning s (sst_added id level) = record s { sst_levels = set_id id level s.sst_levels }
meaning s (sst_removed id) = record s { sst_levels = erase_id id s.sst_levels }

abbrev pub ArgsFit : Call → Type 0
ArgsFit allocate = Unit
ArgsFit (wal_added id) = id < u64_mod
ArgsFit (wal_removed id) = id < u64_mod
ArgsFit (sst_added id level) = (id < u64_mod) × (level < u32_mod)
ArgsFit (sst_removed id) = id < u64_mod

-- The append of a call is written; the outcomes of a checkpoint are left open.
abbrev pub Appends : Faults → Type 0
Appends io = (io.dir ≡ true) × (io.append ≡ done)

module _ (io : Faults) (m : Manager) (ok : Appends io) (l : IsDurable m) where
  -- An edit whose meaning is the change that the method made in memory.
  recorded :
      (st : ManifestState) (e : Edit)
      → IsEdit e
      → apply_edit m.state e ≡ st
      → IsState st
      → IsDurable (record_edit io (record m { state = st }) e)
        × ((record_edit io (record m { state = st }) e).state ≡ st)
  recorded st e fit same fits =
      record_edit-IsDurable io (record m { state = st }) m.state e ok.0 ok.1 l fit
        (rw same (SameState-refl st)) fits

  wal_added_again : (id : ℕ) → has_id id m.state.live_wals ≡ true → add_wal_id io m id ≡ (m, false)
  unfolding add_wal_id
  wal_added_again id there = rw there refl

  wal_added_same :
      (id : ℕ) → has_id id m.state.live_wals ≡ true → meaning m.state (wal_added id) ≡ m.state
  unfolding insert_id
  wal_added_same id there = rw there refl

  wal_added_new :
      (id : ℕ)
      → has_id id m.state.live_wals ≡ false
      → add_wal_id io m id ≡ (
        record_edit io
            (record m { state = meaning m.state (wal_added id) })
            (record { op = add_wal; id = id; level = 0 }),
        true,
      )
  unfolding add_wal_id
  wal_added_new id new = rw new refl

  wal_removed_new :
      (id : ℕ) → has_id id m.state.live_wals ≡ false → remove_wal_id io m id ≡ (m, false)
  unfolding remove_wal_id
  wal_removed_new id new = rw new refl

  wal_removed_known :
      (id : ℕ)
      → has_id id m.state.live_wals ≡ true
      → remove_wal_id io m id ≡ (
        record_edit io
            (record m { state = record (m.state) { live_wals = remove_id id m.state.live_wals } })
            (record { op = del_wal; id = id; level = 0 }),
        true,
      )
  unfolding remove_wal_id
  wal_removed_known id there = rw there refl

  wal_added-IsDurable :
      (id : ℕ)
      → id < u64_mod
      → IsState (meaning m.state (wal_added id))
      → IsDurable (call io m (wal_added id))
        × ((call io m (wal_added id)).state ≡ meaning m.state (wal_added id))
  unfolding call
  wal_added-IsDurable id h fits = elim (Bool-cases (has_id id m.state.live_wals)) [
    | inl there ↦ rw (wal_added_again id there, wal_added_same id there, call) (l, refl)
    | inr new ↦
        rw (wal_added_new id new, call)
          (recorded _ (record { op = add_wal; id = id; level = 0 }) (h, omega arith, refl)
            (unfold apply_edit in refl) fits)
  ]

  wal_removed-IsDurable :
      (id : ℕ)
      → id < u64_mod
      → IsState (meaning m.state (wal_removed id))
      → IsDurable (call io m (wal_removed id))
        × ((call io m (wal_removed id)).state ≡ meaning m.state (wal_removed id))
  unfolding call
  wal_removed-IsDurable id h fits = elim (Bool-cases (has_id id m.state.live_wals)) [
    | inl there ↦
        rw (wal_removed_known id there, there, call)
          (recorded _ (record { op = del_wal; id = id; level = 0 }) (h, omega arith, refl)
            (unfold apply_edit in refl) (rw there at fits))
    | inr gone ↦ rw (wal_removed_new id gone, gone, call) (l, refl)
  ]

  call-IsDurable :
      (c : Call)
      → ArgsFit c
      → IsState (meaning m.state c)
      → IsDurable (call io m c) × ((call io m c).state ≡ meaning m.state c)
  unfolding call allocate_file_number add_sst_id remove_sst_id apply_edit
  call-IsDurable allocate h fits =
      recorded _ (record { op = set_next_file_number; id = _; level = 0 })
        (fits.next, omega arith, refl) refl fits
  call-IsDurable (sst_added id level) h fits =
      recorded _ (record { op = add_sst; id = id; level = level }) (h.0, h.1, tt) refl fits
  call-IsDurable (sst_removed id) h fits =
      recorded _ (record { op = del_sst; id = id; level = 0 }) (h, omega arith, refl) refl fits
  call-IsDurable (wal_added id) h fits = wal_added-IsDurable id h fits
  call-IsDurable (wal_removed id) h fits = wal_removed-IsDurable id h fits

pub calls : Manager → List (Faults × Call) → Manager
calls m [] = m
calls m ((io, c) ∷ cs) = calls (call io m c) cs

abbrev pub meanings : ManifestState → List (Faults × Call) → ManifestState
meanings s [] = s
meanings s ((io, c) ∷ cs) = meanings (meaning s c) cs

-- Every append is written, and every state on the way fits its format.
abbrev pub AllFit : ManifestState → List (Faults × Call) → Type 0
AllFit s [] = Unit
AllFit s ((io, c) ∷ cs) = Appends io × ArgsFit c × IsState (meaning s c) × AllFit (meaning s c) cs

calls-IsDurable :
    (cs : List (Faults × Call)) (m : Manager) (s : ManifestState)
    → IsDurable m
    → m.state ≡ s
    → AllFit s cs
    → IsDurable (calls m cs) × ((calls m cs).state ≡ meanings s cs)
unfolding calls
calls-IsDurable [] m s l e h = (l, e)
calls-IsDurable ((io, c) ∷ cs) m s l e (ok, args, fits, rest) =
    let (l', e') = call-IsDurable io m ok l c args (rw e fits) in
    calls-IsDurable cs (call io m c) (meaning s c) l' (e' ∙ ap (λ t. meaning t c) e) rest

-- After any sequence of calls whose appends were written and whose arguments fit their integers,
-- from a manager whose files are in step, a restart (Load, then ReplayLog) succeeds and answers
-- every query as the calls demand. The snapshots and truncations of the checkpoints on the way may
-- fail at will.
pub calls_survive_restart :
    (m : Manager) (cs : List (Faults × Call))
    → IsDurable m
    → AllFit m.state cs
    → (m' : Manager) × (reload (calls m cs) ≡ some (m', true))
      × SameState m'.state (meanings m.state cs)
calls_survive_restart m cs l h =
    let (l', e) = calls-IsDurable cs m m.state l refl h in
    let (m', loaded, same) = reload-Leads (calls m cs) (calls m cs).state l' in
    (m', loaded, subst (λ s. SameState m'.state s) e same)
