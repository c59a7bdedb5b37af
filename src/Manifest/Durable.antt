-- ===== src/Manifest/Durable.antt =====
-- src/ManifestManager.cpp: what MANIFEST and MANIFEST.log hold together while RecordEdit and
-- MaybeCheckpoint run, and what a restart reads from them.
use nova_kv.Prelude.{
  ◌+◌, ◌≡◌, ◌⊎◌, ◌%◌, ◌&&◌, refl, sym, ap, ◌∙◌, arith, Bool, true, false, Bytes, List, [], ◌∷◌,
  ◌++◌, append_assoc, append-nil, Option, none, some, ltb, if◌then◌else◌, All, All-append, u32_mod,
  Bool-cases, inl, inr,
}
use nova_kv.Manifest.Codec.{
  ManifestState, Edit, apply_edit, edit_bytes, snapshot_bytes, replay_bytes, load_bytes,
}
use nova_kv.Manifest.Log.{IsEdit, apply_edits, edits_bytes, replay_bytes-edits_bytes}
use nova_kv.Manifest.SameState.{
  SameState, SameState-refl, SameState-sym, SameState-trans, SameState-apply_edit,
  SameState-apply_edits, apply_edits-append, apply_edits_twice,
}
use nova_kv.Manifest.Snapshot.{IsState, load_bytes-snapshot_bytes}
use nova_kv.Manifest.{
  Manager, Faults, Outcome, done, no_open, cut_after, persist_with, has_file, no_faults, contents,
  checkpoint_threshold, append_edit, persist, truncate_log, maybe_checkpoint, record_edit, load,
  replay_log,
}

-- The files are a snapshot and edits, and they lead to `st`.
pub record Leads (manifest log : Option Bytes) (st : ManifestState) : Type 0 where
  pub base : ManifestState
  pub edits : List Edit
  pub base_fits : IsState base
  pub edits_fit : All IsEdit edits
  pub snapshot : manifest ≡ some (snapshot_bytes base)
  pub logged : contents log ≡ edits_bytes edits
  pub same : SameState (apply_edits base edits) st

abbrev pub IsDurable : Manager → Type 0
IsDurable m = Leads m.manifest m.log m.state

-- Load and then ReplayLog, as the constructor of DBImpl calls them, on the files of `m`.
pub reload : Manager → Option (Manager × Bool)
reload m =
    let (m1, loaded) = load no_faults m in
    if loaded then replay_log no_faults m1 else some (m1, false)

edits_bytes-append :
    (es : List Edit) (e : Edit) → edits_bytes (es ++ e ∷ []) ≡ edits_bytes es ++ edit_bytes e
edits_bytes-append [] e = append-nil (edit_bytes e)
edits_bytes-append (f ∷ es) e =
    ap (λ s. edit_bytes f ++ s) (edits_bytes-append es e)
    ∙ sym (append_assoc (edit_bytes f) (edits_bytes es) (edit_bytes e))

-- ReplayLog in terms of the contents, where a file that is not there counts as empty.
replay_log-contents :
    (m : Manager) (st : ManifestState)
    → replay_bytes (contents m.log) m.state ≡ some (st, true)
    → replay_log no_faults m ≡ some (record m { state = st }, true)
unfolding replay_log
replay_log-contents m st h = by_log m.log m.state h
  where
    by_log :
        (log : Option Bytes) (old : ManifestState)
        → replay_bytes (contents log) old ≡ some (st, true)
        → replay_log no_faults (record m { log = log; state = old })
          ≡ some (record m { log = log; state = st }, true)
    by_log none old h = ground (arith, replay_bytes-edits_bytes [] old tt)
    by_log (some s) old h = ground arith

load-snapshot :
    (m : Manager) (s : Bytes)
    → m.manifest ≡ some s
    → load no_faults m ≡ (
      record m { state = (load_bytes s m.state).0; edits_since_checkpoint = 0 },
      (load_bytes s m.state).1,
    )
unfolding load
load-snapshot m s h = ground arith

-- A restart finds the state that the files lead to, whatever `m` has in memory.
pub reload-Leads :
    (m : Manager) (st : ManifestState)
    → Leads m.manifest m.log st
    → (m' : Manager) × (reload m ≡ some (m', true)) × SameState m'.state st
unfolding reload
reload-Leads m st l =
    let (ok, same) = load_bytes-snapshot_bytes l.base m.state l.base_fits in
    let read = (load_bytes (snapshot_bytes l.base) m.state).0 in
    let m1 : Manager = record m { state = read; edits_since_checkpoint = 0 } in
    let replayed = rw (← l.logged) at (replay_bytes-edits_bytes l.edits read l.edits_fit) in
    (
      record m1 { state = apply_edits read l.edits },
      rw (load-snapshot m (snapshot_bytes l.base) l.snapshot, ok)
          (replay_log-contents m1 (apply_edits read l.edits) replayed),
      SameState-trans (SameState-apply_edits l.edits same) l.same,
    )

-- The steps of RecordEdit, each on the files alone.
Leads-append :
    (m : Manager) (old : ManifestState) (e : Edit) (log' : Option Bytes)
    → Leads m.manifest m.log old
    → IsEdit e
    → contents log' ≡ contents m.log ++ edit_bytes e
    → SameState (apply_edit old e) m.state
    → Leads m.manifest log' m.state
Leads-append m old e log' l fit wrote same = record {
  base = l.base;
  edits = l.edits ++ e ∷ [];
  base_fits = l.base_fits;
  edits_fit = All-append IsEdit l.edits (e ∷ []) l.edits_fit (fit, tt);
  snapshot = l.snapshot;
  logged = wrote ∙ ap (λ s. s ++ edit_bytes e) l.logged ∙ sym (edits_bytes-append l.edits e);
  same =
      rw (apply_edits-append l.base l.edits (e ∷ []))
        (SameState-trans (SameState-apply_edit e l.same) same);
}

-- A snapshot of the state, with the log still there: its edits are applied a second time.
Leads-snapshot :
    (manifest log : Option Bytes) (st : ManifestState)
    → Leads manifest log st
    → IsState st
    → Leads (some (snapshot_bytes st)) log st
Leads-snapshot manifest log st l fits = record {
  base = st;
  edits = l.edits;
  base_fits = fits;
  edits_fit = l.edits_fit;
  snapshot = refl;
  logged = l.logged;
  same =
      SameState-trans (SameState-apply_edits l.edits (SameState-sym l.same))
        (SameState-trans (apply_edits_twice l.edits l.base) l.same);
}

-- The snapshot alone, once the log is truncated.
Leads-truncated : (st : ManifestState) → IsState st → Leads (some (snapshot_bytes st)) (some []) st
Leads-truncated st fits = record {
  base = st;
  edits = [];
  base_fits = fits;
  edits_fit = tt;
  snapshot = refl;
  logged = refl;
  same = SameState-refl st;
}

-- The three methods that touch a file do their work whole or leave the file alone.
persist_cases :
    (io : Faults) (m : Manager)
    → (persist io m ≡ (record m { manifest = some (snapshot_bytes m.state) }, true))
      ⊎ (persist io m ≡ (m, false))
unfolding persist
persist_cases io m = elim (Bool-cases io.dir) [
  | inl there ↦ rw there (by_outcome io.persist)
  | inr gone ↦ rw gone (inr refl)
]
  where
    by_outcome :
        (o : Outcome)
        → (persist_with o m ≡ (record m { manifest = some (snapshot_bytes m.state) }, true))
          ⊎ (persist_with o m ≡ (m, false))
    by_outcome done = inl refl
    by_outcome no_open = inr refl
    by_outcome (cut_after n) = inr refl

truncate_log_cases :
    (io : Faults) (m : Manager)
    → (truncate_log io m ≡ (record m { log = some [] }, true)) ⊎ (truncate_log io m ≡ (m, false))
unfolding truncate_log
truncate_log_cases io m = elim (Bool-cases (io.dir && has_file m.log && io.truncate)) [
  | inl yes' ↦ rw yes' (inl refl)
  | inr no' ↦ rw no' (inr refl)
]

append_edit_done :
    (io : Faults) (m : Manager) (e : Edit)
    → io.dir ≡ true
    → io.append ≡ done
    → append_edit io m e ≡ (record m { log = some (contents m.log ++ edit_bytes e) }, true)
unfolding append_edit
append_edit_done io m e d a = rw (d, a) refl

checkpoint-IsDurable :
    (io : Faults) (m : Manager)
    → IsDurable m
    → IsState m.state
    → IsDurable (maybe_checkpoint io m) × ((maybe_checkpoint io m).state ≡ m.state)
unfolding maybe_checkpoint
checkpoint-IsDurable io m l fits =
    elim (Bool-cases (ltb m.edits_since_checkpoint checkpoint_threshold)) [
      | inl early ↦ rw early (l, refl)
      | inr due ↦ elim (persist_cases io m) [
        | inr failed ↦ rw (due, failed) (l, refl)
        | inl written ↦
            let m1 : Manager = record m { manifest = some (snapshot_bytes m.state) } in
            elim (truncate_log_cases io m1) [
              | inl cleared ↦ rw (due, written, cleared) (Leads-truncated m.state fits, refl)
              | inr kept ↦
                  rw (due, written, kept) (Leads-snapshot m.manifest m.log m.state l fits, refl)
            ]
      ]
    ]

-- RecordEdit with an append that succeeds: whatever becomes of the snapshot and of the truncation
-- that a checkpoint may add, the files lead to the new state, and the state in memory is kept.
pub record_edit-IsDurable :
    (io : Faults) (m : Manager) (old : ManifestState) (e : Edit)
    → io.dir ≡ true
    → io.append ≡ done
    → Leads m.manifest m.log old
    → IsEdit e
    → SameState (apply_edit old e) m.state
    → IsState m.state
    → IsDurable (record_edit io m e) × ((record_edit io m e).state ≡ m.state)
unfolding record_edit
record_edit-IsDurable io m old e d a l fit same fits =
    let log' : Option Bytes = some (contents m.log ++ edit_bytes e) in
    rw (append_edit_done io m e d a) (
      checkpoint-IsDurable io
        (record m { log = log'; edits_since_checkpoint = (m.edits_since_checkpoint + 1) % u32_mod })
        (Leads-append m old e log' l fit refl same) fits)
