-- ===== src/Manifest/SameState.antt =====
-- src/ManifestManager.cpp: when two states are the same to every query, and what edits do to it.
-- A checkpoint that stops between its snapshot and the truncation of the log has edits applied a
-- second time.
use nova_kv.Prelude.{
  ℕ, ◌≡◌, refl, sym, ap, ◌∙◌, ◌⊎◌, inl, inr, Bool, true, false, List, [], ◌∷◌, ◌++◌, Option, none,
  some, ◌==◌, if◌then◌else◌, lookup_id, has_id, lookup_id-set_id, lookup_id-erase_id,
  has_id-insert_id, has_id-remove_id,
}
use nova_kv.Manifest.Codec.{
  ManifestOp, set_next_file_number, add_sst, del_sst, add_wal, del_wal, ManifestState, Edit,
  apply_edit,
}
use nova_kv.Manifest.Log.{apply_edits}

pub record SameState (a b : ManifestState) : Type 0 where
  pub next : a.next_file_number ≡ b.next_file_number
  pub ssts : (id : ℕ) → lookup_id id a.sst_levels ≡ lookup_id id b.sst_levels
  pub wals : (id : ℕ) → has_id id a.live_wals ≡ has_id id b.live_wals

pub SameState-refl : (a : ManifestState) → SameState a a
SameState-refl a = record { next = refl; ssts = λ id. refl; wals = λ id. refl }

pub SameState-sym : {a b : ManifestState} → SameState a b → SameState b a
SameState-sym h = record {
  next = sym h.next;
  ssts = λ id. sym (h.ssts id);
  wals = λ id. sym (h.wals id);
}

pub SameState-trans : {a b c : ManifestState} → SameState a b → SameState b c → SameState a c
SameState-trans h k = record {
  next = h.next ∙ k.next;
  ssts = λ id. h.ssts id ∙ k.ssts id;
  wals = λ id. h.wals id ∙ k.wals id;
}

-- One edit, as each query sees it.
abbrev next_after : ManifestOp → ℕ → ℕ → ℕ
next_after set_next_file_number id n = id
next_after add_sst id n = n
next_after del_sst id n = n
next_after add_wal id n = n
next_after del_wal id n = n

abbrev sst_after : ℕ → ManifestOp → ℕ → ℕ → Option ℕ → Option ℕ
sst_after j add_sst id level v = if id == j then some level else v
sst_after j del_sst id level v = if id == j then none else v
sst_after j set_next_file_number id level v = v
sst_after j add_wal id level v = v
sst_after j del_wal id level v = v

abbrev wal_after : ℕ → ManifestOp → ℕ → Bool → Bool
wal_after j add_wal id v = if id == j then true else v
wal_after j del_wal id v = if id == j then false else v
wal_after j set_next_file_number id v = v
wal_after j add_sst id v = v
wal_after j del_sst id v = v

module _ (s : ManifestState) where
  next-apply_op :
      (op : ManifestOp) (id level : ℕ)
      → (apply_edit s (record { op = op; id = id; level = level })).next_file_number
        ≡ next_after op id s.next_file_number
  unfolding apply_edit
  next-apply_op set_next_file_number id level = refl
  next-apply_op add_sst id level = refl
  next-apply_op del_sst id level = refl
  next-apply_op add_wal id level = refl
  next-apply_op del_wal id level = refl

  ssts-apply_op :
      (j : ℕ) (op : ManifestOp) (id level : ℕ)
      → lookup_id j (apply_edit s (record { op = op; id = id; level = level })).sst_levels
        ≡ sst_after j op id level (lookup_id j s.sst_levels)
  unfolding apply_edit
  ssts-apply_op j set_next_file_number id level = refl
  ssts-apply_op j add_sst id level = lookup_id-set_id id j level s.sst_levels
  ssts-apply_op j del_sst id level = lookup_id-erase_id id j s.sst_levels
  ssts-apply_op j add_wal id level = refl
  ssts-apply_op j del_wal id level = refl

  wals-apply_op :
      (j : ℕ) (op : ManifestOp) (id level : ℕ)
      → has_id j (apply_edit s (record { op = op; id = id; level = level })).live_wals
        ≡ wal_after j op id (has_id j s.live_wals)
  unfolding apply_edit
  wals-apply_op j set_next_file_number id level = refl
  wals-apply_op j add_sst id level = refl
  wals-apply_op j del_sst id level = refl
  wals-apply_op j add_wal id level = has_id-insert_id id j s.live_wals
  wals-apply_op j del_wal id level = has_id-remove_id id j s.live_wals

pub SameState-apply_edit :
    {a b : ManifestState} (e : Edit) → SameState a b → SameState (apply_edit a e) (apply_edit b e)
SameState-apply_edit {a} {b} e h = record {
  next =
      next-apply_op a e.op e.id e.level
      ∙ ap (next_after e.op e.id) h.next
      ∙ sym (next-apply_op b e.op e.id e.level);
  ssts = λ j.
      ssts-apply_op a j e.op e.id e.level
      ∙ ap (sst_after j e.op e.id e.level) (h.ssts j)
      ∙ sym (ssts-apply_op b j e.op e.id e.level);
  wals = λ j.
      wals-apply_op a j e.op e.id e.level
      ∙ ap (wal_after j e.op e.id) (h.wals j)
      ∙ sym (wals-apply_op b j e.op e.id e.level);
}

pub SameState-apply_edits :
    (es : List Edit) {a b : ManifestState}
    → SameState a b
    → SameState (apply_edits a es) (apply_edits b es)
SameState-apply_edits [] h = h
SameState-apply_edits (e ∷ es) h = SameState-apply_edits es (SameState-apply_edit e h)

pub apply_edits-append :
    (st : ManifestState) (es fs : List Edit)
    → apply_edits st (es ++ fs) ≡ apply_edits (apply_edits st es) fs
apply_edits-append st [] fs = refl
apply_edits-append st (e ∷ es) fs = apply_edits-append (apply_edit st e) es fs

-- A function that changes nothing, or forgets its argument.
abbrev KeepsOrSets : {A : Type 0} → (A → A) → Type 0
KeepsOrSets {A} f = ((v : A) → f v ≡ v) ⊎ ((c : A) × ((v : A) → f v ≡ c))

KeepsOrSets-comp :
    {A : Type 0} (f g : A → A) → KeepsOrSets f → KeepsOrSets g → KeepsOrSets (λ v. g (f v))
KeepsOrSets-comp f g kf (inr (c, h)) = inr (c, λ v. h (f v))
KeepsOrSets-comp f g (inl k) (inl h) = inl (λ v. h (f v) ∙ k v)
KeepsOrSets-comp f g (inr (c, k)) (inl h) = inr (c, λ v. h (f v) ∙ k v)

KeepsOrSets-idem : {A : Type 0} (f : A → A) → KeepsOrSets f → (v : A) → f (f v) ≡ f v
KeepsOrSets-idem f (inl k) v = k (f v)
KeepsOrSets-idem f (inr (c, k)) v = k (f v) ∙ sym (k v)

KeepsOrSets-if : {A : Type 0} (b : Bool) (c : A) → KeepsOrSets (λ (v : A). if b then c else v)
KeepsOrSets-if true c = inr (c, λ v. refl)
KeepsOrSets-if false c = inl (λ v. refl)

next_after-KeepsOrSets : (op : ManifestOp) (id : ℕ) → KeepsOrSets (next_after op id)
next_after-KeepsOrSets set_next_file_number id = inr (id, λ v. refl)
next_after-KeepsOrSets add_sst id = inl (λ v. refl)
next_after-KeepsOrSets del_sst id = inl (λ v. refl)
next_after-KeepsOrSets add_wal id = inl (λ v. refl)
next_after-KeepsOrSets del_wal id = inl (λ v. refl)

sst_after-KeepsOrSets :
    (j : ℕ) (op : ManifestOp) (id level : ℕ) → KeepsOrSets (sst_after j op id level)
sst_after-KeepsOrSets j set_next_file_number id level = inl (λ v. refl)
sst_after-KeepsOrSets j add_sst id level = KeepsOrSets-if (id == j) (some level)
sst_after-KeepsOrSets j del_sst id level = KeepsOrSets-if (id == j) none
sst_after-KeepsOrSets j add_wal id level = inl (λ v. refl)
sst_after-KeepsOrSets j del_wal id level = inl (λ v. refl)

wal_after-KeepsOrSets : (j : ℕ) (op : ManifestOp) (id : ℕ) → KeepsOrSets (wal_after j op id)
wal_after-KeepsOrSets j set_next_file_number id = inl (λ v. refl)
wal_after-KeepsOrSets j add_sst id = inl (λ v. refl)
wal_after-KeepsOrSets j del_sst id = inl (λ v. refl)
wal_after-KeepsOrSets j add_wal id = KeepsOrSets-if (id == j) true
wal_after-KeepsOrSets j del_wal id = KeepsOrSets-if (id == j) false

-- A sequence of edits, as one query sees it.
module _ {A : Type 0} (after : Edit → A → A) where
  run_after : List Edit → A → A
  run_after [] v = v
  run_after (e ∷ es) v = run_after es (after e v)

  run_after-KeepsOrSets :
      ((e : Edit) → KeepsOrSets (after e)) → (es : List Edit) → KeepsOrSets (run_after es)
  unfolding run_after
  run_after-KeepsOrSets h [] = inl (λ v. refl)
  run_after-KeepsOrSets h (e ∷ es) =
      KeepsOrSets-comp (after e) (run_after es) (h e) (run_after-KeepsOrSets h es)

  run_after-query :
      (query : ManifestState → A)
      → ((s : ManifestState) (e : Edit) → query (apply_edit s e) ≡ after e (query s))
      → (es : List Edit) (s : ManifestState) → query (apply_edits s es) ≡ run_after es (query s)
  unfolding run_after
  run_after-query query h [] s = refl
  run_after-query query h (e ∷ es) s =
      run_after-query query h es (apply_edit s e) ∙ ap (run_after es) (h s e)

  run_after-twice :
      (query : ManifestState → A)
      → ((s : ManifestState) (e : Edit) → query (apply_edit s e) ≡ after e (query s))
      → ((e : Edit) → KeepsOrSets (after e))
      → (es : List Edit) (s : ManifestState)
      → query (apply_edits (apply_edits s es) es) ≡ query (apply_edits s es)
  run_after-twice query h k es s =
      run_after-query query h es (apply_edits s es)
      ∙ ap (run_after es) (run_after-query query h es s)
      ∙ KeepsOrSets-idem (run_after es) (run_after-KeepsOrSets k es) (query s)
      ∙ sym (run_after-query query h es s)

-- Replaying edits on a state that has them already gives the same state to every query.
pub apply_edits_twice :
    (es : List Edit) (s : ManifestState)
    → SameState (apply_edits (apply_edits s es) es) (apply_edits s es)
apply_edits_twice es s = record {
  next =
      run_after-twice (λ e. next_after e.op e.id) (λ t. t.next_file_number)
        (λ t e. next-apply_op t e.op e.id e.level) (λ e. next_after-KeepsOrSets e.op e.id) es s;
  ssts = λ j.
      run_after-twice (λ e. sst_after j e.op e.id e.level) (λ t. lookup_id j t.sst_levels)
        (λ t e. ssts-apply_op t j e.op e.id e.level)
        (λ e. sst_after-KeepsOrSets j e.op e.id e.level) es s;
  wals = λ j.
      run_after-twice (λ e. wal_after j e.op e.id) (λ t. has_id j t.live_wals)
        (λ t e. wals-apply_op t j e.op e.id e.level) (λ e. wal_after-KeepsOrSets j e.op e.id) es s;
}
