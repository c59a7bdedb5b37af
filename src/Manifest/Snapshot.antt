-- ===== src/Manifest/Snapshot.antt =====
-- MANIFEST: LoadState on what PersistState wrote.
use native.Mathlib.Nat.{mod-eq_of_lt}
use nova_kv.Prelude.{
  ℕ, suc, ◌<◌, ◌≡◌, refl, ap, ◌∙◌, arith, Bool, true, false, Bytes, [], ◌∷◌, ◌++◌, append-nil,
  append_assoc, Option, none, some, length, All, encode_le, read_word-encode_le4,
  read_word-encode_le8, u32_mod, u64_mod, if◌then◌else◌, IdMap, IdSet, IsMap, lookup_id, set_id,
  has_id, insert_id, insert_sorted, sort_entries, sort_entries-IsMap, lookup_id-sort_entries,
  lookup_id-set_id, has_id-insert_id,
}
use nova_kv.Manifest.Codec.{
  manifest_magic, manifest_version, ManifestState, entries_bytes, wals_bytes, snapshot_bytes,
  load_entries, load_wals, load_wal_part, load_sst_part, read_snapshot_header, load_bytes,
}
use nova_kv.Manifest.SameState.{SameState}

abbrev EntryFits : ℕ × ℕ → Type 0
EntryFits p = (p.0 < u64_mod) × (p.1 < u32_mod)

abbrev WordFits : ℕ → Type 0
WordFits n = n < u64_mod

-- The state fits its file format: words, counts, and a map with one entry for each key.
pub record IsState (st : ManifestState) : Type 0 where
  pub next : st.next_file_number < u64_mod
  pub map : IsMap st.sst_levels
  pub entries : All EntryFits st.sst_levels
  pub wals : All WordFits st.live_wals
  pub sst_count : length st.sst_levels < u32_mod
  pub wal_count : length st.live_wals < u32_mod

length-insert_sorted : (k v : ℕ) (m : IdMap) → length (insert_sorted k v m) ≡ suc (length m)
unfolding insert_sorted
length-insert_sorted k v [] = refl
length-insert_sorted k v ((i, w) ∷ m) = ground (arith, length-insert_sorted k v m)

length-sort_entries : (m : IdMap) → length (sort_entries m) ≡ length m
unfolding sort_entries
length-sort_entries [] = refl
length-sort_entries ((i, v) ∷ m) =
    length-insert_sorted i v (sort_entries m) ∙ ap suc (length-sort_entries m)

insert_sorted-fits :
    (k v : ℕ) (m : IdMap) → EntryFits (k, v) → All EntryFits m → All EntryFits (insert_sorted k v m)
unfolding insert_sorted
insert_sorted-fits k v [] h hs = (h, tt)
insert_sorted-fits k v ((i, w) ∷ m) h hs = ground (arith, insert_sorted-fits k v m)

sort_entries-fits : (m : IdMap) → All EntryFits m → All EntryFits (sort_entries m)
unfolding sort_entries
sort_entries-fits [] h = tt
sort_entries-fits ((i, v) ∷ m) h =
    insert_sorted-fits i v (sort_entries m) h.0 (sort_entries-fits m h.1)

abbrev set_all : IdMap → IdMap → IdMap
set_all [] acc = acc
set_all ((i, v) ∷ m) acc = set_all m (set_id i v acc)

abbrev insert_all : IdSet → IdSet → IdSet
insert_all [] acc = acc
insert_all (i ∷ s) acc = insert_all s (insert_id i acc)

load_entries-entries_bytes :
    (m acc : IdMap) (rest : Bytes)
    → All EntryFits m
    → load_entries (length m) (entries_bytes m ++ rest) acc ≡ (set_all m acc, some rest)
unfolding load_entries
load_entries-entries_bytes [] acc rest h = unfold load_entries entries_bytes in refl
load_entries-entries_bytes ((i, v) ∷ m) acc rest h =
    step ∙ load_entries-entries_bytes m (set_id i v acc) rest h.1
  where
    step :
        load_entries (suc (length m)) (entries_bytes ((i, v) ∷ m) ++ rest) acc
        ≡ load_entries (length m) (entries_bytes m ++ rest) (set_id i v acc)
    step =
        unfold entries_bytes in
        rw (append_assoc, append_assoc)
          (rw
            (
              read_word-encode_le8 i (encode_le 4 v ++ (entries_bytes m ++ rest)) h.0.0,
              load_entries,
            )
            (rw (read_word-encode_le4 v (entries_bytes m ++ rest) h.0.1) refl))

load_wals-wals_bytes :
    (s acc : IdSet) (rest : Bytes)
    → All WordFits s
    → load_wals (length s) (wals_bytes s ++ rest) acc ≡ (insert_all s acc, some rest)
unfolding load_wals
load_wals-wals_bytes [] acc rest h = unfold load_wals wals_bytes in refl
load_wals-wals_bytes (i ∷ s) acc rest h = step ∙ load_wals-wals_bytes s (insert_id i acc) rest h.1
  where
    step :
        load_wals (suc (length s)) (wals_bytes (i ∷ s) ++ rest) acc
        ≡ load_wals (length s) (wals_bytes s ++ rest) (insert_id i acc)
    step =
        unfold wals_bytes in
        rw append_assoc (rw (read_word-encode_le8 i (wals_bytes s ++ rest) h.0, load_wals) refl)

-- Entries with different keys leave what is looked up in them, over what was there.
lookup_id-set_all :
    (j : ℕ) (m acc : IdMap)
    → IsMap m
    → lookup_id j (set_all m acc)
      ≡ elim (lookup_id j m) [ none ↦ lookup_id j acc | some v ↦ some v ]
unfolding lookup_id
lookup_id-set_all j [] acc h = refl
lookup_id-set_all j ((i, v) ∷ m) acc h =
    ground (arith, lookup_id-set_all j m (set_id i v acc), lookup_id-set_id i j v acc)

has_id-insert_all :
    (j : ℕ) (s acc : IdSet)
    → has_id j (insert_all s acc) ≡ (if has_id j s then true else has_id j acc)
unfolding has_id
has_id-insert_all j [] acc = refl
has_id-insert_all j (i ∷ s) acc =
    ground (arith, has_id-insert_all j s (insert_id i acc), has_id-insert_id i j acc)

-- The state that LoadState builds from a snapshot.
abbrev loaded : ManifestState → ManifestState
loaded st = record {
  next_file_number = st.next_file_number;
  sst_levels = set_all (sort_entries st.sst_levels) [];
  live_wals = insert_all st.live_wals [];
}

loaded-SameState : (st : ManifestState) → IsState st → SameState (loaded st) st
unfolding lookup_id has_id
loaded-SameState st h = record {
  next = refl;
  ssts = λ j.
      lookup_id-set_all j (sort_entries st.sst_levels) [] (sort_entries-IsMap st.sst_levels h.map)
      ∙ rw (lookup_id-sort_entries j st.sst_levels) (same_option (lookup_id j st.sst_levels));
  wals = λ j. has_id-insert_all j st.live_wals [] ∙ same_bool (has_id j st.live_wals);
}
  where
    same_option : (o : Option ℕ) → ◌≡◌ {A = Option ℕ} (elim o [ none ↦ none | some v ↦ some v ]) o
    same_option none = refl
    same_option (some v) = refl

    same_bool : (b : Bool) → (if b then true else false) ≡ b
    same_bool true = refl
    same_bool false = refl

module _ (st st0 : ManifestState) (h : IsState st) where
  abbrev wal_bytes : Bytes
  wal_bytes = encode_le 4 (length st.live_wals) ++ wals_bytes st.live_wals

  abbrev sst_bytes : Bytes
  sst_bytes = entries_bytes (sort_entries st.sst_levels) ++ wal_bytes

  read_snapshot_header-snapshot_bytes :
      read_snapshot_header (snapshot_bytes st)
      ≡ some (st.next_file_number, length st.sst_levels, sst_bytes)
  unfolding snapshot_bytes read_snapshot_header
  read_snapshot_header-snapshot_bytes =
      let after_next = encode_le 4 (length st.sst_levels) ++ sst_bytes in
      let after_version = encode_le 8 st.next_file_number ++ after_next in
      rw (mod-eq_of_lt h.sst_count, mod-eq_of_lt h.wal_count)
        (ground (
          arith,
          read_word-encode_le4 manifest_magic (encode_le 4 manifest_version ++ after_version)
              (omega arith),
          read_word-encode_le4 manifest_version after_version (omega arith),
          read_word-encode_le8 st.next_file_number after_next h.next,
          read_word-encode_le4 (length st.sst_levels) sst_bytes h.sst_count,
        ))

  load_wal_part-wal_bytes :
      (st' : ManifestState)
      → load_wal_part st' wal_bytes ≡ (record st' { live_wals = insert_all st.live_wals [] }, true)
  unfolding load_wal_part
  load_wal_part-wal_bytes st' =
      rw
        (
          read_word-encode_le4 (length st.live_wals) (wals_bytes st.live_wals) h.wal_count,
          load_wal_part,
        )
        (rw (rw append-nil at (load_wals-wals_bytes st.live_wals [] [] h.wals)) refl)

  load_entries-sst_bytes :
      load_entries (length st.sst_levels) sst_bytes []
      ≡ (set_all (sort_entries st.sst_levels) [], some wal_bytes)
  load_entries-sst_bytes = rw (length-sort_entries st.sst_levels) at (
      load_entries-entries_bytes (sort_entries st.sst_levels) [] wal_bytes
        (sort_entries-fits st.sst_levels h.entries))

  load_bytes-loaded : load_bytes (snapshot_bytes st) st0 ≡ (loaded st, true)
  unfolding load_bytes load_sst_part
  load_bytes-loaded =
      rw (read_snapshot_header-snapshot_bytes, load_bytes)
        (rw (load_entries-sst_bytes, load_sst_part)
          (rw load_wal_part-wal_bytes (rw load_entries-sst_bytes refl)))

-- LoadState succeeds on the file that PersistState wrote, whatever the state it starts from, and
-- gives a state that answers every query as the one that was written. The numbers of that state
-- fit their integers, its counts too, and no table has two levels.
pub load_bytes-snapshot_bytes :
    (st st0 : ManifestState)
    → IsState st
    → ((load_bytes (snapshot_bytes st) st0).1 ≡ true)
      × SameState (load_bytes (snapshot_bytes st) st0).0 st
load_bytes-snapshot_bytes st st0 h = rw (load_bytes-loaded st st0 h) (refl, loaded-SameState st h)
