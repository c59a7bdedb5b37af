-- ===== src/Db/View.antt =====
-- What Get answers, as the newest record of a key.
use nova_kv.Prelude.{
  ◌≡◌, refl, sym, subst, ◌∙◌, inl, inr, Bool, true, false, not, Bytes, Option, none, some,
  Bool-cases, Option-cases, if◌then◌else◌, bytes_eq,
}
use nova_kv.ValueRecord.{ValueRecord, is_value, IsEnumerator}
use nova_kv.SortedMap.{or_else}
use nova_kv.Tables.{MemOps, TableOps}
use nova_kv.Compaction.{Levels, get_level}
use nova_kv.Compaction.Merge.{visible, HasEnumerators, AreTables, is_deletion-not}
use nova_kv.Db.{Db, hit_in_memory, hit_on_disk, get_on_disk, search_imm, get, write_mem}

-- The value of a Get that returned true.
abbrev pub answer : Bool × ValueRecord → Option Bytes
answer (true, r) = some (r.value)
answer (false, r) = none

pub visible-or_else :
    (x y z : Option ValueRecord)
    → visible y ≡ visible z
    → visible (or_else x y) ≡ visible (or_else x z)
visible-or_else none y z e = e
visible-or_else (some r) y z e = refl

answer-hit_in_memory : (r : ValueRecord) → answer (hit_in_memory r) ≡ visible (some r)
unfolding hit_in_memory
answer-hit_in_memory r = by_type (is_value r.type)
  where
    by_type : (b : Bool) → answer (b, r) ≡ (if b then some (r.value) else none)
    by_type true = refl
    by_type false = refl

answer-hit_on_disk :
    (value r : ValueRecord) → IsEnumerator r.type → answer (hit_on_disk value r) ≡ visible (some r)
unfolding hit_on_disk
answer-hit_on_disk value r h = rw (is_deletion-not r.type h) (by_type (is_value r.type))
  where
    by_type :
        (b : Bool)
        → answer (if not b then (false, value) else (true, r))
          ≡ (if b then some (r.value) else none)
    by_type true = refl
    by_type false = refl

module _ {M T : Type 0} (mems : MemOps M) (tables : TableOps T) where
  abbrev pub disk_newest : Bytes → Levels T → Option ValueRecord
  disk_newest k levels = or_else (get_level tables k levels.l0) (get_level tables k levels.l1)

  abbrev pub newest : Bytes → Db M T → Option ValueRecord
  newest k db =
      or_else (MemOps.search mems k db.mem)
        (or_else (search_imm mems tables k db.imm) (disk_newest k db.levels))

  abbrev pub IsImm : Option M → Type 0
  IsImm none = Unit
  IsImm (some m) = MemOps.IsMem mems m

  -- The tables are well formed, and their records have one of the two types.
  pub record IsDb (db : Db M T) : Type 0 where
    pub mem : MemOps.IsMem mems db.mem
    pub mem_types : HasEnumerators (λ k. MemOps.search mems k db.mem)
    pub imm : IsImm db.imm
    pub imm_types : HasEnumerators (λ k. search_imm mems tables k db.imm)
    pub l0 : AreTables tables db.levels.l0
    pub l0_types : HasEnumerators (λ k. get_level tables k db.levels.l0)
    pub l1 : AreTables tables db.levels.l1
    pub l1_types : HasEnumerators (λ k. get_level tables k db.levels.l1)

  get_on_disk_lem :
      (k : Bytes) (value : ValueRecord) (db : Db M T)
      → IsDb db
      → answer (get_on_disk mems tables k value db.levels) ≡ visible (disk_newest k db.levels)
  unfolding get_on_disk
  get_on_disk_lem k value db ok = elim (Option-cases (get_level tables k db.levels.l0)) [
    | inr (r, found) ↦
        rw (found, get_on_disk) (answer-hit_on_disk value r (IsDb.l0_types ok k r found))
    | inl off ↦
        rw (off, get_on_disk)
          (elim (Option-cases (get_level tables k db.levels.l1)) [
            | inr (r, found) ↦
                rw (found, get_on_disk) (answer-hit_on_disk value r (IsDb.l1_types ok k r found))
            | inl gone ↦ rw (gone, get_on_disk) refl
          ])
  ]

  -- Get answers the newest record of the key.
  pub get_lem :
      (k : Bytes) (value : ValueRecord) (db : Db M T)
      → IsDb db
      → answer (get mems tables k value db) ≡ visible (newest k db)
  unfolding get
  get_lem k value db ok = elim (Option-cases (MemOps.search mems k db.mem)) [
    | inr (r, found) ↦ rw (found, get) (answer-hit_in_memory r)
    | inl off ↦
        rw (off, get)
          (elim (Option-cases (search_imm mems tables k db.imm)) [
            | inr (r, found) ↦ rw (found, get) (answer-hit_in_memory r)
            | inl gone ↦ rw (gone, get) (get_on_disk_lem k value db ok)
          ])
  ]

  -- The two parts of Put.
  pub newest-write_mem :
      (j k : Bytes) (r : ValueRecord) (db : Db M T)
      → IsDb db
      → newest j (write_mem mems tables k r db) ≡ (if bytes_eq k j then some r else newest j db)
  unfolding write_mem
  newest-write_mem j k r db ok =
      rw (MemOps.search-insert mems j k r db.mem ok.mem)
        (elim (Bool-cases (bytes_eq k j)) [ inl same ↦ rw same refl | inr other ↦ rw other refl ])

  pub write_mem-IsDb :
      (k : Bytes) (r : ValueRecord) (db : Db M T)
      → IsEnumerator r.type
      → IsDb db
      → IsDb (write_mem mems tables k r db)
  unfolding write_mem
  write_mem-IsDb k r db h ok = record {
    mem = MemOps.IsMem-insert mems k r db.mem ok.mem;
    mem_types = λ j x e. types j x (sym (MemOps.search-insert mems j k r db.mem ok.mem) ∙ e);
    imm = ok.imm;
    imm_types = ok.imm_types;
    l0 = ok.l0;
    l0_types = ok.l0_types;
    l1 = ok.l1;
    l1_types = ok.l1_types;
  }
    where
      types :
          (j : Bytes) (x : ValueRecord)
          → (if bytes_eq k j then some r else MemOps.search mems j db.mem) ≡ some x
          → IsEnumerator x.type
      types j x e = elim (Bool-cases (bytes_eq k j)) [
        | inl same ↦ let e' : some r ≡ some x = rw same at e in subst (λ o. IsTyped o) e' h
        | inr other ↦ IsDb.mem_types ok j x (rw other at e)
      ]
        where
          IsTyped : Option ValueRecord → Type 0
          IsTyped none = Unit
          IsTyped (some y) = IsEnumerator y.type
