-- ===== src/Db/Flush.antt =====
-- A new memory table, the flush of the old one, and what Get answers.
use nova_kv.Prelude.{
  ℕ, ◌≡◌, refl, sym, ap, subst, ◌∙◌, inl, inr, Bytes, [], ◌∷◌, ◌++◌, Option, none, some, All-append,
  Bool-cases, if◌then◌else◌, ltb,
}
use nova_kv.ValueRecord.{ValueRecord, IsEnumerator}
use nova_kv.SortedMap.{or_else, or_else_assoc}
use nova_kv.Tables.{MemOps, TableOps}
use nova_kv.Manifest.{Faults}
use nova_kv.Compaction.{get_level}
use nova_kv.Compaction.Merge.{HasEnumerators, get_level-append}
use nova_kv.Db.{
  Db, MinorCtx, mem_limit, search_imm, is_some, rotate, make_room, begin_minor_of, begin_minor,
  build_minor_sst, finish_minor,
}
use nova_kv.Db.View.{newest, IsDb}

-- The record that a lookup finds first has a type that the other lookups allow.
pub or_else_types :
    (x y : Bytes → Option ValueRecord)
    → HasEnumerators x
    → HasEnumerators y
    → HasEnumerators (λ k. or_else (x k) (y k))
or_else_types x y hx hy k r e = by_first (x k) refl
  where
    by_first : (o : Option ValueRecord) → x k ≡ o → IsEnumerator r.type
    by_first none off = hy k r (rw off at e)
    by_first (some q) found = hx k r (found ∙ rw found at e)

module _ {M T : Type 0} (mems : MemOps M) (tables : TableOps T) where
  -- The same tables are in the same places, apart from a fresh memory table.
  pub record SameTables (db db' : Db M T) : Type 0 where
    pub newest : (k : Bytes) → newest mems tables k db' ≡ newest mems tables k db
    pub healthy : IsDb mems tables db → IsDb mems tables db'

  rotated :
      (db db' : Db M T)
      → db.imm ≡ none
      → db'.mem ≡ MemOps.new_table mems
      → db'.imm ≡ some (db.mem)
      → db'.levels ≡ db.levels
      → SameTables db db'
  rotated db db' off fresh full same = record {
    newest = λ k.
        rw (fresh, full, same, off, MemOps.search-new_table mems k) (unfold search_imm in refl);
    healthy = λ ok. record {
      mem = rw fresh (MemOps.IsMem-new_table mems);
      mem_types = λ k r e. cc (e, ap (MemOps.search mems k) fresh, MemOps.search-new_table mems k);
      imm = rw full ok.mem;
      imm_types = rw full (unfold search_imm in ok.mem_types);
      l0 = rw same ok.l0;
      l0_types = rw same ok.l0_types;
      l1 = rw same ok.l1;
      l1_types = rw same ok.l1_types;
    };
  }

  -- The manifest, the WAL ids and the flag may differ.
  pub only_manifest :
      (db db' : Db M T)
      → db'.mem ≡ db.mem
      → db'.imm ≡ db.imm
      → db'.levels ≡ db.levels
      → SameTables db db'
  only_manifest db db' a b c = record {
    newest = λ k. rw (a, b, c) refl;
    healthy = λ ok. record {
      mem = rw a ok.mem;
      mem_types = rw a ok.mem_types;
      imm = rw b ok.imm;
      imm_types = rw b ok.imm_types;
      l0 = rw c ok.l0;
      l0_types = rw c ok.l0_types;
      l1 = rw c ok.l1;
      l1_types = rw c ok.l1_types;
    };
  }

  pub unchanged : (db : Db M T) → SameTables db db
  unchanged db = record { newest = λ k. refl; healthy = λ ok. ok }

  abbrev IfSome : (Db M T → Type 0) → Option (Db M T) → Type 0
  IfSome P none = Unit
  IfSome P (some db) = P db

  make_room-IfSome :
      (io : ℕ → Faults) (db : Db M T) → IfSome (SameTables db) (make_room mems tables io db)
  unfolding make_room is_some
  make_room-IfSome io db = elim (Bool-cases (ltb (MemOps.count mems db.mem) mem_limit)) [
    | inl few ↦ rw few (unchanged db)
    | inr full ↦ rw full (by_imm db.imm refl)
  ]
    where
      by_imm :
          (o : Option M)
          → db.imm ≡ o
          → IfSome (SameTables db) (if is_some o then none else some (rotate mems tables io db))
      by_imm (some m) e = tt
      by_imm none e = (unfold rotate in rotated db (rotate mems tables io db) e refl refl refl)

  pub make_room-SameTables :
      (io : ℕ → Faults) (db db' : Db M T)
      → make_room mems tables io db ≡ some db'
      → SameTables db db'
  make_room-SameTables io db db' e = subst (IfSome (SameTables db)) e (make_room-IfSome io db)

  -- What the background thread holds on to stays through make_room.
  abbrev Keeps : Db M T → Db M T → Type 0
  Keeps db db' = (db'.levels ≡ db.levels) × ((m : M) → db.imm ≡ some m → db'.imm ≡ some m)

  make_room-IfKeeps :
      (io : ℕ → Faults) (db : Db M T) → IfSome (Keeps db) (make_room mems tables io db)
  unfolding make_room is_some
  make_room-IfKeeps io db = elim (Bool-cases (ltb (MemOps.count mems db.mem) mem_limit)) [
    | inl few ↦ rw few (refl, λ m e. e)
    | inr full ↦ rw full (by_imm db.imm refl)
  ]
    where
      by_imm :
          (o : Option M)
          → db.imm ≡ o
          → IfSome (Keeps db) (if is_some o then none else some (rotate mems tables io db))
      by_imm (some m) e = tt
      by_imm none e = unfold rotate in (refl, λ m f. cc)

  pub make_room-Keeps :
      (io : ℕ → Faults) (db db' : Db M T)
      → make_room mems tables io db ≡ some db'
      → (db'.levels ≡ db.levels) × ((m : M) → db.imm ≡ some m → db'.imm ≡ some m)
  make_room-Keeps io db db' e = subst (IfSome (Keeps db)) e (make_room-IfKeeps io db)

  -- A flush: the new table of L0 reads as the memory table that it replaces.
  pub flushed :
      (db db' : Db M T) (m : M) (t : T)
      → db.imm ≡ some m
      → ((k : Bytes) → TableOps.get_record tables k t ≡ MemOps.search mems k m)
      → TableOps.IsTable tables t
      → db'.mem ≡ db.mem
      → db'.imm ≡ none
      → db'.levels ≡ record (db.levels) { l0 = db.levels.l0 ++ t ∷ [] }
      → SameTables db db'
  flushed db db' m t full reads good same off pushed = record {
    newest = λ k.
        rw (same, off, pushed, full)
          (ap (or_else (MemOps.search mems k db.mem)) (
            unfold search_imm in
            (ap (λ o. or_else o (get_level tables k db.levels.l1)) (level k)
              ∙ or_else_assoc (MemOps.search mems k m) (get_level tables k db.levels.l0)
                  (get_level tables k db.levels.l1))));
    healthy = λ ok. record {
      mem = rw same ok.mem;
      mem_types = rw same ok.mem_types;
      imm = rw off tt;
      imm_types = rw off (unfold search_imm in (λ k r e. cc));
      l0 =
          rw pushed
            (All-append (λ u. TableOps.IsTable tables u) db.levels.l0 (t ∷ []) ok.l0 (good, tt));
      l0_types = rw pushed (λ k r e.
          or_else_types (λ j. MemOps.search mems j m) (λ j. get_level tables j db.levels.l0)
            (of_imm ok) ok.l0_types k r (sym (level k) ∙ e));
      l1 = rw pushed ok.l1;
      l1_types = rw pushed ok.l1_types;
    };
  }
    where
      level :
          (k : Bytes)
          → get_level tables k (db.levels.l0 ++ t ∷ [])
            ≡ or_else (MemOps.search mems k m) (get_level tables k db.levels.l0)
      level k =
          get_level-append tables k db.levels.l0 t
          ∙ ap (λ o. or_else o (get_level tables k db.levels.l0)) (reads k)

      of_imm : IsDb mems tables db → HasEnumerators (λ j. MemOps.search mems j m)
      of_imm ok = unfold search_imm in (rw full at (IsDb.imm_types ok))

  -- What must hold of the context of a flush between its two lock scopes.
  abbrev pub IsFlushing : MinorCtx M → Db M T → Type 0
  IsFlushing ctx db = db.imm ≡ some (ctx.flushing_imm)

  pub finish_minor-SameTables :
      (io : ℕ → Faults) (ctx : MinorCtx M) (db : Db M T)
      → IsFlushing ctx db
      → IsDb mems tables db
      → SameTables db (finish_minor mems tables io ctx (build_minor_sst mems tables ctx) db).0
  unfolding build_minor_sst
  finish_minor-SameTables io ctx db full ok =
      by_reader (TableOps.build tables ctx.new_sst_id (MemOps.rows mems ctx.flushing_imm)) refl
    where
      imm_ok : MemOps.IsMem mems ctx.flushing_imm
      imm_ok = rw full at (IsDb.imm ok)

      by_reader :
          (o : Option T)
          → TableOps.build tables ctx.new_sst_id (MemOps.rows mems ctx.flushing_imm) ≡ o
          → SameTables db (finish_minor mems tables io ctx o db).0
      by_reader none e = unfold finish_minor in unchanged db
      by_reader (some t) e =
          unfold finish_minor in
          flushed db (finish_minor mems tables io ctx (some t) db).0 ctx.flushing_imm t full
            (λ k.
              TableOps.get_record-build tables ctx.new_sst_id _ t k
                (MemOps.rows-IsSorted mems _ imm_ok) e
              ∙ MemOps.find-rows mems k ctx.flushing_imm imm_ok)
            (TableOps.IsTable-build tables ctx.new_sst_id _ t (MemOps.rows-IsSorted mems _ imm_ok)
              e)
            refl refl refl

  -- BuildMinorSST and the first lock scope leave the tables alone, and name the one to flush.
  pub begin_minor-SameTables :
      (io : Faults) (db : Db M T) → SameTables db (begin_minor mems tables io db).0
  begin_minor-SameTables io db = unfold begin_minor in of_imm db.imm
    where
      of_imm : (o : Option M) → SameTables db (begin_minor_of mems tables io db o).0
      of_imm none = unfold begin_minor_of in unchanged db
      of_imm (some m) =
          unfold begin_minor_of in
          only_manifest db (begin_minor_of mems tables io db (some m)).0 refl refl refl

  abbrev pub IfFlushing : Db M T × Option (MinorCtx M) → Type 0
  IfFlushing (db, none) = Unit
  IfFlushing (db, some ctx) = IsFlushing ctx db

  pub begin_minor-IsFlushing :
      (io : Faults) (db : Db M T) → IfFlushing (begin_minor mems tables io db)
  begin_minor-IsFlushing io db = unfold begin_minor in of_imm db.imm refl
    where
      of_imm : (o : Option M) → db.imm ≡ o → IfFlushing (begin_minor_of mems tables io db o)
      of_imm none e = unfold begin_minor_of in tt
      of_imm (some m) e = unfold begin_minor_of in e
