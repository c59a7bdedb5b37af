-- ===== src/Db/Compact.antt =====
-- The compaction of L0 into L1, and what Get answers.
use nova_kv.Prelude.{
  ℕ, ◌≡◌, refl, sym, ap, ◌∙◌, inl, inr, Bool, true, false, not, ◌==◌, Bytes, List, [], Option, none,
  some, ◌>>=◌, length, Bool-cases, if_cases, if◌then◌else◌,
}
use nova_kv.ValueRecord.{ValueRecord}
use nova_kv.SortedMap.{Rows, or_else, find, IsSorted}
use nova_kv.Tables.{MemOps, TableOps}
use nova_kv.Manifest.{Manager, Faults, allocate_file_number}
use nova_kv.Compaction.{
  Levels, L0ToL1Ctx, get_level, is_empty, merge_tables, kept, emplace_kept, level_ids, empty_ctx,
  output_ctx, prepare_l0_to_l1, build_at, build_l0_to_l1_sst,
}
use nova_kv.Compaction.Merge.{visible, emplace_kept-IsSorted, visible-kept}
use nova_kv.Db.{
  Db, search_imm, begin_compact, finish_compact, finish_compact_of, finish_compact_with,
}
use nova_kv.Db.View.{newest, disk_newest, IsDb, visible-or_else}
use nova_kv.Db.Flush.{or_else_types, only_manifest}
use nova_kv.Db.Install.{
  IsPrepared, Compacted, kept_types, install-Compacted, merged_of, is_empty-nil,
}

module _ {M T : Type 0} (mems : MemOps M) (tables : TableOps T) where
  -- Every key shows the value that it showed, and the database is still well formed.
  pub record SameValues (db db' : Db M T) : Type 0 where
    pub shown :
        IsDb mems tables db
        → (k : Bytes) → visible (newest mems tables k db') ≡ visible (newest mems tables k db)
    pub healthy : IsDb mems tables db → IsDb mems tables db'

  Compacted-shown :
      (db db' : Db M T)
      → db'.mem ≡ db.mem
      → db'.imm ≡ db.imm
      → Compacted mems tables db.levels db'.levels
      → SameValues db db'
  Compacted-shown db db' a b c = record {
    shown = λ ok k.
        rw (a, b)
          (visible-or_else (MemOps.search mems k db.mem) _ _ (
            visible-or_else (search_imm mems tables k db.imm) _ _ (
              ap visible (disk k)
              ∙ visible-kept tables db.levels k (get_level tables k db.levels.l0) ok.l1_types)));
    healthy = λ ok. record {
      mem = rw a ok.mem;
      mem_types = rw a ok.mem_types;
      imm = rw b ok.imm;
      imm_types = rw b ok.imm_types;
      l0 = rw c.emptied tt;
      l0_types = rw c.emptied (unfold get_level in (λ k r e. cc));
      l1 = c.tables_ok ok.l1;
      l1_types = λ k r e.
          or_else_types c.front (λ j. get_level tables j db.levels.l1)
            (λ j q f.
              kept_types mems tables db.levels j (get_level tables j db.levels.l0) q
                (IsDb.l0_types ok j) (sym (c.keeps j) ∙ f))
            ok.l1_types k r (sym (c.behind k) ∙ e);
    };
  }
    where
      disk :
          (k : Bytes)
          → disk_newest mems tables k db'.levels
            ≡ or_else
                (get_level tables k db.levels.l0 >>= kept tables db.levels k)
                (get_level tables k db.levels.l1)
      disk k =
          ap (λ ts. or_else (get_level tables k ts) (get_level tables k db'.levels.l1))
            (Compacted.emptied c)
          ∙ empty_level k (get_level tables k db'.levels.l1)
          ∙ Compacted.behind c k
          ∙ ap (λ o. or_else o (get_level tables k db.levels.l1)) (Compacted.keeps c k)
        where
          empty_level : (j : Bytes) (o : Option ValueRecord) → or_else (get_level tables j []) o ≡ o
          empty_level j o = unfold get_level in refl

  same_shown :
      (db db' : Db M T)
      → db'.mem ≡ db.mem
      → db'.imm ≡ db.imm
      → db'.levels ≡ db.levels
      → SameValues db db'
  same_shown db db' a b c =
      let same = only_manifest mems tables db db' a b c in
      record { shown = λ ok k. ap visible (same.newest k); healthy = same.healthy }

  built_output :
      (levels : Levels T) (ctx : L0ToL1Ctx) (t : T)
      → ctx.output_records ≡ emplace_kept tables levels (merged_of mems tables levels) []
      → build_at tables ctx.new_sst_id ctx.output_records ≡ some t
      → TableOps.IsTable tables t
        × ((k : Bytes)
            → TableOps.get_record tables k t
              ≡ find k (emplace_kept tables levels (merged_of mems tables levels) []))
  built_output levels ctx t out e =
      by_id ctx.new_sst_id (ap (build_at tables ctx.new_sst_id) (sym out) ∙ e)
    where
      rows : Rows
      rows = emplace_kept tables levels (merged_of mems tables levels) []

      sorted : IsSorted rows
      sorted = emplace_kept-IsSorted tables levels (merged_of mems tables levels) [] tt

      by_id :
          (id : Option ℕ)
          → build_at tables id rows ≡ some t
          → TableOps.IsTable tables t × ((k : Bytes) → TableOps.get_record tables k t ≡ find k rows)
      by_id none f = unfold build_at in cc
      by_id (some n) f =
          unfold build_at in
          (
            TableOps.IsTable-build tables n rows t sorted f,
            λ k. TableOps.get_record-build tables n rows t k sorted f,
          )

  -- BuildL0ToL1SST gives a table only where there is output, and then one of the output.
  build-reads :
      (levels : Levels T) (ctx : L0ToL1Ctx) (t : T)
      → IsPrepared mems tables ctx levels
      → build_l0_to_l1_sst tables ctx ≡ some t
      → TableOps.IsTable tables t
        × ((k : Bytes)
            → TableOps.get_record tables k t
              ≡ find k (emplace_kept tables levels (merged_of mems tables levels) []))
  unfolding build_l0_to_l1_sst
  build-reads levels ctx t ready e = by_flag ctx.has_output refl e
    where
      by_flag :
          (b : Bool)
          → ctx.has_output ≡ b
          → (if b then build_at tables ctx.new_sst_id ctx.output_records else none) ≡ some t
          → TableOps.IsTable tables t
            × ((k : Bytes)
                → TableOps.get_record tables k t
                  ≡ find k (emplace_kept tables levels (merged_of mems tables levels) []))
      by_flag true on f = built_output levels ctx t (ready.output on) f
      by_flag false off f = cc

  -- The second lock scope of CompactL0ToL1.
  pub finish_compact_with-SameValues :
      (io : ℕ → Faults) (ctx : L0ToL1Ctx) (db : Db M T)
      → IsPrepared mems tables ctx db.levels
      → IsDb mems tables db
      → SameValues db (finish_compact_with mems tables io ctx db)
  finish_compact_with-SameValues io ctx db ready ok =
      unfold finish_compact_with in by_build (build_l0_to_l1_sst tables ctx) refl
    where
      installed :
          (o : Option T)
          → build_l0_to_l1_sst tables ctx ≡ o
          → SameValues db (finish_compact mems tables io ctx o db)
      installed o e =
          unfold finish_compact in
          elim (install-Compacted mems tables io ctx o db.manifest db.levels ready ok.l0
            (λ t f. build-reads db.levels ctx t ready (e ∙ f))) [
              | inl same ↦ same_shown db (finish_compact mems tables io ctx o db) refl refl same
              | inr moved ↦
                  Compacted-shown db (finish_compact mems tables io ctx o db) refl refl moved
            ]

      by_build :
          (o : Option T)
          → build_l0_to_l1_sst tables ctx ≡ o
          → SameValues db (finish_compact_of mems tables io ctx o db)
      by_build (some t) e = unfold finish_compact_of in installed (some t) e
      by_build none e =
          unfold finish_compact_of in
          if_cases (SameValues db) ctx.has_output db (finish_compact mems tables io ctx none db)
            (λ on. same_shown db db refl refl refl) (λ off. installed none e)

  abbrev pub IfPrepared : Levels T → Manager × Option L0ToL1Ctx → Type 0
  IfPrepared levels (m, none) = Unit
  IfPrepared levels (m, some ctx) = IsPrepared mems tables ctx levels

  empty_ctx-IsPrepared :
      (levels : Levels T) (ids : List ℕ)
      → is_empty (merged_of mems tables levels) ≡ true
      → IsPrepared mems tables (empty_ctx tables levels ids) levels
  unfolding empty_ctx emplace_kept
  empty_ctx-IsPrepared levels ids e = record {
    merged = refl;
    output = λ h. cc;
    no_output = λ h.
        ap (λ rows. emplace_kept tables levels rows [])
          (is_empty-nil (merged_of mems tables levels) e);
  }

  output_ctx-IsPrepared :
      (levels : Levels T) (ids : List ℕ) (id : ℕ)
      → IsPrepared mems tables (output_ctx tables levels ids id) levels
  unfolding output_ctx
  output_ctx-IsPrepared levels ids id = record {
    merged = refl;
    output = λ h. refl;
    no_output = λ h.
        is_empty-nil (emplace_kept tables levels (merged_of mems tables levels) []) (not_false _ h);
  }
    where
      not_false : (b : Bool) → not b ≡ false → b ≡ true
      not_false true h = refl
      not_false false h = cc

  prepare-IfPrepared :
      (io : Faults) (m : Manager) (levels : Levels T)
      → IfPrepared levels (prepare_l0_to_l1 tables io m levels)
  unfolding prepare_l0_to_l1
  prepare-IfPrepared io m levels =
      let ids = level_ids 0 m.state.sst_levels in
      elim (Bool-cases (length levels.l0 == 0)) [
        | inl none_there ↦ rw none_there tt
        | inr some_there ↦ rw some_there (elim (Bool-cases (length ids == length levels.l0)) [
          | inr other ↦ rw other tt
          | inl same ↦ rw same (elim (Bool-cases (is_empty (merge_tables tables levels.l0 []))) [
            | inl empty ↦ rw empty (empty_ctx-IsPrepared levels ids empty)
            | inr full ↦ rw full (output_ctx-IsPrepared levels ids (allocate_file_number io m).1)
          ])
        ])
      ]

  -- The first lock scope of CompactL0ToL1.
  pub begin_compact-SameValues :
      (io : Faults) (db : Db M T) → SameValues db (begin_compact mems tables io db).0
  begin_compact-SameValues io db =
      unfold begin_compact in same_shown db (begin_compact mems tables io db).0 refl refl refl

  pub begin_compact-IfPrepared :
      (io : Faults) (db : Db M T)
      → IfPrepared
          (begin_compact mems tables io db).0.levels
          ((begin_compact mems tables io db).0.manifest, (begin_compact mems tables io db).1)
  begin_compact-IfPrepared io db =
      unfold begin_compact in prepare-IfPrepared io db.manifest db.levels
