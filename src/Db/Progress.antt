-- ===== src/Db/Progress.antt =====
-- The compaction of L0 into L1, where the manifest and the readers are in step.
use nova_kv.Prelude.{
  ℕ, ◌≡◌, ◌≢◌, refl, sym, ap, subst, ◌∙◌, inl, inr, arith, Bool, true, false, not, ◌&&◌, ◌||◌, ◌==◌,
  ==_refl, List, [], ◌∷◌, Option, none, some, length, Bool-cases, if_cases,
}
use nova_kv.SortedMap.{Rows}
use nova_kv.Tables.{MemOps, TableOps}
use nova_kv.Manifest.{Manager, Faults, allocate_file_number}
use nova_kv.Manifest.Keeps.{allocate_file_number-sst_levels}
use nova_kv.Compaction.{
  Levels, L0ToL1Ctx, is_empty, merge_tables, emplace_kept, level_ids, empty_ctx, output_ctx,
  prepare_l0_to_l1, build_at, build_l0_to_l1_sst, installed_with, install_l0_to_l1, consume_l0,
  same_numbers, sort_numbers,
}
use nova_kv.Db.{Db, begin_compact, finish_compact, finish_compact_of, finish_compact_with}

same_numbers_refl : (ns : List ℕ) → same_numbers ns ns ≡ true
unfolding same_numbers
same_numbers_refl [] = refl
same_numbers_refl (n ∷ ns) = rw (==_refl n) (same_numbers_refl ns)

-- The manifest has as many tables of level 0 as there are readers.
abbrev pub InStep : {T : Type 0} → Manager → Levels T → Type 0
InStep m levels = length (level_ids 0 m.state.sst_levels) ≡ length levels.l0

module _ {T : Type 0} (tables : TableOps T) where
  -- The output of the compaction of these levels.
  abbrev pub compaction_output : Levels T → Rows
  compaction_output levels = emplace_kept tables levels (merge_tables tables levels.l0 []) []

  -- The builder gives a table with the next file number for the output, if there is any.
  abbrev pub BuildsOutput : Faults → Manager → Levels T → Type 0
  BuildsOutput io m levels =
      compaction_output levels ≢ []
      → TableOps.build tables (allocate_file_number io m).1 (compaction_output levels) ≢ none

module _ {M T : Type 0} (mems : MemOps M) (tables : TableOps T) where
  -- A context that InstallL0ToL1 accepts while the levels and the table ids stay, with output that the
  -- builder takes.
  record Installs (ctx : L0ToL1Ctx) (ids : List ℕ) (levels : Levels T) : Type 0 where
    pub ids_same : ctx.l0_input_ids ≡ ids
    pub count_same : ctx.expected_l0_reader_count ≡ length levels.l0
    pub builds : ctx.has_output ≡ true → build_at tables ctx.new_sst_id ctx.output_records ≢ none

  accepted :
      (ctx : L0ToL1Ctx) (m : Manager) (levels : Levels T)
      → Installs ctx (level_ids 0 m.state.sst_levels) levels
      → ((length levels.l0 == ctx.expected_l0_reader_count)
          && same_numbers
              (sort_numbers ctx.l0_input_ids)
              (sort_numbers (level_ids 0 m.state.sst_levels)))
        ≡ true
  accepted ctx m levels h =
      ap
        (λ k.
          (length levels.l0 == k)
          && same_numbers (sort_numbers ctx.l0_input_ids)
              (sort_numbers (level_ids 0 m.state.sst_levels)))
        h.count_same
      ∙ ap
          (λ b.
            b
            && same_numbers (sort_numbers ctx.l0_input_ids)
                (sort_numbers (level_ids 0 m.state.sst_levels)))
          (==_refl (length levels.l0))
      ∙ ap (λ ids. same_numbers (sort_numbers ids) (sort_numbers (level_ids 0 m.state.sst_levels)))
          h.ids_same
      ∙ same_numbers_refl (sort_numbers (level_ids 0 m.state.sst_levels))

  -- With a table for the output, or with no output, L0 is emptied.
  install_empties :
      (io : ℕ → Faults) (ctx : L0ToL1Ctx) (o : Option T) (m : Manager) (levels : Levels T)
      → Installs ctx (level_ids 0 m.state.sst_levels) levels
      → (ctx.has_output ≡ true → o ≢ none)
      → (install_l0_to_l1 tables io ctx o m levels).1.1.l0 ≡ []
  unfolding install_l0_to_l1 consume_l0
  install_empties io ctx o m levels h has_table = rw (accepted ctx m levels h) (
      if_cases {A = Bool × (Manager × Levels T)} (λ r. r.1.1.l0 ≡ [])
        (is_empty ctx.merged_l0_records || not ctx.has_output) _ _ (λ e. refl)
        (λ e. with_table o (has_table (ground (arith, e)))))
    where
      with_table : (p : Option T) → p ≢ none → (installed_with tables io ctx p m levels).1.1.l0 ≡ []
      with_table none ne = absurd (ne refl)
      with_table (some t) ne = unfold installed_with in refl

  build_gives :
      (ctx : L0ToL1Ctx) (ids : List ℕ) (levels : Levels T)
      → Installs ctx ids levels
      → ctx.has_output ≡ true
      → build_l0_to_l1_sst tables ctx ≢ none
  unfolding build_l0_to_l1_sst
  build_gives ctx ids levels h on e = h.builds on (rw on at e)

  empty_ctx-Installs :
      (levels : Levels T) (ids : List ℕ) → Installs (empty_ctx tables levels ids) ids levels
  unfolding empty_ctx
  empty_ctx-Installs levels ids = record { ids_same = refl; count_same = refl; builds = λ e. cc }

  some_rows : (rows : Rows) → not (is_empty rows) ≡ true → rows ≢ []
  unfolding is_empty
  some_rows [] h = cc
  some_rows (row ∷ rows) h = λ e. cc

  output_ctx-Installs :
      (levels : Levels T) (ids : List ℕ) (id : ℕ)
      → (compaction_output tables levels ≢ []
          → TableOps.build tables id (compaction_output tables levels) ≢ none)
      → Installs (output_ctx tables levels ids id) ids levels
  unfolding output_ctx build_at
  output_ctx-Installs levels ids id builds = record {
    ids_same = refl;
    count_same = refl;
    builds = λ on. builds (some_rows (compaction_output tables levels) on);
  }

  -- What a PrepareL0ToL1 gives that is taken up at once.
  abbrev Ready : Levels T → Manager × Option L0ToL1Ctx → Type 0
  Ready levels (m, none) = ⊥
  Ready levels (m, some ctx) = Installs ctx (level_ids 0 m.state.sst_levels) levels

  prepare-Ready :
      (io : Faults) (m : Manager) (levels : Levels T)
      → levels.l0 ≢ []
      → InStep m levels
      → BuildsOutput tables io m levels
      → Ready levels (prepare_l0_to_l1 tables io m levels)
  unfolding prepare_l0_to_l1
  prepare-Ready io m levels full same builds =
      let ids = level_ids 0 m.state.sst_levels in
      rw (not_empty levels.l0 full, same, ==_refl (length levels.l0))
        (elim (Bool-cases (is_empty (merge_tables tables levels.l0 []))) [
          | inl empty ↦ rw empty (empty_ctx-Installs levels ids)
          | inr rows ↦ rw rows (
              subst
                (λ i.
                  Installs (output_ctx tables levels ids (allocate_file_number io m).1)
                    (level_ids 0 i) levels)
                (sym (allocate_file_number-sst_levels io m))
                (output_ctx-Installs levels ids (allocate_file_number io m).1 builds))
        ])
    where
      not_empty : (ts : List T) → ts ≢ [] → (length ts == 0) ≡ false
      not_empty [] ne = absurd (ne refl)
      not_empty (t ∷ ts) ne = ground arith

  -- The second lock scope after the first, where there was a context.
  abbrev pub run_compact : (ℕ → Faults) → Db M T × Option L0ToL1Ctx → Db M T
  run_compact io (db, none) = db
  run_compact io (db, some ctx) = finish_compact_with mems tables io ctx db

  finish-empties :
      (io : ℕ → Faults) (ctx : L0ToL1Ctx) (db : Db M T)
      → Installs ctx (level_ids 0 db.manifest.state.sst_levels) db.levels
      → (finish_compact_with mems tables io ctx db).levels.l0 ≡ []
  unfolding finish_compact_with finish_compact_of finish_compact
  finish-empties io ctx db h =
      by_build (build_l0_to_l1_sst tables ctx) (build_gives ctx _ db.levels h)
    where
      by_build :
          (o : Option T)
          → (ctx.has_output ≡ true → o ≢ none)
          → (finish_compact_of mems tables io ctx o db).levels.l0 ≡ []
      by_build (some t) has = install_empties io ctx (some t) db.manifest db.levels h has
      by_build none has =
          if_cases {A = Db M T} (λ d. d.levels.l0 ≡ []) ctx.has_output _ _
            (λ on. absurd (has on refl))
            (λ off. install_empties io ctx none db.manifest db.levels h has)

  -- CompactL0ToL1 with nothing between its lock scopes, where L0 has tables, the manifest has as many
  -- tables of level 0 as L0 has readers, and the table builder does not fail on the rows that this
  -- compaction writes, if it writes any: L0 is empty afterwards, whatever the file system does to the
  -- manifest's files.
  pub compact_empties_l0 :
      (first : Faults) (later : ℕ → Faults) (db : Db M T)
      → db.levels.l0 ≢ []
      → InStep db.manifest db.levels
      → BuildsOutput tables first db.manifest db.levels
      → (run_compact later (begin_compact mems tables first db)).levels.l0 ≡ []
  unfolding begin_compact
  compact_empties_l0 first later db full same builds =
      by_prepared (prepare_l0_to_l1 tables first db.manifest db.levels)
        (prepare-Ready first db.manifest db.levels full same builds)
    where
      by_prepared :
          (r : Manager × Option L0ToL1Ctx)
          → Ready db.levels r
          → (run_compact later (record db { manifest = r.0 }, r.1)).levels.l0 ≡ []
      by_prepared (m, none) ready = absurd ready
      by_prepared (m, some ctx) ready = finish-empties later ctx (record db { manifest = m }) ready
