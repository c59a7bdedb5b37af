-- ===== src/Compaction.antt =====
-- include/CompactionEngine.h and src/CompactionEngine.cpp: how tables are merged. What BuildMinorSST
-- and BuildL0ToL1SST write, and when they give no reader, is `build` of the interface.
use mathlib.Core.Option
use nova_kv.Prelude.{
  ℕ, zero, suc, ◌+◌, ◌≡◌, Bool, true, false, ◌&&◌, not, ◌||◌, Bytes, List, [], ◌∷◌, ◌++◌, Option,
  none, some, length, ltb, leb, ◌==◌, if◌then◌else◌, bytes_eq, IdMap,
}
use nova_kv.ValueRecord.{ValueRecord, ValueType, is_value, is_deletion}
use nova_kv.SortedMap.{Rows, find, try_emplace, emplace_all}
use nova_kv.Tables.{MemOps, TableOps}
use nova_kv.Manifest.{Manager, Faults, allocate_file_number, add_sst_id, remove_sst_id}
pub mod Merge

-- The readers of levels_[0] and levels_[1], each from old to new.
pub record Levels (T : Type 0) : Type 0 where
  pub l0 : List T
  pub l1 : List T

-- L0ToL1Ctx. The path of the new table stands for its number, and is empty where there is none.
pub record L0ToL1Ctx : Type 0 where
  pub l0_input_ids : List ℕ
  pub expected_l0_reader_count : ℕ
  pub merged_l0_records : Rows
  pub output_records : Rows
  pub has_output : Bool
  pub new_sst_id : Option ℕ

-- The ids of level 0, in the order of SstLevels().
unfoldable pub level_ids : ℕ → IdMap → List ℕ
level_ids level [] = []
level_ids level ((id, l) ∷ m) =
    let rest = level_ids level m in if l == level then id ∷ rest else rest

-- std::sort and != on vectors of ids.
unfoldable pub insert_number : ℕ → List ℕ → List ℕ
insert_number n [] = n ∷ []
insert_number n (m ∷ ms) = if ltb m n then m ∷ insert_number n ms else n ∷ m ∷ ms

unfoldable pub sort_numbers : List ℕ → List ℕ
sort_numbers [] = []
sort_numbers (n ∷ ns) = insert_number n (sort_numbers ns)

unfoldable pub is_empty : Rows → Bool
is_empty [] = true
is_empty (row ∷ rows) = false

unfoldable pub remove_ssts : (ℕ → Faults) → Manager → List ℕ → Manager
remove_ssts io m [] = m
remove_ssts io m (id ∷ ids) = remove_ssts (λ n. io (suc n)) (remove_sst_id (io 0) m id) ids

unfoldable pub same_numbers : List ℕ → List ℕ → Bool
same_numbers [] [] = true
same_numbers [] (y ∷ ys) = false
same_numbers (x ∷ xs) [] = false
same_numbers (x ∷ xs) (y ∷ ys) = (x == y) && same_numbers xs ys

-- The id 0 of a context without a table is not reached: a reader comes from a built table.
unfoldable pub id_of : Option ℕ → ℕ
id_of none = 0
id_of (some id) = id

module _ {T : Type 0} (tables : TableOps T) where
  -- The search of one level from new to old.
  unfoldable pub get_level : Bytes → List T → Option ValueRecord
  get_level k [] = none
  get_level k (t ∷ ts) = elim (get_level k ts) [
    | some r ↦ some r
    | none ↦ TableOps.get_record tables k t
  ]

  unfoldable pub has_visible_value_in_l1 : Bytes → Levels T → Bool
  has_visible_value_in_l1 k levels = elim (get_level k levels.l1) [
    | none ↦ false
    | some r ↦ not (is_deletion r.type)
  ]

  -- try_emplace of every row, from the newest table to the oldest.
  unfoldable pub merge_tables : List T → Rows → Rows
  merge_tables [] seen = seen
  merge_tables (t ∷ ts) seen = emplace_all (TableOps.rows tables t) (merge_tables ts seen)

  -- What of a merged record goes on to L1: a value; a tombstone over a value of L1.
  unfoldable pub kept : Levels T → Bytes → ValueRecord → Option ValueRecord
  kept levels k r =
      if is_value r.type
      then some r
      else if has_visible_value_in_l1 k levels
      then some (record { type = ValueType.deletion; value = [] })
      else none

  unfoldable pub emplace_kept : Levels T → Rows → Rows → Rows
  emplace_kept levels [] out = out
  emplace_kept levels ((k, r) ∷ merged) out =
      emplace_kept levels merged
        (elim (kept levels k r) [ none ↦ out | some r' ↦ try_emplace k r' out ])

  -- The context where there is nothing in L0, and where there is.
  unfoldable pub empty_ctx : Levels T → List ℕ → L0ToL1Ctx
  empty_ctx levels ids = record {
    l0_input_ids = ids;
    expected_l0_reader_count = length levels.l0;
    merged_l0_records = merge_tables levels.l0 [];
    output_records = [];
    has_output = false;
    new_sst_id = none;
  }

  unfoldable pub output_ctx : Levels T → List ℕ → ℕ → L0ToL1Ctx
  output_ctx levels ids id =
      let output = emplace_kept levels (merge_tables levels.l0 []) [] in
      record {
        l0_input_ids = ids;
        expected_l0_reader_count = length levels.l0;
        merged_l0_records = merge_tables levels.l0 [];
        output_records = output;
        has_output = not (is_empty output);
        new_sst_id = some id;
      }

  -- PrepareL0ToL1: the context, or `none` where it returns false. A file number is taken whenever
  -- there are records.
  unfoldable pub prepare_l0_to_l1 : Faults → Manager → Levels T → Manager × Option L0ToL1Ctx
  prepare_l0_to_l1 io m levels =
      let ids = level_ids 0 m.state.sst_levels in
      if length levels.l0 == 0
      then (m, none)
      else if length ids == length levels.l0
      then (if is_empty (merge_tables levels.l0 [])
          then (m, some (empty_ctx levels ids))
          else (let (m1, id) = allocate_file_number io m in (m1, some (output_ctx levels ids id))))
      else (m, none)

  -- BuildL0ToL1SST: without a path there is no table.
  unfoldable pub build_at : Option ℕ → Rows → Option T
  build_at none output = none
  build_at (some id) output = TableOps.build tables id output

  unfoldable pub build_l0_to_l1_sst : L0ToL1Ctx → Option T
  build_l0_to_l1_sst ctx =
      if ctx.has_output then build_at ctx.new_sst_id ctx.output_records else none

  -- consume_l0: the readers are deleted, their ids leave the manifest and their files the disk.
  unfoldable pub consume_l0 : (ℕ → Faults) → L0ToL1Ctx → Manager → Levels T → Manager × Levels T
  consume_l0 io ctx m levels = (remove_ssts io m ctx.l0_input_ids, record levels { l0 = [] })

  -- The part of InstallL0ToL1 where there is output.
  unfoldable pub installed_with :
      (ℕ → Faults) → L0ToL1Ctx → Option T → Manager → Levels T → Bool × (Manager × Levels T)
  installed_with io ctx none m levels = (false, (m, levels))
  installed_with io ctx (some t) m levels = (
    true,
    consume_l0 (λ n. io (suc n)) ctx (add_sst_id (io 0) m (id_of ctx.new_sst_id) 1)
        (record levels { l1 = levels.l1 ++ t ∷ [] }),
  )

  -- InstallL0ToL1: what it returns, the manifest and the levels.
  unfoldable pub install_l0_to_l1 :
      (ℕ → Faults) → L0ToL1Ctx → Option T → Manager → Levels T → Bool × (Manager × Levels T)
  install_l0_to_l1 io ctx reader m levels =
      if (length levels.l0 == ctx.expected_l0_reader_count)
        && same_numbers (sort_numbers ctx.l0_input_ids)
            (sort_numbers (level_ids 0 m.state.sst_levels))
      then (if is_empty ctx.merged_l0_records || not ctx.has_output
          then (true, consume_l0 io ctx m levels)
          else installed_with io ctx reader m levels)
      else (false, (m, levels))
