-- ===== src/Db/Install.antt =====
-- What InstallL0ToL1 does to the levels.
use nova_kv.Prelude.{
  ℕ, ◌≡◌, refl, sym, ap, subst, ◌∙◌, ◌⊎◌, inl, inr, arith, true, false, not, ◌&&◌, ◌||◌, ◌==◌,
  Bytes, [], ◌∷◌, ◌++◌, Option, none, some, ◌>>=◌, length, All-append, Bool-cases,
}
use nova_kv.ValueRecord.{ValueRecord, IsEnumerator, is_value}
use nova_kv.SortedMap.{Rows, or_else, find}
use nova_kv.Tables.{MemOps, TableOps}
use nova_kv.Manifest.{Manager, Faults}
use nova_kv.Compaction.{
  Levels, L0ToL1Ctx, get_level, is_empty, merge_tables, kept, emplace_kept, level_ids,
  has_visible_value_in_l1, installed_with, install_l0_to_l1, consume_l0, same_numbers, sort_numbers,
}
use nova_kv.Compaction.Merge.{
  AreTables, get_level-append, merge_tables-IsSorted, find-merge_tables, find-emplace_kept,
}

pub is_empty-nil : (rows : Rows) → is_empty rows ≡ true → rows ≡ []
unfolding is_empty
is_empty-nil [] e = refl
is_empty-nil (row ∷ rows) e = cc

module _ {M T : Type 0} (mems : MemOps M) (tables : TableOps T) where
  abbrev pub merged_of : Levels T → Rows
  merged_of levels = merge_tables tables levels.l0 []

  -- What must hold of the context of a compaction between its two lock scopes.
  pub record IsPrepared (ctx : L0ToL1Ctx) (levels : Levels T) : Type 0 where
    pub merged : ctx.merged_l0_records ≡ merged_of levels
    pub output :
        ctx.has_output ≡ true
        → ctx.output_records ≡ emplace_kept tables levels (merged_of levels) []
    pub no_output : ctx.has_output ≡ false → emplace_kept tables levels (merged_of levels) [] ≡ []

  -- The levels are as before, or L0 is empty and what was kept of it is in front of L1.
  pub record Compacted (before after : Levels T) : Type 0 where
    pub emptied : after.l0 ≡ []
    pub front : Bytes → Option ValueRecord
    pub behind :
        (k : Bytes) → get_level tables k after.l1 ≡ or_else (front k) (get_level tables k before.l1)
    pub keeps : (k : Bytes) → front k ≡ (get_level tables k before.l0 >>= kept tables before k)
    pub tables_ok : AreTables tables before.l1 → AreTables tables after.l1

  find-kept :
      (levels : Levels T) (k : Bytes)
      → AreTables tables levels.l0
      → find k (emplace_kept tables levels (merged_of levels) [])
        ≡ (get_level tables k levels.l0 >>= kept tables levels k)
  find-kept levels k good =
      find-emplace_kept tables levels k (merged_of levels) []
        (merge_tables-IsSorted tables levels.l0 [] tt) tt
      ∙ (unfold find in
          ap (λ o. o >>= kept tables levels k) (find-merge_tables tables k levels.l0 [] good tt))

  pub kept_types :
      (levels : Levels T) (k : Bytes) (o : Option ValueRecord) (r : ValueRecord)
      → ((q : ValueRecord) → o ≡ some q → IsEnumerator q.type)
      → (o >>= kept tables levels k) ≡ some r
      → IsEnumerator r.type
  kept_types levels k none r h e = cc
  kept_types levels k (some q) r h e = of_kept (subst IfTyped e (typed (h q refl)))
    where
      IfTyped : Option ValueRecord → Type 0
      IfTyped none = Unit
      IfTyped (some x) = IsEnumerator x.type

      of_kept : IfTyped (some r) → IsEnumerator r.type
      of_kept x = x

      typed : IsEnumerator q.type → IfTyped (kept tables levels k q)
      typed ok =
          unfold kept in
          elim (Bool-cases (is_value q.type)) [
            | inl live ↦ rw live ok
            | inr dead ↦ rw dead (elim (Bool-cases (has_visible_value_in_l1 tables k levels)) [
              | inl over ↦ rw over tt
              | inr alone ↦ rw alone tt
            ])
          ]

  -- L0 is emptied with no new table.
  emptied_only :
      (levels : Levels T)
      → AreTables tables levels.l0
      → emplace_kept tables levels (merged_of levels) [] ≡ []
      → Compacted levels (record levels { l0 = [] })
  emptied_only levels good gone = record {
    emptied = refl;
    front = λ k. none;
    behind = λ k. refl;
    keeps = λ k. find_nil k ∙ ap (find k) (sym gone) ∙ find-kept levels k good;
    tables_ok = λ ok. ok;
  }
    where
      find_nil : (k : Bytes) → none ≡ find k []
      find_nil k = unfold find in refl

  -- L0 is emptied with a table of what was kept.
  emptied_into :
      (levels : Levels T) (t : T)
      → AreTables tables levels.l0
      → TableOps.IsTable tables t
      → ((k : Bytes)
          → TableOps.get_record tables k t
            ≡ find k (emplace_kept tables levels (merged_of levels) []))
      → Compacted levels (record { l0 = []; l1 = levels.l1 ++ t ∷ [] })
  emptied_into levels t good built reads = record {
    emptied = refl;
    front = λ k. TableOps.get_record tables k t;
    behind = λ k. get_level-append tables k levels.l1 t;
    keeps = λ k. reads k ∙ find-kept levels k good;
    tables_ok = λ ok. All-append (λ u. TableOps.IsTable tables u) levels.l1 (t ∷ []) ok (built, tt);
  }

  nothing_kept :
      (ctx : L0ToL1Ctx) (levels : Levels T)
      → IsPrepared ctx levels
      → (is_empty ctx.merged_l0_records || not ctx.has_output) ≡ true
      → emplace_kept tables levels (merged_of levels) [] ≡ []
  nothing_kept ctx levels ok h = elim (Bool-cases ctx.has_output) [
    | inr off ↦ ok.no_output off
    | inl on ↦
        let empty : is_empty ctx.merged_l0_records ≡ true = ground (arith, h, on) in
        ap (λ rows. emplace_kept tables levels rows [])
          (sym ok.merged ∙ is_empty-nil ctx.merged_l0_records empty)
        ∙ (unfold emplace_kept in refl)
  ]

  -- InstallL0ToL1 leaves the levels alone, or compacts them.
  pub install-Compacted :
      (io : ℕ → Faults) (ctx : L0ToL1Ctx) (o : Option T) (m : Manager) (levels : Levels T)
      → IsPrepared ctx levels
      → AreTables tables levels.l0
      → ((t : T)
          → o ≡ some t
          → TableOps.IsTable tables t
            × ((k : Bytes)
                → TableOps.get_record tables k t
                  ≡ find k (emplace_kept tables levels (merged_of levels) [])))
      → ((install_l0_to_l1 tables io ctx o m levels).1.1 ≡ levels)
        ⊎ Compacted levels ((install_l0_to_l1 tables io ctx o m levels).1.1)
  unfolding install_l0_to_l1 consume_l0
  install-Compacted io ctx o m levels ok good built =
      elim (Bool-cases (
        (length levels.l0 == ctx.expected_l0_reader_count)
        && same_numbers (sort_numbers ctx.l0_input_ids)
            (sort_numbers (level_ids 0 m.state.sst_levels)))) [
              | inr changed ↦ rw changed (inl refl)
              | inl same ↦
                  rw same
                    (elim (Bool-cases (is_empty ctx.merged_l0_records || not ctx.has_output)) [
                      | inl nothing ↦
                          rw nothing
                            (inr (emptied_only levels good (nothing_kept ctx levels ok nothing)))
                      | inr output ↦ rw output (by_reader o built)
                    ])
            ]
    where
      by_reader :
          (r : Option T)
          → ((t : T)
              → r ≡ some t
              → TableOps.IsTable tables t
                × ((k : Bytes)
                    → TableOps.get_record tables k t
                      ≡ find k (emplace_kept tables levels (merged_of levels) [])))
          → ((installed_with tables io ctx r m levels).1.1 ≡ levels)
            ⊎ Compacted levels ((installed_with tables io ctx r m levels).1.1)
      by_reader none h = unfold installed_with in inl refl
      by_reader (some t) h =
          unfold installed_with in inr (emptied_into levels t good (h t refl).0 (h t refl).1)
