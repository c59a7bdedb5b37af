-- ===== src/Db/Iterator.antt =====
-- NewIterator beside Get.
use nova_kv.Prelude.{
  ◌≡◌, refl, sym, ap, ◌∙◌, inl, inr, arith, Bool, true, false, Bytes, List, [], ◌∷◌, Option, none,
  some, Bool-cases, if◌then◌else◌, bytes_eq, bytes_lt, bytes_eq→eq,
}
use nova_kv.ValueRecord.{ValueRecord, is_value}
use nova_kv.SortedMap.{
  Rows, find, or_else, or_else_assoc, emplace_all, IsSorted, Below, find-Below, find-emplace_all,
  emplace_all-IsSorted,
}
use nova_kv.Tables.{MemOps, TableOps}
use nova_kv.Compaction.{get_level, merge_tables}
use nova_kv.Compaction.Merge.{visible, merge_tables-IsSorted, find-merge_tables}
use nova_kv.Db.{Db, get, search_imm, rows_of_imm, seen_rows, visible_rows, new_iterator}
use nova_kv.Db.View.{newest, disk_newest, IsDb, IsImm, answer, get_lem}

-- The value of a key among the rows of an iterator.
abbrev pub value_at : Bytes → List (Bytes × Bytes) → Option Bytes
value_at j [] = none
value_at j ((k, v) ∷ rows) = if bytes_eq k j then some v else value_at j rows

-- The keys go up, each below the next ones.
abbrev pub RowsBelow : Bytes → List (Bytes × Bytes) → Type 0
RowsBelow k [] = Unit
RowsBelow k ((i, v) ∷ rows) = (bytes_lt k i ≡ true) × RowsBelow k rows

abbrev pub IsAscending : List (Bytes × Bytes) → Type 0
IsAscending [] = Unit
IsAscending ((k, v) ∷ rows) = RowsBelow k rows × IsAscending rows

visible_rows-RowsBelow : (k : Bytes) (rows : Rows) → Below k rows → RowsBelow k (visible_rows rows)
unfolding visible_rows
visible_rows-RowsBelow k [] b = tt
visible_rows-RowsBelow k ((i, r) ∷ rows) b = ground (arith, visible_rows-RowsBelow k rows b.1)

visible_rows-IsAscending : (rows : Rows) → IsSorted rows → IsAscending (visible_rows rows)
unfolding visible_rows
visible_rows-IsAscending [] s = tt
visible_rows-IsAscending ((k, r) ∷ rows) s =
    ground (arith, visible_rows-IsAscending rows s.1, visible_rows-RowsBelow k rows s.0)

-- One row in front.
value_at-cons :
    (j k : Bytes) (r : ValueRecord) (rows : Rows) (shown : List (Bytes × Bytes))
    → Below k rows
    → value_at j shown ≡ visible (find j rows)
    → value_at j (if is_value r.type then (k, r.value) ∷ shown else shown)
      ≡ visible (if bytes_eq k j then some r else find j rows)
value_at-cons j k r rows shown below rest = elim (Bool-cases (bytes_eq k j)) [
  | inr other ↦ rw other (without (is_value r.type) other)
  | inl same ↦ rw same (with_key (is_value r.type) same)
]
  where
    without :
        (b : Bool)
        → bytes_eq k j ≡ false
        → value_at j (if b then (k, r.value) ∷ shown else shown) ≡ visible (find j rows)
    without true other = rw other rest
    without false other = rest

    with_key :
        (b : Bool)
        → bytes_eq k j ≡ true
        → value_at j (if b then (k, r.value) ∷ shown else shown)
          ≡ (if b then some (r.value) else none)
    with_key true same = rw same refl
    with_key false same =
        rest
        ∙ ap visible (ap (λ i. find i rows) (sym (bytes_eq→eq k j same)) ∙ find-Below k rows below)

value_at-visible_rows :
    (j : Bytes) (rows : Rows)
    → IsSorted rows
    → value_at j (visible_rows rows) ≡ visible (find j rows)
unfolding visible_rows find
value_at-visible_rows j [] s = refl
value_at-visible_rows j ((k, r) ∷ rows) s =
    value_at-cons j k r rows (visible_rows rows) s.0 (value_at-visible_rows j rows s.1)

module _ {M T : Type 0} (mems : MemOps M) (tables : TableOps T) where
  memory_rows : Db M T → Rows
  memory_rows db =
      emplace_all (rows_of_imm mems tables db.imm) (emplace_all (MemOps.rows mems db.mem) [])

  memory_rows-IsSorted : (db : Db M T) → IsSorted (memory_rows db)
  unfolding memory_rows
  memory_rows-IsSorted db =
      emplace_all-IsSorted (rows_of_imm mems tables db.imm) _
        (emplace_all-IsSorted (MemOps.rows mems db.mem) [] tt)

  find-rows_of_imm :
      (j : Bytes) (o : Option M)
      → IsImm mems tables o
      → find j (rows_of_imm mems tables o) ≡ search_imm mems tables j o
  unfolding rows_of_imm search_imm
  find-rows_of_imm j none ok = unfold find in refl
  find-rows_of_imm j (some m) ok = MemOps.find-rows mems j m ok

  find-memory_rows :
      (j : Bytes) (db : Db M T)
      → IsDb mems tables db
      → find j (memory_rows db)
        ≡ or_else (MemOps.search mems j db.mem) (search_imm mems tables j db.imm)
  unfolding memory_rows
  find-memory_rows j db ok =
      find-emplace_all j (rows_of_imm mems tables db.imm) (emplace_all (MemOps.rows mems db.mem) [])
        (emplace_all-IsSorted (MemOps.rows mems db.mem) [] tt)
      ∙ ap (or_else (find j (emplace_all (MemOps.rows mems db.mem) [])))
          (find-rows_of_imm j db.imm ok.imm)
      ∙ ap (λ o. or_else o (search_imm mems tables j db.imm))
          (find-emplace_all j (MemOps.rows mems db.mem) [] tt
            ∙ (unfold find in MemOps.find-rows mems j db.mem ok.mem))

  seen_rows-IsSorted : (db : Db M T) → IsSorted (seen_rows mems tables db)
  unfolding seen_rows memory_rows
  seen_rows-IsSorted db =
      merge_tables-IsSorted tables db.levels.l1 _
        (merge_tables-IsSorted tables db.levels.l0 (memory_rows db) (memory_rows-IsSorted db))

  find-seen_rows :
      (j : Bytes) (db : Db M T)
      → IsDb mems tables db
      → find j (seen_rows mems tables db) ≡ newest mems tables j db
  unfolding seen_rows memory_rows
  find-seen_rows j db ok =
      let l0_sorted =
        merge_tables-IsSorted tables db.levels.l0 (memory_rows db) (memory_rows-IsSorted db) in
      find-merge_tables tables j db.levels.l1 (merge_tables tables db.levels.l0 (memory_rows db))
        ok.l1 l0_sorted
      ∙ ap (λ o. or_else o (get_level tables j db.levels.l1))
          (find-merge_tables tables j db.levels.l0 (memory_rows db) ok.l0 (memory_rows-IsSorted db)
            ∙ ap (λ o. or_else o (get_level tables j db.levels.l0)) (find-memory_rows j db ok))
      ∙ or_else_assoc (or_else (MemOps.search mems j db.mem) (search_imm mems tables j db.imm))
          (get_level tables j db.levels.l0) (get_level tables j db.levels.l1)
      ∙ or_else_assoc (MemOps.search mems j db.mem) (search_imm mems tables j db.imm)
          (disk_newest mems tables j db.levels)

  -- On a well-formed database, over tables that keep the laws of their interfaces, the rows of
  -- NewIterator are in the order of their keys, each key once, and they are what Get answers: a
  -- key has a row exactly when Get finds it, with the value that Get gives.
  pub new_iterator-get :
      (db : Db M T) (k : Bytes) (value : ValueRecord)
      → IsDb mems tables db
      → IsAscending (new_iterator mems tables db)
        × (value_at k (new_iterator mems tables db) ≡ answer (get mems tables k value db))
  unfolding new_iterator
  new_iterator-get db k value ok = (
    visible_rows-IsAscending (seen_rows mems tables db) (seen_rows-IsSorted db),
    value_at-visible_rows k (seen_rows mems tables db) (seen_rows-IsSorted db)
        ∙ ap visible (find-seen_rows k db ok)
        ∙ sym (get_lem mems tables k value db ok),
  )
