-- ===== src/Tables.antt =====
-- What the database uses of its tables: include/MemTable.h over include/SkipList.h in memory, and
-- src/SSTableBuilder.cpp with src/SSTableReader.cpp on disk. The database takes the two interfaces
-- as parameters.
pub mod Reference
use mathlib.Core.Option
use nova_kv.Prelude.{ℕ, ◌≡◌, Bool, Bytes, Option, none, some, List, if◌then◌else◌, bytes_eq}
use nova_kv.ValueRecord.{ValueRecord, IsEnumerator}
use nova_kv.SortedMap.{Rows, find, IsSorted}

-- The MemTable: a new one, insert_element, search_element, size and the rows of its iterator.
pub record MemOps (M : Type 0) : Type 1 where
  pub new_table : M
  pub insert : Bytes → ValueRecord → M → M
  pub search : Bytes → M → Option ValueRecord
  pub count : M → ℕ
  pub rows : M → Rows
  pub IsMem : M → Type 0
  pub IsMem-new_table : IsMem new_table
  pub IsMem-insert : (k : Bytes) (r : ValueRecord) (m : M) → IsMem m → IsMem (insert k r m)
  pub search-new_table : (j : Bytes) → search j new_table ≡ none
  pub search-insert :
      (j k : Bytes) (r : ValueRecord) (m : M)
      → IsMem m
      → search j (insert k r m) ≡ (if bytes_eq k j then some r else search j m)
  pub find-rows : (j : Bytes) (m : M) → IsMem m → find j (rows m) ≡ search j m
  pub rows-IsSorted : (m : M) → IsMem m → IsSorted (rows m)

-- The table on disk: the file with number `id` is built from rows in order and opened, which may
-- fail; GetRecord; the rows of ForEach.
pub record TableOps (T : Type 0) : Type 1 where
  pub build : ℕ → Rows → Option T
  pub get_record : Bytes → T → Option ValueRecord
  pub rows : T → Rows
  pub IsTable : T → Type 0
  pub find-rows : (j : Bytes) (t : T) → IsTable t → find j (rows t) ≡ get_record j t
  pub IsTable-build : (id : ℕ) (m : Rows) (t : T) → IsSorted m → build id m ≡ some t → IsTable t
  pub get_record-build :
      (id : ℕ) (m : Rows) (t : T) (j : Bytes)
      → IsSorted m
      → build id m ≡ some t
      → get_record j t ≡ find j m
