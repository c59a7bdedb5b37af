-- ===== src/SsTable/Interface.antt =====
-- The table files of src/SSTableBuilder.cpp and src/SSTableReader.cpp behind the interface that the
-- database takes.
use nova_kv.Prelude.{
  ℕ, ◌+◌, ◌*◌, ◌≡◌, ◌≢◌, refl, sym, ap, ◌∙◌, ltb, ◌&&◌, if◌then◌else◌, Bool, true, false, Bytes, [],
  ◌∷◌, Option, some, none, length, u32_mod, u64_mod, bytes_lt, All, ltb→lt, subst,
}
use nova_kv.ValueRecord.{ValueType, ValueRecord}
use nova_kv.SortedMap.{Rows, find, IsSorted, Below}
use nova_kv.Tables.{TableOps}
use nova_kv.SsTable.Format.{new_file}
use nova_kv.SsTable.Builder.{table_file}
use nova_kv.SsTable.Reader.{SsTableReader, open_table, get_record, for_each, build_sst}
use nova_kv.SsTable.Scan.{EmptyIf, IsStorable}
use nova_kv.SsTable.Whole.{NotEmpty}
use nova_kv.SsTable.Built.{FitsTable, build_sst_lem}

-- FitsTable as a test.
unfoldable pub is_not_empty : Rows → Bool
is_not_empty [] = false
is_not_empty (row ∷ rows) = true

unfoldable pub all_below : Bytes → Rows → Bool
all_below k [] = true
all_below k ((i, w) ∷ rows) = bytes_lt k i && all_below k rows

unfoldable pub is_sorted : Rows → Bool
is_sorted [] = true
is_sorted ((k, r) ∷ rows) = all_below k rows && is_sorted rows

unfoldable pub no_value : Bytes → Bool
no_value [] = true
no_value (b ∷ s) = false

unfoldable pub type_fits : ValueType → Bytes → Bool
type_fits ValueType.value v = true
type_fits ValueType.deletion v = no_value v
type_fits (ValueType.other t) v = false

unfoldable pub are_storable : Rows → Bool
are_storable [] = true
are_storable ((k, r) ∷ rows) =
    ltb (length k) u32_mod
    && ltb (length r.value) u32_mod
    && type_fits r.type r.value
    && are_storable rows

unfoldable pub fits_table : Rows → Bool
unfolding is_not_empty is_sorted all_below are_storable type_fits no_value
fits_table rows =
    is_not_empty rows
    && is_sorted rows
    && are_storable rows
    && ltb (length (table_file rows new_file).contents) u64_mod
    && ltb (length rows * 10 + 7) u64_mod

-- Both parts of a test that holds.
and_parts : (a b : Bool) → (a && b) ≡ true → (a ≡ true) × (b ≡ true)
and_parts true b h = (refl, h)
and_parts false b h = cc

NotEmpty-is_not_empty : (rows : Rows) → is_not_empty rows ≡ true → NotEmpty rows
unfolding is_not_empty
NotEmpty-is_not_empty [] h = cc
NotEmpty-is_not_empty (row ∷ rows) h = tt

Below-all_below : (k : Bytes) (rows : Rows) → all_below k rows ≡ true → Below k rows
unfolding all_below
Below-all_below k [] h = tt
Below-all_below k ((i, w) ∷ rows) h =
    let (a, b) = and_parts (bytes_lt k i) (all_below k rows) h in (a, Below-all_below k rows b)

IsSorted-is_sorted : (rows : Rows) → is_sorted rows ≡ true → IsSorted rows
unfolding is_sorted
IsSorted-is_sorted [] h = tt
IsSorted-is_sorted ((k, r) ∷ rows) h =
    let (a, b) = and_parts (all_below k rows) (is_sorted rows) h in
    (Below-all_below k rows a, IsSorted-is_sorted rows b)

EmptyIf-type_fits : (t : ValueType) (v : Bytes) → type_fits t v ≡ true → EmptyIf t v
unfolding type_fits no_value
EmptyIf-type_fits ValueType.value v h = tt
EmptyIf-type_fits ValueType.deletion [] h = refl
EmptyIf-type_fits ValueType.deletion (b ∷ s) h = cc
EmptyIf-type_fits (ValueType.other t) v h = cc

All-are_storable : (rows : Rows) → are_storable rows ≡ true → All IsStorable rows
unfolding are_storable
All-are_storable [] h = tt
All-are_storable ((k, r) ∷ rows) h =
    let (h1, more) = and_parts _ (are_storable rows) h in
    let (h2, type) = and_parts _ (type_fits r.type r.value) h1 in
    let (key, value) = and_parts (ltb (length k) u32_mod) (ltb (length r.value) u32_mod) h2 in
    (
      record {
        key = ltb→lt (length k) u32_mod key;
        value = ltb→lt (length r.value) u32_mod value;
        type = EmptyIf-type_fits r.type r.value type;
      },
      All-are_storable rows more,
    )

pub FitsTable-fits_table : (rows : Rows) → fits_table rows ≡ true → FitsTable rows
unfolding fits_table
FitsTable-fits_table rows h =
    let (h1, bits) = and_parts _ (ltb (length rows * 10 + 7) u64_mod) h in
    let (h2, size) = and_parts _ (ltb (length (table_file rows new_file).contents) u64_mod) h1 in
    let (h3, storable) = and_parts _ (are_storable rows) h2 in
    let (not_empty, sorted) = and_parts (is_not_empty rows) (is_sorted rows) h3 in
    record {
      not_empty = NotEmpty-is_not_empty rows not_empty;
      sorted = IsSorted-is_sorted rows sorted;
      storable = All-are_storable rows storable;
      size = ltb→lt (length (table_file rows new_file).contents) u64_mod size;
      bits = ltb→lt (length rows * 10 + 7) u64_mod bits;
    }

unfoldable pub pointer : Option (Option SsTableReader) → Option SsTableReader
pointer none = none
pointer (some r) = r

unfoldable pub found : Option (Option ValueRecord) → Option ValueRecord
found none = none
found (some r) = r

unfoldable pub rows_or_none : Option Rows → Rows
rows_or_none none = []
rows_or_none (some rows) = rows

-- What a table that was built knows of its rows.
abbrev pub IsBuilt : Rows → SsTableReader → Type 0
IsBuilt rows t =
    IsSorted rows
    × ((key : Bytes) → get_record key t ≡ some (find key rows))
    × (for_each t ≡ some rows)

-- A build whose rows do not fit a table counts as one that fails. `free` and `mapped` are what the file
-- system does at the path with the number.
unfoldable pub build_fitting : (ℕ → Bool) → (ℕ → Bool) → ℕ → Rows → Option SsTableReader
build_fitting free mapped id rows =
    if fits_table rows then pointer (build_sst (free id) (mapped id) rows) else none

pub found_some : (o : Option ValueRecord) → found (some o) ≡ o
unfolding found
found_some o = refl

pub find-rows_or_none :
    (j : Bytes) (t : SsTableReader) (rows : Rows)
    → IsBuilt rows t
    → find j (rows_or_none (for_each t)) ≡ found (get_record j t)
unfolding found rows_or_none
find-rows_or_none j t rows (sorted, gets, each) = rw (each, gets j) refl

built :
    (rows : Rows) (t : SsTableReader) (fits free mapped : Bool)
    → fits_table rows ≡ fits
    → (if fits then pointer (build_sst free mapped rows) else none) ≡ some t
    → IsBuilt rows t
unfolding pointer build_sst open_table
built rows t false free mapped f e = cc
built rows t true false mapped f e = cc
built rows t true true false f e = cc
built rows t true true true f e =
    let fits = FitsTable-fits_table rows f in
    let (r, opens, gets, each) = build_sst_lem rows fits in
    let same : pointer (build_sst true true rows) ≡ some r = ap pointer opens in
    let other : some t ≡ some r = sym e ∙ same in
    subst (IsBuilt rows) (one_reader r t other) (fits.sorted, gets, each)
  where
    one_reader : (r t : SsTableReader) → some t ≡ some r → r ≡ t
    one_reader r t e = cc

pub build_fitting-IsBuilt :
    (free mapped : ℕ → Bool) (id : ℕ) (rows : Rows) (t : SsTableReader)
    → build_fitting free mapped id rows ≡ some t
    → IsBuilt rows t
unfolding build_fitting
build_fitting-IsBuilt free mapped id rows t e =
    built rows t (fits_table rows) (free id) (mapped id) refl e

-- Where the file system plays along, a table is built of the rows that fit one.
pub build_fitting_some :
    (id : ℕ) (rows : Rows)
    → fits_table rows ≡ true
    → build_fitting (λ n. true) (λ n. true) id rows ≢ none
unfolding build_fitting pointer
build_fitting_some id rows fits e =
    let (r, opens, _, _) = build_sst_lem rows (FitsTable-fits_table rows fits) in
    let there : build_fitting (λ n. true) (λ n. true) id rows ≡ some r =
      ap (λ b. if b then pointer (build_sst true true rows) else none) fits ∙ ap pointer opens in
    cc

-- The table files as the tables of the database.
abbrev pub sst_tables : (ℕ → Bool) → (ℕ → Bool) → TableOps SsTableReader
sst_tables free mapped = record {
  build = build_fitting free mapped;
  get_record = λ key t. found (get_record key t);
  rows = λ t. rows_or_none (for_each t);
  IsTable = λ t. (rows : Rows) × IsBuilt rows t;
  find-rows = λ j t b. find-rows_or_none j t b.0 b.1;
  IsTable-build = λ id m t s e. (m, build_fitting-IsBuilt free mapped id m t e);
  get_record-build = λ id m t j s e.
      ap found ((build_fitting-IsBuilt free mapped id m t e).1 j) ∙ found_some (find j m);
}
