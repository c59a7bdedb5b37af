-- ===== src/SkipList/Memory.antt =====
-- include/SkipList.h behind the interface of a memory table.
use nova_kv.Prelude.{
  ℕ, zero, suc, ◌+◌, ◌≡◌, ◌<◌, ◌≤◌, refl, arith, ◌&&◌, ltb, if◌then◌else◌, Bool, true, Bytes, List,
  [], ◌∷◌, Option, none, some, length, replicate, All, Bool-cases, inl, inr, bytes_eq,
}
use nova_kv.ValueRecord.{ValueRecord}
use nova_kv.SortedMap.{Rows, find, IsSorted}
use nova_kv.Tables.{MemOps}
use nova_kv.Tables.Reference.{put_row, find-put_row}
use nova_kv.SkipList.{
  Heap, SkipList, default_value, new_list, store, get_random_level, random_level, insert_element,
  search_element, rows_from, snapshot,
}
use nova_kv.SkipList.Towers.{Tower, next_at, Holds, load_next-NodeAt}
use nova_kv.SkipList.Spelled.{rows_of, Apart, head_tower, Spells, search_element-Spells}
use nova_kv.SkipList.Grown.{insert_element-Spells, empty_tower}

random_level_bounds :
    (max level : ℕ) (coins : List Bool)
    → level ≤ max
    → (level ≤ random_level max level coins) × (random_level max level coins ≤ max)
unfolding random_level
random_level_bounds max level [] h = (omega arith, h)
random_level_bounds max level (coin ∷ coins) h = elim (Bool-cases (coin && ltb level max)) [
  | inl more ↦ rw more (
      let r = random_level_bounds max (level + 1) coins (ground arith) in (omega (arith, r.0), r.1))
  | inr last ↦ rw last (omega arith, h)
]

-- Whatever the draws are, the level of a new node is between one and the level that is allowed.
pub get_random_level_bounds :
    (max : ℕ) (coins : List Bool)
    → 0 < max
    → (0 < get_random_level max coins) × (get_random_level max coins ≤ max)
unfolding get_random_level
get_random_level_bounds max coins h =
    let r = random_level_bounds max 1 coins (omega arith) in (omega (arith, r.0), r.1)

-- The iterator from a node on.
rows_from-Holds :
    (ts : List Tower) (fuel : ℕ) (h : Heap)
    → Holds h ts
    → All (λ (t : Tower). 0 < t.height) ts
    → length ts < fuel
    → rows_from fuel h (next_at 0 ts) ≡ some (rows_of ts)
unfolding Holds rows_from next_at rows_of
rows_from-Holds ts zero h holds tall less = absurd (omega arith)
rows_from-Holds [] (suc fuel) h holds tall less = refl
rows_from-Holds (t ∷ ts) (suc fuel) h holds tall less =
    let n = holds.0 in
    let first : ltb 0 t.height ≡ true = ground (arith, tall.0) in
    rw first (
      rw n.found (
        rw (n.next 0 tall.0)
          (rw (rows_from-Holds ts fuel h holds.1 tall.1 (omega arith)) (rw (n.key, n.value) refl))))

All-tall :
    (level : ℕ) (ts : List Tower)
    → All (λ (t : Tower). (0 < t.height) × (t.height ≤ level)) ts
    → All (λ (t : Tower). 0 < t.height) ts
All-tall level [] h = tt
All-tall level (t ∷ ts) h = (h.0.0, All-tall level ts h.1)

-- The iterator gives the rows that the towers spell.
pub snapshot-Spells :
    (l : SkipList) (ts : List Tower) → Spells l ts → snapshot l ≡ some (rows_of ts)
unfolding snapshot head_tower Holds
snapshot-Spells l ts s =
    rw
      (load_next-NodeAt l.heap l.head [] default_value l.max_level (λ i. next_at i ts) 0 s.nodes.0
        s.some_level)
      (rows_from-Holds ts (suc l.fresh) l.heap s.nodes.1 (All-tall l.current_level ts s.heights)
        (omega (arith, s.fresh)))

pub new_list-Spells : (max : ℕ) → 0 < max → Spells (new_list max) []
unfolding new_list head_tower Holds Apart rows_of next_at store
new_list-Spells max h = record {
  nodes = (
    record {
      node = record { key = []; value = default_value; next = replicate max none };
      found = refl;
      key = refl;
      value = refl;
      next = λ l less. empty_tower max l less;
    },
    tt,
  );
  sorted = tt;
  heights = tt;
  levels = omega arith;
  some_level = h;
  addrs = (omega arith, tt);
  apart = (tt, tt);
  count = refl;
  fresh = refl;
}

unfoldable pub list_or : SkipList → Option SkipList → SkipList
list_or l none = l
list_or l (some l2) = l2

unfoldable pub found : Option (Option ValueRecord) → Option ValueRecord
found none = none
found (some r) = r

unfoldable pub rows_or_none : Option Rows → Rows
rows_or_none none = []
rows_or_none (some rows) = rows

-- insert_element with the level that the draws give; `coins` are the draws by the address of the node.
unfoldable pub insert_drawn : (ℕ → List Bool) → Bytes → ValueRecord → SkipList → SkipList
insert_drawn coins key value l =
    list_or l (insert_element key value (get_random_level l.max_level (coins l.fresh)) l)

abbrev pub IsSkipList : SkipList → Type 0
IsSkipList l = (ts : List Tower) × Spells l ts

pub insert_drawn-Spells :
    (coins : ℕ → List Bool) (key : Bytes) (value : ValueRecord) (l : SkipList) (ts : List Tower)
    → Spells l ts
    → (us : List Tower) × Spells (insert_drawn coins key value l) us
      × (rows_of us ≡ put_row key value (rows_of ts))
unfolding insert_drawn list_or
insert_drawn-Spells coins key value l ts s =
    let (tall, fits) = get_random_level_bounds l.max_level (coins l.fresh) s.some_level in
    let (l2, us, inserts, spells, rows, max) =
      insert_element-Spells l ts key value (get_random_level l.max_level (coins l.fresh)) s tall
        fits in
    (us, rw inserts spells, rows)

pub search-insert_drawn :
    (coins : ℕ → List Bool) (j k : Bytes) (r : ValueRecord) (l : SkipList)
    → IsSkipList l
    → found (search_element j (insert_drawn coins k r l))
      ≡ (if bytes_eq k j then some r else found (search_element j l))
unfolding found
search-insert_drawn coins j k r l (ts, s) =
    let (us, spells, rows) = insert_drawn-Spells coins k r l ts s in
    rw
      (
        search_element-Spells (insert_drawn coins k r l) us j spells,
        search_element-Spells l ts j s,
        rows,
      )
      (find-put_row j k r (rows_of ts))

pub find-snapshot :
    (j : Bytes) (l : SkipList)
    → IsSkipList l
    → find j (rows_or_none (snapshot l)) ≡ found (search_element j l)
unfolding found rows_or_none
find-snapshot j l (ts, s) = rw (snapshot-Spells l ts s, search_element-Spells l ts j s) refl

pub snapshot-IsSorted : (l : SkipList) → IsSkipList l → IsSorted (rows_or_none (snapshot l))
unfolding rows_or_none
snapshot-IsSorted l (ts, s) = rw (snapshot-Spells l ts s) s.sorted

pub IsSkipList-insert_drawn :
    (coins : ℕ → List Bool) (k : Bytes) (r : ValueRecord) (l : SkipList)
    → IsSkipList l
    → IsSkipList (insert_drawn coins k r l)
IsSkipList-insert_drawn coins k r l (ts, s) =
    let (us, spells, rows) = insert_drawn-Spells coins k r l ts s in (us, spells)

pub search-new_list : (j : Bytes) → found (search_element j (new_list 16)) ≡ none
unfolding found rows_of find
search-new_list j =
    rw (search_element-Spells (new_list 16) [] j (new_list-Spells 16 (omega arith))) refl

-- The skip list as the memory table of the database, with the levels of MemTable's constructor.
abbrev pub skip_list_mems : (ℕ → List Bool) → MemOps SkipList
skip_list_mems coins = record {
  new_table = new_list 16;
  insert = insert_drawn coins;
  search = λ j l. found (search_element j l);
  count = λ l. l.node_count;
  rows = λ l. rows_or_none (snapshot l);
  IsMem = IsSkipList;
  IsMem-new_table = ([], new_list-Spells 16 (omega arith));
  IsMem-insert = IsSkipList-insert_drawn coins;
  search-new_table = search-new_list;
  search-insert = search-insert_drawn coins;
  find-rows = find-snapshot;
  rows-IsSorted = snapshot-IsSorted;
}
