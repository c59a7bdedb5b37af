-- ===== src/SkipList.antt =====
-- include/SkipList.h and include/MemTable.h: the skip list of the memory table, as nodes at addresses.
-- The keys are strings and the values records, as the program uses the template. A step that would
-- go through a null pointer, a freed node or a tower at a level it does not have is `none`, and so is
-- a loop that has run out of fuel.
pub mod Towers
pub mod Places
pub mod Spelled
pub mod Link
pub mod Insert
pub mod Grown
pub mod Memory
mod Runs
use nova_kv.Prelude.{
  ℕ, zero, suc, ◌+◌, ◌-◌, ◌==◌, ltb, ◌&&◌, if◌then◌else◌, Bool, true, false, Bytes, List, [], ◌∷◌,
  Option, none, some, ◌>>=◌, length, get_elem?, replicate, bytes_eq, bytes_lt,
}
use nova_kv.ValueRecord.{ValueType, ValueRecord}
use nova_kv.SortedMap.{Rows}

-- A Node*, where `none` is null.
abbrev pub Pointer : Type 0
Pointer = Option ℕ

pub record Node : Type 0 where
  pub key : Bytes
  pub value : ValueRecord
  pub next : List Pointer

abbrev pub Heap : Type 0
Heap = ℕ → Option Node

unfoldable pub store : Heap → ℕ → Node → Heap
store h a n b = if b == a then some n else h b

-- The list and the heap that its nodes are in; `fresh` is the address that `new` gives next.
pub record SkipList : Type 0 where
  pub heap : Heap
  pub fresh : ℕ
  pub max_level : ℕ
  pub current_level : ℕ
  pub head : ℕ
  pub node_count : ℕ

-- xs[i] = v
unfoldable pub set {ℓ} : {A : Type ℓ} → List A → ℕ → A → List A
set [] i v = []
set (x ∷ xs) zero v = v ∷ xs
set (x ∷ xs) (suc i) v = x ∷ set xs i v

-- K() and V(): the type of a record that is value-initialised is no enumerator.
abbrev pub default_value : ValueRecord
default_value = record { type = ValueType.other 0; value = [] }

unfoldable pub new_list : ℕ → SkipList
new_list max_level = record {
  heap =
      store (λ a. none) 0
        (record { key = []; value = default_value; next = replicate max_level none });
  fresh = 1;
  max_level = max_level;
  current_level = 0;
  head = 0;
  node_count = 0;
}

-- curr->next[i].load()
unfoldable pub load_next : Heap → ℕ → ℕ → Option Pointer
load_next h a i = do n ← h a; get_elem? n.next i

-- curr->next[i].store(p)
unfoldable pub store_next : Heap → ℕ → ℕ → Pointer → Option Heap
store_next h a i p = do
  n ← h a
  old ← get_elem? n.next i
  some (store h a (record n { next = set n.next i p }))

-- The inner loop of insert_element and of search_element: to the right on level `i` while the next
-- key is below.
unfoldable pub walk : ℕ → Heap → ℕ → Bytes → ℕ → Option ℕ
walk zero h i key curr = none
walk (suc fuel) h i key curr = elim (load_next h curr i) [
  | none ↦ none
  | some none ↦ some curr
  | some (some a) ↦ elim (h a) [
    | none ↦ none
    | some n ↦ elim (bytes_lt n.key key) [ true ↦ walk fuel h i key a | false ↦ some curr ]
  ]
]

-- The outer loop, down from level `i - 1`: where it ends, and `update`.
unfoldable pub descend : ℕ → Heap → ℕ → Bytes → ℕ → List ℕ → Option (ℕ × List ℕ)
descend fuel h zero key curr update = some (curr, update)
descend fuel h (suc i) key curr update = elim (walk fuel h i key curr) [
  | none ↦ none
  | some c ↦ descend fuel h i key c (set update i c)
]

-- The node behind the place, if it has the key.
unfoldable pub match_at : Heap → Bytes → Pointer → Option (Option (ℕ × Node))
match_at h key none = some none
match_at h key (some a) = do n ← h a; some (if bytes_eq n.key key then some (a, n) else none)

-- The loop that links the new node in, from level `i` on for `n` levels.
unfoldable pub link : Heap → ℕ → List ℕ → ℕ → ℕ → Option Heap
link h new update i zero = some h
link h new update i (suc n) = do
  p ← get_elem? update i
  after ← load_next h p i
  h1 ← store_next h new i after
  h2 ← store_next h1 p i (some new)
  link h2 new update (suc i) n

-- get_random_level, on what the draws said of `dis(gen) < 0.5f`. No draw left ends it.
unfoldable pub random_level : ℕ → ℕ → List Bool → ℕ
random_level max_level level [] = level
random_level max_level level (coin ∷ coins) =
    let more = random_level max_level (level + 1) coins in
    if coin && ltb level max_level then more else level

unfoldable pub get_random_level : ℕ → List Bool → ℕ
get_random_level max_level coins = random_level max_level 1 coins

-- The places that insert_element and search_element find.
unfoldable pub find_place : SkipList → Bytes → Option (ℕ × List ℕ)
find_place l key =
    descend (suc l.fresh) l.heap l.current_level key l.head (replicate l.max_level l.head)

-- The loop that sets update[i] to the head from level `i` on, for `n` levels.
unfoldable pub raise_update : ℕ → ℕ → ℕ → List ℕ → List ℕ
raise_update head i zero update = update
raise_update head i (suc n) update = raise_update head (suc i) n (set update i head)

unfoldable pub new_update : SkipList → ℕ → List ℕ → List ℕ
new_update l level update =
    if ltb l.current_level level
    then raise_update l.head l.current_level (level - l.current_level) update
    else update

-- A new node behind the places of `update`, with a tower of `level`.
unfoldable pub insert_new : SkipList → Bytes → ValueRecord → ℕ → List ℕ → Option SkipList
insert_new l key value level update = do
  h ←
      link (store l.heap l.fresh (record { key = key; value = value; next = replicate level none }))
        l.fresh (new_update l level update) 0 level
  some (record l {
    heap = h;
    fresh = l.fresh + 1;
    current_level = if ltb l.current_level level then level else l.current_level;
    node_count = l.node_count + 1;
  })

unfoldable pub insert_at :
    SkipList → Bytes → ValueRecord → ℕ → List ℕ → Option (ℕ × Node) → Option SkipList
insert_at l key value level update (some (a, n)) =
    some (record l { heap = store l.heap a (record n { value = value }) })
insert_at l key value level update none = insert_new l key value level update

-- insert_element, where get_random_level gives `level`.
unfoldable pub insert_element : Bytes → ValueRecord → ℕ → SkipList → Option SkipList
insert_element key value level l = do
  (curr, update) ← find_place l key
  after ← load_next l.heap curr 0
  old ← match_at l.heap key after
  insert_at l key value level update old

unfoldable pub value_at : Option (ℕ × Node) → Option ValueRecord
value_at none = none
value_at (some (a, n)) = some n.value

-- search_element: the value that it stores, where it returns true.
unfoldable pub search_element : Bytes → SkipList → Option (Option ValueRecord)
search_element key l = do
  (curr, update) ← find_place l key
  after ← load_next l.heap curr 0
  old ← match_at l.heap key after
  some (value_at old)

-- The loop of MemTable::Snapshot over the iterator, from a node on.
unfoldable pub rows_from : ℕ → Heap → Pointer → Option Rows
rows_from zero h p = none
rows_from (suc fuel) h none = some []
rows_from (suc fuel) h (some a) = do
  n ← h a
  after ← get_elem? n.next 0
  rows ← rows_from fuel h after
  some ((n.key, n.value) ∷ rows)

unfoldable pub snapshot : SkipList → Option Rows
snapshot l = do first ← load_next l.heap l.head 0; rows_from (suc l.fresh) l.heap first
