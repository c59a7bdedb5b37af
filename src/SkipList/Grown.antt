-- ===== src/SkipList/Grown.antt =====
-- include/SkipList.h: insert_element and the invariant, and the memory table's iterator.
use nova_kv.Prelude.{
  ℕ, zero, suc, ◌+◌, ◌≡◌, ◌≢◌, ◌<◌, ◌≤◌, refl, sym, ap, arith, ltb, if◌then◌else◌, true, false,
  Bytes, List, [], ◌∷◌, ◌++◌, none, some, length, replicate, get_elem?, All, Bool-cases, inl, inr,
  bytes_eq, subst,
}
use nova_kv.ValueRecord.{ValueRecord}
use nova_kv.SortedMap.{IsSorted}
use nova_kv.Tables.Reference.{put_row, put_row-IsSorted}
use nova_kv.SkipList.{
  Pointer, Node, Heap, SkipList, store, find_place, match_at, new_update, insert_new, insert_at,
  insert_element,
}
use nova_kv.SkipList.Towers.{Tower, next_at, Holds}
use nova_kv.SkipList.Spelled.{
  rows_of, Apart, head_tower, Spells, lower, upper, lower-append-upper, place, after_place,
  Holds-append_right, holds_split,
}
use nova_kv.SkipList.Link.{
  Mid-start, Holds-linked, Linking, link-Linking, Holds-store_other, All-left, All-middle,
  All-right,
}
use nova_kv.SkipList.Insert.{
  NotFirst, rows_of-new, rows_of-old, with_value, Spells-old, new_update-last_at,
}

All-insert :
    (P : Tower → Type 0) (xs : List Tower) (t : Tower) (us : List Tower)
    → P t
    → All P (xs ++ us)
    → All P (xs ++ t ∷ us)
All-insert P [] t us p h = (p, h)
All-insert P (x ∷ xs) t us p h = (h.0, All-insert P xs t us p h.1)

All-weaken :
    (P Q : Tower → Type 0) (ts : List Tower) → ((t : Tower) → P t → Q t) → All P ts → All Q ts
All-weaken P Q [] f h = tt
All-weaken P Q (t ∷ ts) f h = (f t h.0, All-weaken P Q ts f h.1)

Apart-insert :
    (xs : List Tower) (t : Tower) (us : List Tower)
    → All (λ (u : Tower). u.addr ≢ t.addr) (xs ++ us)
    → Apart (xs ++ us)
    → Apart (xs ++ t ∷ us)
unfolding Apart
Apart-insert [] t us ne h = (ne, h)
Apart-insert (x ∷ xs) t us ne h = (
  All-insert (λ (u : Tower). u.addr ≢ x.addr) xs t us (λ e. ne.0 (sym e)) h.0,
  Apart-insert xs t us ne.1 h.1,
)

length-insert :
    (xs : List Tower) (t : Tower) (us : List Tower)
    → length (xs ++ t ∷ us) ≡ suc (length (xs ++ us))
length-insert [] t us = refl
length-insert (x ∷ xs) t us = ap suc (length-insert xs t us)

-- The list with a new tower, over a heap that has its nodes.
Spells-new :
    (l : SkipList) (h : Heap) (new : Tower) (xs us : List Tower)
    → Spells l (xs ++ us)
    → Holds h (head_tower l ∷ (xs ++ new ∷ us))
    → new.addr ≡ l.fresh
    → 0 < new.height
    → new.height ≤ l.max_level
    → IsSorted (rows_of (xs ++ new ∷ us))
    → Spells
        (record l {
          heap = h;
          fresh = l.fresh + 1;
          current_level = if ltb l.current_level new.height then new.height else l.current_level;
          node_count = l.node_count + 1;
        })
        (xs ++ new ∷ us)
unfolding head_tower
Spells-new l h new xs us s nodes at_fresh tall fits sorted = record {
  nodes = nodes;
  sorted = sorted;
  heights =
      All-insert (λ (t : Tower). (0 < t.height) × (t.height ≤ level)) xs new us (tall, ground arith)
        (All-weaken (λ (t : Tower). (0 < t.height) × (t.height ≤ l.current_level))
          (λ (t : Tower). (0 < t.height) × (t.height ≤ level)) (xs ++ us)
          (λ t p. (p.0, ground (arith, p.1))) s.heights);
  levels = ground (arith, s.levels);
  some_level = s.some_level;
  addrs =
      All-insert (λ (t : Tower). t.addr < l.fresh + 1) (head_tower l ∷ xs) new us (omega arith)
        (All-weaken (λ (t : Tower). t.addr < l.fresh) (λ (t : Tower). t.addr < l.fresh + 1)
          (head_tower l ∷ (xs ++ us)) (λ t p. omega arith) s.addrs);
  apart =
      Apart-insert (head_tower l ∷ xs) new us
        (All-weaken (λ (t : Tower). t.addr < l.fresh) (λ (t : Tower). t.addr ≢ new.addr)
          (head_tower l ∷ (xs ++ us)) (λ t p e. omega arith) s.addrs)
        s.apart;
  count = omega (arith, s.count, length-insert xs new us);
  fresh = omega (arith, s.fresh, length-insert xs new us);
}
  where
    level : ℕ
    level = if ltb l.current_level new.height then new.height else l.current_level

pub empty_tower :
    (level l : ℕ) → l < level → get_elem? (replicate {A = Pointer} level none) l ≡ some none
empty_tower zero l less = absurd (omega arith)
empty_tower (suc level) zero less = refl
empty_tower (suc level) (suc l) less = empty_tower level l (omega arith)

module _ (l : SkipList) (ts : List Tower) (spells : Spells l ts) (key : Bytes) (value : ValueRecord)
    (level : ℕ) (some_tall : 0 < level) (fits : level ≤ l.max_level) where
  abbrev new_tower : Tower
  new_tower = record { addr = l.fresh; key = key; value = value; height = level }

  abbrev new_node : Node
  new_node = record { key = key; value = value; next = replicate level none }

  not_fresh : All (λ (t : Tower). t.addr ≢ l.fresh) ((head_tower l ∷ lower key ts) ++ upper key ts)
  not_fresh = (
    λ e. omega (arith, spells.addrs.0),
    rw (lower-append-upper key ts) (
        All-weaken (λ (t : Tower). t.addr < l.fresh) (λ (t : Tower). t.addr ≢ l.fresh) ts
          (λ t p e. omega arith) spells.addrs.1),
  )

  split : Spells l (lower key ts ++ upper key ts)
  split = subst (Spells l) (sym (lower-append-upper key ts)) spells

  split_nodes : Holds l.heap ((head_tower l ∷ lower key ts) ++ upper key ts)
  split_nodes = split.nodes

  before_link :
      Linking new_tower
        (upper key ts)
        (store l.heap l.fresh new_node)
        0
        (head_tower l ∷ lower key ts)
  before_link = record {
    mid =
        Mid-start new_tower (upper key ts) l.heap new_node (head_tower l ∷ lower key ts)
          (All-left (λ (t : Tower). t.addr ≢ l.fresh) (head_tower l ∷ lower key ts) (upper key ts)
            not_fresh)
          (split_nodes);
    node = record {
      node = new_node;
      found = unfold store in ground arith;
      key = refl;
      value = refl;
      next = λ i less. let e : ltb i 0 ≡ false = ground arith in rw e (empty_tower level i less);
    };
    behind =
        Holds-store_other l.heap l.fresh new_node (upper key ts)
          (All-right (λ (t : Tower). t.addr ≢ l.fresh) (head_tower l ∷ lower key ts) (upper key ts)
            not_fresh)
          (Holds-append_right l.heap (lower key ts) (upper key ts) (holds_split l ts spells key));
  }

  -- insert_element, where the key is not there.
  insert_new_lem :
      NotFirst key (upper key ts)
      → (l2 : SkipList) × (insert_new l key value level (place l ts spells key).updated ≡ some l2)
        × Spells l2 (lower key ts ++ new_tower ∷ upper key ts)
        × (rows_of (lower key ts ++ new_tower ∷ upper key ts) ≡ put_row key value (rows_of ts))
        × (l2.max_level ≡ l.max_level)
  unfolding insert_new head_tower
  insert_new_lem absent =
      let (h, links, state) =
        link-Linking new_tower (upper key ts) (head_tower l) (lower key ts) split.apart not_fresh
          level 0 (store l.heap l.fresh new_node)
          (new_update l level (place l ts spells key).updated) before_link (omega arith)
          (omega arith) (λ i less. new_update-last_at l ts spells key level i less fits) in
      let rows = rows_of-new new_tower ts absent in
      let sorted =
        subst IsSorted (sym rows) (put_row-IsSorted key value (rows_of ts) spells.sorted) in
      (
        record l {
          heap = h;
          fresh = l.fresh + 1;
          current_level = if ltb l.current_level level then level else l.current_level;
          node_count = l.node_count + 1;
        },
        rw links refl,
        Spells-new l h new_tower (lower key ts) (upper key ts) split
            (Holds-linked new_tower (upper key ts) h (head_tower l ∷ lower key ts) state.mid
              state.node state.behind)
            refl some_tall fits sorted,
        rows,
        refl,
      )

  abbrev Inserted : Type 0
  Inserted =
      (l2 : SkipList) × (us : List Tower) × (insert_element key value level l ≡ some l2)
      × Spells l2 us
      × (rows_of us ≡ put_row key value (rows_of ts))
      × (l2.max_level ≡ l.max_level)

  inserted : (us : List Tower) → upper key ts ≡ us → Inserted
  unfolding insert_element find_place match_at insert_at next_at Holds
  inserted [] e =
      let (l2, inserts, s, rows, max) = insert_new_lem (rw e tt) in
      (
        l2,
        _,
        rw ((place l ts spells key).ends) (rw (after_place l ts spells key) (rw e inserts)),
        s,
        rows,
        max,
      )
  inserted (t ∷ us) e =
      let p = place l ts spells key in
      let whole = subst (λ vs. Spells l (lower key ts ++ vs)) e split in
      let n = (Holds-append_right l.heap (lower key ts) (t ∷ us) whole.nodes.1).0 in
      let height =
        All-middle (λ (w : Tower). (0 < w.height) × (w.height ≤ l.current_level)) (lower key ts) t
          us whole.heights in
      let first : ltb 0 t.height ≡ true = ground (arith, height.0) in
      elim (Bool-cases (bytes_eq t.key key)) [
        | inl same ↦
            let rows = rows_of-old key value ts t us e same in
            let found : bytes_eq n.node.key key ≡ true = rw n.key same in
            (
              record l { heap = store l.heap t.addr (record (n.node) { value = value }) },
              lower key ts ++ with_value value t ∷ us,
              rw (p.ends)
                  (rw (after_place l ts spells key) (rw e (rw first (rw n.found (rw found refl))))),
              Spells-old l value n.node (lower key ts) t us whole n.found (
                  subst IsSorted (sym rows)
                    (put_row-IsSorted key value (rows_of ts) spells.sorted)),
              rows,
              refl,
            )
        | inr other ↦
            let (l2, inserts, s, rows, max) = insert_new_lem (rw e other) in
            let missed : bytes_eq n.node.key key ≡ false = rw n.key other in
            (
              l2,
              lower key ts ++ new_tower ∷ upper key ts,
              rw (p.ends) (
                  rw (after_place l ts spells key)
                    (rw e (rw first (rw n.found (rw missed inserts))))),
              s,
              rows,
              max,
            )
      ]

-- insert_element on a list that spells towers: it ends without a fault in a list that spells the
-- same rows with the row put among them, each key once and in order. The level is one that
-- get_random_level gives.
pub insert_element-Spells :
    (l : SkipList) (ts : List Tower) (key : Bytes) (value : ValueRecord) (level : ℕ)
    → Spells l ts
    → 0 < level
    → level ≤ l.max_level
    → (l2 : SkipList) × (us : List Tower) × (insert_element key value level l ≡ some l2)
      × Spells l2 us
      × (rows_of us ≡ put_row key value (rows_of ts))
      × (l2.max_level ≡ l.max_level)
insert_element-Spells l ts key value level spells tall fits =
    inserted l ts spells key value level tall fits (upper key ts) refl
