-- ===== src/SkipList/Spelled.antt =====
-- include/SkipList.h: the invariant of a skip list, and search_element.
use nova_kv.Prelude.{
  ℕ, suc, ◌≡◌, ◌≢◌, ◌<◌, ◌≤◌, refl, sym, ap, ◌∙◌, arith, ◌==◌, ltb, if◌then◌else◌, Bool, true,
  false, Bytes, List, [], ◌∷◌, ◌++◌, some, ◌>>=◌, length, replicate, All, Bool-cases, inl, inr,
  bytes_lt, bytes_eq, bytes_lt_trans, bytes_lt_ne, bytes_lt_total, length-replicate, ==_iff,
}
use nova_kv.SortedMap.{Rows, find, IsSorted, Below, find-Below, Below-trans}
use nova_kv.SkipList.{
  Heap, SkipList, default_value, load_next, find_place, match_at, value_at, search_element,
}
use nova_kv.SkipList.Towers.{Tower, next_at, Holds, load_next-NodeAt, BelowAll, AboveAll}
use nova_kv.SkipList.Places.{Placed, descend-Placed}

unfoldable pub rows_of : List Tower → Rows
rows_of [] = []
rows_of (t ∷ ts) = (t.key, t.value) ∷ rows_of ts

-- No two towers stand at one address.
unfoldable pub Apart : List Tower → Type 0
Apart [] = Unit
Apart (t ∷ ts) = All (λ (u : Tower). u.addr ≢ t.addr) ts × Apart ts

-- The head as a tower.
unfoldable pub head_tower : SkipList → Tower
head_tower l = record { addr = l.head; key = []; value = default_value; height = l.max_level }

-- The nodes of the list are towers in the order of their keys.
pub record Spells (l : SkipList) (ts : List Tower) : Type 0 where
  pub nodes : Holds l.heap (head_tower l ∷ ts)
  pub sorted : IsSorted (rows_of ts)
  pub heights : All (λ (t : Tower). (0 < t.height) × (t.height ≤ l.current_level)) ts
  pub levels : l.current_level ≤ l.max_level
  pub some_level : 0 < l.max_level
  pub addrs : All (λ (t : Tower). t.addr < l.fresh) (head_tower l ∷ ts)
  pub apart : Apart (head_tower l ∷ ts)
  pub count : l.node_count ≡ length ts
  pub fresh : l.fresh ≡ suc (length ts)

-- The towers below a key, and the others.
unfoldable pub lower : Bytes → List Tower → List Tower
lower key [] = []
lower key (t ∷ ts) = if bytes_lt t.key key then t ∷ lower key ts else []

unfoldable pub upper : Bytes → List Tower → List Tower
upper key [] = []
upper key (t ∷ ts) = if bytes_lt t.key key then upper key ts else t ∷ ts

pub lower-append-upper : (key : Bytes) (ts : List Tower) → lower key ts ++ upper key ts ≡ ts
unfolding lower upper
lower-append-upper key [] = refl
lower-append-upper key (t ∷ ts) = ground (arith, lower-append-upper key ts)

pub BelowAll-lower : (key : Bytes) (ts : List Tower) → BelowAll key (lower key ts)
unfolding lower BelowAll
BelowAll-lower key [] = tt
BelowAll-lower key (t ∷ ts) = elim (Bool-cases (bytes_lt t.key key)) [
  | inl less ↦ rw less (less, BelowAll-lower key ts)
  | inr more ↦ rw more tt
]

AboveAll-Below :
    (key k : Bytes) (ts : List Tower)
    → bytes_lt k key ≡ false
    → Below k (rows_of ts)
    → AboveAll key ts
unfolding AboveAll rows_of
AboveAll-Below key k [] h b = tt
AboveAll-Below key k (t ∷ ts) h b =
    (not_less (bytes_lt t.key key) refl, AboveAll-Below key k ts h b.1)
  where
    not_less : (c : Bool) → bytes_lt t.key key ≡ c → bytes_lt t.key key ≡ false
    not_less false e = e
    not_less true e = let less = bytes_lt_trans k t.key key b.0 e in cc

pub AboveAll-upper :
    (key : Bytes) (ts : List Tower) → IsSorted (rows_of ts) → AboveAll key (upper key ts)
unfolding upper AboveAll rows_of
AboveAll-upper key [] s = tt
AboveAll-upper key (t ∷ ts) s = elim (Bool-cases (bytes_lt t.key key)) [
  | inl less ↦ rw less (AboveAll-upper key ts s.1)
  | inr more ↦ rw more (more, AboveAll-Below key t.key ts more s.0)
]

pub Holds-append_right : (h : Heap) (xs ys : List Tower) → Holds h (xs ++ ys) → Holds h ys
unfolding Holds
Holds-append_right h [] ys holds = holds
Holds-append_right h (x ∷ xs) ys holds = Holds-append_right h xs ys holds.1

length-append-le : (xs ys : List Tower) → length xs ≤ length (xs ++ ys)
length-append-le [] ys = omega arith
length-append-le (x ∷ xs) ys = omega (arith, length-append-le xs ys)

no_towers :
    (level : ℕ) (key : Bytes) (ts : List Tower)
    → All (λ (t : Tower). (0 < t.height) × (t.height ≤ level)) ts
    → level ≡ 0
    → next_at 0 (lower key ts ++ upper key ts) ≡ next_at 0 (upper key ts)
unfolding lower upper
no_towers level key [] h e = refl
no_towers level key (t ∷ ts) h e = absurd (omega (arith, h.0.0, h.0.1))

IsSorted-upper :
    (key : Bytes) (ts : List Tower) → IsSorted (rows_of ts) → IsSorted (rows_of (upper key ts))
unfolding upper rows_of
IsSorted-upper key [] s = tt
IsSorted-upper key (t ∷ ts) s = elim (Bool-cases (bytes_lt t.key key)) [
  | inl less ↦ rw less (IsSorted-upper key ts s.1)
  | inr more ↦ rw more s
]

All-upper : (P : Tower → Type 0) (key : Bytes) (ts : List Tower) → All P ts → All P (upper key ts)
unfolding upper
All-upper P key [] h = tt
All-upper P key (t ∷ ts) h = elim (Bool-cases (bytes_lt t.key key)) [
  | inl less ↦ rw less (All-upper P key ts h.1)
  | inr more ↦ rw more h
]

-- What search_element finds at the first tower that is not below the key.
value_at-match_at :
    (h : Heap) (key : Bytes) (us : List Tower)
    → Holds h us
    → AboveAll key us
    → IsSorted (rows_of us)
    → All (λ (t : Tower). 0 < t.height) us
    → (match_at h key (next_at 0 us) >>= λ old. some (value_at old)) ≡ some (find key (rows_of us))
unfolding next_at match_at value_at find rows_of Holds AboveAll
value_at-match_at h key [] holds above sorted tall = refl
value_at-match_at h key (t ∷ us) holds above sorted tall =
    let n = holds.0 in
    let first : ltb 0 t.height ≡ true = ground (arith, tall.0) in
    rw first (
      rw n.found (
        rw (n.key) (elim (Bool-cases (bytes_eq t.key key)) [
          | inl same ↦ rw same (rw n.value refl)
          | inr other ↦
              let less = bytes_lt_total t.key key above.0 other in
              rw
                (
                  other,
                  find-Below key (rows_of us) (Below-trans key t.key (rows_of us) less sorted.0),
                )
                refl
        ])))

module _ (l : SkipList) (ts : List Tower) (spells : Spells l ts) (key : Bytes) where
  pub holds_split : Holds l.heap (lower key ts ++ upper key ts)
  unfolding Holds
  holds_split = rw (lower-append-upper key ts) spells.nodes.1

  pub load_next-head :
      (i : ℕ)
      → i < l.max_level
      → load_next l.heap l.head i ≡ some (next_at i (lower key ts ++ upper key ts))
  unfolding Holds head_tower
  load_next-head i less = rw (lower-append-upper key ts) (
      load_next-NodeAt l.heap l.head [] default_value l.max_level (λ j. next_at j ts) i
        spells.nodes.0 less)

  -- Where find_place ends.
  pub place :
      Placed l.heap key
        (upper key ts)
        (Holds-append_right l.heap (lower key ts) (upper key ts) holds_split)
        (AboveAll-upper key ts spells.sorted)
        l.current_level
        (suc l.fresh)
        l.head
        (lower key ts)
        (replicate l.max_level l.head)
  place =
      descend-Placed l.heap key (upper key ts)
        (Holds-append_right l.heap (lower key ts) (upper key ts) holds_split)
        (AboveAll-upper key ts spells.sorted) l.current_level (suc l.fresh) l.head (lower key ts)
        (replicate l.max_level l.head) holds_split (BelowAll-lower key ts)
        (λ i less. load_next-head i (omega (arith, spells.levels)))
        (omega (
          arith,
          length-append-le (lower key ts) (upper key ts),
          ap length (lower-append-upper key ts),
          spells.fresh,
        ))
        (omega (arith, length-replicate l.max_level l.head, spells.levels))

  -- Behind it, on the lowest level, is the first tower that is not below the key.
  pub after_place : load_next l.heap place.curr 0 ≡ some (next_at 0 (upper key ts))
  unfolding lower upper
  after_place = elim (Bool-cases (l.current_level == 0)) [
    | inl flat ↦
        let e : l.current_level ≡ 0 = (==_iff l.current_level 0).0 flat in
        rw (place.stays e) (
          load_next-head 0 spells.some_level
          ∙ ap some (no_towers l.current_level key ts spells.heights e))
    | inr tall ↦ place.after (ground arith)
  ]

  -- The towers below the key do not have it.
  find_upper :
      (us : List Tower)
      → BelowAll key us
      → (vs : List Tower) → find key (rows_of (us ++ vs)) ≡ find key (rows_of vs)
  unfolding find rows_of BelowAll
  find_upper [] below vs = refl
  find_upper (u ∷ us) below vs = rw (bytes_lt_ne u.key key below.0) (find_upper us below.1 vs)

  pub find-upper : find key (rows_of ts) ≡ find key (rows_of (upper key ts))
  find-upper =
      ap (λ us. find key (rows_of us)) (sym (lower-append-upper key ts))
      ∙ find_upper (lower key ts) (BelowAll-lower key ts) (upper key ts)

-- search_element finds what the towers have, and ends without a fault.
pub search_element-Spells :
    (l : SkipList) (ts : List Tower) (key : Bytes)
    → Spells l ts
    → search_element key l ≡ some (find key (rows_of ts))
unfolding search_element find_place
search_element-Spells l ts key spells =
    let p = place l ts spells key in
    rw (p.ends) (
      rw (after_place l ts spells key) (
        value_at-match_at l.heap key (upper key ts)
          (Holds-append_right l.heap (lower key ts) (upper key ts) (holds_split l ts spells key))
          (AboveAll-upper key ts spells.sorted) (IsSorted-upper key ts spells.sorted)
          (All-upper (λ (t : Tower). 0 < t.height) key ts (All-map_fst ts spells.heights))
        ∙ ap some (sym (find-upper l ts spells key))))
  where
    All-map_fst :
        (us : List Tower)
        → All (λ (t : Tower). (0 < t.height) × (t.height ≤ l.current_level)) us
        → All (λ (t : Tower). 0 < t.height) us
    All-map_fst [] h = tt
    All-map_fst (u ∷ us) h = (h.0.0, All-map_fst us h.1)
