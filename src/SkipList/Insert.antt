-- ===== src/SkipList/Insert.antt =====
-- include/SkipList.h: insert_element.
use nova_kv.Prelude.{
  ℕ, zero, suc, ◌+◌, ◌-◌, ◌≡◌, ◌≢◌, ◌<◌, ◌≤◌, refl, sym, ap, ◌∙◌, arith, ◌==◌, ltb, true, false,
  Bytes, List, [], ◌∷◌, ◌++◌, some, length, get_elem?, All, Bool-cases, inl, inr, bytes_eq,
  bytes_lt, bytes_eq→eq, subst, length-replicate, ==_iff,
}
use nova_kv.ValueRecord.{ValueRecord}
use nova_kv.SortedMap.{IsSorted}
use nova_kv.Tables.Reference.{put_row}
use nova_kv.SkipList.{Node, Heap, SkipList, store, set, raise_update, new_update}
use nova_kv.SkipList.Towers.{
  Tower, next_at, reaches, last_at, last_at-none, Holds, length-set, get_elem?-set_self,
  get_elem?-set_other,
}
use nova_kv.SkipList.Spelled.{rows_of, Apart, head_tower, Spells, lower, upper, place}
use nova_kv.SkipList.Link.{NodeAt-cong, NodeAt-store_other, Holds-store_other}

-- The first of the towers from the key on has another key.
abbrev pub NotFirst : Bytes → List Tower → Type 0
NotFirst key [] = Unit
NotFirst key (t ∷ ts) = bytes_eq t.key key ≡ false

-- A new tower in its place is a row that is put.
pub rows_of-new :
    (new : Tower) (ts : List Tower)
    → NotFirst new.key (upper new.key ts)
    → rows_of (lower new.key ts ++ new ∷ upper new.key ts) ≡ put_row new.key new.value (rows_of ts)
unfolding rows_of put_row lower upper
rows_of-new new [] h = refl
rows_of-new new (t ∷ ts) h = elim (Bool-cases (bytes_lt t.key new.key)) [
  | inl less ↦ rw less (rw (rows_of-new new ts (rw less at h)) refl)
  | inr more ↦ rw more (rw (rw more at h) refl)
]

-- A tower with the key gets its new value.
abbrev pub with_value : ValueRecord → Tower → Tower
with_value v t = record { addr = t.addr; key = t.key; value = v; height = t.height }

pub rows_of-old :
    (key : Bytes) (v : ValueRecord) (ts : List Tower) (t : Tower) (us : List Tower)
    → upper key ts ≡ t ∷ us
    → bytes_eq t.key key ≡ true
    → rows_of (lower key ts ++ with_value v t ∷ us) ≡ put_row key v (rows_of ts)
unfolding rows_of put_row lower upper
rows_of-old key v [] t us e same = cc
rows_of-old key v (x ∷ ts) t us e same = elim (Bool-cases (bytes_lt x.key key)) [
  | inl less ↦ rw less (rw (rows_of-old key v ts t us (rw less at e) same) refl)
  | inr more ↦
      let e' : x ∷ ts ≡ t ∷ us = rw more at e in
      let x_t : x ≡ t = cc in
      let rest : ts ≡ us = cc in
      rw more
        (rw x_t (rw rest (rw same (ap (λ k. (k, v) ∷ rows_of us) (bytes_eq→eq t.key key same)))))
]

next_at-with_value :
    (i : ℕ) (v : ValueRecord) (xs : List Tower) (t : Tower) (us : List Tower)
    → next_at i (xs ++ t ∷ us) ≡ next_at i (xs ++ with_value v t ∷ us)
unfolding next_at
next_at-with_value i v [] t us = refl
next_at-with_value i v (x ∷ xs) t us = rw (next_at-with_value i v xs t us) refl

All-replace :
    (P : Tower → Type 0) (xs : List Tower) (t u : Tower) (us : List Tower)
    → (P t → P u)
    → All P (xs ++ t ∷ us)
    → All P (xs ++ u ∷ us)
All-replace P [] t u us f h = (f h.0, h.1)
All-replace P (x ∷ xs) t u us f h = (h.0, All-replace P xs t u us f h.1)

Apart-replace :
    (xs : List Tower) (t u : Tower) (us : List Tower)
    → t.addr ≡ u.addr
    → Apart (xs ++ t ∷ us)
    → Apart (xs ++ u ∷ us)
unfolding Apart
Apart-replace [] t u us e h = (subst (λ (a : ℕ). All (λ (w : Tower). w.addr ≢ a) us) e h.0, h.1)
Apart-replace (x ∷ xs) t u us e h = (
  All-replace (λ (w : Tower). w.addr ≢ x.addr) xs t u us (λ ne same. ne (e ∙ same)) h.0,
  Apart-replace xs t u us e h.1,
)

Holds-set_value :
    (h : Heap) (v : ValueRecord) (n : Node) (xs : List Tower) (t : Tower) (us : List Tower)
    → Holds h (xs ++ t ∷ us)
    → Apart (xs ++ t ∷ us)
    → h t.addr ≡ some n
    → Holds (store h t.addr (record n { value = v })) (xs ++ with_value v t ∷ us)
unfolding Holds Apart
Holds-set_value h v n [] t us holds apart e =
    let old = holds.0 in
    let same : n ≡ old.node = cc (e, old.found) in
    (
      record {
        node = record n { value = v };
        found = unfold store in ground arith;
        key = rw same old.key;
        value = refl;
        next = λ l less. rw same (old.next l less);
      },
      Holds-store_other h t.addr (record n { value = v }) us apart.0 holds.1,
    )
Holds-set_value h v n (x ∷ xs) t us holds apart e = (
  NodeAt-cong (store h t.addr (record n { value = v })) x.addr x.key x.value x.height
      (λ l. next_at l (xs ++ t ∷ us)) (λ l. next_at l (xs ++ with_value v t ∷ us))
      (λ l less. next_at-with_value l v xs t us)
      (NodeAt-store_other h t.addr (record n { value = v }) x.addr x.key x.value x.height
        (λ l. next_at l (xs ++ t ∷ us)) (λ q. All-at xs t us apart.0 (sym q)) holds.0),
  Holds-set_value h v n xs t us holds.1 apart.1 e,
)
  where
    All-at :
        (ws : List Tower) (t : Tower) (us : List Tower)
        → All (λ (w : Tower). w.addr ≢ x.addr) (ws ++ t ∷ us)
        → t.addr ≢ x.addr
    All-at [] t us h = h.0
    All-at (w ∷ ws) t us h = All-at ws t us h.1

length-replace :
    (xs : List Tower) (t u : Tower) (us : List Tower)
    → length (xs ++ t ∷ us) ≡ length (xs ++ u ∷ us)
length-replace [] t u us = refl
length-replace (x ∷ xs) t u us = ap suc (length-replace xs t u us)

-- A key that is there gets a new value.
pub Spells-old :
    (l : SkipList) (v : ValueRecord) (n : Node) (xs : List Tower) (t : Tower) (us : List Tower)
    → Spells l (xs ++ t ∷ us)
    → l.heap t.addr ≡ some n
    → IsSorted (rows_of (xs ++ with_value v t ∷ us))
    → Spells
        (record l { heap = store l.heap t.addr (record n { value = v }) })
        (xs ++ with_value v t ∷ us)
unfolding head_tower
Spells-old l v n xs t us s e sorted = record {
  nodes = Holds-set_value l.heap v n (head_tower l ∷ xs) t us s.nodes s.apart e;
  sorted = sorted;
  heights =
      All-replace (λ (w : Tower). (0 < w.height) × (w.height ≤ l.current_level)) xs t
        (with_value v t) us (λ h. h) s.heights;
  levels = s.levels;
  some_level = s.some_level;
  addrs =
      All-replace (λ (w : Tower). w.addr < l.fresh) (head_tower l ∷ xs) t (with_value v t) us
        (λ h. h) s.addrs;
  apart = Apart-replace (head_tower l ∷ xs) t (with_value v t) us refl s.apart;
  count = s.count ∙ length-replace xs t (with_value v t) us;
  fresh = s.fresh ∙ ap suc (length-replace xs t (with_value v t) us);
}

-- The update vector above the current level.
length-raise_update :
    (head i n : ℕ) (update : List ℕ) → length (raise_update head i n update) ≡ length update
unfolding raise_update
length-raise_update head i zero update = refl
length-raise_update head i (suc n) update =
    length-raise_update head (suc i) n (set update i head) ∙ length-set update i head

raise_update_below :
    (head i n j : ℕ) (update : List ℕ)
    → j < i
    → get_elem? (raise_update head i n update) j ≡ get_elem? update j
unfolding raise_update
raise_update_below head i zero j update less = refl
raise_update_below head i (suc n) j update less =
    raise_update_below head (suc i) n j (set update i head) (omega arith)
    ∙ get_elem?-set_other update i j head (λ e. omega arith)

raise_update_within :
    (head i n j : ℕ) (update : List ℕ)
    → i ≤ j
    → j < i + n
    → i + n ≤ length update
    → get_elem? (raise_update head i n update) j ≡ some head
unfolding raise_update
raise_update_within head i zero j update low high fits = absurd (omega arith)
raise_update_within head i (suc n) j update low high fits = elim (Bool-cases (i == j)) [
  | inl here ↦ rw (sym ((==_iff i j).0 here)) (
      raise_update_below head (suc i) n i (set update i head) (omega arith)
      ∙ get_elem?-set_self update i head (omega arith))
  | inr there ↦
      raise_update_within head (suc i) n j (set update i head) (ground arith) (omega arith)
        (omega (arith, length-set update i head))
]

not_reached :
    (level i : ℕ) (ts : List Tower)
    → All (λ (t : Tower). (0 < t.height) × (t.height ≤ level)) ts
    → level ≤ i
    → reaches i ts ≡ false
unfolding reaches
not_reached level i [] h high = refl
not_reached level i (t ∷ ts) h high =
    let short : ltb i t.height ≡ false = ground (arith, h.0) in
    rw short (not_reached level i ts h.1 high)

All-lower : (P : Tower → Type 0) (key : Bytes) (ts : List Tower) → All P ts → All P (lower key ts)
unfolding lower
All-lower P key [] h = tt
All-lower P key (t ∷ ts) h = elim (Bool-cases (bytes_lt t.key key)) [
  | inl less ↦ rw less (h.0, All-lower P key ts h.1)
  | inr more ↦ rw more tt
]

module _ (l : SkipList) (ts : List Tower) (spells : Spells l ts) (key : Bytes) where
  -- The update vector of insert_element, with the last tower of each level.
  pub new_update-last_at :
      (level i : ℕ)
      → i < level
      → level ≤ l.max_level
      → get_elem? (new_update l level (place l ts spells key).updated) i
        ≡ some (last_at i l.head (lower key ts))
  unfolding new_update
  new_update-last_at level i less fits =
      let p = place l ts spells key in
      let long = p.same_length ∙ length-replicate l.max_level l.head in
      elim (Bool-cases (ltb l.current_level level)) [
        | inr low ↦ rw low (p.places i (ground arith))
        | inl high ↦ rw high (elim (Bool-cases (ltb i l.current_level)) [
          | inl below ↦
              raise_update_below l.head l.current_level (level - l.current_level) i p.updated
                (ground arith)
              ∙ p.places i (ground arith)
          | inr above ↦
              raise_update_within l.head l.current_level (level - l.current_level) i p.updated
                (ground arith) (ground arith) (ground (arith, long))
              ∙ ap some (
                  sym (
                    last_at-none i l.head (lower key ts) (
                      not_reached l.current_level i (lower key ts)
                        (All-lower (λ (t : Tower). (0 < t.height) × (t.height ≤ l.current_level))
                          key ts spells.heights)
                        (ground arith))))
        ])
      ]
