-- ===== src/SkipList/Link.antt =====
-- include/SkipList.h: the loop of insert_element that links a new node into its levels.
use nova_kv.Prelude.{
  ℕ, zero, suc, ◌+◌, ◌≡◌, ◌≢◌, ◌⊎◌, ◌<◌, ◌≤◌, refl, sym, ap, ◌∙◌, arith, ◌==◌, ltb, if◌then◌else◌,
  true, false, Bytes, List, [], ◌∷◌, ◌++◌, none, some, length, get_elem?, All, Bool-cases, inl, inr,
  ==_iff, ltb→lt, subst,
}
use nova_kv.ValueRecord.{ValueRecord}
use nova_kv.SkipList.{Pointer, Node, Heap, store, set, load_next, store_next, link}
use nova_kv.SkipList.Towers.{
  Tower, next_at, reaches, last_at, last_at-none, NodeAt, Holds, load_next-NodeAt,
  next_at-append_right, next_at-append_left, get_elem?-set_self, get_elem?-set_other,
}
use nova_kv.SkipList.Spelled.{Apart}

pub NodeAt-cong :
    (h : Heap) (a : ℕ) (k : Bytes) (v : ValueRecord) (height : ℕ) (f g : ℕ → Pointer)
    → ((l : ℕ) → l < height → f l ≡ g l)
    → NodeAt h a k v height f
    → NodeAt h a k v height g
NodeAt-cong h a k v height f g same n = record {
  node = n.node;
  found = n.found;
  key = n.key;
  value = n.value;
  next = λ l less. n.next l less ∙ ap some (same l less);
}

-- A write to another address.
pub NodeAt-store_other :
    (h : Heap) (b : ℕ) (m : Node) (a : ℕ) (k : Bytes) (v : ValueRecord) (height : ℕ)
    (f : ℕ → Pointer)
    → a ≢ b
    → NodeAt h a k v height f
    → NodeAt (store h b m) a k v height f
unfolding store
NodeAt-store_other h b m a k v height f other n =
    let miss : (a == b) ≡ false = ground arith in
    record { node = n.node; found = rw miss n.found; key = n.key; value = n.value; next = n.next }

pub Holds-store_other :
    (h : Heap) (b : ℕ) (m : Node) (ts : List Tower)
    → All (λ (t : Tower). t.addr ≢ b) ts
    → Holds h ts
    → Holds (store h b m) ts
unfolding Holds
Holds-store_other h b m [] other holds = tt
Holds-store_other h b m (t ∷ ts) other holds = (
  NodeAt-store_other h b m t.addr t.key t.value t.height (λ l. next_at l ts) other.0 holds.0,
  Holds-store_other h b m ts other.1 holds.1,
)

-- store_next on a node, and the node then.
pub store_next-NodeAt :
    (h : Heap) (a : ℕ) (k : Bytes) (v : ValueRecord) (height : ℕ) (f g : ℕ → Pointer) (i : ℕ)
    → NodeAt h a k v height f
    → i < height
    → ((l : ℕ) → l < height → l ≢ i → f l ≡ g l)
    → (m : Node) × (store_next h a i (g i) ≡ some (store h a m))
      × NodeAt (store h a m) a k v height g
unfolding store_next
store_next-NodeAt h a k v height f g i n less same =
    let m = record (n.node) { next = set n.node.next i (g i) } in
    (
      m,
      rw n.found (rw (n.next i less) refl),
      record {
        node = m;
        found = unfold store in ground arith;
        key = n.key;
        value = n.value;
        next = λ l small. at_level l small (Bool-cases (i == l));
      },
    )
  where
    long : (xs : List Pointer) (j : ℕ) (p : Pointer) → get_elem? xs j ≡ some p → j < length xs
    long [] j p e = cc
    long (x ∷ xs) zero p e = omega arith
    long (x ∷ xs) (suc j) p e = omega (arith, long xs j p e)

    at_level :
        (l : ℕ)
        → l < height
        → ((i == l) ≡ true) ⊎ ((i == l) ≡ false)
        → get_elem? (set n.node.next i (g i)) l ≡ some (g l)
    at_level l small (inl here) =
        subst (λ (j : ℕ). get_elem? (set n.node.next i (g i)) j ≡ some (g j)) ((==_iff i l).0 here)
          (get_elem?-set_self n.node.next i (g i) (long n.node.next i (f i) (n.next i less)))
    at_level l small (inr there) =
        get_elem?-set_other n.node.next i l (g i) (λ e. ground arith)
        ∙ n.next l small
        ∙ ap some (same l small (λ e. ground arith))

pub All-middle {κ} :
    (P : Tower → Type κ) (xs : List Tower) (t : Tower) (ys : List Tower)
    → All P (xs ++ t ∷ ys)
    → P t
All-middle P [] t ys h = h.0
All-middle P (x ∷ xs) t ys h = All-middle P xs t ys h.1

pub All-right {κ} : (P : Tower → Type κ) (xs ys : List Tower) → All P (xs ++ ys) → All P ys
All-right P [] ys h = h
All-right P (x ∷ xs) ys h = All-right P xs ys h.1

pub All-left {κ} : (P : Tower → Type κ) (xs ys : List Tower) → All P (xs ++ ys) → All P xs
All-left P [] ys h = tt
All-left P (x ∷ xs) ys h = (h.0, All-left P xs ys h.1)

Apart-left : (xs ys : List Tower) → Apart (xs ++ ys) → Apart xs
unfolding Apart
Apart-left [] ys h = tt
Apart-left (x ∷ xs) ys h =
    (All-left (λ (u : Tower). u.addr ≢ x.addr) xs ys h.0, Apart-left xs ys h.1)

Apart-behind :
    (xs : List Tower) (t : Tower) (ys zs : List Tower)
    → Apart ((xs ++ t ∷ ys) ++ zs)
    → All (λ (u : Tower). u.addr ≢ t.addr) zs
unfolding Apart
Apart-behind [] t ys zs h = All-right (λ (u : Tower). u.addr ≢ t.addr) ys zs h.0
Apart-behind (x ∷ xs) t ys zs h = Apart-behind xs t ys zs h.1

pub reaches-middle :
    (i : ℕ) (xs : List Tower) (t : Tower) (ys : List Tower)
    → i < t.height
    → reaches i (xs ++ t ∷ ys) ≡ true
unfolding reaches
reaches-middle i [] t ys tall = ground arith
reaches-middle i (x ∷ xs) t ys tall = ground (arith, reaches-middle i xs t ys tall)

-- Where the last tower that reaches a level stands.
record LastSplit (i : ℕ) (us : List Tower) (p : ℕ) : Type 0 where
  left : List Tower
  tower : Tower
  right : List Tower
  split : us ≡ left ++ tower ∷ right
  place : tower.addr ≡ p
  tall : i < tower.height
  low : reaches i right ≡ false

split_right : (i c : ℕ) (us : List Tower) → reaches i us ≡ true → LastSplit i us (last_at i c us)
unfolding last_at reaches
split_right i c [] r = cc
split_right i c (u ∷ us) r = elim (Bool-cases (reaches i us)) [
  | inl more ↦
      let s = split_right i (if ltb i u.height then u.addr else c) us more in
      record {
        left = u ∷ s.left;
        tower = s.tower;
        right = s.right;
        split = ap (λ (xs : List Tower). u ∷ xs) s.split;
        place = s.place;
        tall = s.tall;
        low = s.low;
      }
  | inr last ↦
      let tall : ltb i u.height ≡ true = ground arith in
      record {
        left = [];
        tower = u;
        right = us;
        split = refl;
        place = rw tall (sym (last_at-none i u.addr us last));
        tall = ltb→lt i u.height tall;
        low = last;
      }
]

last_at-LastSplit :
    (i : ℕ) (c : Tower) (us : List Tower)
    → i < c.height
    → LastSplit i (c ∷ us) (last_at i c.addr us)
last_at-LastSplit i c us tall = elim (Bool-cases (reaches i us)) [
  | inl more ↦
      let s = split_right i c.addr us more in
      record {
        left = c ∷ s.left;
        tower = s.tower;
        right = s.right;
        split = ap (λ (xs : List Tower). c ∷ xs) s.split;
        place = s.place;
        tall = s.tall;
        low = s.low;
      }
  | inr last ↦ record {
    left = [];
    tower = c;
    right = us;
    split = refl;
    place = sym (last_at-none i c.addr us last);
    tall = tall;
    low = last;
  }
]

-- The list while the new tower is linked below level `i`.
module _ (new : Tower) (post : List Tower) where
  abbrev pub linked : ℕ → List Tower → ℕ → Pointer
  linked i pre l = if ltb l i then next_at l (pre ++ new ∷ post) else next_at l (pre ++ post)

  unfoldable pub Mid : Heap → ℕ → List Tower → Type 0
  Mid h i [] = Unit
  Mid h i (t ∷ pre) = NodeAt h t.addr t.key t.value t.height (linked i pre) × Mid h i pre

  Mid-store_other :
      (h : Heap) (b : ℕ) (m : Node) (i : ℕ) (pre : List Tower)
      → All (λ (t : Tower). t.addr ≢ b) pre
      → Mid h i pre
      → Mid (store h b m) i pre
  unfolding Mid
  Mid-store_other h b m i [] other holds = tt
  Mid-store_other h b m i (t ∷ pre) other holds = (
    NodeAt-store_other h b m t.addr t.key t.value t.height (linked i pre) other.0 holds.0,
    Mid-store_other h b m i pre other.1 holds.1,
  )

  -- Towers that do not reach the level are as they will be.
  Mid-low :
      (h : Heap) (i : ℕ) (pre : List Tower)
      → reaches i pre ≡ false
      → Mid h i pre
      → Mid h (suc i) pre
  unfolding Mid reaches
  Mid-low h i [] low holds = tt
  Mid-low h i (t ∷ pre) low holds =
      let short : ltb i t.height ≡ false = ground arith in
      (
        NodeAt-cong h t.addr t.key t.value t.height (linked i pre) (linked (suc i) pre)
            (λ l less. ground arith) holds.0,
        Mid-low h i pre (ground arith) holds.1,
      )

  -- The step of one level: the last tower that reaches it points at the new one.
  Mid-step :
      (h : Heap) (i : ℕ) (xs : List Tower) (t : Tower) (ys : List Tower) (m : Node)
      → i < t.height
      → reaches i ys ≡ false
      → Apart (xs ++ t ∷ ys)
      → Mid h i (xs ++ t ∷ ys)
      → NodeAt (store h t.addr m) t.addr t.key t.value t.height (linked (suc i) ys)
      → Mid (store h t.addr m) (suc i) (xs ++ t ∷ ys)
  unfolding Mid Apart
  Mid-step h i [] t ys m tall low apart holds n =
      (n, Mid-low (store h t.addr m) i ys low (Mid-store_other h t.addr m i ys apart.0 holds.1))
  Mid-step h i (x ∷ xs) t ys m tall low apart holds n = (
    NodeAt-cong (store h t.addr m) x.addr x.key x.value x.height (linked i (xs ++ t ∷ ys))
        (linked (suc i) (xs ++ t ∷ ys)) (λ l less. same l)
        (NodeAt-store_other h t.addr m x.addr x.key x.value x.height (linked i (xs ++ t ∷ ys))
          (λ e. All-middle (λ (u : Tower). u.addr ≢ x.addr) xs t ys apart.0 (sym e)) holds.0),
    Mid-step h i xs t ys m tall low apart.1 holds.1 n,
  )
    where
      there : reaches i (xs ++ t ∷ ys) ≡ true
      there = reaches-middle i xs t ys tall

      same : (l : ℕ) → linked i (xs ++ t ∷ ys) l ≡ linked (suc i) (xs ++ t ∷ ys) l
      same l = elim (Bool-cases (l == i)) [
        | inl here ↦
            let below : ltb l i ≡ false = ground arith in
            let above : ltb l (suc i) ≡ true = ground arith in
            rw (below, above)
              (rw ((==_iff l i).0 here) (
                rw
                  (
                    next_at-append_left i (xs ++ t ∷ ys) post there,
                    next_at-append_left i (xs ++ t ∷ ys) (new ∷ post) there,
                  )
                  refl))
        | inr away ↦ ground arith
      ]

  -- The new node points on from the levels below `i`.
  abbrev pub half : ℕ → ℕ → Pointer
  half i l = if ltb l i then next_at l post else none

  pub record Linking (h : Heap) (i : ℕ) (us : List Tower) : Type 0 where
    pub mid : Mid h i us
    pub node : NodeAt h new.addr new.key new.value new.height (half i)
    pub behind : Holds h post

  Mid-middle :
      (h : Heap) (i : ℕ) (xs : List Tower) (t : Tower) (ys : List Tower)
      → Mid h i (xs ++ t ∷ ys)
      → NodeAt h t.addr t.key t.value t.height (linked i ys)
  unfolding Mid
  Mid-middle h i [] t ys holds = holds.0
  Mid-middle h i (x ∷ xs) t ys holds = Mid-middle h i xs t ys holds.1

  not_below : (i : ℕ) → ltb i i ≡ false
  not_below i = ground arith

  below_suc : (i : ℕ) → ltb i (suc i) ≡ true
  below_suc i = ground arith

  -- One round of the loop.
  link_round :
      (h : Heap) (i n : ℕ) (update : List ℕ) (xs : List Tower) (t : Tower) (ys : List Tower)
      → Linking h i (xs ++ t ∷ ys)
      → i < t.height
      → reaches i ys ≡ false
      → i < new.height
      → Apart ((xs ++ t ∷ ys) ++ post)
      → All (λ (u : Tower). u.addr ≢ new.addr) ((xs ++ t ∷ ys) ++ post)
      → get_elem? update i ≡ some t.addr
      → (h2 : Heap) × (link h new.addr update i (suc n) ≡ link h2 new.addr update (suc i) n)
        × Linking h2 (suc i) (xs ++ t ∷ ys)
  unfolding link
  link_round h i n update xs t ys state tall low small apart fresh e =
      let tower = Mid-middle h i xs t ys state.mid in
      let (m1, stores1, node1) =
        store_next-NodeAt h new.addr new.key new.value new.height (half i) (half (suc i)) i
          state.node small (λ l less ne. ground arith) in
      let h1 = store h new.addr m1 in
      let mid1 =
        Mid-store_other h new.addr m1 i (xs ++ t ∷ ys)
          (All-left (λ (u : Tower). u.addr ≢ new.addr) (xs ++ t ∷ ys) post fresh) state.mid in
      let tower1 = Mid-middle h1 i xs t ys mid1 in
      let (m2, stores2, node2) =
        store_next-NodeAt h1 t.addr t.key t.value t.height (linked i ys) (linked (suc i) ys) i
          tower1 tall (λ l less ne. ground arith) in
      let reads : load_next h t.addr i ≡ some (next_at i post) =
        load_next-NodeAt h t.addr t.key t.value t.height (linked i ys) i tower tall
        ∙ rw (not_below i) (ap some (next_at-append_right i ys post low)) in
      let first : store_next h new.addr i (next_at i post) ≡ some h1 =
        rw (below_suc i) at stores1 in
      let second : store_next h1 t.addr i (some new.addr) ≡ some (store h1 t.addr m2) =
        rw (below_suc i, next_at-append_right i ys (new ∷ post) low, new_first i small) at
          stores2 in
      (
        store h1 t.addr m2,
        rw e (rw reads (rw first (rw second refl))),
        record {
          mid = Mid-step h1 i xs t ys m2 tall low (Apart-left (xs ++ t ∷ ys) post apart) mid1 node2;
          node =
              NodeAt-store_other h1 t.addr m2 new.addr new.key new.value new.height (half (suc i))
                (λ q.
                  All-middle (λ (u : Tower). u.addr ≢ new.addr) xs t ys
                    (All-left (λ (u : Tower). u.addr ≢ new.addr) (xs ++ t ∷ ys) post fresh) (sym q))
                node1;
          behind = Holds-store_other h1 t.addr m2 post (Apart-behind xs t ys post apart) (
              Holds-store_other h new.addr m1 post
                (All-right (λ (u : Tower). u.addr ≢ new.addr) (xs ++ t ∷ ys) post fresh)
                state.behind);
        },
      )
    where
      new_first : (i : ℕ) → i < new.height → next_at i (new ∷ post) ≡ some new.addr
      new_first i small =
          let reaches_new : ltb i new.height ≡ true = ground arith in
          unfold next_at in rw reaches_new refl

  module _ (c : Tower) (us : List Tower) (apart : Apart ((c ∷ us) ++ post))
      (fresh : All (λ (t : Tower). t.addr ≢ new.addr) ((c ∷ us) ++ post)) where
    -- The loop, on an update vector that has the last tower of each level.
    pub link-Linking :
        (n i : ℕ) (h : Heap) (update : List ℕ)
        → Linking h i (c ∷ us)
        → i + n ≤ c.height
        → i + n ≡ new.height
        → ((l : ℕ) → l < new.height → get_elem? update l ≡ some (last_at l c.addr us))
        → (h2 : Heap) × (link h new.addr update i n ≡ some h2) × Linking h2 new.height (c ∷ us)
    unfolding link
    link-Linking zero i h update state tall e places =
        let done : i ≡ new.height = omega arith in
        (h, refl, subst (λ (j : ℕ). Linking h j (c ∷ us)) done state)
    link-Linking (suc n) i h update state tall e places =
        let s = last_at-LastSplit i c us (omega arith) in
        let (h1, steps, state1) =
          link_round h i n update s.left s.tower s.right
            (subst (λ (vs : List Tower). Linking h i vs) s.split state) s.tall s.low (omega arith)
            (subst (λ (vs : List Tower). Apart (vs ++ post)) s.split apart)
            (subst (λ (vs : List Tower). All (λ (t : Tower). t.addr ≢ new.addr) (vs ++ post))
              s.split fresh)
            (places i (omega arith) ∙ ap some (sym s.place)) in
        let (h2, ends, last) =
          link-Linking n (suc i) h1 update
            (subst (λ (vs : List Tower). Linking h1 (suc i) vs) (sym s.split) state1) (omega arith)
            (omega arith) places in
        (h2, steps ∙ ends, last)

  -- Below level 0 nothing is linked yet.
  pub Mid-start :
      (h : Heap) (m : Node) (pre : List Tower)
      → All (λ (t : Tower). t.addr ≢ new.addr) pre
      → Holds h (pre ++ post)
      → Mid (store h new.addr m) 0 pre
  unfolding Mid Holds
  Mid-start h m [] other holds = tt
  Mid-start h m (t ∷ pre) other holds = (
    NodeAt-cong (store h new.addr m) t.addr t.key t.value t.height (λ l. next_at l (pre ++ post))
        (linked 0 pre) (λ l less. ground arith)
        (NodeAt-store_other h new.addr m t.addr t.key t.value t.height
          (λ l. next_at l (pre ++ post)) other.0 holds.0),
    Mid-start h m pre other.1 holds.1,
  )

  next_at_skip :
      (l : ℕ) (pre : List Tower)
      → new.height ≤ l
      → next_at l (pre ++ post) ≡ next_at l (pre ++ new ∷ post)
  unfolding next_at
  next_at_skip l [] high = let short : ltb l new.height ≡ false = ground arith in rw short refl
  next_at_skip l (t ∷ pre) high = rw (next_at_skip l pre high) refl

  -- When all levels of the new tower are linked, the nodes are the towers with it among them.
  pub Holds-linked :
      (h : Heap) (pre : List Tower)
      → Mid h new.height pre
      → NodeAt h new.addr new.key new.value new.height (half new.height)
      → Holds h post
      → Holds h (pre ++ new ∷ post)
  unfolding Mid Holds
  Holds-linked h [] mid node holds = (
    NodeAt-cong h new.addr new.key new.value new.height (half new.height) (λ l. next_at l post)
        (λ l less. ground arith) node,
    holds,
  )
  Holds-linked h (t ∷ pre) mid node holds = (
    NodeAt-cong h t.addr t.key t.value t.height (linked new.height pre)
        (λ l. next_at l (pre ++ new ∷ post)) (λ l less. all_linked l pre) mid.0,
    Holds-linked h pre mid.1 node holds,
  )
    where
      all_linked :
          (l : ℕ) (pre : List Tower) → linked new.height pre l ≡ next_at l (pre ++ new ∷ post)
      all_linked l pre = elim (Bool-cases (ltb l new.height)) [
        | inl below ↦ rw below refl
        | inr above ↦ rw above (next_at_skip l pre (ground arith))
      ]
