-- ===== src/SkipList/Towers.antt =====
-- include/SkipList.h: what the nodes of a skip list spell: towers in the order of their keys, each
-- pointing at the next tower that reaches its level.
use nova_kv.Prelude.{
  ℕ, zero, suc, ◌≡◌, ◌≢◌, ◌<◌, ◌≤◌, refl, ap, ◌∙◌, arith, ltb, if◌then◌else◌, Bool, true, false,
  Bytes, List, [], ◌∷◌, ◌++◌, none, some, length, get_elem?, Bool-cases, inl, inr, bytes_lt,
}
use nova_kv.ValueRecord.{ValueRecord}
use nova_kv.SkipList.{Pointer, Node, Heap, set, load_next}

pub record Tower : Type 0 where
  pub addr : ℕ
  pub key : Bytes
  pub value : ValueRecord
  pub height : ℕ

-- The next tower that reaches a level.
unfoldable pub next_at : ℕ → List Tower → Pointer
next_at i [] = none
next_at i (t ∷ ts) = if ltb i t.height then some t.addr else next_at i ts

-- Some tower reaches the level.
unfoldable pub reaches : ℕ → List Tower → Bool
reaches i [] = false
reaches i (t ∷ ts) = if ltb i t.height then true else reaches i ts

-- The last tower that reaches the level, or `c`.
unfoldable pub last_at : ℕ → ℕ → List Tower → ℕ
last_at i c [] = c
last_at i c (t ∷ ts) = last_at i (if ltb i t.height then t.addr else c) ts

-- What stands behind the last tower that reaches the level.
unfoldable pub behind : ℕ → List Tower → List Tower
behind i [] = []
behind i (t ∷ ts) =
    let more = behind i ts in if reaches i ts then more else if ltb i t.height then ts else t ∷ ts

-- The node at an address, with the pointers of its tower given by their level.
pub record NodeAt (h : Heap) (a : ℕ) (k : Bytes) (v : ValueRecord) (height : ℕ)
    (points : ℕ → Pointer) : Type 0 where
  pub node : Node
  pub found : h a ≡ some node
  pub key : node.key ≡ k
  pub value : node.value ≡ v
  pub next : (l : ℕ) → l < height → get_elem? node.next l ≡ some (points l)

-- The nodes of towers.
unfoldable pub Holds : Heap → List Tower → Type 0
Holds h [] = Unit
Holds h (t ∷ ts) = NodeAt h t.addr t.key t.value t.height (λ l. next_at l ts) × Holds h ts

pub load_next-NodeAt :
    (h : Heap) (a : ℕ) (k : Bytes) (v : ValueRecord) (height : ℕ) (points : ℕ → Pointer) (l : ℕ)
    → NodeAt h a k v height points
    → l < height
    → load_next h a l ≡ some (points l)
unfolding load_next
load_next-NodeAt h a k v height points l n less = rw n.found (n.next l less)

pub next_at-append_left :
    (i : ℕ) (xs ys : List Tower) → reaches i xs ≡ true → next_at i (xs ++ ys) ≡ next_at i xs
unfolding next_at reaches
next_at-append_left i [] ys h = cc
next_at-append_left i (x ∷ xs) ys h = ground (arith, next_at-append_left i xs ys)

pub next_at-append_right :
    (i : ℕ) (xs ys : List Tower) → reaches i xs ≡ false → next_at i (xs ++ ys) ≡ next_at i ys
unfolding next_at reaches
next_at-append_right i [] ys h = refl
next_at-append_right i (x ∷ xs) ys h = ground (arith, next_at-append_right i xs ys)

pub last_at-none : (i c : ℕ) (ts : List Tower) → reaches i ts ≡ false → last_at i c ts ≡ c
unfolding last_at reaches
last_at-none i c [] h = refl
last_at-none i c (t ∷ ts) h = ground (arith, last_at-none i c ts)

pub last_at-any :
    (i c d : ℕ) (ts : List Tower) → reaches i ts ≡ true → last_at i c ts ≡ last_at i d ts
unfolding last_at reaches
last_at-any i c d [] h = cc
last_at-any i c d (t ∷ ts) h = elim (Bool-cases (ltb i t.height)) [
  | inl tall ↦ rw tall refl
  | inr low ↦ rw low (last_at-any i c d ts (rw low at h))
]

pub reaches-behind : (i : ℕ) (ts : List Tower) → reaches i (behind i ts) ≡ false
unfolding behind reaches
reaches-behind i [] = refl
reaches-behind i (t ∷ ts) = ground (arith, reaches-behind i ts)

-- A lower level reaches at least as far.
reaches_lower : (l i : ℕ) (ts : List Tower) → l ≤ i → reaches i ts ≡ true → reaches l ts ≡ true
unfolding reaches
reaches_lower l i [] h r = cc
reaches_lower l i (t ∷ ts) h r = ground (arith, reaches_lower l i ts h)

-- The search of a level goes on where the level above has ended.
pub last_at-last_at :
    (l i c : ℕ) (ts : List Tower)
    → l ≤ i
    → last_at l (last_at i c ts) (behind i ts) ≡ last_at l c ts
unfolding last_at behind
last_at-last_at l i c [] h = refl
last_at-last_at l i c (t ∷ ts) h = elim (Bool-cases (reaches i ts)) [
  | inl more ↦ rw more (
      ap (λ x. last_at l x (behind i ts))
        (last_at-any i (if ltb i t.height then t.addr else c) (if ltb l t.height then t.addr else c)
          ts more)
      ∙ last_at-last_at l i (if ltb l t.height then t.addr else c) ts h)
  | inr last ↦
      rw (last, last_at-none i (if ltb i t.height then t.addr else c) ts last)
        (elim (Bool-cases (ltb i t.height)) [
          | inl tall ↦ let lower : ltb l t.height ≡ true = ground arith in rw (tall, lower) refl
          | inr low ↦ rw low refl
        ])
]

-- Every tower in front of a place has a key below.
unfoldable pub BelowAll : Bytes → List Tower → Type 0
BelowAll key [] = Unit
BelowAll key (t ∷ ts) = (bytes_lt t.key key ≡ true) × BelowAll key ts

-- No tower from a place on has a key below.
unfoldable pub AboveAll : Bytes → List Tower → Type 0
AboveAll key [] = Unit
AboveAll key (t ∷ ts) = (bytes_lt t.key key ≡ false) × AboveAll key ts

pub length-set {ℓ} : {A : Type ℓ} (xs : List A) (i : ℕ) (v : A) → length (set xs i v) ≡ length xs
unfolding set
length-set [] i v = refl
length-set (x ∷ xs) zero v = refl
length-set (x ∷ xs) (suc i) v = ap suc (length-set xs i v)

pub get_elem?-set_self {ℓ} :
    {A : Type ℓ} (xs : List A) (i : ℕ) (v : A) → i < length xs → get_elem? (set xs i v) i ≡ some v
unfolding set
get_elem?-set_self [] i v h = absurd (omega arith)
get_elem?-set_self (x ∷ xs) zero v h = refl
get_elem?-set_self (x ∷ xs) (suc i) v h = get_elem?-set_self xs i v (omega arith)

pub get_elem?-set_other {ℓ} :
    {A : Type ℓ} (xs : List A) (i l : ℕ) (v : A) → i ≢ l → get_elem? (set xs i v) l ≡ get_elem? xs l
unfolding set
get_elem?-set_other [] i l v h = refl
get_elem?-set_other (x ∷ xs) zero zero v h = absurd (h refl)
get_elem?-set_other (x ∷ xs) zero (suc l) v h = refl
get_elem?-set_other (x ∷ xs) (suc i) zero v h = refl
get_elem?-set_other (x ∷ xs) (suc i) (suc l) v h = get_elem?-set_other xs i l v (λ e. h (ap suc e))

pub behind-none : (i : ℕ) (ts : List Tower) → reaches i ts ≡ false → behind i ts ≡ ts
unfolding behind reaches
behind-none i [] h = refl
behind-none i (t ∷ ts) h = ground arith

pub Holds-behind :
    (h : Heap) (i : ℕ) (pre post : List Tower)
    → Holds h (pre ++ post)
    → Holds h (behind i pre ++ post)
unfolding Holds behind
Holds-behind h i [] post holds = holds
Holds-behind h i (t ∷ pre) post holds = elim (Bool-cases (reaches i pre)) [
  | inl more ↦ rw more (Holds-behind h i pre post holds.1)
  | inr last ↦
      rw last
        (elim (Bool-cases (ltb i t.height)) [ inl tall ↦ rw tall holds.1 | inr low ↦ rw low holds ])
]

pub BelowAll-behind :
    (key : Bytes) (i : ℕ) (pre : List Tower) → BelowAll key pre → BelowAll key (behind i pre)
unfolding BelowAll behind
BelowAll-behind key i [] below = tt
BelowAll-behind key i (t ∷ pre) below = elim (Bool-cases (reaches i pre)) [
  | inl more ↦ rw more (BelowAll-behind key i pre below.1)
  | inr last ↦
      rw last
        (elim (Bool-cases (ltb i t.height)) [ inl tall ↦ rw tall below.1 | inr low ↦ rw low below ])
]

pub length-behind : (i : ℕ) (pre : List Tower) → length (behind i pre) ≤ length pre
unfolding behind
length-behind i [] = omega arith
length-behind i (t ∷ pre) = ground (arith, length-behind i pre)

-- The pointers of the last tower that reaches a level.
load_next-last_at :
    (h : Heap) (i l c : ℕ) (pre post : List Tower)
    → Holds h (pre ++ post)
    → l ≤ i
    → reaches i pre ≡ true
    → load_next h (last_at i c pre) l ≡ some (next_at l (behind i pre ++ post))
unfolding Holds behind last_at reaches
load_next-last_at h i l c [] post holds le r = cc
load_next-last_at h i l c (t ∷ pre) post holds le r = elim (Bool-cases (reaches i pre)) [
  | inl more ↦
      rw more
        (load_next-last_at h i l (if ltb i t.height then t.addr else c) pre post holds.1 le more)
  | inr last ↦
      let tall : ltb i t.height ≡ true = ground arith in
      rw (last, tall, last_at-none i t.addr pre last)
        (load_next-NodeAt h t.addr t.key t.value t.height (λ l. next_at l (pre ++ post)) l holds.0
          (ground arith))
]

-- Where the loop of a level ends, the pointers of that level and below lead to what stands behind.
pub load_next-place :
    (h : Heap) (i l c : ℕ) (pre post : List Tower)
    → Holds h (pre ++ post)
    → l ≤ i
    → load_next h c l ≡ some (next_at l (pre ++ post))
    → load_next h (last_at i c pre) l ≡ some (next_at l (behind i pre ++ post))
load_next-place h i l c pre post holds le e = elim (Bool-cases (reaches i pre)) [
  | inl more ↦ load_next-last_at h i l c pre post holds le more
  | inr last ↦ rw (last_at-none i c pre last, behind-none i pre last) e
]
