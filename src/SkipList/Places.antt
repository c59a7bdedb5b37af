-- ===== src/SkipList/Places.antt =====
-- include/SkipList.h: where the loops of insert_element and search_element end.
use nova_kv.Prelude.{
  ℕ, zero, suc, ◌≡◌, ◌<◌, ◌≤◌, refl, ap, ◌∙◌, arith, ◌==◌, ltb, true, false, Bytes, List, [], ◌∷◌,
  ◌++◌, some, length, get_elem?, Bool-cases, inl, inr, bytes_lt, ltb→lt, ==_iff,
}
use nova_kv.SkipList.{Heap, set, load_next, walk, descend}
use nova_kv.SkipList.Towers.{
  Tower, next_at, last_at, behind, Holds, load_next-NodeAt, next_at-append_right, reaches-behind,
  last_at-last_at, BelowAll, AboveAll, length-set, get_elem?-set_self, get_elem?-set_other,
  Holds-behind, BelowAll-behind, length-behind, load_next-place,
}

-- At the next tower of what follows, the search of a level stops.
stops :
    (h : Heap) (key : Bytes) (i : ℕ) (c fuel : ℕ) (post : List Tower)
    → Holds h post
    → AboveAll key post
    → load_next h c i ≡ some (next_at i post)
    → walk (suc fuel) h i key c ≡ some c
unfolding Holds AboveAll next_at walk
stops h key i c fuel [] holds above e = rw (e, walk) refl
stops h key i c fuel (t ∷ post) holds above e = elim (Bool-cases (ltb i t.height)) [
  | inl tall ↦
      let n = holds.0 in
      let here : load_next h c i ≡ some (some t.addr) = rw tall at e in
      let far : bytes_lt n.node.key key ≡ false = rw n.key above.0 in
      rw (here, walk) (rw (n.found, walk) (rw (far, walk) refl))
  | inr low ↦ stops h key i c fuel post holds.1 above.1 (rw low at e)
]

level_below :
    (l i c c2 : ℕ) (pre : List Tower) (update updated : List ℕ)
    → ((m : ℕ) → m < i → get_elem? updated m ≡ some (last_at m c2 (behind i pre)))
    → ((m : ℕ) → i ≤ m → get_elem? updated m ≡ get_elem? (set update i c2) m)
    → i < length update
    → c2 ≡ last_at i c pre
    → l < suc i
    → get_elem? updated l ≡ some (last_at l c pre)
level_below l i c c2 pre update updated places others fits e p = elim (Bool-cases (l == i)) [
  | inl same ↦
      rw ((==_iff l i).0 same)
        (others i (omega arith) ∙ get_elem?-set_self update i c2 fits ∙ ap some e)
  | inr other ↦
      places l (ground arith)
      ∙ ap (λ x. some (last_at l x (behind i pre))) e
      ∙ ap some (last_at-last_at l i c pre (omega arith))
]

module _ (h : Heap) (key : Bytes) (post : List Tower) (holds_post : Holds h post)
    (above : AboveAll key post) where
  -- On a level, the loop ends at the last tower below the key that reaches it.
  walk-last_at :
      (i : ℕ) (pre : List Tower) (c fuel : ℕ)
      → Holds h (pre ++ post)
      → BelowAll key pre
      → load_next h c i ≡ some (next_at i (pre ++ post))
      → length pre < fuel
      → walk fuel h i key c ≡ some (last_at i c pre)
  unfolding Holds BelowAll next_at walk last_at
  walk-last_at i pre c zero holds below e less = absurd (omega arith)
  walk-last_at i [] c (suc fuel) holds below e less = stops h key i c fuel post holds above e
  walk-last_at i (t ∷ pre) c (suc fuel) holds below e less = elim (Bool-cases (ltb i t.height)) [
    | inl tall ↦
        let n = holds.0 in
        let here : load_next h c i ≡ some (some t.addr) = rw tall at e in
        let near : bytes_lt n.node.key key ≡ true = rw n.key below.0 in
        rw (here, walk)
          (rw (n.found, walk)
            (rw (near, walk)
              (rw tall (
                walk-last_at i pre t.addr fuel holds.1 below.1
                  (load_next-NodeAt h t.addr t.key t.value t.height (λ l. next_at l (pre ++ post)) i
                    n (ltb→lt i t.height tall))
                  (omega arith)))))
    | inr low ↦ rw low (walk-last_at i pre c (suc fuel) holds.1 below.1 (rw low at e) (omega arith))
  ]

  -- What the descent from level `n` gives, from a node with the towers `pre` behind it that are
  -- below the key.
  pub record Placed (n fuel c : ℕ) (pre : List Tower) (update : List ℕ) : Type 0 where
    pub curr : ℕ
    pub updated : List ℕ
    pub ends : descend fuel h n key c update ≡ some (curr, updated)
    pub stays : n ≡ 0 → curr ≡ c
    pub after : 0 < n → load_next h curr 0 ≡ some (next_at 0 post)
    pub places : (l : ℕ) → l < n → get_elem? updated l ≡ some (last_at l c pre)
    pub others : (l : ℕ) → n ≤ l → get_elem? updated l ≡ get_elem? update l
    pub same_length : length updated ≡ length update

  last_level :
      (i curr c2 : ℕ) (pre : List Tower)
      → (i ≡ 0 → curr ≡ c2)
      → (0 < i → load_next h curr 0 ≡ some (next_at 0 post))
      → (i ≡ 0 → load_next h c2 0 ≡ some (next_at 0 (behind i pre ++ post)))
      → load_next h curr 0 ≡ some (next_at 0 post)
  last_level zero curr c2 pre stays after here =
      rw (stays refl)
        (here refl ∙ ap some (next_at-append_right 0 (behind 0 pre) post (reaches-behind 0 pre)))
  last_level (suc i) curr c2 pre stays after here = after (omega arith)

  pub descend-Placed :
      (n fuel c : ℕ) (pre : List Tower) (update : List ℕ)
      → Holds h (pre ++ post)
      → BelowAll key pre
      → ((l : ℕ) → l < n → load_next h c l ≡ some (next_at l (pre ++ post)))
      → length pre < fuel
      → n ≤ length update
      → Placed n fuel c pre update
  unfolding descend
  descend-Placed zero fuel c pre update holds below loads less fits = record {
    curr = c;
    updated = update;
    ends = refl;
    stays = λ e. refl;
    after = λ p. absurd (omega arith);
    places = λ l p. absurd (omega arith);
    others = λ l p. refl;
    same_length = refl;
  }
  descend-Placed (suc i) fuel c pre update holds below loads less fits =
      let c2 = last_at i c pre in
      let walks = walk-last_at i pre c fuel holds below (loads i (omega arith)) less in
      let r =
        descend-Placed i fuel c2 (behind i pre) (set update i c2) (Holds-behind h i pre post holds)
          (BelowAll-behind key i pre below)
          (λ l p. load_next-place h i l c pre post holds (omega arith) (loads l (omega arith)))
          (omega (arith, length-behind i pre)) (omega (arith, length-set update i c2)) in
      record {
        curr = r.curr;
        updated = r.updated;
        ends = rw (walks, descend) r.ends;
        stays = λ e. absurd (omega arith);
        after = λ p.
            last_level i r.curr c2 pre (λ e. r.stays e) r.after
              (λ e. load_next-place h i 0 c pre post holds (omega arith) (loads 0 (omega arith)));
        places = λ l p.
            level_below l i c c2 pre update r.updated (r.places) (r.others) (omega arith) refl p;
        others =
            λ l p. r.others l (omega arith) ∙ get_elem?-set_other update i l c2 (λ e. omega arith);
        same_length = r.same_length ∙ length-set update i c2;
      }
