-- ===== src/Tables/Reference.antt =====
-- The plainest tables with the two interfaces: rows in order.
use nova_kv.Prelude.{
  ℕ, suc, ◌≡◌, refl, sym, ◌∙◌, ap, subst, Bool, true, false, Bytes, [], ◌∷◌, none, some,
  if◌then◌else◌, Bool-cases, inl, inr, bytes_eq, bytes_lt, bytes_eq→eq, arith, bytes_lt_total,
  bytes_lt_ne,
}
use nova_kv.ValueRecord.{ValueRecord}
use nova_kv.SortedMap.{Below-trans, Rows, find, IsSorted, Below}
use nova_kv.Tables.{MemOps, TableOps}

-- m[k] = r, on rows in order.
unfoldable pub put_row : Bytes → ValueRecord → Rows → Rows
put_row k r [] = (k, r) ∷ []
put_row k r ((i, w) ∷ m) =
    let rest = put_row k r m in
    if bytes_lt i k then (i, w) ∷ rest else if bytes_eq i k then (k, r) ∷ m else (k, r) ∷ (i, w) ∷ m

Below-put_row :
    (i k : Bytes) (r : ValueRecord) (m : Rows)
    → bytes_lt i k ≡ true
    → Below i m
    → Below i (put_row k r m)
unfolding put_row
Below-put_row i k r [] h b = (h, tt)
Below-put_row i k r ((j, w) ∷ m) h b = ground (arith, Below-put_row i k r m h b.1)

pub put_row-IsSorted :
    (k : Bytes) (r : ValueRecord) (m : Rows) → IsSorted m → IsSorted (put_row k r m)
unfolding put_row
put_row-IsSorted k r [] s = (tt, tt)
put_row-IsSorted k r ((i, w) ∷ m) s = elim (Bool-cases (bytes_lt i k)) [
  | inl less ↦ rw less (Below-put_row i k r m less s.0, put_row-IsSorted k r m s.1)
  | inr more ↦ rw more (elim (Bool-cases (bytes_eq i k)) [
    | inl same ↦ rw same (subst (λ x. Below x m) (bytes_eq→eq i k same) s.0, s.1)
    | inr other ↦
        rw other
          (let less = bytes_lt_total i k more other in ((less, Below-trans k i m less s.0), s))
  ])
]

pub find-put_row :
    (j k : Bytes) (r : ValueRecord) (m : Rows)
    → find j (put_row k r m) ≡ (if bytes_eq k j then some r else find j m)
unfolding find put_row
find-put_row j k r [] = refl
find-put_row j k r ((i, w) ∷ m) = elim (Bool-cases (bytes_lt i k)) [
  | inl less ↦ rw less (rw (find-put_row j k r m) (in_front (bytes_lt_ne i k less)))
  | inr more ↦ rw more (elim (Bool-cases (bytes_eq i k)) [
    | inr other ↦ rw other refl
    | inl same ↦ rw same (instead (bytes_eq→eq i k same))
  ])
]
  where
    -- Two different keys are looked for in either order.
    in_front :
        bytes_eq i k ≡ false
        → (if bytes_eq i j then some w else if bytes_eq k j then some r else find j m)
          ≡ (if bytes_eq k j then some r else if bytes_eq i j then some w else find j m)
    in_front other = elim (Bool-cases (bytes_eq k j)) [
      | inr away ↦ rw away refl
      | inl here ↦
          let e = bytes_eq→eq k j here in
          let off : bytes_eq i j ≡ false = ap (bytes_eq i) (sym e) ∙ other in rw (here, off) refl
    ]

    instead :
        i ≡ k
        → (if bytes_eq k j then some r else find j m)
          ≡ (if bytes_eq k j then some r else if bytes_eq i j then some w else find j m)
    instead e = elim (Bool-cases (bytes_eq k j)) [
      | inl here ↦ rw here refl
      | inr away ↦
          let off : bytes_eq i j ≡ false = ap (λ x. bytes_eq x j) e ∙ away in rw (away, off) refl
    ]

pub find-nil : (j : Bytes) → find j [] ≡ none
unfolding find
find-nil j = refl

pub built_reads :
    (b : Bool) (m t : Rows) (j : Bytes)
    → (if b then some m else none) ≡ some t
    → find j t ≡ find j m
built_reads true m t j e = cc
built_reads false m t j e = cc

-- The rows of a memory table with the number of its inserts.
abbrev pub row_mems : MemOps (Rows × ℕ)
row_mems = record {
  new_table = ([], 0);
  insert = λ k r m. (put_row k r m.0, suc m.1);
  search = λ k m. find k m.0;
  count = λ m. m.1;
  rows = λ m. m.0;
  IsMem = λ m. IsSorted m.0;
  IsMem-new_table = tt;
  IsMem-insert = λ k r m s. put_row-IsSorted k r m.0 s;
  search-new_table = λ j. find-nil j;
  search-insert = λ j k r m s. find-put_row j k r m.0;
  find-rows = λ j m s. refl;
  rows-IsSorted = λ m s. s;
}

-- Tables on disk whose numbers `can_build` allows.
abbrev pub row_tables : (ℕ → Bool) → TableOps Rows
row_tables can_build = record {
  build = λ id rows. if can_build id then some rows else none;
  get_record = find;
  rows = λ t. t;
  IsTable = λ t. Unit;
  find-rows = λ j t ok. refl;
  IsTable-build = λ id m t s e. tt;
  get_record-build = λ id m t j s e. built_reads (can_build id) m t j e;
}
