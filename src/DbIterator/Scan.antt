-- ===== src/DbIterator/Scan.antt =====
-- A seek, and the loop of RSCAN over the cursor.
use mathlib.Core.Option
use nova_kv.Prelude.{
  ℕ, zero, suc, ◌-◌, ◌≤◌, ◌<◌, ◌≡◌, refl, sym, ap, ◌∙◌, inl, inr, arith, true, false, Bytes, List,
  [], ◌∷◌, Option, none, some, length, drop-all, drop, ltb, get_elem?, if◌then◌else◌, bytes_lt,
  bytes_lt_trans, Bool-cases,
}
use nova_kv.DbIterator.{DbIterator, lower_bound, seek, valid, next, row}
use nova_kv.Db.Iterator.{IsAscending, RowsBelow}

-- while (iter->Valid()) { take the row; iter->Next(); }. `none` means that the fuel ran out.
unfoldable pub scan_loop : ℕ → DbIterator → Option (List (Bytes × Bytes))
scan_loop zero it = none
scan_loop (suc fuel) it =
    let rest = scan_loop fuel (next it) in
    if valid it
    then elim (row it) [ none ↦ none | some r ↦ Option.map (λ rows. r ∷ rows) rest ]
    else some []

-- Every row from the cursor on takes one round.
unfoldable pub scan : DbIterator → Option (List (Bytes × Bytes))
scan it = scan_loop (suc (length it.rows)) it

-- The rows with a key that is not below.
unfoldable pub from_key : Bytes → List (Bytes × Bytes) → List (Bytes × Bytes)
from_key key [] = []
from_key key ((k, v) ∷ rows) =
    let rest = from_key key rows in if bytes_lt k key then rest else (k, v) ∷ rest

drop-get_elem? :
    (n : ℕ) (rows : List (Bytes × Bytes))
    → n < length rows
    → (r : Bytes × Bytes) × (get_elem? rows n ≡ some r) × (drop n rows ≡ r ∷ drop (suc n) rows)
drop-get_elem? n [] h = absurd (omega arith)
drop-get_elem? zero (r ∷ rows) h = (r, refl, refl)
drop-get_elem? (suc n) (r ∷ rows) h = drop-get_elem? n rows (omega arith)

next_valid :
    (rows : List (Bytes × Bytes)) (n : ℕ)
    → ltb n (length rows) ≡ true
    → next (record { rows = rows; pos = n }) ≡ record { rows = rows; pos = suc n }
unfolding next valid
next_valid rows n h = rw h refl

scan_loop-drop :
    (fuel : ℕ) (rows : List (Bytes × Bytes)) (n : ℕ)
    → n ≤ length rows
    → length rows - n < fuel
    → scan_loop fuel (record { rows = rows; pos = n }) ≡ some (drop n rows)
unfolding scan_loop valid row
scan_loop-drop zero rows n le h = absurd (omega arith)
scan_loop-drop (suc fuel) rows n le h = elim (Bool-cases (ltb n (length rows))) [
  | inl more ↦
      let (r, at_n, split) = drop-get_elem? n rows (ground arith) in
      rw (more, at_n, split)
        (ap (λ it. Option.map (λ xs. r ∷ xs) (scan_loop fuel it)) (next_valid rows n more)
          ∙ ap (Option.map (λ xs. r ∷ xs))
              (scan_loop-drop fuel rows (suc n) (ground arith) (ground arith)))
  | inr over ↦ rw over (ap some (sym (drop-all n rows (ground arith))))
]

lower_bound_le : (key : Bytes) (rows : List (Bytes × Bytes)) → lower_bound key rows ≤ length rows
unfolding lower_bound
lower_bound_le key [] = omega arith
lower_bound_le key ((k, v) ∷ rows) = ground (arith, lower_bound_le key rows)

-- Above a key that is not below, no key is below.
from_key-above :
    (key k : Bytes) (rows : List (Bytes × Bytes))
    → bytes_lt k key ≡ false
    → RowsBelow k rows
    → from_key key rows ≡ rows
unfolding from_key
from_key-above key k [] h b = refl
from_key-above key k ((i, v) ∷ rows) h b = rw (above, from_key-above key k rows h b.1) refl
  where
    above : bytes_lt i key ≡ false
    above = elim (Bool-cases (bytes_lt i key)) [
      | inr no_less ↦ no_less
      | inl less ↦ cc (bytes_lt_trans k i key b.0 less, h)
    ]

drop-lower_bound :
    (key : Bytes) (rows : List (Bytes × Bytes))
    → IsAscending rows
    → drop (lower_bound key rows) rows ≡ from_key key rows
unfolding lower_bound from_key
drop-lower_bound key [] s = refl
drop-lower_bound key ((k, v) ∷ rows) s = elim (Bool-cases (bytes_lt k key)) [
  | inl less ↦ rw less (drop-lower_bound key rows s.1)
  | inr more ↦ rw more (ap (λ t. (k, v) ∷ t) (sym (from_key-above key k rows more s.0)))
]

-- After a Seek, the loop over the cursor always ends, and takes exactly the rows with a key that is
-- not below the one sought, in their order. The rows are in the order of their keys.
pub scan-seek :
    (key : Bytes) (it : DbIterator)
    → IsAscending it.rows
    → scan (seek key it) ≡ some (from_key key it.rows)
unfolding scan seek
scan-seek key it s =
    scan_loop-drop (suc (length it.rows)) it.rows (lower_bound key it.rows)
      (lower_bound_le key it.rows) (omega arith)
    ∙ ap some (drop-lower_bound key it.rows s)
