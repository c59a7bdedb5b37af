-- ===== src/SortedMap.antt =====
-- std::map<std::string, ValueRecord>, which src/CompactionEngine.cpp and src/DBImpl.cpp use: rows in
-- the order of the keys, no key twice.
use nova_kv.Prelude.{
  ◌≡◌, refl, ◌∙◌, ap, Bool, true, false, Bytes, List, [], ◌∷◌, Option, none, some, if◌then◌else◌,
  Bool-cases, inl, inr, bytes_eq, bytes_lt, bytes_eq→eq, bytes_gt_ne, bytes_lt_trans,
  bytes_lt_total, arith,
}
use nova_kv.ValueRecord.{ValueRecord}

abbrev pub Rows : Type 0
Rows = List (Bytes × ValueRecord)

unfoldable pub find : Bytes → Rows → Option ValueRecord
find j [] = none
find j ((k, r) ∷ rows) = if bytes_eq k j then some r else find j rows

-- The first of two that is there.
abbrev pub or_else : Option ValueRecord → Option ValueRecord → Option ValueRecord
or_else none o = o
or_else (some r) o = some r

-- m.try_emplace(k, r), and m.emplace(k, r): a key that is there keeps its record.
unfoldable pub try_emplace : Bytes → ValueRecord → Rows → Rows
try_emplace k r [] = (k, r) ∷ []
try_emplace k r ((i, w) ∷ m) =
    let rest = try_emplace k r m in
    if bytes_lt i k then (i, w) ∷ rest else if bytes_eq i k then (i, w) ∷ m else (k, r) ∷ (i, w) ∷ m

-- Every row is emplaced, as a ForEach with a try_emplace does.
unfoldable pub emplace_all : Rows → Rows → Rows
emplace_all [] seen = seen
emplace_all ((k, r) ∷ rows) seen = emplace_all rows (try_emplace k r seen)

-- `k` is below all the keys.
abbrev pub Below : Bytes → Rows → Type 0
Below k [] = Unit
Below k ((i, w) ∷ m) = (bytes_lt k i ≡ true) × Below k m

abbrev pub IsSorted : Rows → Type 0
IsSorted [] = Unit
IsSorted ((k, r) ∷ m) = Below k m × IsSorted m

pub Below-trans : (k i : Bytes) (m : Rows) → bytes_lt k i ≡ true → Below i m → Below k m
Below-trans k i [] h b = tt
Below-trans k i ((j, w) ∷ m) h b = (bytes_lt_trans k i j h b.0, Below-trans k i m h b.1)

pub find-Below : (k : Bytes) (m : Rows) → Below k m → find k m ≡ none
unfolding find
find-Below k [] b = refl
find-Below k ((i, w) ∷ m) b = rw (bytes_gt_ne k i b.0, find-Below k m b.1) refl

Below-try_emplace :
    (i k : Bytes) (r : ValueRecord) (m : Rows)
    → bytes_lt i k ≡ true
    → Below i m
    → Below i (try_emplace k r m)
unfolding try_emplace
Below-try_emplace i k r [] h b = (h, tt)
Below-try_emplace i k r ((j, w) ∷ m) h b = ground (arith, Below-try_emplace i k r m h b.1)

pub try_emplace-IsSorted :
    (k : Bytes) (r : ValueRecord) (m : Rows) → IsSorted m → IsSorted (try_emplace k r m)
unfolding try_emplace
try_emplace-IsSorted k r [] s = (tt, tt)
try_emplace-IsSorted k r ((i, w) ∷ m) s = elim (Bool-cases (bytes_lt i k)) [
  | inl less ↦ rw less (Below-try_emplace i k r m less s.0, try_emplace-IsSorted k r m s.1)
  | inr more ↦ rw more (elim (Bool-cases (bytes_eq i k)) [
    | inl same ↦ rw same s
    | inr other ↦
        rw other
          (let less = bytes_lt_total i k more other in ((less, Below-trans k i m less s.0), s))
  ])
]

pub find-try_emplace :
    (j k : Bytes) (r : ValueRecord) (m : Rows)
    → IsSorted m
    → find j (try_emplace k r m) ≡ or_else (find j m) (if bytes_eq k j then some r else none)
unfolding find try_emplace
find-try_emplace j k r [] s = refl
find-try_emplace j k r ((i, w) ∷ m) s = elim (Bool-cases (bytes_lt i k)) [
  | inl less ↦ rw less (ground (arith, find-try_emplace j k r m s.1))
  | inr more ↦ rw more (elim (Bool-cases (bytes_eq i k)) [
    | inl same ↦ rw same (let e = bytes_eq→eq i k same in ground arith)
    | inr other ↦ rw other (
        let less = bytes_lt_total i k more other in
        let off = find-Below k ((i, w) ∷ m) (less, Below-trans k i m less s.0) in
        elim (Bool-cases (bytes_eq k j)) [
          | inl here ↦ let e = bytes_eq→eq k j here in rw here (absent j off e)
          | inr away ↦ rw away (found_or_none (if bytes_eq i j then some w else find j m))
        ])
  ])
]
  where
    found_or_none : (o : Option ValueRecord) → o ≡ or_else o none
    found_or_none none = refl
    found_or_none (some x) = refl

    absent :
        (j : Bytes)
        → find k ((i, w) ∷ m) ≡ none
        → k ≡ j
        → some r ≡ or_else (find j ((i, w) ∷ m)) (some r)
    absent j off e = cc

pub emplace_all-IsSorted : (rows seen : Rows) → IsSorted seen → IsSorted (emplace_all rows seen)
unfolding emplace_all
emplace_all-IsSorted [] seen s = s
emplace_all-IsSorted ((k, r) ∷ rows) seen s =
    emplace_all-IsSorted rows (try_emplace k r seen) (try_emplace-IsSorted k r seen s)

pub or_else_assoc : (x y z : Option ValueRecord) → or_else (or_else x y) z ≡ or_else x (or_else y z)
or_else_assoc none y z = refl
or_else_assoc (some r) y z = refl

-- What was there stays, and of the new rows the first with a key counts.
pub find-emplace_all :
    (j : Bytes) (rows seen : Rows)
    → IsSorted seen
    → find j (emplace_all rows seen) ≡ or_else (find j seen) (find j rows)
unfolding emplace_all find
find-emplace_all j [] seen s = found_or_none (find j seen)
  where
    found_or_none : (o : Option ValueRecord) → o ≡ or_else o none
    found_or_none none = refl
    found_or_none (some x) = refl
find-emplace_all j ((k, r) ∷ rows) seen s =
    find-emplace_all j rows (try_emplace k r seen) (try_emplace-IsSorted k r seen s)
    ∙ ap (λ o. or_else o (find j rows)) (find-try_emplace j k r seen s)
    ∙ or_else_assoc (find j seen) (if bytes_eq k j then some r else none) (find j rows)
    ∙ ap (or_else (find j seen)) (first_of (bytes_eq k j))
  where
    first_of :
        (b : Bool)
        → or_else (if b then some r else none) (find j rows) ≡ (if b then some r else find j rows)
    first_of true = refl
    first_of false = refl
