-- ===== src/Compaction/Merge.antt =====
-- How the tables that a compaction merges and writes are read.
use nova_kv.Prelude.{
  ◌≡◌, refl, sym, ap, subst, ◌∙◌, ◌⊎◌, inl, inr, true, false, not, Bytes, List, [], ◌∷◌, ◌++◌,
  Option, none, some, ◌>>=◌, All, Bool-cases, Option-cases, if◌then◌else◌, bytes_eq, bytes_eq→eq,
}
use nova_kv.ValueRecord.{ValueRecord, ValueType, is_value, is_deletion, IsEnumerator}
use nova_kv.SortedMap.{
  Rows, find, or_else, or_else_assoc, try_emplace, IsSorted, find-Below, find-try_emplace,
  try_emplace-IsSorted, find-emplace_all, emplace_all-IsSorted,
}
use nova_kv.Tables.{TableOps}
use nova_kv.Compaction.{
  Levels, get_level, has_visible_value_in_l1, merge_tables, kept, emplace_kept,
}

-- A value, where the record is one.
abbrev pub visible : Option ValueRecord → Option Bytes
visible none = none
visible (some r) = if is_value r.type then some (r.value) else none

abbrev pub HasEnumerators : (Bytes → Option ValueRecord) → Type 0
HasEnumerators look = (k : Bytes) (r : ValueRecord) → look k ≡ some r → IsEnumerator r.type

pub is_deletion-not : (t : ValueType) → IsEnumerator t → is_deletion t ≡ not (is_value t)
unfolding is_deletion is_value
is_deletion-not ValueType.value h = refl
is_deletion-not ValueType.deletion h = refl
is_deletion-not (ValueType.other t) h = absurd h

pub or_else-none : (o : Option ValueRecord) → or_else o none ≡ o
or_else-none none = refl
or_else-none (some r) = refl

module _ {T : Type 0} (tables : TableOps T) where
  pub get_level-cons :
      (k : Bytes) (t : T) (ts : List T)
      → get_level tables k (t ∷ ts)
        ≡ or_else (get_level tables k ts) (TableOps.get_record tables k t)
  unfolding get_level
  get_level-cons k t ts = by_rest (get_level tables k ts)
    where
      by_rest :
          (o : Option ValueRecord)
          → (elim o [ some r ↦ some r | none ↦ TableOps.get_record tables k t ])
            ≡ or_else o (TableOps.get_record tables k t)
      by_rest none = refl
      by_rest (some r) = refl

  pub get_level-append :
      (k : Bytes) (ts : List T) (t : T)
      → get_level tables k (ts ++ t ∷ [])
        ≡ or_else (TableOps.get_record tables k t) (get_level tables k ts)
  get_level-append k [] t =
      get_level-cons k t []
      ∙ (unfold get_level in sym (or_else-none (TableOps.get_record tables k t)))
  get_level-append k (u ∷ ts) t =
      get_level-cons k u (ts ++ t ∷ [])
      ∙ ap (λ o. or_else o (TableOps.get_record tables k u)) (get_level-append k ts t)
      ∙ or_else_assoc (TableOps.get_record tables k t) (get_level tables k ts)
          (TableOps.get_record tables k u)
      ∙ ap (or_else (TableOps.get_record tables k t)) (sym (get_level-cons k u ts))

  abbrev pub AreTables : List T → Type 0
  AreTables ts = All (λ t. TableOps.IsTable tables t) ts

  pub merge_tables-IsSorted :
      (ts : List T) (seen : Rows) → IsSorted seen → IsSorted (merge_tables tables ts seen)
  unfolding merge_tables
  merge_tables-IsSorted [] seen s = s
  merge_tables-IsSorted (t ∷ ts) seen s =
      emplace_all-IsSorted (TableOps.rows tables t) (merge_tables tables ts seen)
        (merge_tables-IsSorted ts seen s)

  -- A merge of a level reads as its tables from new to old, behind what was seen before.
  pub find-merge_tables :
      (j : Bytes) (ts : List T) (seen : Rows)
      → AreTables ts
      → IsSorted seen
      → find j (merge_tables tables ts seen) ≡ or_else (find j seen) (get_level tables j ts)
  unfolding merge_tables
  find-merge_tables j [] seen good s = unfold get_level in sym (or_else-none (find j seen))
  find-merge_tables j (t ∷ ts) seen good s =
      find-emplace_all j (TableOps.rows tables t) (merge_tables tables ts seen)
        (merge_tables-IsSorted ts seen s)
      ∙ ap (or_else (find j (merge_tables tables ts seen))) (TableOps.find-rows tables j t good.0)
      ∙ ap (λ o. or_else o (TableOps.get_record tables j t)) (find-merge_tables j ts seen good.1 s)
      ∙ or_else_assoc (find j seen) (get_level tables j ts) (TableOps.get_record tables j t)
      ∙ ap (or_else (find j seen)) (sym (get_level-cons j t ts))

  module _ (levels : Levels T) where
    put_kept : Bytes → Option ValueRecord → Rows → Rows
    put_kept k none out = out
    put_kept k (some r) out = try_emplace k r out

    emplace_kept-cons :
        (k : Bytes) (r : ValueRecord) (merged out : Rows)
        → emplace_kept tables levels ((k, r) ∷ merged) out
          ≡ emplace_kept tables levels merged (put_kept k (kept tables levels k r) out)
    unfolding emplace_kept put_kept
    emplace_kept-cons k r merged out = by_kept (kept tables levels k r)
      where
        by_kept :
            (o : Option ValueRecord)
            → emplace_kept tables levels merged
                (elim o [ none ↦ out | some r' ↦ try_emplace k r' out ])
              ≡ emplace_kept tables levels merged (put_kept k o out)
        by_kept none = refl
        by_kept (some r') = refl

    put_kept-IsSorted :
        (k : Bytes) (o : Option ValueRecord) (out : Rows)
        → IsSorted out
        → IsSorted (put_kept k o out)
    unfolding put_kept
    put_kept-IsSorted k none out s = s
    put_kept-IsSorted k (some r) out s = try_emplace-IsSorted k r out s

    find-put_kept :
        (j k : Bytes) (o : Option ValueRecord) (out : Rows)
        → IsSorted out
        → find j (put_kept k o out) ≡ or_else (find j out) (if bytes_eq k j then o else none)
    unfolding put_kept
    find-put_kept j k none out s = elim (Bool-cases (bytes_eq k j)) [
      | inl same ↦ rw same (sym (or_else-none (find j out)))
      | inr other ↦ rw other (sym (or_else-none (find j out)))
    ]
    find-put_kept j k (some r) out s = find-try_emplace j k r out s

    pub emplace_kept-IsSorted :
        (merged out : Rows) → IsSorted out → IsSorted (emplace_kept tables levels merged out)
    emplace_kept-IsSorted [] out s = unfold emplace_kept in s
    emplace_kept-IsSorted ((k, r) ∷ merged) out s =
        subst IsSorted (sym (emplace_kept-cons k r merged out)) (
          emplace_kept-IsSorted merged (put_kept k (kept tables levels k r) out)
            (put_kept-IsSorted k (kept tables levels k r) out s))

    -- The output has for every merged record what is kept of it.
    pub find-emplace_kept :
        (j : Bytes) (merged out : Rows)
        → IsSorted merged
        → IsSorted out
        → find j (emplace_kept tables levels merged out)
          ≡ or_else (find j out) (find j merged >>= kept tables levels j)
    find-emplace_kept j [] out sm s = unfold emplace_kept find in sym (or_else-none (find j out))
    find-emplace_kept j ((k, r) ∷ merged) out sm s =
        ap (find j) (emplace_kept-cons k r merged out)
        ∙ find-emplace_kept j merged (put_kept k (kept tables levels k r) out) sm.1
            (put_kept-IsSorted k (kept tables levels k r) out s)
        ∙ ap (λ o. or_else o (find j merged >>= kept tables levels j))
            (find-put_kept j k (kept tables levels k r) out s)
        ∙ or_else_assoc (find j out) (if bytes_eq k j then kept tables levels k r else none)
            (find j merged >>= kept tables levels j)
        ∙ ap (or_else (find j out)) (head_of (Bool-cases (bytes_eq k j)))
      where
        head_of :
            (bytes_eq k j ≡ true) ⊎ (bytes_eq k j ≡ false)
            → or_else
                (if bytes_eq k j then kept tables levels k r else none)
                (find j merged >>= kept tables levels j)
              ≡ (find j ((k, r) ∷ merged) >>= kept tables levels j)
        head_of (inr other) = unfold find in rw other refl
        head_of (inl same) =
            let e : k ≡ j = bytes_eq→eq k j same in
            let gone : find j merged ≡ none =
              ap (λ i. find i merged) (sym e) ∙ find-Below k merged sm.0 in
            unfold find in rw (same, gone, e) (or_else-none (kept tables levels j r))

    has_visible_of :
        (j : Bytes) (o : Option ValueRecord)
        → get_level tables j levels.l1 ≡ o
        → has_visible_value_in_l1 tables j levels
          ≡ (elim o [ none ↦ false | some r ↦ not (is_deletion r.type) ])
    unfolding has_visible_value_in_l1
    has_visible_of j o e = ap (λ x. elim x [ none ↦ false | some r ↦ not (is_deletion r.type) ]) e

    -- What is dropped is not missed: over L1, what is kept of a record shows the same value.
    pub visible-kept :
        (j : Bytes) (o : Option ValueRecord)
        → HasEnumerators (λ k. get_level tables k levels.l1)
        → visible (or_else (o >>= kept tables levels j) (get_level tables j levels.l1))
          ≡ visible (or_else o (get_level tables j levels.l1))
    unfolding kept
    visible-kept j none good = refl
    visible-kept j (some r) good = elim (Bool-cases (is_value r.type)) [
      | inl live ↦ rw live (rw live refl)
      | inr dead ↦ rw dead (elim (Option-cases (get_level tables j levels.l1)) [
        | inl off ↦ rw (has_visible_of j none off, off) refl
        | inr (x, found) ↦
            let drop_or_keep = is_deletion-not x.type (good j x found) in
            rw (has_visible_of j (some x) found, found)
              (elim (Bool-cases (is_value x.type)) [
                | inl shown ↦ rw (drop_or_keep, shown) (unfold is_value in refl)
                | inr hidden ↦ rw (drop_or_keep, hidden) (rw hidden refl)
              ])
      ])
    ]
