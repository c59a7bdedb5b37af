-- ===== src/SkipList/Runs.antt =====
-- Runs of the skip list, and the theorems at concrete inputs.
use nova_kv.Prelude.{
  ◌≡◌, ◌<◌, ◌≤◌, refl, arith, true, false, ascii, Bytes, List, [], ◌∷◌, some, ◌>>=◌, bytes_eq,
  bytes_lt,
}
use nova_kv.ValueRecord.{ValueRecord, ValueType}
use nova_kv.SortedMap.{find}
use nova_kv.Tables.Reference.{put_row}
use nova_kv.SkipList.{
  SkipList, store, set, new_list, load_next, store_next, walk, descend, match_at, link,
  random_level, get_random_level, find_place, raise_update, new_update, insert_new, insert_at,
  insert_element, value_at, search_element, rows_from, snapshot,
}
use nova_kv.SkipList.Towers.{Tower}
use nova_kv.SkipList.Spelled.{rows_of, Spells, search_element-Spells}
use nova_kv.SkipList.Grown.{insert_element-Spells}
use nova_kv.SkipList.Memory.{get_random_level_bounds, new_list-Spells}

-- What a run computes with.
opened : Unit {0}
unfolding store set new_list load_next store_next walk descend match_at link random_level
    get_random_level find_place raise_update new_update insert_new insert_at insert_element value_at
    search_element rows_from snapshot bytes_eq bytes_lt
opened = tt

abbrev live : Bytes → ValueRecord
live v = record { type = ValueType.value; value = v }

-- "b" with a tower of three levels, then "a" and "c" with one and two, then "b" again.
four_inserts :
    (insert_element (ascii "b") (live (ascii "1")) 3 (new_list 4) >>= λ l1.
    insert_element (ascii "a") (live (ascii "2")) 1 l1 >>= λ l2.
    insert_element (ascii "c") (live (ascii "3")) 2 l2 >>= λ l3.
    insert_element (ascii "b") (live (ascii "4")) 4 l3 >>= λ l4. snapshot l4)
    ≡ some (
        (ascii "a", live (ascii "2"))
        ∷ (ascii "b", live (ascii "4"))
        ∷ (ascii "c", live (ascii "3"))
        ∷ [])
unfolding opened
four_inserts = refl

two_heads : get_random_level 16 (true ∷ true ∷ false ∷ []) ≡ 3
unfolding opened
two_heads = refl

insert_element-Spells_example :
    (l2 : SkipList) × (us : List Tower) × (insert_element
        (ascii "b")
        (live (ascii "1"))
        3
        (new_list 4)
      ≡ some l2)
    × Spells l2 us
    × (rows_of us ≡ put_row (ascii "b") (live (ascii "1")) (rows_of []))
    × (l2.max_level ≡ (new_list 4).max_level)
insert_element-Spells_example =
    insert_element-Spells (new_list 4) [] (ascii "b") (live (ascii "1")) 3
      (new_list-Spells 4 (omega arith)) (omega arith) three_fits
  where
    three_fits : 3 ≤ (new_list 4).max_level
    three_fits = unfold new_list in omega arith

-- A list with one node.
one_insert :
    (l2 : SkipList) × (us : List Tower) × (insert_element
        (ascii "b")
        (live (ascii "1"))
        3
        (new_list 4)
      ≡ some l2)
    × Spells l2 us
    × (rows_of us ≡ put_row (ascii "b") (live (ascii "1")) (rows_of []))
    × (l2.max_level ≡ (new_list 4).max_level)
one_insert =
    insert_element-Spells (new_list 4) [] (ascii "b") (live (ascii "1")) 3
      (new_list-Spells 4 (omega arith)) (omega arith) (unfold new_list in omega arith)

search_element-Spells_example :
    search_element (ascii "b") one_insert.0 ≡ some (find (ascii "b") (rows_of one_insert.1))
search_element-Spells_example =
    search_element-Spells one_insert.0 one_insert.1 (ascii "b") one_insert.3

get_random_level_bounds_example :
    (0 < get_random_level 16 (true ∷ true ∷ [])) × (get_random_level 16 (true ∷ true ∷ []) ≤ 16)
get_random_level_bounds_example = get_random_level_bounds 16 (true ∷ true ∷ []) (omega arith)
