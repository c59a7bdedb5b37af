-- ===== src/Prelude/Maps.antt =====
-- std::unordered_map<uint64_t, uint32_t> and std::unordered_set<uint64_t> as lists. The order of
-- iteration, which C++ leaves open, is the order of the list.
use Prim.Native.Nat.{ℕ}
use mathlib.Core.Path.{◌≡◌, refl, ◌∙◌}
use mathlib.Core.Bool.{Bool, true, false, ◌||◌}
use mathlib.Core.Option.{Option, none, some}
use mathlib.Core.List.{List, [], ◌∷◌}
use native.Mathlib.Omega.{arith}
use nova_kv.Prelude.Tests.{◌==◌, ltb, if◌then◌else◌}

abbrev pub IdMap : Type 0
IdMap = List (ℕ × ℕ)

abbrev pub IdSet : Type 0
IdSet = List ℕ

unfoldable pub lookup_id : ℕ → IdMap → Option ℕ
lookup_id k [] = none
lookup_id k ((i, v) ∷ m) = if i == k then some v else lookup_id k m

-- m[k] = v
unfoldable pub set_id : ℕ → ℕ → IdMap → IdMap
set_id k v [] = (k, v) ∷ []
set_id k v ((i, w) ∷ m) = if i == k then (k, v) ∷ m else (i, w) ∷ set_id k v m

-- m.erase(k)
unfoldable pub erase_id : ℕ → IdMap → IdMap
erase_id k [] = []
erase_id k ((i, w) ∷ m) = let rest = erase_id k m in if i == k then rest else (i, w) ∷ rest

unfoldable pub has_id : ℕ → IdSet → Bool
has_id k [] = false
has_id k (i ∷ s) = (i == k) || has_id k s

-- s.insert(k)
unfoldable pub insert_id : ℕ → IdSet → IdSet
insert_id k s = if has_id k s then s else k ∷ s

-- s.erase(k)
unfoldable pub remove_id : ℕ → IdSet → IdSet
remove_id k [] = []
remove_id k (i ∷ s) = let rest = remove_id k s in if i == k then rest else i ∷ rest

pub lookup_id-set_id :
    (k j v : ℕ) (m : IdMap)
    → lookup_id j (set_id k v m) ≡ (if k == j then some v else lookup_id j m)
unfolding lookup_id set_id
lookup_id-set_id k j v [] = refl
lookup_id-set_id k j v ((i, w) ∷ m) = ground (arith, lookup_id-set_id k j v m)

pub lookup_id-erase_id :
    (k j : ℕ) (m : IdMap) → lookup_id j (erase_id k m) ≡ (if k == j then none else lookup_id j m)
unfolding lookup_id erase_id
lookup_id-erase_id k j [] = ground arith
lookup_id-erase_id k j ((i, w) ∷ m) = ground (arith, lookup_id-erase_id k j m)

pub has_id-insert_id :
    (k j : ℕ) (s : IdSet) → has_id j (insert_id k s) ≡ (if k == j then true else has_id j s)
unfolding insert_id has_id
has_id-insert_id k j s = ground (arith, has_id_same k j s)
  where
    has_id_same : (k j : ℕ) (s : IdSet) → k ≡ j → has_id k s ≡ has_id j s
    has_id_same k j s e = cc

pub has_id-remove_id :
    (k j : ℕ) (s : IdSet) → has_id j (remove_id k s) ≡ (if k == j then false else has_id j s)
unfolding has_id remove_id
has_id-remove_id k j [] = ground arith
has_id-remove_id k j (i ∷ s) = ground (arith, has_id-remove_id k j s)

-- No two entries have one key, as in a map of C++.
abbrev pub IsMap : IdMap → Type 0
IsMap [] = Unit
IsMap ((i, v) ∷ m) = (lookup_id i m ≡ none) × IsMap m

pub set_id-IsMap : (k v : ℕ) (m : IdMap) → IsMap m → IsMap (set_id k v m)
unfolding set_id
set_id-IsMap k v [] h = (unfold lookup_id in refl, tt)
set_id-IsMap k v ((i, w) ∷ m) h = ground (arith, set_id-IsMap k v m, lookup_id-set_id k i v m)

pub erase_id-IsMap : (k : ℕ) (m : IdMap) → IsMap m → IsMap (erase_id k m)
unfolding erase_id
erase_id-IsMap k [] h = tt
erase_id-IsMap k ((i, w) ∷ m) h = ground (arith, erase_id-IsMap k m, lookup_id-erase_id k i m)

-- std::sort by the key, on entries with different keys.
unfoldable pub insert_sorted : ℕ → ℕ → IdMap → IdMap
insert_sorted k v [] = (k, v) ∷ []
insert_sorted k v ((i, w) ∷ m) =
    if ltb i k then (i, w) ∷ insert_sorted k v m else (k, v) ∷ (i, w) ∷ m

unfoldable pub sort_entries : IdMap → IdMap
sort_entries [] = []
sort_entries ((i, v) ∷ m) = insert_sorted i v (sort_entries m)

pub lookup_id-insert_sorted :
    (k v j : ℕ) (m : IdMap)
    → lookup_id j (insert_sorted k v m) ≡ (if k == j then some v else lookup_id j m)
unfolding lookup_id insert_sorted
lookup_id-insert_sorted k v j [] = refl
lookup_id-insert_sorted k v j ((i, w) ∷ m) = ground (arith, lookup_id-insert_sorted k v j m)

pub lookup_id-sort_entries : (j : ℕ) (m : IdMap) → lookup_id j (sort_entries m) ≡ lookup_id j m
unfolding lookup_id sort_entries
lookup_id-sort_entries j [] = refl
lookup_id-sort_entries j ((i, v) ∷ m) =
    ground (arith, lookup_id-insert_sorted i v j (sort_entries m), lookup_id-sort_entries j m)

insert_sorted-IsMap :
    (k v : ℕ) (m : IdMap) → lookup_id k m ≡ none → IsMap m → IsMap (insert_sorted k v m)
unfolding insert_sorted lookup_id
insert_sorted-IsMap k v [] e h = (e, tt)
insert_sorted-IsMap k v ((i, w) ∷ m) e h =
    ground (arith, insert_sorted-IsMap k v m, lookup_id-insert_sorted k v i m)

pub sort_entries-IsMap : (m : IdMap) → IsMap m → IsMap (sort_entries m)
unfolding sort_entries
sort_entries-IsMap [] h = tt
sort_entries-IsMap ((i, v) ∷ m) h =
    insert_sorted-IsMap i v (sort_entries m) (lookup_id-sort_entries i m ∙ h.0)
      (sort_entries-IsMap m h.1)
