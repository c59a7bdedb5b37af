-- ===== src/Server/Pending.antt =====
-- std::map<uint64_t, std::string>, of which only find, emplace, erase and empty are used.
use nova_kv.Prelude.{
  ℕ, ◌≤◌, ◌<◌, ◌≡◌, refl, arith, Bytes, List, [], ◌∷◌, Option, none, some, length, ◌==◌,
  if◌then◌else◌,
}

abbrev pub Responses : Type 0
Responses = List (ℕ × Bytes)

unfoldable pub find_response : ℕ → Responses → Option Bytes
find_response k [] = none
find_response k ((i, r) ∷ m) = if i == k then some r else find_response k m

-- A key that is there keeps its response.
unfoldable pub emplace_response : ℕ → Bytes → Responses → Responses
emplace_response k r m = elim (find_response k m) [ none ↦ (k, r) ∷ m | some old ↦ m ]

unfoldable pub erase_response : ℕ → Responses → Responses
erase_response k [] = []
erase_response k ((i, r) ∷ m) =
    let rest = erase_response k m in if i == k then rest else (i, r) ∷ rest

pub find_response-cons :
    (k j : ℕ) (r : Bytes) (m : Responses)
    → find_response j ((k, r) ∷ m) ≡ (if k == j then some r else find_response j m)
unfolding find_response
find_response-cons k j r m = refl

pub emplace_response-new :
    (k : ℕ) (r : Bytes) (m : Responses)
    → find_response k m ≡ none
    → emplace_response k r m ≡ (k, r) ∷ m
unfolding emplace_response
emplace_response-new k r m h = rw (h, emplace_response) refl

pub find_response-erase_response :
    (k j : ℕ) (m : Responses)
    → find_response j (erase_response k m) ≡ (if k == j then none else find_response j m)
unfolding find_response erase_response
find_response-erase_response k j [] = ground arith
find_response-erase_response k j ((i, r) ∷ m) = ground (arith, find_response-erase_response k j m)

erase_response_le : (k : ℕ) (m : Responses) → length (erase_response k m) ≤ length m
unfolding erase_response
erase_response_le k [] = omega arith
erase_response_le k ((i, r) ∷ m) = ground (arith, erase_response_le k m)

pub erase_response_lt :
    (k : ℕ) (r : Bytes) (m : Responses)
    → find_response k m ≡ some r
    → length (erase_response k m) < length m
unfolding find_response erase_response
erase_response_lt k r [] h = cc
erase_response_lt k r ((i, s) ∷ m) h =
    ground (arith, erase_response_lt k r m, erase_response_le k m)
