-- ===== src/DbIterator.antt =====
-- include/DBIterator.h and src/DBIterator.cpp: a cursor over rows in the order of their keys.
use mathlib.Core.Option
use nova_kv.Prelude.{
  ℕ, zero, suc, ◌+◌, Bool, true, false, Bytes, List, [], ◌∷◌, Option, none, some, length, ltb,
  get_elem?, if◌then◌else◌, bytes_lt, Option-cases,
}
pub mod Scan

pub record DbIterator : Type 0 where
  pub rows : List (Bytes × Bytes)
  pub pos : ℕ

unfoldable pub new_cursor : List (Bytes × Bytes) → DbIterator
new_cursor rows = record { rows = rows; pos = 0 }

-- std::lower_bound by the key: how many rows are in front of the first that is not below.
unfoldable pub lower_bound : Bytes → List (Bytes × Bytes) → ℕ
lower_bound key [] = 0
lower_bound key ((k, v) ∷ rows) =
    let rest = lower_bound key rows in if bytes_lt k key then suc rest else 0

unfoldable pub seek : Bytes → DbIterator → DbIterator
seek key it = record it { pos = lower_bound key it.rows }

unfoldable pub valid : DbIterator → Bool
valid it = ltb it.pos (length it.rows)

unfoldable pub next : DbIterator → DbIterator
next it = if valid it then record it { pos = suc it.pos } else it

-- key() and value() of a valid cursor; without a row their assertion fails.
unfoldable pub row : DbIterator → Option (Bytes × Bytes)
row it = get_elem? it.rows it.pos
