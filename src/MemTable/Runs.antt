-- ===== src/MemTable/Runs.antt =====
-- The memory table and its log: the theorem at a concrete input.
use nova_kv.Prelude.{ℕ, ◌≡◌, refl, arith, true, ascii, Bool, List, [], ◌∷◌, some, ◌>>=◌, All}
use nova_kv.ValueRecord.{ValueType}
use nova_kv.SortedMap.{Rows}
use nova_kv.Wal.{Junk, load_log}
use nova_kv.Wal.RoundTrip.{IsLoggable}
use nova_kv.MemTable.{MemTable, new_mem_table, snapshot_rows}
use nova_kv.MemTable.Replay.{Call, puts, replay, entries, replay-puts}

abbrev zeros : Junk
zeros = record { t = 0 ∷ []; k_len = 0 ∷ 0 ∷ 0 ∷ 0 ∷ []; v_len = 0 ∷ 0 ∷ 0 ∷ 0 ∷ [] }

abbrev two_calls : List Call
two_calls =
    record {
      coins = true ∷ [];
      entry = record { type = ValueType.value; key = ascii "a"; value = ascii "1" };
    }
    ∷ record {
      coins = [];
      entry = record { type = ValueType.deletion; key = ascii "a"; value = [] };
    }
    ∷ []

two_calls-IsLoggable : All IsLoggable (entries two_calls)
unfolding entries
two_calls-IsLoggable = (
  record { type = tt; key = omega arith; value = omega arith },
  (record { type = tt; key = omega arith; value = omega arith }, tt),
)

abbrev no_coins : ℕ → List Bool
no_coins n = []

replay-puts_example :
    (lost again : MemTable) × (puts two_calls (new_mem_table [] 16) ≡ some lost)
    × ((load_log zeros lost.wal >>= λ rs. replay no_coins rs (new_mem_table (ascii "old") 16))
        ≡ some again)
    × (rows : Rows) × (snapshot_rows lost ≡ some rows)
    × (snapshot_rows again ≡ some rows)
replay-puts_example =
    replay-puts zeros two_calls no_coins (ascii "old") 16
      (record { t = refl; k_len = refl; v_len = refl }) two_calls-IsLoggable (omega arith)
