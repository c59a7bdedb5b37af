-- ===== src/Server/Returns.antt =====
-- The ends of the loops over the ready responses of a connection.
use nova_kv.Prelude.{
  ℕ, ◌+◌, ◌<◌, ◌≡◌, refl, inl, inr, Bool, true, false, Bytes, Option, none, some, ◌==◌, ==_refl,
  Bool-cases, u64_mod,
}
use nova_kv.Server.{Connection, CompletedTask, complete_task, fail_connection_protocol}
use nova_kv.Server.Pending.{Responses, find_response}
use nova_kv.Server.Served.{Served, Served-IsServed}
use nova_kv.Server.Steps.{OnResult, complete_task-OnResult, fail-OnResult}

has_result :
    (P : Connection → Type 0) (o : Option (Connection × Bool))
    → OnResult P o
    → (r : Connection × Bool) × (o ≡ some r)
has_result P none h = absurd h
has_result P (some r) h = (r, refl)

pub fail_connection_protocol-returns :
    (g : ℕ) (h : Responses) (w : Bytes) (c : Connection) (msg : Bytes)
    → Served g h w c
    → c.next_request_seq + 1 < u64_mod
    → (r : Connection × Bool) × (fail_connection_protocol c msg ≡ some r)
fail_connection_protocol-returns g h w c msg served small =
    has_result _ (fail_connection_protocol c msg)
      (fail-OnResult h w c msg (Served-IsServed g h w c served).0 small)

pub complete_task-returns :
    (g : ℕ) (h : Responses) (w : Bytes) (c : Connection) (task : CompletedTask)
    → Served g h w c
    → ((c.generation == task.generation) ≡ true
        → (find_response task.seq h ≡ none) × (task.seq < c.next_request_seq))
    → (r : Connection × Bool) × (complete_task c task ≡ some r)
unfolding complete_task
complete_task-returns g h w c task served mine =
    elim (Bool-cases (c.generation == task.generation)) [
      | inl same ↦
          let (new, there) = mine same in
          let (r, e) =
            has_result _
              (complete_task c
                (record { generation = c.generation; seq = task.seq; response = task.response }))
              (complete_task-OnResult h w c task.seq task.response
                (Served-IsServed g h w c served).0 there new) in
          (r, rw same (rw (==_refl c.generation) at e))
      | inr other ↦ ((c, false), rw other refl)
    ]
