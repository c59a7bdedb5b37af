-- ===== src/Server/Served.antt =====
-- Every history of a connection: requests, workers that finish in any order, a protocol failure and
-- writes to the socket.
use nova_kv.Prelude.{
  ℕ, ◌+◌, ◌≤◌, ◌<◌, ◌≡◌, ◌≢◌, refl, sym, ap, subst, ◌∙◌, inl, inr, arith, Bool, true, Bytes, [],
  ◌∷◌, ◌++◌, append-nil, none, some, length, take, ==_refl, ltb, Bool-cases, u64_mod,
}
use nova_kv.NetworkBuffer.{NetworkBuffer, readable_bytes, peek, retrieve_all}
use nova_kv.NetworkBuffer.Queue.{Holds, readable_bytes-Holds}
use nova_kv.Resp.Parser.{Parser}
use nova_kv.Server.{
  Connection, new_connection, next_request, complete_task, fail_response, fail_connection_protocol,
  wrote, is_connection_drained,
}
use nova_kv.Server.Pending.{Responses, find_response}
use nova_kv.Server.Order.{replies, IsServing, IsDrained}
use nova_kv.Server.Steps.{
  OnResult, IsServed, complete_task-OnResult, fail-OnResult, same_answers, requests-IsServed,
  wrote-IsServed, starts-IsServed,
}

-- A connection after some events, with the answers that the workers finished, the newest first, and
-- the bytes that were written to the socket. A worker finishes each request once. A connection has
-- fewer than 2^64 requests.
pub data Served (generation : ℕ) : Responses → Bytes → Connection → Type 0 where
  starts : Served generation [] [] (new_connection generation)
  requests :
      {h : Responses} {w : Bytes} {c : Connection} (input : NetworkBuffer) (p : Parser)
      → Served generation h w c
      → c.next_request_seq + 1 < u64_mod
      → Served generation h w (record (next_request c).0 { input_buffer = input; parser = p })
  reads :
      {h : Responses} {w : Bytes} {c : Connection} (input : NetworkBuffer) (p : Parser)
      → Served generation h w c
      → Served generation h w (record c { input_buffer = input; parser = p })
  stops :
      {h : Responses} {w : Bytes} {c : Connection}
      → Served generation h w c
      → Served generation h w
          (record c { closing = true; input_buffer = retrieve_all c.input_buffer })
  completes :
      {h : Responses} {w : Bytes} {c : Connection} (seq : ℕ) (r : Bytes) (c' : Connection)
      (b : Bool)
      → Served generation h w c
      → seq < c.next_request_seq
      → find_response seq h ≡ none
      → complete_task c (record { generation = c.generation; seq = seq; response = r })
        ≡ some (c', b)
      → Served generation ((seq, r) ∷ h) w c'
  fails :
      {h : Responses} {w : Bytes} {c : Connection} (msg : Bytes) (c' : Connection) (b : Bool)
      → Served generation h w c
      → c.next_request_seq + 1 < u64_mod
      → fail_connection_protocol c msg ≡ some (c', b)
      → Served generation ((c.next_request_seq, fail_response msg) ∷ h) w c'
  writes :
      {h : Responses} {w : Bytes} {c : Connection} (n : ℕ)
      → Served generation h w c
      → Served generation h (w ++ take n (peek c.output_buffer)) (wrote n c)

pub Served-IsServed :
    (g : ℕ) (h : Responses) (w : Bytes) (c : Connection) → Served g h w c → IsServed h w c
Served-IsServed g _ _ _ starts = starts-IsServed g
Served-IsServed g h w _ (requests {c = c} input p s small) =
    requests-IsServed h w c input p (Served-IsServed g h w c s) small
Served-IsServed g h w _ (reads {c = c} input p s) =
    same_answers h w c _ (Served-IsServed g h w c s) refl refl refl refl
Served-IsServed g h w _ (stops {c = c} s) =
    same_answers h w c _ (Served-IsServed g h w c s) refl refl refl refl
Served-IsServed g _ w _ (completes {h = h} {c = c} seq r c' b s there new e) =
    subst (OnResult (IsServed ((seq, r) ∷ h) w)) e
      (complete_task-OnResult h w c seq r (Served-IsServed g h w c s).0 there new)
Served-IsServed g _ w _ (fails {h = h} {c = c} msg c' b s small e) =
    subst (OnResult (IsServed ((c.next_request_seq, fail_response msg) ∷ h) w)) e
      (fail-OnResult h w c msg (Served-IsServed g h w c s).0 small)
Served-IsServed g h _ _ (writes {w = w} {c = c} n s) =
    wrote-IsServed h w c n (Served-IsServed g h w c s)

-- Workers finish the requests of a connection in any order: what the client was sent, and then what
-- waits in the output buffer, are the answers to the first requests in the order of the requests, none
-- missing; the answer to the request after them is not finished, so none is held back that could
-- go.
pub answers_in_order :
    (g : ℕ) (h : Responses) (w : Bytes) (c : Connection)
    → Served g h w c
    → ((queue : Bytes) × Holds c.output_buffer queue × (w ++ queue ≡ replies c.next_write_seq h))
      × ((j : ℕ) → j < c.next_write_seq → find_response j h ≢ none)
      × (find_response c.next_write_seq h ≡ none)
      × (c.next_write_seq ≤ c.next_request_seq)
answers_in_order g h w c s =
    let (ok, off) = Served-IsServed g h w c s in
    (
      (ok.queue, ok.holds, ok.sent),
      ok.done,
      sym (ok.waits c.next_write_seq (omega arith)) ∙ off,
      ok.order,
    )

none_left : (m : Responses) → ((j : ℕ) → find_response j m ≡ none) → m ≡ []
unfolding find_response
none_left [] f = refl
none_left ((i, r) ∷ m) f = ground (arith, f i)

module _ (h : Responses) (w : Bytes) (c : Connection) (ok : IsServing h w c)
    (off : IsDrained c) where
  all_sent :
      ((j : ℕ) → j < c.next_request_seq → find_response j h ≢ none)
      → c.next_write_seq ≡ c.next_request_seq
  all_sent every = elim (Bool-cases (ltb c.next_write_seq c.next_request_seq)) [
    | inl less ↦ absurd (
        every c.next_write_seq (ground arith) (sym (ok.waits c.next_write_seq (omega arith)) ∙ off))
    | inr same ↦ ground (arith, ok.order)
  ]

  nothing_pending : c.next_write_seq ≡ c.next_request_seq → c.pending_responses ≡ []
  nothing_pending same = none_left c.pending_responses (λ j.
      elim (Bool-cases (ltb j c.next_write_seq)) [
        | inl less ↦ ok.gone j (ground arith)
        | inr more ↦ ok.waits j (ground arith) ∙ ok.known j (ground (arith, same))
      ])

  nothing_queued : readable_bytes c.output_buffer ≡ 0 → ok.queue ≡ []
  nothing_queued empty = no_length ok.queue (sym (readable_bytes-Holds ok.holds) ∙ empty)
    where
      no_length : (t : Bytes) → length t ≡ 0 → t ≡ []
      no_length [] e = refl
      no_length (a ∷ t) e = absurd (omega (arith, e))

-- Once the workers have finished every request and the output buffer is empty, the client was sent
-- the answers to all requests in their order, and IsConnectionDrained says so, which lets a closing
-- connection be closed.
pub all_answered :
    (g : ℕ) (h : Responses) (w : Bytes) (c : Connection)
    → Served g h w c
    → ((j : ℕ) → j < c.next_request_seq → find_response j h ≢ none)
    → readable_bytes c.output_buffer ≡ 0
    → (w ≡ replies c.next_request_seq h) × (is_connection_drained c ≡ true)
unfolding is_connection_drained
all_answered g h w c s every empty =
    let (ok, off) = Served-IsServed g h w c s in
    let same = all_sent h w c ok off every in
    (
      sym (append-nil w)
          ∙ ap (λ t. w ++ t) (sym (nothing_queued h w c ok off empty))
          ∙ ok.sent
          ∙ ap (λ n. replies n h) same,
      rw (empty, nothing_pending h w c ok off same, same) (==_refl c.next_request_seq),
    )
