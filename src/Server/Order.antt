-- ===== src/Server/Order.antt =====
-- The answers of a connection and the order of its requests.
use nova_kv.Prelude.{
  ℕ, zero, suc, ◌+◌, ◌%◌, ◌≤◌, ◌<◌, ◌≡◌, ◌≢◌, refl, sym, ap, ◌∙◌, inl, inr, arith, Bool, true,
  false, Bytes, [], ◌∷◌, ◌++◌, append_assoc, none, some, length, ◌==◌, ltb, Bool-cases,
  Option-cases, u64_mod,
}
use nova_kv.NetworkBuffer.Queue.{Holds, append-Holds}
use nova_kv.Server.{Connection, send_ready, drain_loop, drain_ready}
use nova_kv.Server.Pending.{
  Responses, find_response, erase_response, find_response-cons, find_response-erase_response,
  erase_response_lt,
}

-- The answer to a request that is done.
unfoldable pub reply : ℕ → Responses → Bytes
reply n h = elim (find_response n h) [ none ↦ [] | some r ↦ r ]

-- The answers to the first `n` requests, one behind the other.
unfoldable pub replies : ℕ → Responses → Bytes
replies zero h = []
replies (suc n) h = replies n h ++ reply n h

-- What holds of a connection at every moment: `h` are the answers of the workers, the newest first,
-- and `w` the bytes that the client was sent.
pub record IsServing (h : Responses) (w : Bytes) (c : Connection) : Type 0 where
  pub queue : Bytes
  pub holds : Holds c.output_buffer queue
  pub sent : w ++ queue ≡ replies c.next_write_seq h
  pub order : c.next_write_seq ≤ c.next_request_seq
  pub bound : c.next_request_seq < u64_mod
  pub waits :
      (j : ℕ) → c.next_write_seq ≤ j → find_response j c.pending_responses ≡ find_response j h
  pub gone : (j : ℕ) → j < c.next_write_seq → find_response j c.pending_responses ≡ none
  pub done : (j : ℕ) → j < c.next_write_seq → find_response j h ≢ none
  pub known : (j : ℕ) → c.next_request_seq ≤ j → find_response j h ≡ none

pub replies-cons :
    (n k : ℕ) (r : Bytes) (h : Responses) → n ≤ k → replies n ((k, r) ∷ h) ≡ replies n h
unfolding replies reply
replies-cons zero k r h le = refl
replies-cons (suc n) k r h le =
    let other : (k == n) ≡ false = ground arith in
    rw (replies-cons n k r h (omega arith), find_response-cons k n r h, reply) (rw other refl)

-- One round of the loop keeps all of it.
send_ready-IsServing :
    (h : Responses) (w : Bytes) (c : Connection) (r : Bytes)
    → IsServing h w c
    → find_response c.next_write_seq c.pending_responses ≡ some r
    → IsServing h w (send_ready c r)
unfolding send_ready
send_ready-IsServing h w c r ok found = record {
  queue = ok.queue ++ r;
  holds = (append-Holds r ok.holds).0;
  sent =
      sym (append_assoc w ok.queue r)
      ∙ ap (λ t. t ++ r) ok.sent
      ∙ ap (λ t. replies n h ++ t) (sym this)
      ∙ (unfold replies in ap (λ k. replies k h) (sym step));
  order = omega (arith, earlier);
  bound = ok.bound;
  waits = λ j le. later j (omega (arith, le, step));
  gone = λ j lt. erased j (omega (arith, lt, step));
  done = λ j lt. over j (omega (arith, lt, step));
  known = ok.known;
}
  where
    n : ℕ
    n = c.next_write_seq

    answered : find_response c.next_write_seq h ≡ some r
    answered = sym (IsServing.waits ok c.next_write_seq (omega arith)) ∙ found

    earlier : c.next_write_seq < c.next_request_seq
    earlier = ground (arith, IsServing.known ok c.next_write_seq, answered)

    step : (c.next_write_seq + 1) % u64_mod ≡ suc c.next_write_seq
    step = omega (arith, earlier, IsServing.bound ok)

    this : reply c.next_write_seq h ≡ r
    this = unfold reply in rw (answered, reply) refl

    later :
        (j : ℕ)
        → suc c.next_write_seq ≤ j
        → find_response j (erase_response c.next_write_seq c.pending_responses) ≡ find_response j h
    later j le =
        let other : (c.next_write_seq == j) ≡ false = ground arith in
        find_response-erase_response c.next_write_seq j c.pending_responses
        ∙ rw other (IsServing.waits ok j (omega arith))

    erased :
        (j : ℕ)
        → j < suc c.next_write_seq
        → find_response j (erase_response c.next_write_seq c.pending_responses) ≡ none
    erased j lt =
        find_response-erase_response c.next_write_seq j c.pending_responses
        ∙ ground (arith, IsServing.gone ok j)

    over : (j : ℕ) → j < suc c.next_write_seq → find_response j h ≢ none
    over j lt e = elim (Bool-cases (ltb j c.next_write_seq)) [
      | inl less ↦ IsServing.done ok j (ground arith) e
      | inr same ↦
          let at : j ≡ c.next_write_seq = ground arith in
          cc (ap (λ k. find_response k h) at, e, answered)
    ]

-- Nothing that is ready is held back.
abbrev pub IsDrained : Connection → Type 0
IsDrained c = find_response c.next_write_seq c.pending_responses ≡ none

-- What the loop keeps besides.
abbrev pub SameRequests : Connection → Connection → Type 0
SameRequests c c' = c'.next_request_seq ≡ c.next_request_seq

drain_loop-IsServing :
    (fuel : ℕ) (h : Responses) (w : Bytes) (c : Connection) (appended : Bool)
    → IsServing h w c
    → length c.pending_responses < fuel
    → (c' : Connection) × (b : Bool) × (drain_loop fuel c appended ≡ some (c', b))
      × IsServing h w c'
      × IsDrained c'
      × SameRequests c c'
unfolding drain_loop
drain_loop-IsServing zero h w c appended ok lt = absurd (omega arith)
drain_loop-IsServing (suc fuel) h w c appended ok lt =
    elim (Option-cases (find_response c.next_write_seq c.pending_responses)) [
      | inl off ↦ (c, appended, rw (off, drain_loop) refl, ok, off, refl)
      | inr (r, found) ↦
          let (c', b, e, ok', off, same) =
            drain_loop-IsServing fuel h w (send_ready c r) true
              (send_ready-IsServing h w c r ok found)
              (unfold send_ready in
                omega (arith, erase_response_lt c.next_write_seq r c.pending_responses found)) in
          (c', b, rw (found, drain_loop) e, ok', off, same ∙ (unfold send_ready in refl))
    ]

pub drain_ready-IsServing :
    (h : Responses) (w : Bytes) (c : Connection)
    → IsServing h w c
    → (c' : Connection) × (b : Bool) × (drain_ready c ≡ some (c', b))
      × IsServing h w c'
      × IsDrained c'
      × SameRequests c c'
unfolding drain_ready
drain_ready-IsServing h w c ok =
    drain_loop-IsServing (suc (length c.pending_responses)) h w c false ok (omega arith)
