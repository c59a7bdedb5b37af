-- ===== src/TcpServer/Alike.antt =====
-- What completions and failures leave alone in a connection, and the count of its answers.
use nova_kv.Prelude.{
  ℕ, zero, suc, ◌+◌, ◌<◌, ◌≡◌, refl, sym, ap, subst, ◌∙◌, inl, inr, arith, Bool, true, false, Bytes,
  ◌∷◌, none, some, ◌==◌, ltb, if◌then◌else◌, Bool-cases, Option-cases, u64_mod,
}
use nova_kv.ThreadPool.Steps.{one_if}
use nova_kv.Server.{
  Connection, CompletedTask, send_ready, drain_loop, drain_ready, next_request, complete_task,
  fail_connection_protocol,
}
use nova_kv.Server.Pending.{Responses, find_response, find_response-cons}
use nova_kv.TcpServer.{protocol_error}
use nova_kv.TcpServer.Sound.{answered}

-- What the loop over the ready responses leaves alone.
pub record Alike (c c' : Connection) : Type 0 where
  pub generation : c'.generation ≡ c.generation
  pub requested : c'.next_request_seq ≡ c.next_request_seq
  pub closing : c'.closing ≡ c.closing
  pub input : c'.input_buffer ≡ c.input_buffer
  pub parser : c'.parser ≡ c.parser

pub same_one : (c : Connection) → Alike c c
same_one c = record {
  generation = refl;
  requested = refl;
  closing = refl;
  input = refl;
  parser = refl;
}

pub drain_loop-Alike :
    (fuel : ℕ) (c c' : Connection) (b b' : Bool) → drain_loop fuel c b ≡ some (c', b') → Alike c c'
unfolding drain_loop
drain_loop-Alike zero c c' b b' e = absurd (cc e)
drain_loop-Alike (suc fuel) c c' b b' e =
    elim (Option-cases (find_response c.next_write_seq c.pending_responses)) [
      | inl off ↦
          let e' : some (c, b) ≡ some (c', b') = rw (off, drain_loop) at e in
          let same : c ≡ c' = cc e' in subst (Alike c) same (same_one c)
      | inr (r, found) ↦
          let e' : drain_loop fuel (send_ready c r) true ≡ some (c', b') =
            rw (found, drain_loop) at e in
          let rest = drain_loop-Alike fuel (send_ready c r) c' true b' e' in
          let step : Alike c (send_ready c r) =
            unfold send_ready in
            record {
              generation = refl;
              requested = refl;
              closing = refl;
              input = refl;
              parser = refl;
            } in
          record {
            generation = rest.generation ∙ step.generation;
            requested = rest.requested ∙ step.requested;
            closing = rest.closing ∙ step.closing;
            input = rest.input ∙ step.input;
            parser = rest.parser ∙ step.parser;
          }
    ]

pub complete_task-Alike :
    (c c' : Connection) (task : CompletedTask) (b : Bool)
    → complete_task c task ≡ some (c', b)
    → Alike c c'
unfolding complete_task drain_ready
complete_task-Alike c c' task b e = elim (Bool-cases (c.generation == task.generation)) [
  | inl same ↦
      let e' = rw same at e in
      let rest = drain_loop-Alike _ _ c' false b e' in
      record {
        generation = rest.generation;
        requested = rest.requested;
        closing = rest.closing;
        input = rest.input;
        parser = rest.parser;
      }
  | inr other ↦
      let e' : some (c, false) ≡ some (c', b) = rw other at e in
      let same : c ≡ c' = cc e' in subst (Alike c) same (same_one c)
]

pub answered-cons :
    (j k : ℕ) (r : Bytes) (h : Responses)
    → answered j ((k, r) ∷ h) ≡ (if k == j then 1 else answered j h)
unfolding answered
answered-cons j k r h = elim (Bool-cases (k == j)) [
  | inl same ↦ rw (find_response-cons k j r h, answered) (rw same refl)
  | inr other ↦ rw (find_response-cons k j r h, answered) (rw other refl)
]

-- An answer that was to come has come.
pub counted_more :
    (out out' : ℕ → ℕ) (j seq : ℕ) (r : Bytes) (h : Responses) (v : ℕ)
    → find_response seq h ≡ none
    → out j ≡ out' j + one_if (seq == j)
    → out j + answered j h ≡ v
    → out' j + answered j ((seq, r) ∷ h) ≡ v
unfolding one_if
counted_more out out' j seq r h v new less now = elim (Bool-cases (seq == j)) [
  | inl same ↦
      let at : seq ≡ j = ground arith in
      let less' : out j ≡ out' j + 1 = rw same at less in
      let unanswered : answered j h ≡ 0 =
        unfold answered in rw (sym (ap (λ k. find_response k h) at) ∙ new, answered) refl in
      rw (answered-cons j seq r h) (rw same (omega (arith, less', now, unanswered)))
  | inr other ↦
      let less' : out j ≡ out' j + 0 = rw other at less in
      rw (answered-cons j seq r h) (rw other (omega (arith, less', now)))
]

-- The next request is answered at once.
pub failed_more :
    (out : ℕ → ℕ) (j seq : ℕ) (r : Bytes) (h : Responses)
    → find_response seq h ≡ none
    → out seq ≡ 0
    → out j + answered j h ≡ one_if (ltb j seq)
    → out j + answered j ((seq, r) ∷ h) ≡ one_if (ltb j (seq + 1))
unfolding one_if
failed_more out j seq r h new none_out now = elim (Bool-cases (seq == j)) [
  | inl same ↦
      let at : seq ≡ j = ground arith in
      let none_out' : out j ≡ 0 = ap out (sym at) ∙ none_out in
      rw (answered-cons j seq r h) (rw same (ground (arith, none_out')))
  | inr other ↦ rw (answered-cons j seq r h) (rw other (ground (arith, now)))
]

-- What a failure leaves of the connection.
pub record Failed (c c' : Connection) : Type 0 where
  pub generation : c'.generation ≡ c.generation
  pub requested : c'.next_request_seq ≡ c.next_request_seq + 1
  pub closing : c'.closing ≡ true

pub fail_connection_protocol-Failed :
    (c c' : Connection) (b : Bool)
    → c.next_request_seq + 1 < u64_mod
    → fail_connection_protocol c protocol_error ≡ some (c', b)
    → Failed c c'
unfolding fail_connection_protocol drain_ready next_request
fail_connection_protocol-Failed c c' b small e =
    let rest = drain_loop-Alike _ _ c' false b e in
    record {
      generation = rest.generation;
      requested = rest.requested ∙ omega (arith, small);
      closing = rest.closing;
    }
