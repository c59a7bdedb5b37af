-- ===== src/Server/Steps.antt =====
-- What each event does to the answers of a connection.
use nova_kv.Prelude.{
  ℕ, ◌+◌, ◌≤◌, ◌<◌, ◌≡◌, refl, sym, ap, subst, ◌∙◌, inl, inr, arith, Bool, false, Bytes, [], ◌∷◌,
  ◌++◌, append_assoc, Option, none, some, take, drop, take-append-drop, ◌==◌, ==_refl, ltb,
  if◌then◌else◌, Bool-cases, u64_mod,
}
use nova_kv.NetworkBuffer.{NetworkBuffer, peek}
use nova_kv.NetworkBuffer.Queue.{Holds, retrieve-Holds, peek-Holds, Holds-new_buffer}
use nova_kv.Resp.Parser.{Parser}
use nova_kv.Server.{
  Connection, new_connection, drain_ready, next_request, complete_task, fail_response,
  fail_connection_protocol, wrote,
}
use nova_kv.Server.Pending.{
  Responses, find_response, emplace_response, find_response-cons, emplace_response-new,
}
use nova_kv.Server.Order.{replies, replies-cons, IsServing, IsDrained, drain_ready-IsServing}

pub add_response :
    (h : Responses) (w : Bytes) (c c0 : Connection) (seq : ℕ) (r : Bytes)
    → IsServing h w c
    → find_response seq h ≡ none
    → c0.output_buffer ≡ c.output_buffer
    → c0.next_write_seq ≡ c.next_write_seq
    → c0.pending_responses ≡ emplace_response seq r c.pending_responses
    → c.next_request_seq ≤ c0.next_request_seq
    → c0.next_request_seq < u64_mod
    → seq < c0.next_request_seq
    → IsServing ((seq, r) ∷ h) w c0
add_response h w c c0 seq r ok new same_output same_next pending le small there = record {
  queue = ok.queue;
  holds = subst (λ b. Holds b ok.queue) (sym same_output) ok.holds;
  sent =
      ok.sent
      ∙ sym (replies-cons c.next_write_seq seq r h ahead)
      ∙ ap (λ k. replies k ((seq, r) ∷ h)) (sym same_next);
  order = omega (arith, same_next, ok.order);
  bound = small;
  waits = λ j from.
      ap (find_response j) now
      ∙ find_response-cons seq j r c.pending_responses
      ∙ ap (λ o. if seq == j then some r else o) (ok.waits j (omega (arith, same_next, from)))
      ∙ sym (find_response-cons seq j r h);
  gone = λ j below.
      let other : (seq == j) ≡ false = ground (arith, same_next, below, ahead) in
      ap (find_response j) now
      ∙ find_response-cons seq j r c.pending_responses
      ∙ rw other (ok.gone j (omega (arith, same_next, below)));
  done = λ j below e.
      ok.done j (omega (arith, same_next, below))
        (not_new j (sym (find_response-cons seq j r h) ∙ e));
  known = λ j from.
      let other : (seq == j) ≡ false = ground (arith, from, there) in
      find_response-cons seq j r h ∙ rw other (ok.known j (omega (arith, from, le)));
}
  where
    ahead : c.next_write_seq ≤ seq
    ahead = elim (Bool-cases (ltb seq c.next_write_seq)) [
      | inl less ↦ absurd (IsServing.done ok seq (ground arith) new)
      | inr more ↦ ground arith
    ]

    now : c0.pending_responses ≡ (seq, r) ∷ c.pending_responses
    now =
        pending
        ∙ emplace_response-new seq r c.pending_responses (IsServing.waits ok seq ahead ∙ new)

    not_new :
        (j : ℕ) → (if seq == j then some r else find_response j h) ≡ none → find_response j h ≡ none
    not_new j e = elim (Bool-cases (seq == j)) [
      | inl same ↦ let e' : some r ≡ none = rw same at e in cc
      | inr other ↦ rw other at e
    ]

-- Facts about the connection that a result has.
abbrev pub OnResult : (Connection → Type 0) → Option (Connection × Bool) → Type 0
OnResult P none = ⊥
OnResult P (some (c, b)) = P c

abbrev pub IsServed : Responses → Bytes → Connection → Type 0
IsServed h w c = IsServing h w c × IsDrained c

pub drained-OnResult :
    (h : Responses) (w : Bytes) (c : Connection)
    → IsServing h w c
    → OnResult (IsServed h w) (drain_ready c)
drained-OnResult h w c ok =
    let (c', b, e, ok', off, same) = drain_ready-IsServing h w c ok in
    subst (OnResult (IsServed h w)) (sym e) (ok', off)

pub complete_task-OnResult :
    (h : Responses) (w : Bytes) (c : Connection) (seq : ℕ) (r : Bytes)
    → IsServing h w c
    → seq < c.next_request_seq
    → find_response seq h ≡ none
    → OnResult
        (IsServed ((seq, r) ∷ h) w)
        (complete_task c (record { generation = c.generation; seq = seq; response = r }))
unfolding complete_task
complete_task-OnResult h w c seq r ok there new =
    let c0 = record c { pending_responses = emplace_response seq r c.pending_responses } in
    subst
      (λ b. OnResult (IsServed ((seq, r) ∷ h) w) (if b then drain_ready c0 else some (c, false)))
      (sym (==_refl c.generation))
      (drained-OnResult ((seq, r) ∷ h) w c0
        (add_response h w c c0 seq r ok new refl refl refl (omega arith) ok.bound there))

pub fail-OnResult :
    (h : Responses) (w : Bytes) (c : Connection) (msg : Bytes)
    → IsServing h w c
    → c.next_request_seq + 1 < u64_mod
    → OnResult
        (IsServed ((c.next_request_seq, fail_response msg) ∷ h) w)
        (fail_connection_protocol c msg)
unfolding fail_connection_protocol next_request
fail-OnResult h w c msg ok small =
    drained-OnResult ((c.next_request_seq, fail_response msg) ∷ h) w _ (
      add_response h w c _ c.next_request_seq (fail_response msg) ok
        (ok.known c.next_request_seq (omega arith)) refl refl refl (omega (arith, small))
        (omega (arith, small)) (omega (arith, small)))

-- A connection that differs only in what it reads.
pub same_answers :
    (h : Responses) (w : Bytes) (c c' : Connection)
    → IsServed h w c
    → c'.output_buffer ≡ c.output_buffer
    → c'.next_write_seq ≡ c.next_write_seq
    → c'.next_request_seq ≡ c.next_request_seq
    → c'.pending_responses ≡ c.pending_responses
    → IsServed h w c'
same_answers h w c c' (ok, off) output written requested pending = (
  record {
    queue = ok.queue;
    holds = subst (λ b. Holds b ok.queue) (sym output) ok.holds;
    sent = ok.sent ∙ ap (λ n. replies n h) (sym written);
    order = omega (arith, ok.order, written, requested);
    bound = omega (arith, ok.bound, requested);
    waits = λ j from. ap (find_response j) pending ∙ ok.waits j (omega (arith, from, written));
    gone = λ j below. ap (find_response j) pending ∙ ok.gone j (omega (arith, below, written));
    done = λ j below. ok.done j (omega (arith, below, written));
    known = λ j from. ok.known j (omega (arith, from, requested));
  },
  ap (λ n. find_response n c'.pending_responses) written
      ∙ ap (find_response c.next_write_seq) pending
      ∙ off,
)

pub requests-IsServed :
    (h : Responses) (w : Bytes) (c : Connection) (input : NetworkBuffer) (p : Parser)
    → IsServed h w c
    → c.next_request_seq + 1 < u64_mod
    → IsServed h w (record (next_request c).0 { input_buffer = input; parser = p })
unfolding next_request
requests-IsServed h w c input p (ok, off) small = (
  record {
    queue = ok.queue;
    holds = ok.holds;
    sent = ok.sent;
    order = omega (arith, small, ok.order);
    bound = omega (arith, small);
    waits = ok.waits;
    gone = ok.gone;
    done = ok.done;
    known = λ j from. ok.known j (omega (arith, from, small));
  },
  off,
)

pub wrote-IsServed :
    (h : Responses) (w : Bytes) (c : Connection) (n : ℕ)
    → IsServed h w c
    → IsServed h (w ++ take n (peek c.output_buffer)) (wrote n c)
unfolding wrote
wrote-IsServed h w c n (ok, off) = (
  record {
    queue = drop n ok.queue;
    holds = retrieve-Holds n ok.holds;
    sent =
        append_assoc w (take n (peek c.output_buffer)) (drop n ok.queue)
        ∙ ap (λ t. w ++ (take n t ++ drop n ok.queue)) (peek-Holds ok.holds)
        ∙ ap (λ t. w ++ t) (take-append-drop n ok.queue)
        ∙ ok.sent;
    order = ok.order;
    bound = ok.bound;
    waits = ok.waits;
    gone = ok.gone;
    done = ok.done;
    known = ok.known;
  },
  off,
)

pub starts-IsServed : (g : ℕ) → IsServed [] [] (new_connection g)
unfolding find_response replies
starts-IsServed g = (
  record {
    queue = [];
    holds = Holds-new_buffer 1024;
    sent = refl;
    order = omega arith;
    bound = omega arith;
    waits = λ j from. refl;
    gone = λ j below. refl;
    done = λ j below. absurd (omega (arith, below));
    known = λ j from. refl;
  },
  refl,
)
