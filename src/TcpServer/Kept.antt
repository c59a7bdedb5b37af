-- ===== src/TcpServer/Kept.antt =====
-- What each event does to one connection of the server.
use nova_kv.Prelude.{
  ℕ, ◌+◌, ◌<◌, ◌≡◌, refl, sym, subst, ◌∙◌, inl, inr, arith, Bool, false, Bytes, List, [], ◌∷◌, none,
  some, ◌==◌, Bool-cases, u64_mod,
}
use nova_kv.NetworkBuffer.{NetworkBuffer}
use nova_kv.NetworkBuffer.Queue.{Holds, Holds-new_buffer}
use nova_kv.Resp.Parser.{Parser}
use nova_kv.Resp.Rounds.{IsParser}
use nova_kv.ThreadPool.Steps.{one_if}
use nova_kv.Server.{
  Connection, CompletedTask, new_connection, next_request, complete_task, fail_response,
  fail_connection_protocol, wrote,
}
use nova_kv.Server.Pending.{Responses, find_response, find_response-cons}
use nova_kv.Server.Served.{Served, starts, requests, reads, stops, completes, fails, writes}
use nova_kv.TcpServer.{Interest, Socket, protocol_error}
use nova_kv.TcpServer.Writes.{write_some}
use nova_kv.TcpServer.Stops.{stop_connection}
use nova_kv.TcpServer.Sound.{answered, InLog, IsFrom, IsReading, IsKept}
use nova_kv.TcpServer.Alike.{
  complete_task-Alike, counted_more, failed_more, fail_connection_protocol-Failed,
}

module _ (log : List (ℕ × CompletedTask)) (fd : ℕ) where
  IsFrom-more :
      (g j seq : ℕ) (r r' : Bytes) (h : Responses)
      → IsFrom log fd g seq r
      → (find_response j h ≡ some r' → IsFrom log fd g j r')
      → find_response j ((seq, r) ∷ h) ≡ some r'
      → IsFrom log fd g j r'
  IsFrom-more g j seq r r' h first rest found = elim (Bool-cases (seq == j)) [
    | inl same ↦
        let at : seq ≡ j = ground arith in
        let e : some r ≡ some r' = rw same at (sym (find_response-cons seq j r h) ∙ found) in
        let is : r ≡ r' = cc e in
        subst (λ k. IsFrom log fd g k r') at (subst (IsFrom log fd g seq) is first)
    | inr other ↦ rest (rw other at (sym (find_response-cons seq j r h) ∙ found))
  ]

  -- A connection that differs only in what it reads or in the events that are watched.
  pub kept_reads :
      (out : ℕ → ℕ) (sock : Socket) (input : NetworkBuffer) (p : Parser)
      → IsKept out log fd sock
      → (sock.connection.closing ≡ false → IsReading input p)
      → IsKept out log fd
          (record sock { connection = record sock.connection { input_buffer = input; parser = p } })
  kept_reads out sock input p ok can = record {
    h = ok.h;
    served = reads input p ok.served;
    counted = ok.counted;
    origin = ok.origin;
    parses = can;
  }

  pub kept_switches :
      (out : ℕ → ℕ) (sock : Socket) (i : Interest)
      → IsKept out log fd sock
      → IsKept out log fd (record sock { interest = i })
  kept_switches out sock i ok = record {
    h = ok.h;
    served = ok.served;
    counted = ok.counted;
    origin = ok.origin;
    parses = ok.parses;
  }

  pub kept_stops :
      (out : ℕ → ℕ) (sock : Socket)
      → IsKept out log fd sock
      → IsKept out log fd (record sock { connection = stop_connection sock.connection })
  unfolding stop_connection
  kept_stops out sock ok = record {
    h = ok.h;
    served = stops ok.served;
    counted = ok.counted;
    origin = ok.origin;
    parses = λ reading. absurd (cc reading);
  }

  pub kept_writes :
      (out : ℕ → ℕ) (n : ℕ) (sock : Socket)
      → IsKept out log fd sock
      → IsKept out log fd (write_some n sock)
  unfolding write_some wrote
  kept_writes out n sock ok = record {
    h = ok.h;
    served = unfold wrote in writes n ok.served;
    counted = ok.counted;
    origin = ok.origin;
    parses = ok.parses;
  }

  -- The next request is parsed, and its answer is to come.
  pub kept_requests :
      (out out' : ℕ → ℕ) (sock : Socket) (input : NetworkBuffer) (p : Parser)
      → IsKept out log fd sock
      → (sock.connection.closing ≡ false → IsReading input p)
      → sock.connection.next_request_seq + 1 < u64_mod
      → ((j : ℕ) → out' j ≡ out j + one_if (sock.connection.next_request_seq == j))
      → IsKept out' log fd (record sock {
        connection = (next_request (record sock.connection { input_buffer = input; parser = p })).0;
      })
  unfolding next_request one_if
  kept_requests out out' sock input p ok can small more = record {
    h = ok.h;
    served = unfold next_request in requests input p ok.served small;
    counted = λ j. ground (arith, small, more j, ok.counted j);
    origin = ok.origin;
    parses = can;
  }

  pub kept_starts :
      (out : ℕ → ℕ) (g : ℕ) (i : Interest)
      → ((j : ℕ) → out j ≡ 0)
      → IsKept out log fd (record { connection = new_connection g; interest = i; sent = [] })
  unfolding answered find_response one_if
  kept_starts out g i nothing = record {
    h = [];
    served = starts;
    counted = λ j. ground (arith, nothing j);
    origin = λ j r e. absurd (cc e);
    parses = λ reading. (([], Holds-new_buffer 1024), tt);
  }

  -- A request has no answer yet and one to come.
  pub unanswered :
      (out : ℕ → ℕ) (sock : Socket) (ok : IsKept out log fd sock) (j : ℕ)
      → 0 < out j
      → (find_response j ok.h ≡ none) × (j < sock.connection.next_request_seq)
  unfolding answered one_if
  unanswered out sock ok j some_out = ground (arith, ok.counted j, some_out)

  -- The next request has no answer, and none to come.
  unasked :
      (out : ℕ → ℕ) (sock : Socket) (ok : IsKept out log fd sock)
      → (find_response sock.connection.next_request_seq ok.h ≡ none)
        × (out sock.connection.next_request_seq ≡ 0)
  unfolding answered one_if
  unasked out sock ok = ground (arith, ok.counted sock.connection.next_request_seq)

  pub kept_completes :
      (out out' : ℕ → ℕ) (sock : Socket) (i : Interest) (seq : ℕ) (r : Bytes) (c' : Connection)
      (b : Bool)
      → IsKept out log fd sock
      → complete_task sock.connection
          (record { generation = sock.connection.generation; seq = seq; response = r })
        ≡ some (c', b)
      → ((j : ℕ) → out j ≡ out' j + one_if (seq == j))
      → InLog (fd, record { generation = sock.connection.generation; seq = seq; response = r }) log
      → IsKept out' log fd (record { connection = c'; interest = i; sent = sock.sent })
  unfolding one_if
  kept_completes out out' sock i seq r c' b ok e less logged =
      let alike = complete_task-Alike sock.connection c' _ b e in
      let (new, there) = unanswered out sock ok seq (ground (arith, less seq)) in
      record {
        h = (seq, r) ∷ ok.h;
        served =
            subst (λ g. Served g ((seq, r) ∷ ok.h) sock.sent c') (sym alike.generation)
              (completes seq r c' b ok.served there new e);
        counted = λ j.
            rw alike.requested (counted_more out out' j seq r ok.h _ new (less j) (ok.counted j));
        origin = λ j r' found.
            subst (λ g. IsFrom log fd g j r') (sym alike.generation)
              (IsFrom-more sock.connection.generation j seq r r' ok.h (inl logged) (ok.origin j r')
                found);
        parses = λ reading.
            let ((t, h), p) = ok.parses (sym alike.closing ∙ reading) in
            (
              (t, subst (λ x. Holds x t) (sym alike.input) h),
              subst (λ x. IsParser x) (sym alike.parser) p,
            );
      }

  pub kept_fails :
      (out : ℕ → ℕ) (sock : Socket) (input : NetworkBuffer) (p : Parser) (i : Interest)
      (c' : Connection) (b : Bool)
      → IsKept out log fd sock
      → sock.connection.next_request_seq + 1 < u64_mod
      → fail_connection_protocol
          (record sock.connection { input_buffer = input; parser = p })
          protocol_error
        ≡ some (c', b)
      → IsKept out log fd (record { connection = c'; interest = i; sent = sock.sent })
  unfolding one_if
  kept_fails out sock input p i c' b ok small e =
      let alike = fail_connection_protocol-Failed _ c' b small e in
      let r = fail_response protocol_error in
      let seq = sock.connection.next_request_seq in
      let (new, none_out) = unasked out sock ok in
      record {
        h = (seq, r) ∷ ok.h;
        served =
            subst (λ g. Served g ((seq, r) ∷ ok.h) sock.sent c') (sym alike.generation)
              (fails protocol_error c' b (reads input p ok.served) small e);
        counted =
            λ j. rw alike.requested (failed_more out j seq r ok.h new none_out (ok.counted j));
        origin = λ j r' found.
            subst (λ g. IsFrom log fd g j r') (sym alike.generation)
              (IsFrom-more sock.connection.generation j seq r r' ok.h (inr refl) (ok.origin j r')
                found);
        parses = λ reading. absurd (cc (alike.closing, reading));
      }
