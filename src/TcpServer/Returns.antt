-- ===== src/TcpServer/Returns.antt =====
-- The ends of the loops of HandleRead and HandleWorkerCompletions.
use nova_kv.Prelude.{
  ℕ, zero, suc, ◌+◌, ◌<◌, ◌≡◌, refl, sym, subst, ◌∙◌, inl, inr, arith, Bool, true, false, Bytes,
  List, [], ◌∷◌, ◌++◌, Option, some, length, ◌==◌, Option-cases, if_cases, if◌then◌else◌, u64_mod,
}
use nova_kv.NetworkBuffer.{NetworkBuffer, readable_bytes, read_from_fd}
use nova_kv.NetworkBuffer.Queue.{Holds, readable_bytes-Holds, read_from_fd-Holds}
use nova_kv.Resp.Parser.{ParseStatus, success, incomplete, error, Parsed}
use nova_kv.Resp.Progress.{parse-Moves, Moves}
use nova_kv.Resp.Rounds.{IsParser}
use nova_kv.ThreadPool.{enqueue}
use nova_kv.ThreadPool.Steps.{one_if}
use nova_kv.Server.{CompletedTask}
use nova_kv.Server.Served.{reads}
use nova_kv.Server.Returns.{fail_connection_protocol-returns, complete_task-returns}
use nova_kv.TcpServer.Sockets.{find_socket}
use nova_kv.TcpServer.{
  Socket, TcpServer, put_socket, protocol_error, fail_protocol, parsed_connection, after_parse,
  read_loop, ReadResult, received, end_of_stream, read_again, read_failed, read_socket, handle_read,
  maybe_finish_shutdown, close_connection, switch_events,
}
use nova_kv.TcpServer.Writes.{
  after_completion, complete_one, complete_all, WakeRead, drain_wake, handle_worker_completions,
}
use nova_kv.TcpServer.Owed.{owed, in_completed, is_completed, is_request}
use nova_kv.TcpServer.Sound.{IsSound, same-IsSound}
use nova_kv.TcpServer.Changes.{put_socket-IsSound, find-put_socket}
use nova_kv.TcpServer.Kept.{unanswered, kept_reads}
use nova_kv.TcpServer.Asked.{
  asked, asked-closing, asked-next_request_seq, the_task, with_task, with_task-IsSound, there_now,
}
use nova_kv.TcpServer.Reads.{FewRequests}
use nova_kv.TcpServer.Completions.{complete_one-IsSound}
use nova_kv.TcpServer.Taken.{with_queue}
use nova_kv.TcpServer.Served.{Reach, Reach-IsSound}

abbrev pub Returns : Option TcpServer → Type 0
Returns o = (s : TcpServer) × (o ≡ some s)

complete_one-Returns :
    (log : List (ℕ × CompletedTask)) (ok : Bool) (fd : ℕ) (task : CompletedTask)
    (tasks : List (ℕ × CompletedTask)) (s : TcpServer)
    → IsSound (with_queue ((fd, task) ∷ tasks) s) log
    → Returns (complete_one ok fd task s)
unfolding complete_one
complete_one-Returns log ok fd task tasks s sound =
    elim (Option-cases (find_socket fd s.connections)) [
      | inl off ↦ (s, rw (off, complete_one) refl)
      | inr (sock, there) ↦
          let k = sound.kept fd sock there in
          let (r, e) =
            complete_task-returns sock.connection.generation k.h sock.sent sock.connection task
              k.served
              (λ same.
                unanswered log fd
                  (owed (with_queue ((fd, task) ∷ tasks) s) fd sock.connection.generation) sock k
                  task.seq (mine sock same)) in
          (after_completion ok fd sock r s, rw (there, complete_one) (rw e refl))
    ]
  where
    mine :
        (sock : Socket)
        → (sock.connection.generation == task.generation) ≡ true
        → 0 < owed (with_queue ((fd, task) ∷ tasks) s) fd sock.connection.generation task.seq
    mine sock same =
        (unfold owed in_completed is_completed is_request one_if in ground (arith, same))

complete_all-Returns :
    (log : List (ℕ × CompletedTask)) (ok : ℕ → Bool) (n : ℕ) (tasks : List (ℕ × CompletedTask))
    (s : TcpServer)
    → IsSound (with_queue tasks s) log
    → Returns (complete_all ok n tasks s)
unfolding complete_all
complete_all-Returns log ok n [] s sound = (s, refl)
complete_all-Returns log ok n ((fd, task) ∷ tasks) s sound =
    let (t, e) = complete_one-Returns log (ok n) fd task tasks s sound in
    let (s', e') =
      complete_all-Returns log ok (suc n) tasks t
        (complete_one-IsSound log (ok n) fd task tasks s t sound e) in
    (s', rw (e, complete_all) e')

handle_worker_completions-Returns :
    (log : List (ℕ × CompletedTask)) (rs : List WakeRead) (ok : ℕ → Bool) (s : TcpServer)
    → IsSound s log
    → Returns (handle_worker_completions rs ok s)
unfolding handle_worker_completions
handle_worker_completions-Returns log rs ok s sound =
    let s0 = record s { completed_queue = []; woken = drain_wake rs s.woken } in
    let (s1, e) = complete_all-Returns log ok 0 s.completed_queue s0 (
      same-IsSound s (with_queue s.completed_queue s0) log sound refl refl
        (λ fd g j. unfold owed in refl) sound.done) in
    (maybe_finish_shutdown s1, rw (e, handle_worker_completions) refl)

-- The connection of a loop of HandleRead can be parsed on, with less than the fuel to read.
record CanRead (log : List (ℕ × CompletedTask)) (fd fuel : ℕ) (sock : Socket) (s : TcpServer)
    : Type 0 where
  pub sound : IsSound s log
  pub there : find_socket fd s.connections ≡ some sock
  pub reading : sock.connection.closing ≡ false
  pub bytes : Bytes
  pub holds : Holds sock.connection.input_buffer bytes
  pub parser : IsParser sock.connection.parser
  pub less : length bytes < fuel
  pub few : sock.connection.next_request_seq + fuel < u64_mod

module _ (log : List (ℕ × CompletedTask)) (fd : ℕ) (ok : Bool) where
  fail_protocol-Returns :
      (sock : Socket) (r : Parsed NetworkBuffer) (s : TcpServer)
      → IsSound s log
      → find_socket fd s.connections ≡ some sock
      → sock.connection.next_request_seq + 1 < u64_mod
      → Returns (
          fail_protocol ok fd
            (record sock { connection = parsed_connection sock.connection r.parser r.buffer })
            s)
  unfolding fail_protocol parsed_connection
  fail_protocol-Returns sock r s sound there small =
      let k = sound.kept fd sock there in
      let c = record sock.connection { input_buffer = r.buffer; parser = r.parser } in
      let (x, e) =
        fail_connection_protocol-returns sock.connection.generation k.h sock.sent c protocol_error
          (reads r.buffer r.parser k.served) small in
      (
        switch_events ok (record { input = false; output = x.1 }) fd
            (record sock { connection = x.0 }) s,
        rw (e, fail_protocol) refl,
      )

  after_parse-Returns :
      (fuel : ℕ) (more : Socket → TcpServer → Option TcpServer) (sock : Socket)
      (r : Parsed NetworkBuffer) (s : TcpServer) (t : Bytes) (status : ParseStatus)
      → ((x : Socket) (u : TcpServer) → CanRead log fd fuel x u → Returns (more x u))
      → (can : CanRead log fd (suc fuel) sock s) → r.status ≡ status
      → Holds r.buffer t
      → Moves (length can.bytes) (length t) r
      → Returns (after_parse more ok fd sock r s status)
  unfolding after_parse
  after_parse-Returns fuel more sock r s t success rest can is held moves =
      elim (Option-cases (enqueue (the_task fd sock r) s.thread_pool)) [
        | inl off ↦ (
          close_connection fd (put_socket fd (asked sock r) s),
          (unfold the_task asked in rw (off, after_parse) refl),
        )
        | inr (pool, on) ↦
            let (lt, p) = moves.0 is in
            let (same, input, parser) = asked-closing sock r in
            let next = asked-next_request_seq sock r in
            let (s', e) = rest (asked sock r) (with_task fd sock r s pool on) (record {
              sound =
                  with_task-IsSound log fd sock r s pool on can.sound can.there ((t, held), p)
                    (omega (arith, can.few));
              there = there_now fd sock r s pool on;
              reading = same ∙ can.reading;
              bytes = t;
              holds = subst (λ b. Holds b t) (sym input) held;
              parser = subst (λ q. IsParser q) (sym parser) p;
              less = omega (arith, lt, can.less);
              few = omega (arith, can.few, next);
            }) in
            (s', (unfold the_task asked with_task in rw (on, after_parse) e))
      ]
  after_parse-Returns fuel more sock r s t incomplete rest can is held moves = (_, refl)
  after_parse-Returns fuel more sock r s t error rest can is held moves =
      fail_protocol-Returns sock r s can.sound can.there (omega (arith, can.few))

  read_loop-Returns :
      (fuel : ℕ) (sock : Socket) (s : TcpServer)
      → CanRead log fd fuel sock s
      → Returns (read_loop fuel ok fd sock s)
  unfolding read_loop
  read_loop-Returns zero sock s can = absurd (omega (arith, can.less))
  read_loop-Returns (suc fuel) sock s can =
      let (r, e, t, held, moves) =
        parse-Moves sock.connection.parser sock.connection.input_buffer can.bytes can.parser
          can.holds in
      let (s', e') =
        after_parse-Returns fuel (λ x u. read_loop fuel ok fd x u) sock r s t r.status
          (λ x u c. read_loop-Returns fuel x u c) can refl held moves in
      (s', rw (e, read_loop) e')

  read_socket-Returns :
      (result : ReadResult) (sock : Socket) (s : TcpServer)
      → IsSound s log
      → find_socket fd s.connections ≡ some sock
      → sock.connection.closing ≡ false
      → FewRequests result fd s
      → Returns (read_socket ok result fd sock s)
  unfolding read_socket
  read_socket-Returns (received data_read) sock s sound there reading few =
      let b = read_from_fd sock.connection.input_buffer (some data_read) in
      let sock1 = record sock { connection = record sock.connection { input_buffer = b } } in
      let ((t, holds), p) = (sound.kept fd sock there).parses reading in
      let held = read_from_fd-Holds data_read holds in
      read_loop-Returns (suc (readable_bytes b)) sock1 (put_socket fd sock1 s) (record {
        sound = put_socket-IsSound fd sock sock1 s log sound there refl (
            kept_reads log fd (owed s fd sock.connection.generation) sock b sock.connection.parser
              (sound.kept fd sock there) (λ _. ((t ++ data_read, held), p)));
        there = find-put_socket fd sock1 s;
        reading = reading;
        bytes = t ++ data_read;
        holds = held;
        parser = p;
        less = omega (arith, readable_bytes-Holds held);
        few = few sock data_read there refl;
      })
  read_socket-Returns end_of_stream sock s sound there reading few = (_, refl)
  read_socket-Returns read_again sock s sound there reading few = (_, refl)
  read_socket-Returns read_failed sock s sound there reading few = (_, refl)

  handle_read-Returns :
      (result : ReadResult) (s : TcpServer)
      → IsSound s log
      → FewRequests result fd s
      → Returns (handle_read ok result fd s)
  unfolding handle_read
  handle_read-Returns result s sound few = elim (Option-cases (find_socket fd s.connections)) [
    | inl off ↦ (s, rw (off, handle_read) refl)
    | inr (sock, there) ↦
        let (s', e) : Returns
            (if sock.connection.closing then some s else read_socket ok result fd sock s) =
          by_closing sock there in
        (s', rw (there, handle_read) e)
  ]
    where
      by_closing :
          (sock : Socket)
          → find_socket fd s.connections ≡ some sock
          → Returns (if sock.connection.closing then some s else read_socket ok result fd sock s)
      by_closing sock there =
          if_cases Returns sock.connection.closing (some s) (read_socket ok result fd sock s)
            (λ _. (s, refl)) (λ reading. read_socket-Returns result sock s sound there reading few)

-- In every reachable state HandleWorkerCompletions and HandleRead return, whatever was read and
-- whatever epoll_ctl and the reads of the eventfd answer: each round of the loop of HandleRead takes bytes from the input, and
-- each round of the loops over the ready responses takes a response. The rounds that the bytes which
-- were read can cause do not wrap the number of the next request around.
pub handlers_return :
    (s : TcpServer) (log : List (ℕ × CompletedTask))
    → Reach s log
    → ((rs : List WakeRead) (ok : ℕ → Bool) → Returns (handle_worker_completions rs ok s))
      × ((ok : Bool) (result : ReadResult) (fd : ℕ)
          → FewRequests result fd s
          → Returns (handle_read ok result fd s))
handlers_return s log r =
    let sound = Reach-IsSound s log r in
    (
      λ rs ok. handle_worker_completions-Returns log rs ok s sound,
      λ ok result fd few. handle_read-Returns log fd ok result s sound few,
    )
