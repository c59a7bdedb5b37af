-- ===== src/TcpServer/Flags.antt =====
-- The flags of the server across its handlers.
use nova_kv.Prelude.{
  ℕ, zero, suc, ◌≡◌, refl, subst, ◌∙◌, inl, inr, arith, Bool, true, false, ◌&&◌, List, [], ◌∷◌,
  Option, some, ◌==◌, if◌then◌else◌, Bool-cases, Option-cases, if_cases,
}
use nova_kv.NetworkBuffer.{NetworkBuffer, readable_bytes, read_from_fd}
use nova_kv.Resp.Parser.{ParseStatus, success, incomplete, error, Parsed, parse}
use nova_kv.ThreadPool.{enqueue}
use nova_kv.Server.{
  CompletedTask, Connection, complete_task, fail_connection_protocol, is_connection_drained,
}
use nova_kv.TcpServer.Sockets.{find_socket}
use nova_kv.TcpServer.{
  Interest, Socket, TcpServer, put_socket, accept_one, AcceptResult, accepted, accept_interrupted,
  accept_failed, accept_loop, handle_accept, protocol_error, fail_protocol, after_parse, read_loop,
  ReadResult, received, end_of_stream, read_again, read_failed, read_socket, handle_read,
  close_connection, switch_events, maybe_finish_shutdown,
}
use nova_kv.TcpServer.Writes.{
  write_loop, after_writing, written, WriteResult, handle_write, after_completion, complete_one,
  complete_all, WakeRead, drain_wake, handle_worker_completions,
}
use nova_kv.TcpServer.Changes.{find-put_socket}
use nova_kv.TcpServer.Asked.{asked, parsed_socket, the_task, with_task, there_now}
use nova_kv.TcpServer.Ends.{
  IsNearly, IsStopping, open-IsStopping, same-IsStopping, maybe_finish_shutdown-IsStopping,
  close_connection-IsStopping, put_socket-IsStopping, switch_events-IsStopping,
}

-- Accepting changes neither flag.
pub accept_one-flags :
    (fd : ℕ) (nonblocking added : Bool) (s : TcpServer)
    → ((accept_one fd nonblocking added s).running ≡ s.running)
      × ((accept_one fd nonblocking added s).stopping ≡ s.stopping)
unfolding accept_one put_socket
accept_one-flags fd false added s = (refl, refl)
accept_one-flags fd true true s = elim (Option-cases (find_socket fd s.connections)) [
  | inl off ↦ rw (off, accept_one) (refl, refl)
  | inr (old, there) ↦ rw (there, accept_one) (refl, refl)
]
accept_one-flags fd true false s = elim (Option-cases (find_socket fd s.connections)) [
  | inl off ↦ rw (off, accept_one) (refl, refl)
  | inr (old, there) ↦ rw (there, accept_one) (refl, refl)
]

pub accept_loop-IsStopping :
    (rs : List AcceptResult) (s : TcpServer)
    → s.running ≡ true
    → s.stopping ≡ false
    → IsStopping (accept_loop rs s)
unfolding accept_loop
accept_loop-IsStopping [] s on off = open-IsStopping s on off
accept_loop-IsStopping (accepted fd nonblocking added ∷ rs) s on off =
    let (running, stopping) = accept_one-flags fd nonblocking added s in
    accept_loop-IsStopping rs (accept_one fd nonblocking added s) (running ∙ on) (stopping ∙ off)
accept_loop-IsStopping (accept_interrupted ∷ rs) s on off = accept_loop-IsStopping rs s on off
accept_loop-IsStopping (accept_failed ∷ rs) s on off = open-IsStopping s on off

pub handle_accept-IsStopping :
    (rs : List AcceptResult) (s : TcpServer) → IsStopping s → IsStopping (handle_accept rs s)
unfolding handle_accept
handle_accept-IsStopping rs s ok =
    if_cases IsStopping (s.running && s.listening) (accept_loop rs s) s
      (λ e. accept_loop-IsStopping rs s (ground (arith, e)) (not_stopping (ground (arith, e))))
      (λ _. ok)
  where
    not_stopping : s.listening ≡ true → s.stopping ≡ false
    not_stopping on = elim (Bool-cases s.stopping) [
      | inl stopping ↦
          let off = IsNearly.closed (IsStopping.nearly ok) stopping in absurd (cc (on, off))
      | inr running ↦ running
    ]

pub fail_protocol-IsStopping :
    (done : Bool) (fd : ℕ) (x y : Socket) (s s' : TcpServer)
    → IsStopping s
    → find_socket fd s.connections ≡ some y
    → fail_protocol done fd x s ≡ some s'
    → IsStopping s'
unfolding fail_protocol
fail_protocol-IsStopping done fd x y s s' ok there e =
    elim (Option-cases (fail_connection_protocol x.connection protocol_error)) [
      | inl off ↦ absurd (cc (rw (off, fail_protocol) at e))
      | inr (r, failed) ↦
          let sock = record x { connection = r.0 } in
          let i : Interest = record { input = false; output = r.1 } in
          let e' : some (switch_events done i fd sock s) ≡ some s' =
            rw (failed, fail_protocol) at e in
          let is : switch_events done i fd sock s ≡ s' = cc e' in
          subst IsStopping is (switch_events-IsStopping done i fd sock y s ok there)
    ]

pub after_parse-IsStopping :
    (more : Socket → TcpServer → Option TcpServer) (done : Bool) (fd : ℕ) (sock y : Socket)
    (r : Parsed NetworkBuffer) (s s' : TcpServer) (status : ParseStatus)
    → ((x : Socket) (t t' : TcpServer)
        → IsStopping t
        → find_socket fd t.connections ≡ some x
        → more x t ≡ some t'
        → IsStopping t')
    → IsStopping s
    → find_socket fd s.connections ≡ some y
    → after_parse more done fd sock r s status ≡ some s'
    → IsStopping s'
unfolding after_parse
after_parse-IsStopping more done fd sock y r s s' success rest ok there e =
    elim (Option-cases (enqueue (the_task fd sock r) s.thread_pool)) [
      | inl off ↦
          let e' : some (close_connection fd (put_socket fd (asked sock r) s)) ≡ some s' =
            (unfold the_task asked in rw (off, after_parse) at e) in
          let is : close_connection fd (put_socket fd (asked sock r) s) ≡ s' = cc e' in
          subst IsStopping is (
            close_connection-IsStopping fd _ (put_socket-IsStopping fd (asked sock r) y s ok there))
      | inr (pool, on) ↦
          let e' : more (asked sock r) (with_task fd sock r s pool on) ≡ some s' =
            (unfold the_task asked with_task in rw (on, after_parse) at e) in
          rest (asked sock r) (with_task fd sock r s pool on) s'
            (unfold with_task in
              put_socket-IsStopping fd (asked sock r) y (record s { thread_pool = pool })
                (same-IsStopping s (record s { thread_pool = pool }) ok refl refl refl refl) there)
            (there_now fd sock r s pool on) e'
    ]
after_parse-IsStopping more done fd sock y r s s' incomplete rest ok there e =
    let x = parsed_socket sock r in
    let is : put_socket fd x s ≡ s' = (unfold parsed_socket in cc e) in
    subst IsStopping is (put_socket-IsStopping fd x y s ok there)
after_parse-IsStopping more done fd sock y r s s' error rest ok there e =
    fail_protocol-IsStopping done fd (parsed_socket sock r) y s s' ok there
      (unfold parsed_socket in e)

pub read_loop-IsStopping :
    (fuel : ℕ) (done : Bool) (fd : ℕ) (sock : Socket) (s s' : TcpServer)
    → IsStopping s
    → find_socket fd s.connections ≡ some sock
    → read_loop fuel done fd sock s ≡ some s'
    → IsStopping s'
unfolding read_loop
read_loop-IsStopping zero done fd sock s s' ok there e = absurd (cc e)
read_loop-IsStopping (suc fuel) done fd sock s s' ok there e =
    elim (Option-cases (parse sock.connection.parser sock.connection.input_buffer)) [
      | inl off ↦ absurd (cc (rw (off, read_loop) at e))
      | inr (r, parsed) ↦
          after_parse-IsStopping (λ x t. read_loop fuel done fd x t) done fd sock sock r s s'
            r.status (λ x t t' o f g. read_loop-IsStopping fuel done fd x t t' o f g) ok there
            (rw (parsed, read_loop) at e)
    ]

pub read_socket-IsStopping :
    (done : Bool) (result : ReadResult) (fd : ℕ) (sock : Socket) (s s' : TcpServer)
    → IsStopping s
    → find_socket fd s.connections ≡ some sock
    → read_socket done result fd sock s ≡ some s'
    → IsStopping s'
unfolding read_socket
read_socket-IsStopping done (received data_read) fd sock s s' ok there e =
    let b = read_from_fd sock.connection.input_buffer (some data_read) in
    let x = record sock { connection = record sock.connection { input_buffer = b } } in
    read_loop-IsStopping (suc (readable_bytes b)) done fd x (put_socket fd x s) s'
      (put_socket-IsStopping fd x sock s ok there) (find-put_socket fd x s) e
read_socket-IsStopping done end_of_stream fd sock s s' ok there e =
    let is : close_connection fd s ≡ s' = cc e in
    subst IsStopping is (close_connection-IsStopping fd s ok)
read_socket-IsStopping done read_again fd sock s s' ok there e =
    let is : s ≡ s' = cc e in subst IsStopping is ok
read_socket-IsStopping done read_failed fd sock s s' ok there e =
    let is : close_connection fd s ≡ s' = cc e in
    subst IsStopping is (close_connection-IsStopping fd s ok)

pub handle_read-IsStopping :
    (done : Bool) (result : ReadResult) (fd : ℕ) (s s' : TcpServer)
    → IsStopping s
    → handle_read done result fd s ≡ some s'
    → IsStopping s'
unfolding handle_read
handle_read-IsStopping done result fd s s' ok e =
    elim (Option-cases (find_socket fd s.connections)) [
      | inl off ↦
          let e' : some s ≡ some s' = rw (off, handle_read) at e in
          let is : s ≡ s' = cc e' in subst IsStopping is ok
      | inr (sock, there) ↦
          let e' : (if sock.connection.closing then some s else read_socket done result fd sock s)
              ≡ some s' =
            rw (there, handle_read) at e in
          by_closing sock there e'
    ]
  where
    stays : some s ≡ some s' → IsStopping s'
    stays e' = let is : s ≡ s' = cc e' in subst IsStopping is ok

    by_result :
        (sock : Socket) (res : ReadResult)
        → find_socket fd s.connections ≡ some sock
        → read_socket done res fd sock s ≡ some s'
        → IsStopping s'
    by_result sock res there e' = read_socket-IsStopping done res fd sock s s' ok there e'

    by_closing :
        (sock : Socket)
        → find_socket fd s.connections ≡ some sock
        → (if sock.connection.closing then some s else read_socket done result fd sock s) ≡ some s'
        → IsStopping s'
    by_closing sock there =
        if_cases (λ o. o ≡ some s' → IsStopping s') sock.connection.closing (some s)
          (read_socket done result fd sock s) (λ _. stays) (λ _. by_result sock result there)

pub after_writing-IsStopping :
    (done : Bool) (fd : ℕ) (x y : Socket) (s : TcpServer)
    → IsStopping s
    → find_socket fd s.connections ≡ some y
    → IsStopping (after_writing done fd x s)
unfolding after_writing
after_writing-IsStopping done fd x y s ok there =
    if_cases IsStopping x.connection.closing
      (if is_connection_drained x.connection
        then close_connection fd (put_socket fd x s)
        else switch_events done (record { input = false; output = false }) fd x s)
      (switch_events done (record { input = true; output = false }) fd x s)
      (λ _.
        if_cases IsStopping (is_connection_drained x.connection)
          (close_connection fd (put_socket fd x s))
          (switch_events done (record { input = false; output = false }) fd x s)
          (λ _.
            close_connection-IsStopping fd (put_socket fd x s)
              (put_socket-IsStopping fd x y s ok there))
          (λ _. switch_events-IsStopping done _ fd x y s ok there))
      (λ _. switch_events-IsStopping done _ fd x y s ok there)

pub written-IsStopping :
    (done : Bool) (fd : ℕ) (x y : Socket) (s : TcpServer) (failed : Bool)
    → IsStopping s
    → find_socket fd s.connections ≡ some y
    → IsStopping (written done fd (x, failed) s)
unfolding written
written-IsStopping done fd x y s true ok there =
    close_connection-IsStopping fd (put_socket fd x s) (put_socket-IsStopping fd x y s ok there)
written-IsStopping done fd x y s false ok there =
    if_cases IsStopping (readable_bytes x.connection.output_buffer == 0) (after_writing done fd x s)
      (put_socket fd x s) (λ _. after_writing-IsStopping done fd x y s ok there)
      (λ _. put_socket-IsStopping fd x y s ok there)

pub handle_write-IsStopping :
    (done : Bool) (ws : List WriteResult) (fd : ℕ) (s : TcpServer)
    → IsStopping s
    → IsStopping (handle_write done ws fd s)
unfolding handle_write
handle_write-IsStopping done ws fd s ok = elim (Option-cases (find_socket fd s.connections)) [
  | inl off ↦ rw (off, handle_write) ok
  | inr (sock, there) ↦
      rw (there, handle_write)
        (written-IsStopping done fd (write_loop ws sock).0 sock s (write_loop ws sock).1 ok there)
]

pub after_completion-IsStopping :
    (done : Bool) (fd : ℕ) (y : Socket) (r : Connection × Bool) (s : TcpServer)
    → IsStopping s
    → find_socket fd s.connections ≡ some y
    → IsStopping (after_completion done fd y r s)
unfolding after_completion
after_completion-IsStopping done fd y (c, true) s ok there =
    switch_events-IsStopping done _ fd (record y { connection = c }) y s ok there
after_completion-IsStopping done fd y (c, false) s ok there =
    put_socket-IsStopping fd (record y { connection = c }) y s ok there

pub complete_one-IsStopping :
    (done : Bool) (fd : ℕ) (task : CompletedTask) (s s' : TcpServer)
    → IsStopping s
    → complete_one done fd task s ≡ some s'
    → IsStopping s'
unfolding complete_one
complete_one-IsStopping done fd task s s' ok e =
    elim (Option-cases (find_socket fd s.connections)) [
      | inl off ↦
          let e' : some s ≡ some s' = rw (off, complete_one) at e in
          let is : s ≡ s' = cc e' in subst IsStopping is ok
      | inr (sock, there) ↦ elim (Option-cases (complete_task sock.connection task)) [
        | inl off ↦ absurd (cc (rw off at (rw (there, complete_one) at e)))
        | inr (r, finished) ↦
            let e' : some (after_completion done fd sock r s) ≡ some s' =
              rw finished at (rw (there, complete_one) at e) in
            let is : after_completion done fd sock r s ≡ s' = cc e' in
            subst IsStopping is (after_completion-IsStopping done fd sock r s ok there)
      ]
    ]

pub complete_all-IsStopping :
    (ok : ℕ → Bool) (n : ℕ) (tasks : List (ℕ × CompletedTask)) (s s' : TcpServer)
    → IsStopping s
    → complete_all ok n tasks s ≡ some s'
    → IsStopping s'
unfolding complete_all
complete_all-IsStopping ok n [] s s' good e = let is : s ≡ s' = cc e in subst IsStopping is good
complete_all-IsStopping ok n ((fd, task) ∷ tasks) s s' good e =
    elim (Option-cases (complete_one (ok n) fd task s)) [
      | inl off ↦ absurd (cc (rw (off, complete_all) at e))
      | inr (t, done) ↦
          complete_all-IsStopping ok (suc n) tasks t s'
            (complete_one-IsStopping (ok n) fd task s t good done) (rw (done, complete_all) at e)
    ]

pub handle_worker_completions-IsStopping :
    (rs : List WakeRead) (ok : ℕ → Bool) (s s' : TcpServer)
    → IsStopping s
    → handle_worker_completions rs ok s ≡ some s'
    → IsStopping s'
unfolding handle_worker_completions
handle_worker_completions-IsStopping rs ok s s' good e =
    let s0 = record s { completed_queue = []; woken = drain_wake rs s.woken } in
    elim (Option-cases (complete_all ok 0 s.completed_queue s0)) [
      | inl off ↦ absurd (cc (rw (off, handle_worker_completions) at e))
      | inr (s1, done) ↦
          let e' : some (maybe_finish_shutdown s1) ≡ some s' =
            rw (done, handle_worker_completions) at e in
          let is : maybe_finish_shutdown s1 ≡ s' = cc e' in
          let after =
            complete_all-IsStopping ok 0 s.completed_queue s0 s1
              (same-IsStopping s s0 good refl refl refl refl) done in
          subst IsStopping is (maybe_finish_shutdown-IsStopping s1 after.nearly)
    ]
