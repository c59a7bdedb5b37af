-- ===== src/TcpServer/Accepts.antt =====
-- What HandleAccept does to the connections of the server.
use nova_kv.Prelude.{
  ℕ, ◌+◌, ◌%◌, ◌<◌, ◌≤◌, ◌≡◌, sym, ap, subst, ◌∙◌, inl, inr, arith, Bool, true, false, ◌&&◌, List,
  [], ◌∷◌, some, length, ◌==◌, if◌then◌else◌, Bool-cases, Option-cases, if_cases, u64_mod,
}
use nova_kv.Server.{CompletedTask, new_connection}
use nova_kv.TcpServer.Sockets.{find_socket, set_socket, find_socket-set_socket}
use nova_kv.TcpServer.{
  Interest, Socket, TcpServer, put_socket, accept_one, AcceptResult, accepted, accept_interrupted,
  accept_failed, accept_loop, handle_accept,
}
use nova_kv.TcpServer.Owed.{owed}
use nova_kv.TcpServer.Sound.{IsKept, IsSound}
use nova_kv.TcpServer.Kept.{kept_starts}

-- Only the number of the next generation has grown.
grown-IsSound :
    (s : TcpServer) (log : List (ℕ × CompletedTask)) (n : ℕ)
    → IsSound s log
    → s.next_generation ≤ n
    → n < u64_mod
    → IsSound (record s { next_generation = n }) log
unfolding owed
grown-IsSound s log n ok le small = record {
  kept = ok.kept;
  older = λ fd x e. omega (arith, ok.older fd x e, le);
  unused = λ fd g j from. ok.unused fd g j (omega (arith, le, from));
  done = ok.done;
  bound = small;
}

-- A new connection.
insert-IsSound :
    (s : TcpServer) (log : List (ℕ × CompletedTask)) (fd n : ℕ) (i : Interest)
    → IsSound s log
    → s.next_generation < n
    → n < u64_mod
    → IsSound
        (put_socket fd
          (record { connection = new_connection s.next_generation; interest = i; sent = [] })
          (record s { next_generation = n }))
        log
unfolding put_socket owed
insert-IsSound s log fd n i ok lt small = record {
  kept = λ a x e. elim (Bool-cases (fd == a)) [
    | inl same ↦
        subst (λ y. IsKept (owed s a y.connection.generation) log a y) (this a x same e)
          (kept_starts log a (owed s a s.next_generation) s.next_generation i
            (λ j. ok.unused a s.next_generation j (omega arith)))
    | inr other ↦ ok.kept a x (that a x other e)
  ];
  older = λ a x e. elim (Bool-cases (fd == a)) [
    | inl same ↦
        let g : s.next_generation ≡ x.connection.generation =
          ap (λ y. y.connection.generation) (this a x same e) in
        omega (arith, g, lt)
    | inr other ↦ omega (arith, ok.older a x (that a x other e), lt)
  ];
  unused = λ a g j from. ok.unused a g j (omega (arith, lt, from));
  done = ok.done;
  bound = small;
}
  where
    fresh : Socket
    fresh = record { connection = new_connection s.next_generation; interest = i; sent = [] }

    this :
        (a : ℕ) (x : Socket)
        → (fd == a) ≡ true
        → find_socket a (set_socket fd fresh s.connections) ≡ some x
        → fresh ≡ x
    this a x same e =
        let e' : some fresh ≡ some x =
          rw same at (sym (find_socket-set_socket fd a fresh s.connections) ∙ e) in
        cc e'

    that :
        (a : ℕ) (x : Socket)
        → (fd == a) ≡ false
        → find_socket a (set_socket fd fresh s.connections) ≡ some x
        → find_socket a s.connections ≡ some x
    that a x other e = rw other at (sym (find_socket-set_socket fd a fresh s.connections) ∙ e)

accept_one-IsSound :
    (fd : ℕ) (nonblocking added : Bool) (s : TcpServer) (log : List (ℕ × CompletedTask))
    → IsSound s log
    → s.next_generation + 1 < u64_mod
    → IsSound (accept_one fd nonblocking added s) log
unfolding accept_one
accept_one-IsSound fd false added s log ok small = ok
accept_one-IsSound fd true added s log ok small =
    elim (Option-cases (find_socket fd s.connections)) [
      | inl off ↦ rw (off, accept_one) (by_added added)
      | inr (old, there) ↦ rw (there, accept_one) grown
    ]
  where
    grown : IsSound (record s { next_generation = (s.next_generation + 1) % u64_mod }) log
    grown = grown-IsSound s log ((s.next_generation + 1) % u64_mod) ok (omega arith) (omega arith)

    by_added :
        (b : Bool)
        → IsSound
            (if b
              then put_socket fd
                  (record {
                    connection = new_connection s.next_generation;
                    interest = record { input = true; output = false };
                    sent = [];
                  })
                  (record s { next_generation = (s.next_generation + 1) % u64_mod })
              else record s { next_generation = (s.next_generation + 1) % u64_mod })
            log
    by_added true =
        insert-IsSound s log fd ((s.next_generation + 1) % u64_mod) _ ok (omega arith) (omega arith)
    by_added false =
        grown-IsSound s log ((s.next_generation + 1) % u64_mod) ok (omega arith) (omega arith)

accept_one-next_generation :
    (fd : ℕ) (nonblocking added : Bool) (s : TcpServer)
    → s.next_generation + 1 < u64_mod
    → (accept_one fd nonblocking added s).next_generation ≤ s.next_generation + 1
unfolding accept_one put_socket
accept_one-next_generation fd false added s small = omega arith
accept_one-next_generation fd true added s small =
    elim (Option-cases (find_socket fd s.connections)) [
      | inl off ↦ rw (off, accept_one) (by_added added)
      | inr (old, there) ↦ rw (there, accept_one) (omega arith)
    ]
  where
    by_added :
        (b : Bool)
        → (if b
            then put_socket fd
                (record {
                  connection = new_connection s.next_generation;
                  interest = record { input = true; output = false };
                  sent = [];
                })
                (record s { next_generation = (s.next_generation + 1) % u64_mod })
            else record s { next_generation = (s.next_generation + 1) % u64_mod }).next_generation
          ≤ s.next_generation + 1
    by_added true = omega arith
    by_added false = omega arith

accept_loop-IsSound :
    (rs : List AcceptResult) (s : TcpServer) (log : List (ℕ × CompletedTask))
    → IsSound s log
    → s.next_generation + length rs < u64_mod
    → IsSound (accept_loop rs s) log
unfolding accept_loop
accept_loop-IsSound [] s log ok small = ok
accept_loop-IsSound (accepted fd nonblocking added ∷ rs) s log ok small =
    let grown = accept_one-next_generation fd nonblocking added s (omega arith) in
    accept_loop-IsSound rs (accept_one fd nonblocking added s) log
      (accept_one-IsSound fd nonblocking added s log ok (omega arith)) (omega (arith, grown, small))
accept_loop-IsSound (accept_interrupted ∷ rs) s log ok small =
    accept_loop-IsSound rs s log ok (omega arith)
accept_loop-IsSound (accept_failed ∷ rs) s log ok small = ok

pub handle_accept-IsSound :
    (rs : List AcceptResult) (s : TcpServer) (log : List (ℕ × CompletedTask))
    → IsSound s log
    → s.next_generation + length rs < u64_mod
    → IsSound (handle_accept rs s) log
unfolding handle_accept
handle_accept-IsSound rs s log ok small =
    if_cases (λ x. IsSound x log) (s.running && s.listening) (accept_loop rs s) s
      (λ _. accept_loop-IsSound rs s log ok small) (λ _. ok)
