-- ===== src/TcpServer/Sound.antt =====
-- The invariant of the server's connections.
use nova_kv.Prelude.{
  ℕ, ◌+◌, ◌<◌, ◌≤◌, ◌≡◌, sym, ap, subst, ◌∙◌, ◌⊎◌, inl, inr, arith, true, false, ◌&&◌, Bytes, List,
  [], ◌∷◌, none, some, All, ◌==◌, ltb, if◌then◌else◌, Bool-cases, u64_mod,
}
use nova_kv.NetworkBuffer.{NetworkBuffer}
use nova_kv.NetworkBuffer.Queue.{Holds}
use nova_kv.Resp.Parser.{Parser}
use nova_kv.Resp.Rounds.{IsParser}
use nova_kv.ThreadPool.Steps.{one_if}
use nova_kv.Server.{CompletedTask, fail_response}
use nova_kv.Server.Pending.{Responses, find_response}
use nova_kv.Server.Served.{Served}
use nova_kv.TcpServer.Sockets.{find_socket, set_socket, find_socket-set_socket}
use nova_kv.TcpServer.{Socket, TcpServer, protocol_error}
use nova_kv.TcpServer.Owed.{owed}

-- Whether the answers have one for a request.
unfoldable pub answered : ℕ → Responses → ℕ
answered j h = elim (find_response j h) [ none ↦ 0 | some r ↦ 1 ]

abbrev pub InLog : ℕ × CompletedTask → List (ℕ × CompletedTask) → Type 0
InLog x [] = ⊥
InLog x (y ∷ log) = (x ≡ y) ⊎ InLog x log

-- The answer to a request stands in the log of the workers, or is that to a protocol error.
abbrev pub IsFrom : List (ℕ × CompletedTask) → ℕ → ℕ → ℕ → Bytes → Type 0
IsFrom log fd g j r =
    InLog (fd, record { generation = g; seq = j; response = r }) log
    ⊎ (r ≡ fail_response protocol_error)

-- What Parse needs of a connection.
abbrev pub IsReading : NetworkBuffer → Parser → Type 0
IsReading b p = ((t : Bytes) × Holds b t) × IsParser p

-- A connection that was served, where `out` counts the answers to come. Each request before
-- next_request_seq either has its answer or has one to come. One that is not closing can be parsed on.
pub record IsKept (out : ℕ → ℕ) (log : List (ℕ × CompletedTask)) (fd : ℕ) (sock : Socket)
    : Type 0 where
  pub h : Responses
  pub served : Served sock.connection.generation h sock.sent sock.connection
  pub counted : (j : ℕ) → out j + answered j h ≡ one_if (ltb j sock.connection.next_request_seq)
  pub origin :
      (j : ℕ) (r : Bytes)
      → find_response j h ≡ some r
      → IsFrom log fd sock.connection.generation j r
  pub parses :
      sock.connection.closing ≡ false
      → IsReading sock.connection.input_buffer sock.connection.parser

pub record IsSound (s : TcpServer) (log : List (ℕ × CompletedTask)) : Type 0 where
  pub kept :
      (fd : ℕ) (sock : Socket)
      → find_socket fd s.connections ≡ some sock
      → IsKept (owed s fd sock.connection.generation) log fd sock
  pub older :
      (fd : ℕ) (sock : Socket)
      → find_socket fd s.connections ≡ some sock
      → sock.connection.generation < s.next_generation
  pub unused : (fd g j : ℕ) → s.next_generation ≤ g → owed s fd g j ≡ 0
  pub done : All (λ x. InLog x log) s.completed_queue
  pub bound : s.next_generation < u64_mod

pub IsKept-out :
    (out out' : ℕ → ℕ) (log : List (ℕ × CompletedTask)) (fd : ℕ) (sock : Socket)
    → ((j : ℕ) → out' j ≡ out j)
    → IsKept out log fd sock
    → IsKept out' log fd sock
IsKept-out out out' log fd sock same ok = record {
  h = ok.h;
  served = ok.served;
  counted = λ j. ap (λ n. n + answered j ok.h) (same j) ∙ ok.counted j;
  origin = ok.origin;
  parses = ok.parses;
}

-- Nothing of what the invariant reads is changed.
pub same-IsSound :
    (s s' : TcpServer) (log : List (ℕ × CompletedTask))
    → IsSound s log
    → s'.connections ≡ s.connections
    → s'.next_generation ≡ s.next_generation
    → ((fd g j : ℕ) → owed s' fd g j ≡ owed s fd g j)
    → All (λ x. InLog x log) s'.completed_queue
    → IsSound s' log
same-IsSound s s' log ok conns gens same done = record {
  kept = λ fd sock e.
      let e' : find_socket fd s.connections ≡ some sock = ap (find_socket fd) (sym conns) ∙ e in
      IsKept-out (owed s fd sock.connection.generation) (owed s' fd sock.connection.generation) log
        fd sock (same fd sock.connection.generation) (ok.kept fd sock e');
  older = λ fd sock e.
      let e' : find_socket fd s.connections ≡ some sock = ap (find_socket fd) (sym conns) ∙ e in
      omega (arith, ok.older fd sock e', gens);
  unused = λ fd g j le. same fd g j ∙ ok.unused fd g j (omega (arith, le, gens));
  done = done;
  bound = omega (arith, ok.bound, gens);
}

-- One connection is changed, and no answer to another is.
pub put-IsSound :
    (s s' : TcpServer) (log : List (ℕ × CompletedTask)) (fd : ℕ) (sock sock' : Socket)
    → IsSound s log
    → find_socket fd s.connections ≡ some sock
    → sock'.connection.generation ≡ sock.connection.generation
    → s'.connections ≡ set_socket fd sock' s.connections
    → s'.next_generation ≡ s.next_generation
    → ((a b j : ℕ)
        → ((a == fd) && (b == sock.connection.generation)) ≡ false
        → owed s' a b j ≡ owed s a b j)
    → All (λ x. InLog x log) s'.completed_queue
    → IsKept (owed s' fd sock'.connection.generation) log fd sock'
    → IsSound s' log
put-IsSound s s' log fd sock sock' ok there same_gen conns gens others done kept' = record {
  kept = λ a x e. elim (Bool-cases (fd == a)) [
    | inl same ↦
        let at : fd ≡ a = ground arith in
        let is : sock' ≡ x = this a x same e in
        subst (λ y. IsKept (owed s' a y.connection.generation) log a y) is
          (subst (λ b. IsKept (owed s' b sock'.connection.generation) log b sock') at kept')
    | inr other ↦
        IsKept-out (owed s a x.connection.generation) (owed s' a x.connection.generation) log a x
          (λ j. others a x.connection.generation j (apart a x.connection.generation other))
          (ok.kept a x (that a x other e))
  ];
  older = λ a x e. elim (Bool-cases (fd == a)) [
    | inl same ↦
        let is : sock' ≡ x = this a x same e in
        let g : sock'.connection.generation ≡ x.connection.generation =
          ap (λ y. y.connection.generation) is in
        omega (arith, ok.older fd sock there, gens, same_gen, g)
    | inr other ↦ omega (arith, ok.older a x (that a x other e), gens)
  ];
  unused = λ a g j le.
      let old = ok.older fd sock there in
      others a g j (new a g (omega (arith, old, le, gens)))
      ∙ ok.unused a g j (omega (arith, le, gens));
  done = done;
  bound = omega (arith, ok.bound, gens);
}
  where
    found :
        (a : ℕ)
        → find_socket a s'.connections
          ≡ (if fd == a then some sock' else find_socket a s.connections)
    found a = ap (find_socket a) conns ∙ find_socket-set_socket fd a sock' s.connections

    this :
        (a : ℕ) (x : Socket) → (fd == a) ≡ true → find_socket a s'.connections ≡ some x → sock' ≡ x
    this a x same e = let e' : some sock' ≡ some x = rw same at (sym (found a) ∙ e) in cc e'

    that :
        (a : ℕ) (x : Socket)
        → (fd == a) ≡ false
        → find_socket a s'.connections ≡ some x
        → find_socket a s.connections ≡ some x
    that a x other e = rw other at (sym (found a) ∙ e)

    apart : (a b : ℕ) → (fd == a) ≡ false → ((a == fd) && (b == sock.connection.generation)) ≡ false
    apart a b other = ground arith

    new :
        (a g : ℕ)
        → sock.connection.generation < g
        → ((a == fd) && (g == sock.connection.generation)) ≡ false
    new a g lt = ground arith
