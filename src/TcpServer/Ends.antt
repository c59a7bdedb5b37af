-- ===== src/TcpServer/Ends.antt =====
-- The shutdown of the server: what its flags say of its connections.
use nova_kv.Prelude.{
  ℕ, ◌≡◌, refl, sym, ap, ◌∙◌, inl, inr, arith, Bool, true, false, not, ◌&&◌, List, [], ◌∷◌, some,
  ◌==◌, Bool-cases, Option-cases, if_cases,
}
use nova_kv.TcpServer.Sockets.{find_socket, set_socket, erase_socket}
use nova_kv.TcpServer.{
  Interest, Socket, TcpServer, no_connections, wake_event_loop, maybe_finish_shutdown,
  close_connection, put_socket, switch_events,
}

-- The first two hold at every moment, the last one after each handler.
pub record IsNearly (s : TcpServer) : Type 0 where
  pub closed : s.stopping ≡ true → s.listening ≡ false
  pub ended : s.running ≡ false → (s.stopping ≡ true) × (s.connections ≡ [])

pub record IsStopping (s : TcpServer) : Type 0 where
  pub nearly : IsNearly s
  pub ends : s.stopping ≡ true → s.connections ≡ [] → s.running ≡ false

-- A server that runs and does not stop.
pub open-IsStopping : (s : TcpServer) → s.running ≡ true → s.stopping ≡ false → IsStopping s
open-IsStopping s on off = record {
  nearly = record {
    closed = λ stopping. absurd (cc (stopping, off));
    ended = λ ended. absurd (cc (ended, on));
  };
  ends = λ stopping none_left. absurd (cc (stopping, off));
}

-- A server with the same flags and connections.
pub same-IsStopping :
    (s s' : TcpServer)
    → IsStopping s
    → s'.running ≡ s.running
    → s'.stopping ≡ s.stopping
    → s'.listening ≡ s.listening
    → s'.connections ≡ s.connections
    → IsStopping s'
same-IsStopping s s' ok running stopping listening conns = record {
  nearly = record {
    closed = λ e. listening ∙ ok.nearly.closed (sym stopping ∙ e);
    ended = λ e.
        let (on, none_left) = ok.nearly.ended (sym running ∙ e) in
        (stopping ∙ on, conns ∙ none_left);
  };
  ends = λ e none_left. running ∙ ok.ends (sym stopping ∙ e) (sym conns ∙ none_left);
}

empty-no_connections : (m : List (ℕ × Socket)) → no_connections m ≡ true → m ≡ []
unfolding no_connections
empty-no_connections [] e = refl
empty-no_connections (c ∷ m) e = absurd (cc e)

no_connections-empty : (m : List (ℕ × Socket)) → m ≡ [] → no_connections m ≡ true
unfolding no_connections
no_connections-empty [] e = refl
no_connections-empty (c ∷ m) e = absurd (cc e)

pub maybe_finish_shutdown-IsStopping :
    (s : TcpServer) → IsNearly s → IsStopping (maybe_finish_shutdown s)
unfolding maybe_finish_shutdown wake_event_loop
maybe_finish_shutdown-IsStopping s near =
    if_cases IsStopping (s.stopping && not s.listening && no_connections s.connections)
      (record s { running = false; woken = true }) s
      (λ e. record {
        nearly = record {
          closed = near.closed;
          ended = λ _. (ground (arith, e), empty-no_connections s.connections (ground (arith, e)));
        };
        ends = λ _ _. refl;
      })
      (λ e. record {
        nearly = near;
        ends = λ on none_left.
            let off = near.closed on in
            let empty = no_connections-empty s.connections none_left in
            absurd (ground (arith, on, off, empty, e));
      })

closed-IsNearly :
    (fd : ℕ) (s : TcpServer)
    → IsNearly s
    → IsNearly (record s { connections = erase_socket fd s.connections })
unfolding erase_socket
closed-IsNearly fd s near = record {
  closed = near.closed;
  ended = λ e. let (on, none_left) = near.ended e in (on, ap (erase_socket fd) none_left);
}

pub close_connection-IsNearly :
    (fd : ℕ) (s : TcpServer) → IsNearly s → IsNearly (close_connection fd s)
unfolding close_connection
close_connection-IsNearly fd s near = elim (Option-cases (find_socket fd s.connections)) [
  | inl off ↦ rw (off, close_connection) near
  | inr (sock, there) ↦
      let done = maybe_finish_shutdown-IsStopping _ (closed-IsNearly fd s near) in
      rw (there, close_connection) done.nearly
]

pub close_connection-IsStopping :
    (fd : ℕ) (s : TcpServer) → IsStopping s → IsStopping (close_connection fd s)
unfolding close_connection
close_connection-IsStopping fd s ok = elim (Option-cases (find_socket fd s.connections)) [
  | inl off ↦ rw (off, close_connection) ok
  | inr (sock, there) ↦
      rw (there, close_connection)
        (maybe_finish_shutdown-IsStopping _ (closed-IsNearly fd s ok.nearly))
]

set_socket-cons :
    (fd : ℕ) (x : Socket) (m : List (ℕ × Socket)) → no_connections (set_socket fd x m) ≡ false
unfolding set_socket no_connections
set_socket-cons fd x [] = refl
set_socket-cons fd x ((i, y) ∷ m) = elim (Bool-cases (i == fd)) [
  | inl same ↦ rw same refl
  | inr other ↦ rw other refl
]

nothing_found : (fd : ℕ) (y : Socket) → find_socket fd [] ≡ some y → ⊥
unfolding find_socket
nothing_found fd y e = cc e

-- A connection that is there is changed.
pub put_socket-IsStopping :
    (fd : ℕ) (x y : Socket) (s : TcpServer)
    → IsStopping s
    → find_socket fd s.connections ≡ some y
    → IsStopping (put_socket fd x s)
unfolding put_socket
put_socket-IsStopping fd x y s ok there = record {
  nearly = record {
    closed = ok.nearly.closed;
    ended = λ e.
        let (on, none_left) = ok.nearly.ended e in
        absurd (nothing_there s.connections none_left there);
  };
  ends = λ on none_left.
      let some_one = set_socket-cons fd x s.connections in
      let nobody = no_connections-empty _ none_left in absurd (cc (some_one, nobody));
}
  where
    nothing_there : (m : List (ℕ × Socket)) → m ≡ [] → find_socket fd m ≡ some y → ⊥
    nothing_there m e found = nothing_found fd y (ap (find_socket fd) (sym e) ∙ found)

pub switch_events-IsStopping :
    (done : Bool) (i : Interest) (fd : ℕ) (x y : Socket) (s : TcpServer)
    → IsStopping s
    → find_socket fd s.connections ≡ some y
    → IsStopping (switch_events done i fd x s)
unfolding switch_events
switch_events-IsStopping true i fd x y s ok there =
    put_socket-IsStopping fd (record x { interest = i }) y s ok there
switch_events-IsStopping false i fd x y s ok there =
    close_connection-IsStopping fd (put_socket fd x s) (put_socket-IsStopping fd x y s ok there)
