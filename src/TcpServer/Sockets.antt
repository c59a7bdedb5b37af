-- ===== src/TcpServer/Sockets.antt =====
-- The map from descriptors to connections, std::unordered_map<int, Connection>, as a list. The order
-- of iteration, which C++ leaves open, is the order of the list.
use nova_kv.Prelude.{ℕ, ◌≡◌, refl, arith, List, [], ◌∷◌, Option, none, some, ◌==◌, if◌then◌else◌}

module _ {ℓ} {A : Type ℓ} where
  unfoldable pub find_socket : ℕ → List (ℕ × A) → Option A
  find_socket fd [] = none
  find_socket fd ((i, a) ∷ m) = if i == fd then some a else find_socket fd m

  -- An entry that is there is changed, and a new one added.
  unfoldable pub set_socket : ℕ → A → List (ℕ × A) → List (ℕ × A)
  set_socket fd a [] = (fd, a) ∷ []
  set_socket fd a ((i, b) ∷ m) = if i == fd then (fd, a) ∷ m else (i, b) ∷ set_socket fd a m

  unfoldable pub erase_socket : ℕ → List (ℕ × A) → List (ℕ × A)
  erase_socket fd [] = []
  erase_socket fd ((i, b) ∷ m) =
      let rest = erase_socket fd m in if i == fd then rest else (i, b) ∷ rest

  pub find_socket-set_socket :
      (fd j : ℕ) (a : A) (m : List (ℕ × A))
      → find_socket j (set_socket fd a m) ≡ (if fd == j then some a else find_socket j m)
  unfolding find_socket set_socket
  find_socket-set_socket fd j a [] = refl
  find_socket-set_socket fd j a ((i, b) ∷ m) = ground (arith, find_socket-set_socket fd j a m)

  pub find_socket-erase_socket :
      (fd j : ℕ) (m : List (ℕ × A))
      → find_socket j (erase_socket fd m) ≡ (if fd == j then none else find_socket j m)
  unfolding find_socket erase_socket
  find_socket-erase_socket fd j [] = ground arith
  find_socket-erase_socket fd j ((i, b) ∷ m) = ground (arith, find_socket-erase_socket fd j m)
