-- ===== src/Resp/Rounds.antt =====
-- What one round of Parse takes from the buffer.
use nova_kv.Prelude.{
  ℕ, zero, suc, ◌+◌, ◌≤◌, ◌<◌, ◌%◌, ◌≡◌, refl, inl, inr, arith, true, ◌&&◌, Bytes, [], ◌∷◌, ◌++◌,
  Option, none, some, length, take, ltb, ◌==◌, Bool-cases, Option-cases, u64_mod,
}
use nova_kv.NetworkBuffer.{search_crlf}
use nova_kv.Resp.Decimal.{ℤ, pos, negsuc, int64_max, from_chars, InRange, from_chars-InRange}
use nova_kv.Resp.Parser.{
  State, expect_array_size, expect_bulk_size, expect_bulk_data, Parser, Round, return_error,
  return_incomplete, return_success, go_on, has_size, push_element, whole_number, set_array_size,
  set_bulk_len, on_array_size, on_bulk_len, header_round, first_is, byte_is, data_len, data_round,
  state_round, parse_round,
}

pub search_crlf-append :
    (s t : Bytes) (i : ℕ) → search_crlf s ≡ some i → search_crlf (s ++ t) ≡ some i
unfolding search_crlf
search_crlf-append [] t i h = cc
search_crlf-append (a ∷ []) t i h = cc
search_crlf-append (a ∷ b ∷ s) t zero h = ground arith
search_crlf-append (a ∷ b ∷ s) t (suc i) h = ground (arith, search_crlf-append (b ∷ s) t i)

pub search_crlf_fits : (s : Bytes) (i : ℕ) → search_crlf s ≡ some i → i + 2 ≤ length s
unfolding search_crlf
search_crlf_fits [] i h = cc
search_crlf_fits (a ∷ []) i h = cc
search_crlf_fits (a ∷ b ∷ s) zero h = omega arith
search_crlf_fits (a ∷ b ∷ s) (suc i) h = ground (arith, search_crlf_fits (b ∷ s) i)

-- While data is expected its length is a number that was read.
abbrev pub StateFits : State → ℤ → Type 0
StateFits expect_array_size z = Unit
StateFits expect_bulk_size z = Unit
StateFits expect_bulk_data (pos n) = n ≤ int64_max
StateFits expect_bulk_data (negsuc n) = ⊥

abbrev pub IsParser : Parser → Type 0
IsParser p = StateFits p.state p.bulk_len

-- A round takes at most what there is, and one that goes on or ends a command takes something.
abbrev pub Bounded : ℕ → Round → Type 0
Bounded len (return_error p) = Unit
Bounded len return_incomplete = Unit
Bounded len (return_success command n) = (0 < n) × (n ≤ len)
Bounded len (go_on p n) = (0 < n) × (n ≤ len) × IsParser p

push_element-Bounded :
    (len : ℕ) (p : Parser) (e : Bytes) (n : ℕ) → 0 < n → n ≤ len → Bounded len (push_element p e n)
unfolding push_element
push_element-Bounded len p e n h k =
    elim (Bool-cases (has_size (p.current_command ++ e ∷ []) p.array_size)) [
      | inl full ↦ rw full (h, k)
      | inr part ↦ rw part (h, k, tt)
    ]

on_array_size-Bounded :
    (len : ℕ) (p : Parser) (n : ℕ) (z : ℤ)
    → 0 < n
    → n ≤ len
    → InRange z
    → Bounded len (on_array_size p n z)
unfolding on_array_size
on_array_size-Bounded len p n (negsuc z) h k r = tt
on_array_size-Bounded len p n (pos zero) h k r = (h, k)
on_array_size-Bounded len p n (pos (suc z)) h k r = (h, k, tt)

on_bulk_len-Bounded :
    (len : ℕ) (p : Parser) (n : ℕ) (z : ℤ)
    → 0 < n
    → n ≤ len
    → InRange z
    → Bounded len (on_bulk_len p n z)
unfolding on_bulk_len
on_bulk_len-Bounded len p n (negsuc zero) h k r = push_element-Bounded len _ [] n h k
on_bulk_len-Bounded len p n (negsuc (suc z)) h k r = tt
on_bulk_len-Bounded len p n (pos z) h k r = (h, k, r)

whole_number-Bounded :
    (len : ℕ) (p : Parser) (line : Bytes) (store : ℤ → Parser) (next : ℤ → Round)
    → ((z : ℤ) → InRange z → Bounded len (next z))
    → Bounded len (whole_number p (from_chars line) store next)
unfolding whole_number
whole_number-Bounded len p line store next h = by_result (from_chars line) refl
  where
    by_result :
        (o : Option (ℤ × Bytes)) → from_chars line ≡ o → Bounded len (whole_number p o store next)
    by_result none e = tt
    by_result (some (z, [])) e = h z (from_chars-InRange line z [] e)
    by_result (some (z, c ∷ rest)) e = tt

header_round-Bounded :
    (p : Parser) (marker : ℕ) (store : Parser → ℤ → Parser) (next : Parser → ℕ → ℤ → Round)
    (s : Bytes)
    → IsParser p
    → ((n : ℕ) (z : ℤ) → 0 < n → n ≤ length s → InRange z → Bounded (length s) (next p n z))
    → Bounded (length s) (header_round p marker store next s)
unfolding header_round
header_round-Bounded p marker store next s ok h = elim (Option-cases (search_crlf s)) [
  | inl off ↦ rw (off, header_round) tt
  | inr (i, found) ↦
      rw (found, header_round)
        (elim (Bool-cases (i == 0)) [
          | inl blank ↦ rw blank (omega arith, omega (arith, search_crlf_fits s i found), ok)
          | inr line ↦ rw line (elim (Bool-cases (first_is marker s)) [
            | inl good ↦ rw good (
                whole_number-Bounded (length s) p _ _ _
                  (λ z. h (i + 2) z (omega arith) (search_crlf_fits s i found)))
            | inr bad ↦ rw bad tt
          ])
        ])
]

pub byte_is_fits : (n c : ℕ) (s : Bytes) → byte_is n c s ≡ true → n < length s
unfolding byte_is
byte_is_fits n c [] h = cc
byte_is_fits zero c (d ∷ s) h = omega arith
byte_is_fits (suc n) c (d ∷ s) h = omega (arith, byte_is_fits n c s h)

pub byte_is-append : (n c : ℕ) (s t : Bytes) → n < length s → byte_is n c (s ++ t) ≡ byte_is n c s
unfolding byte_is
byte_is-append n c [] t h = absurd (omega arith)
byte_is-append zero c (d ∷ s) t h = refl
byte_is-append (suc n) c (d ∷ s) t h = byte_is-append n c s t (omega arith)

data_round-Bounded : (p : Parser) (s : Bytes) → Bounded (length s) (data_round p s)
unfolding data_round
data_round-Bounded p s =
    let n = data_len p.bulk_len in
    elim (Bool-cases (ltb (length s) ((n + 2) % u64_mod))) [
      | inl few ↦ rw few tt
      | inr enough ↦ rw enough (elim (Bool-cases (byte_is n 13 s && byte_is (n + 1) 10 s)) [
        | inl good ↦ rw good (
            push_element-Bounded (length s) p (take n s) (n + 2) (omega arith)
              (omega (arith, byte_is_fits (n + 1) 10 s (ground arith))))
        | inr bad ↦ rw bad tt
      ])
    ]

state_round-Bounded :
    (st : State) (p : Parser) (s : Bytes)
    → p.state ≡ st
    → IsParser p
    → Bounded (length s) (state_round st p s)
unfolding state_round
state_round-Bounded expect_array_size p s e ok =
    header_round-Bounded p b'*' set_array_size on_array_size s ok
      (on_array_size-Bounded (length s) p)
state_round-Bounded expect_bulk_size p s e ok =
    header_round-Bounded p b'$' set_bulk_len on_bulk_len s ok (on_bulk_len-Bounded (length s) p)
state_round-Bounded expect_bulk_data p s e ok = data_round-Bounded p s

pub parse_round-Bounded :
    (p : Parser) (s : Bytes) → IsParser p → Bounded (length s) (parse_round p s)
unfolding parse_round
parse_round-Bounded p s ok = elim (Bool-cases (length s == 0)) [
  | inl empty ↦ rw empty tt
  | inr more ↦ rw more (state_round-Bounded p.state p s refl ok)
]
