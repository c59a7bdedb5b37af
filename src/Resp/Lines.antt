-- ===== src/Resp/Lines.antt =====
-- Rounds of Parse on a line of the protocol, and on the data of an element.
use nova_kv.Prelude.{
  ℕ, zero, suc, ◌+◌, ◌-◌, ◌≤◌, ◌%◌, ◌≡◌, ◌≢◌, refl, ap, subst, ◌∙◌, arith, true, false, Bytes, List,
  [], ◌∷◌, ◌++◌, some, length, length-append, length-drop, take, drop, drop_past, take-eq-length,
  All, ltb, ◌==◌, u64_mod,
}
use nova_kv.NetworkBuffer.{search_crlf}
use nova_kv.Resp.Decimal.{ℤ, pos, int64_max, decimal, IsDigit, decimal-IsDigit, from_chars-decimal}
use nova_kv.Resp.Parser.{
  success, expect_bulk_size, expect_bulk_data, Parser, new_parser, reset, Round, return_success,
  go_on, push_element, whole_number, set_bulk_len, on_bulk_len, header_round, first_is, byte_is,
  data_len, data_round, state_round, parse_round, after_round,
}
use nova_kv.Resp.Stream.{stream_loop, parse_stream}
use nova_kv.Resp.Rounds.{IsParser, Bounded, parse_round-Bounded}
use nova_kv.Resp.Chunks.{stream_loop_fuel}

-- A header line, its end of line and what follows.
abbrev pub line_of : ℕ → ℕ → Bytes → Bytes
line_of marker n rest = (marker ∷ decimal n) ++ 13 ∷ 10 ∷ rest

abbrev pub bulk_of : Bytes → Bytes → Bytes
bulk_of e rest = line_of b'$' (length e) (e ++ 13 ∷ 10 ∷ rest)

pub search_crlf_line :
    (line rest : Bytes)
    → All (λ c. c ≢ 13) line
    → search_crlf (line ++ 13 ∷ 10 ∷ rest) ≡ some (length line)
unfolding search_crlf
search_crlf_line [] rest h = refl
search_crlf_line (a ∷ []) rest h = ground arith
search_crlf_line (a ∷ b ∷ line) rest h = ground (arith, search_crlf_line (b ∷ line) rest h.1)

digits_end : (s : Bytes) → All IsDigit s → All (λ c. c ≢ 13) s
digits_end [] h = tt
digits_end (c ∷ s) h = (λ e. omega (arith, e, h.0), digits_end s h.1)

pub header_round_line :
    (p : Parser) (marker n : ℕ) (store : Parser → ℤ → Parser) (next : Parser → ℕ → ℤ → Round)
    (rest : Bytes)
    → marker ≢ 13
    → n ≤ int64_max
    → header_round p marker store next (line_of marker n rest)
      ≡ next p (suc (length (decimal n)) + 2) (pos n)
unfolding header_round first_is whole_number
header_round_line p marker n store next rest other fits =
    rw
      (
        search_crlf_line (marker ∷ decimal n) rest
            (other, digits_end (decimal n) (decimal-IsDigit n)),
        header_round,
        not_blank,
        same marker,
        number,
        from_chars-decimal n fits,
      )
      refl
  where
    not_blank : (length (marker ∷ decimal n) == 0) ≡ false
    not_blank = ground arith

    number : take (length (marker ∷ decimal n) - 1) (drop 1 (line_of marker n rest)) ≡ decimal n
    number = take-eq-length _ (decimal n) (13 ∷ 10 ∷ rest) (omega arith)

    same : (m : ℕ) → (m == m) ≡ true
    same m = ground arith

-- A round that goes on, within one call.
pub parse_stream_go :
    (p p' : Parser) (s : Bytes) (n : ℕ)
    → IsParser p
    → parse_round p s ≡ go_on p' n
    → parse_stream p s ≡ parse_stream p' (drop n s)
unfolding parse_stream stream_loop after_round
parse_stream_go p p' s n ok e =
    let (some_taken, fits, ok') = subst (Bounded (length s)) e (parse_round-Bounded p s ok) in
    rw e (
      stream_loop_fuel (length s) (suc (length (drop n s))) p' (drop n s) ok'
        (omega (arith, length-drop n s)) (omega arith))

pub parse_stream_done :
    (p : Parser) (s : Bytes) (n : ℕ) (command : List Bytes)
    → parse_round p s ≡ return_success command n
    → parse_stream p s
      ≡ some
          (record { status = success; command = command; parser = new_parser; buffer = drop n s })
unfolding parse_stream stream_loop after_round reset
parse_stream_done p s n command e = rw e refl

-- The parser behind the array's header, and behind an element's header.
abbrev pub at_element : List Bytes → ℕ → ℤ → Parser
at_element command size bulk = record {
  state = expect_bulk_size;
  array_size = pos size;
  bulk_len = bulk;
  current_command = command;
}

abbrev pub at_data : List Bytes → ℕ → ℕ → Parser
at_data command size n = record {
  state = expect_bulk_data;
  array_size = pos size;
  bulk_len = pos n;
  current_command = command;
}

pub drop_line :
    (marker n : ℕ) (rest : Bytes)
    → drop (suc (length (decimal n)) + 2) (line_of marker n rest) ≡ rest
drop_line marker n rest =
    drop_past (suc (length (decimal n)) + 2) 2 (marker ∷ decimal n) (13 ∷ 10 ∷ rest) refl

pub not_empty_line : (marker n : ℕ) (rest : Bytes) → (length (line_of marker n rest) == 0) ≡ false
not_empty_line marker n rest = ground (arith, length-append (marker ∷ decimal n) (13 ∷ 10 ∷ rest))

element_header_round :
    (command : List Bytes) (size : ℕ) (bulk : ℤ) (n : ℕ) (rest : Bytes)
    → n ≤ int64_max
    → parse_round (at_element command size bulk) (line_of b'$' n rest)
      ≡ go_on (at_data command size n) (suc (length (decimal n)) + 2)
unfolding parse_round state_round on_bulk_len
element_header_round command size bulk n rest fits =
    rw
      (
        not_empty_line b'$' n rest,
        header_round_line (at_element command size bulk) b'$' n set_bulk_len on_bulk_len rest
            (λ h. omega (arith, h)) fits,
      )
      refl

pub parse_element_header :
    (command : List Bytes) (size : ℕ) (bulk : ℤ) (e rest : Bytes)
    → length e ≤ int64_max
    → parse_stream (at_element command size bulk) (bulk_of e rest)
      ≡ parse_stream (at_data command size (length e)) (e ++ 13 ∷ 10 ∷ rest)
parse_element_header command size bulk e rest fits =
    parse_stream_go (at_element command size bulk) (at_data command size (length e))
      (bulk_of e rest) (suc (length (decimal (length e))) + 2) tt
      (element_header_round command size bulk (length e) (e ++ 13 ∷ 10 ∷ rest) fits)
    ∙ ap (parse_stream (at_data command size (length e)))
        (drop_line b'$' (length e) (e ++ 13 ∷ 10 ∷ rest))

byte_behind :
    (s rest : Bytes) (c k m : ℕ) → m ≡ length s + k → byte_is m c (s ++ rest) ≡ byte_is k c rest
unfolding byte_is
byte_behind [] rest c k m h = let e : m ≡ k = omega arith in rw e refl
byte_behind (a ∷ s) rest c k zero h = absurd (omega arith)
byte_behind (a ∷ s) rest c k (suc m) h = byte_behind s rest c k m (omega arith)

pub data_round_element :
    (command : List Bytes) (size : ℕ) (e rest : Bytes)
    → length e ≤ int64_max
    → parse_round (at_data command size (length e)) (e ++ 13 ∷ 10 ∷ rest)
      ≡ push_element (at_data command size (length e)) e (length e + 2)
unfolding parse_round state_round data_round data_len
data_round_element command size e rest fits =
    rw
      (
        not_empty,
        enough,
        byte_behind e (13 ∷ 10 ∷ rest) 13 0 (length e) (omega arith),
        byte_behind e (13 ∷ 10 ∷ rest) 10 1 (length e + 1) refl,
        take-eq-length (length e) e (13 ∷ 10 ∷ rest) refl,
      )
      (unfold byte_is in refl)
  where
    not_empty : (length (e ++ 13 ∷ 10 ∷ rest) == 0) ≡ false
    not_empty = ground (arith, length-append e (13 ∷ 10 ∷ rest))

    enough : ltb (length (e ++ 13 ∷ 10 ∷ rest)) ((length e + 2) % u64_mod) ≡ false
    enough = ground (arith, length-append e (13 ∷ 10 ∷ rest))
