-- ===== src/Resp/Numbered.antt =====
-- What Parse makes of a line with a number, and of the empty lines before it.
use nova_kv.Prelude.{
  ℕ, zero, suc, ◌+◌, ◌-◌, ◌≡◌, ◌≢◌, refl, ◌∙◌, arith, Bool, true, false, Bytes, [], ◌∷◌, ◌++◌,
  Option, some, none, length, take, drop, drop_past, take-eq-length, All, ◌==◌, ==_refl, if_cases,
  leb, ◌*◌,
}
use nova_kv.NetworkBuffer.{search_crlf}
use nova_kv.Resp.Decimal.{
  ℤ, pos, negsuc, int64_max, is_digit, starts_with_digit, read_digits, signed, from_digits,
  from_chars,
}
use nova_kv.Resp.Parser.{
  State, expect_array_size, expect_bulk_size, expect_bulk_data, Parser, new_parser, Round, go_on,
  whole_number, set_array_size, set_bulk_len, on_array_size, on_bulk_len, header_round, first_is,
  state_round, parse_round,
}
use nova_kv.Resp.Stream.{parse_stream}
use nova_kv.Resp.Rounds.{StateFits}
use nova_kv.Resp.Lines.{search_crlf_line, parse_stream_go}
use nova_kv.Resp.Grammar.{Line, blank, number}

-- The bytes that std::from_chars takes whole have no end of a line.
digit_other : (c : ℕ) → is_digit c ≡ true → c ≢ 13
unfolding is_digit
digit_other c h e = ground (arith, h, e)

read_digits_whole : (acc : ℕ) (s : Bytes) → (read_digits acc s).1 ≡ [] → All (λ c. c ≢ 13) s
unfolding read_digits
read_digits_whole acc [] h = tt
read_digits_whole acc (c ∷ s) h =
    if_cases {A = ℕ × Bytes} (λ r. r.1 ≡ [] → All (λ c. c ≢ 13) (c ∷ s)) (is_digit c)
      (read_digits (acc * 10 + (c - 48)) s) (acc, c ∷ s)
      (λ on e. (digit_other c on, read_digits_whole (acc * 10 + (c - 48)) s e))
      (λ off e. absurd (cc e)) h

whole :
    (x z : ℤ) (rest : Bytes)
    → ◌≡◌ {A = Option (ℤ × Bytes)} (some (x, rest)) (some (z, []))
    → rest ≡ []
whole x z rest e = cc e

signed_whole : (minus : Bool) (r : ℕ × Bytes) (z : ℤ) → signed minus r ≡ some (z, []) → r.1 ≡ []
unfolding signed
signed_whole false (n, rest) z h =
    if_cases {A = Option (ℤ × Bytes)} (λ o. o ≡ some (z, []) → rest ≡ []) (leb n int64_max)
      (some (pos n, rest)) none (λ on e. whole (pos n) z rest e) (λ off e. absurd (cc e)) h
signed_whole true (zero, rest) z h = cc h
signed_whole true (suc n, rest) z h =
    if_cases {A = Option (ℤ × Bytes)} (λ o. o ≡ some (z, []) → rest ≡ []) (leb n int64_max)
      (some (negsuc n, rest)) none (λ on e. whole (negsuc n) z rest e) (λ off e. absurd (cc e)) h

from_digits_whole :
    (minus : Bool) (s : Bytes) (z : ℤ) → from_digits minus s ≡ some (z, []) → All (λ c. c ≢ 13) s
unfolding from_digits
from_digits_whole minus s z h =
    if_cases {A = Option (ℤ × Bytes)} (λ o. o ≡ some (z, []) → All (λ c. c ≢ 13) s)
      (starts_with_digit s) (signed minus (read_digits 0 s)) none
      (λ on e. read_digits_whole 0 s (signed_whole minus (read_digits 0 s) z e))
      (λ off e. absurd (cc e)) h

from_chars_whole : (s : Bytes) (z : ℤ) → from_chars s ≡ some (z, []) → All (λ c. c ≢ 13) s
unfolding from_chars
from_chars_whole [] z h = tt
from_chars_whole (c ∷ s) z h =
    if_cases {A = Option (ℤ × Bytes)} (λ o. o ≡ some (z, []) → All (λ c. c ≢ 13) (c ∷ s))
      (c == b'-') (from_digits true s) (from_digits false (c ∷ s))
      (λ on e. (minus_other c on, from_digits_whole true s z e))
      (λ off e. from_digits_whole false (c ∷ s) z e) h
  where
    minus_other : (c : ℕ) → (c == b'-') ≡ true → c ≢ 13
    minus_other c on e = ground (arith, on, e)

-- A line with its number, without the empty lines before it.
abbrev pub numbered : ℕ → Bytes → Bytes → Bytes
numbered marker digits rest = marker ∷ digits ++ 13 ∷ 10 ∷ rest

header_round-number :
    (p : Parser) (marker : ℕ) (store : Parser → ℤ → Parser) (next : Parser → ℕ → ℤ → Round)
    (digits rest : Bytes) (z : ℤ)
    → marker ≢ 13
    → from_chars digits ≡ some (z, [])
    → header_round p marker store next (numbered marker digits rest)
      ≡ next p (suc (length digits) + 2) z
unfolding header_round first_is whole_number
header_round-number p marker store next digits rest z other reads =
    rw
      (
        search_crlf_line (marker ∷ digits) rest (other, from_chars_whole digits z reads),
        header_round,
        not_blank,
        ==_refl marker,
        taken,
        reads,
      )
      refl
  where
    not_blank : (length (marker ∷ digits) == 0) ≡ false
    not_blank = ground arith

    taken : take (length (marker ∷ digits) - 1) (drop 1 (numbered marker digits rest)) ≡ digits
    taken = take-eq-length _ digits (13 ∷ 10 ∷ rest) (omega arith)

pub drop-numbered :
    (marker : ℕ) (digits rest : Bytes)
    → drop (suc (length digits) + 2) (numbered marker digits rest) ≡ rest
drop-numbered marker digits rest =
    drop_past (suc (length digits) + 2) 2 (marker ∷ digits) (13 ∷ 10 ∷ rest) refl

-- The states that read a line.
abbrev ReadsLine : State → Type 0
ReadsLine expect_array_size = Unit
ReadsLine expect_bulk_size = Unit
ReadsLine expect_bulk_data = ⊥

blank_round :
    (st : State) (p : Parser) (s : Bytes)
    → ReadsLine st
    → state_round st p (13 ∷ 10 ∷ s) ≡ go_on p 2
unfolding state_round header_round search_crlf
blank_round expect_array_size p s h = refl
blank_round expect_bulk_size p s h = refl
blank_round expect_bulk_data p s h = absurd h

skip_blank :
    (p : Parser) (s : Bytes) → ReadsLine p.state → parse_stream p (13 ∷ 10 ∷ s) ≡ parse_stream p s
unfolding parse_round
skip_blank p s h =
    parse_stream_go p p (13 ∷ 10 ∷ s) 2 (fits p.state h)
      (rw (some_bytes s) (blank_round p.state p s h))
  where
    some_bytes : (s : Bytes) → (length (13 ∷ 10 ∷ s) == 0) ≡ false
    some_bytes s = ground arith

    fits : (st : State) → ReadsLine st → StateFits st p.bulk_len
    fits expect_array_size h = tt
    fits expect_bulk_size h = tt
    fits expect_bulk_data h = absurd h

-- The empty lines before a line change nothing.
pub at_number :
    (marker : ℕ) (z : ℤ) (rest s : Bytes) (p : Parser)
    → ReadsLine p.state
    → Line marker z rest s
    → (digits : Bytes) × (from_chars digits ≡ some (z, []))
      × (parse_stream p s ≡ parse_stream p (numbered marker digits rest))
at_number marker z rest _ p h (blank {s = s} line) =
    let (digits, reads, same) = at_number marker z rest s p h line in
    (digits, reads, skip_blank p s h ∙ same)
at_number marker z rest _ p h (number digits reads) = (digits, reads, refl)

numbered_some :
    (marker : ℕ) (digits rest : Bytes) → (length (numbered marker digits rest) == 0) ≡ false
numbered_some marker digits rest = ground arith

pub element_round :
    (p : Parser) (digits rest : Bytes) (z : ℤ)
    → p.state ≡ expect_bulk_size
    → from_chars digits ≡ some (z, [])
    → parse_round p (numbered b'$' digits rest) ≡ on_bulk_len p (suc (length digits) + 2) z
unfolding parse_round state_round
element_round p digits rest z at_state reads =
    rw (numbered_some b'$' digits rest, at_state)
      (header_round-number _ b'$' set_bulk_len on_bulk_len digits rest z (λ h. omega (arith, h))
        reads)

pub array_round :
    (digits rest : Bytes) (z : ℤ)
    → from_chars digits ≡ some (z, [])
    → parse_round new_parser (numbered b'*' digits rest)
      ≡ on_array_size new_parser (suc (length digits) + 2) z
unfolding parse_round state_round
array_round digits rest z reads = rw (numbered_some b'*' digits rest) (
    header_round-number new_parser b'*' set_array_size on_array_size digits rest z
      (λ h. omega (arith, h)) reads)
