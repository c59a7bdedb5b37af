-- ===== src/Resp/Parser.antt =====
-- RESPParser: a state machine that keeps its place between calls of Parse.
use nova_kv.Prelude.{
  ℕ, zero, suc, ◌+◌, ◌-◌, ◌%◌, Bool, false, ◌&&◌, Bytes, List, [], ◌∷◌, ◌++◌, Option, none, some,
  length, take, drop, get_elem?, ltb, ◌==◌, if◌then◌else◌, u64_mod,
}
use nova_kv.NetworkBuffer.{NetworkBuffer, peek, search_crlf, retrieve}
use nova_kv.Resp.Decimal.{ℤ, pos, negsuc, from_chars}

pub data ParseStatus : Type 0 where
  success incomplete error : ParseStatus

pub data State : Type 0 where
  expect_array_size expect_bulk_size expect_bulk_data : State

pub record Parser : Type 0 where
  pub state : State
  pub array_size : ℤ
  pub bulk_len : ℤ
  pub current_command : List Bytes

abbrev pub new_parser : Parser
new_parser = record {
  state = expect_array_size;
  array_size = pos 0;
  bulk_len = pos 0;
  current_command = [];
}

unfoldable pub reset : Parser → Parser
reset p = new_parser

-- One round of the loop of Parse on what is readable: return with a status, after a Retrieve, or go
-- on with the next round after a Retrieve. A success carries the command.
pub data Round : Type 0 where
  return_error : Parser → Round
  return_incomplete : Round
  return_success : List Bytes → ℕ → Round
  go_on : Parser → ℕ → Round

-- current_command_.size() == static_cast<size_t>(array_size_)
unfoldable pub has_size : List Bytes → ℤ → Bool
has_size command (pos n) = length command == n
has_size command (negsuc n) = length command == u64_mod - (n + 1)

-- The element is stored; the command may be complete.
unfoldable pub push_element : Parser → Bytes → ℕ → Round
push_element p element consumed =
    let command = p.current_command ++ element ∷ [] in
    if has_size command p.array_size
    then return_success command consumed
    else go_on (record p { current_command = command; state = expect_bulk_size }) consumed

-- The number between the first byte of a line and its end, when it fills that space.
unfoldable pub whole_number : Parser → Option (ℤ × Bytes) → (ℤ → Parser) → (ℤ → Round) → Round
whole_number p none store next = return_error p
whole_number p (some (n, [])) store next = next n
whole_number p (some (n, c ∷ rest)) store next = return_error (store n)

unfoldable pub set_array_size : Parser → ℤ → Parser
set_array_size p n = record p { array_size = n }

unfoldable pub set_bulk_len : Parser → ℤ → Parser
set_bulk_len p n = record p { bulk_len = n }

unfoldable pub on_array_size : Parser → ℕ → ℤ → Round
on_array_size p consumed (negsuc n) = return_error (set_array_size p (negsuc n))
on_array_size p consumed (pos zero) = return_success [] consumed
on_array_size p consumed (pos (suc n)) =
    go_on (record p { array_size = pos (suc n); state = expect_bulk_size }) consumed

unfoldable pub on_bulk_len : Parser → ℕ → ℤ → Round
on_bulk_len p consumed (negsuc zero) = push_element (set_bulk_len p (negsuc 0)) [] consumed
on_bulk_len p consumed (negsuc (suc n)) = return_error (set_bulk_len p (negsuc (suc n)))
on_bulk_len p consumed (pos n) =
    go_on (record p { bulk_len = pos n; state = expect_bulk_data }) consumed

-- *firstPos == marker
unfoldable pub first_is : ℕ → Bytes → Bool
first_is marker [] = false
first_is marker (c ∷ s) = c == marker

-- The two states that read a line: an empty line is skipped, and the first byte is tested.
unfoldable pub header_round :
    Parser → ℕ → (Parser → ℤ → Parser) → (Parser → ℕ → ℤ → Round) → Bytes → Round
header_round p marker store next s = elim (search_crlf s) [
  | none ↦ return_incomplete
  | some end ↦
      if end == 0
      then go_on p 2
      else if first_is marker s
      then whole_number p (from_chars (take (end - 1) (drop 1 s))) (store p) (next p (end + 2))
      else return_error p
]

-- static_cast<size_t>(bulk_len_), which is not negative in this state.
unfoldable pub data_len : ℤ → ℕ
data_len (pos n) = n
data_len (negsuc n) = u64_mod - (n + 1)

-- firstPos[n] == c
unfoldable pub byte_is : ℕ → ℕ → Bytes → Bool
byte_is n c s = elim (get_elem? s n) [ none ↦ false | some d ↦ d == c ]

unfoldable pub data_round : Parser → Bytes → Round
data_round p s =
    let n = data_len p.bulk_len in
    if ltb (length s) ((n + 2) % u64_mod)
    then return_incomplete
    else if byte_is n 13 s && byte_is (n + 1) 10 s
    then push_element p (take n s) (n + 2)
    else return_error p

unfoldable pub state_round : State → Parser → Bytes → Round
state_round expect_array_size p s = header_round p b'*' set_array_size on_array_size s
state_round expect_bulk_size p s = header_round p b'$' set_bulk_len on_bulk_len s
state_round expect_bulk_data p s = data_round p s

unfoldable pub parse_round : Parser → Bytes → Round
parse_round p s = if length s == 0 then return_incomplete else state_round p.state p s

-- What one call of Parse leaves: the status, the command of a success, the parser and the buffer.
pub record Parsed (B : Type 0) : Type 0 where
  pub status : ParseStatus
  pub command : List Bytes
  pub parser : Parser
  pub buffer : B

-- What follows a round: `take_off` is Retrieve, `more` the rounds to come.
unfoldable pub after_round :
    {B : Type 0}
    → (ℕ → B → B)
    → (Parser → B → Option (Parsed B))
    → Parser
    → B
    → Round
    → Option (Parsed B)
after_round take_off more p b (return_error p') =
    some (record { status = error; command = []; parser = p'; buffer = b })
after_round take_off more p b return_incomplete =
    some (record { status = incomplete; command = []; parser = p; buffer = b })
after_round take_off more p b (return_success command n) =
    some (record { status = success; command = command; parser = reset p; buffer = take_off n b })
after_round take_off more p b (go_on p' n) = more p' (take_off n b)

-- Parse. `none` means that the fuel ran out; each round takes two bytes from the buffer or returns.
unfoldable pub parse_loop : ℕ → Parser → NetworkBuffer → Option (Parsed NetworkBuffer)
parse_loop zero p b = none
parse_loop (suc fuel) p b = after_round retrieve (parse_loop fuel) p b (parse_round p (peek b))

unfoldable pub parse : Parser → NetworkBuffer → Option (Parsed NetworkBuffer)
parse p b = parse_loop (suc (length (peek b))) p b
