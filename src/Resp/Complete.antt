-- ===== src/Resp/Complete.antt =====
-- Parse accepts every array of the grammar, and nothing else.
use nova_kv.Prelude.{
  ℕ, suc, ◌+◌, ◌≤◌, ◌<◌, ◌≡◌, refl, sym, ap, subst, ◌∙◌, arith, true, false, Bytes, List, [], ◌∷◌,
  ◌++◌, some, length, length-append, drop, append_assoc, ◌==◌,
}
use nova_kv.NetworkBuffer.{NetworkBuffer}
use nova_kv.NetworkBuffer.Queue.{Holds}
use nova_kv.Resp.Decimal.{ℤ, pos, negsuc, int64_max, from_chars-InRange}
use nova_kv.Resp.Parser.{
  success, State, expect_bulk_size, expect_bulk_data, Parser, new_parser, return_success, go_on,
  has_size, push_element, set_bulk_len, on_array_size, on_bulk_len, parse_round, Parsed, parse,
}
use nova_kv.Resp.Stream.{parse_stream, SameOutcome, parse-parse_stream}
use nova_kv.Resp.Rounds.{IsParser}
use nova_kv.Resp.Lines.{parse_stream_go, parse_stream_done, at_data, data_round_element}
use nova_kv.Resp.Grammar.{Element, null_element, bulk_element, Elements, no_more, element, IsArray}
use nova_kv.Resp.RoundTrip.{drop_element, Answers, reads_back}
use nova_kv.Resp.Accepts.{parse-IsArray}
use nova_kv.Resp.Numbered.{numbered, drop-numbered, at_number, element_round, array_round}

-- The parser between the elements of an array, or behind the header of one.
abbrev within : State → ℤ → ℕ → List Bytes → Parser
within st bulk size command = record {
  state = st;
  array_size = pos size;
  bulk_len = bulk;
  current_command = command;
}

stores_last :
    (st : State) (bulk : ℤ) (size : ℕ) (command : List Bytes) (e : Bytes) (n : ℕ)
    → size ≡ length command + 1
    → push_element (within st bulk size command) e n ≡ return_success (command ++ e ∷ []) n
unfolding push_element has_size
stores_last st bulk size command e n h = rw full refl
  where
    full : (length (command ++ e ∷ []) == size) ≡ true
    full = ground (arith, length-append command (e ∷ []))

stores_more :
    (st : State) (bulk : ℤ) (size : ℕ) (command : List Bytes) (e : Bytes) (n : ℕ)
    → length command + 1 < size
    → push_element (within st bulk size command) e n
      ≡ go_on (within expect_bulk_size bulk size (command ++ e ∷ [])) n
unfolding push_element has_size
stores_more st bulk size command e n h = rw part refl
  where
    part : (length (command ++ e ∷ []) == size) ≡ false
    part = ground (arith, length-append command (e ∷ []))

-- The call goes on to a round that stores the element `e`, with `t` behind it.
abbrev Stores : ℤ → ℕ → List Bytes → Bytes → Bytes → Bytes → Type 0
Stores bulk size command e t s =
    (st : State) × (before : State) × (left : ℤ) × (n : ℕ) × (s' : Bytes) × IsParser
      (within before left size command)
    × (parse_stream (within expect_bulk_size bulk size command) s
        ≡ parse_stream (within before left size command) s')
    × ((later : ℤ) × (parse_round (within before left size command) s'
          ≡ push_element (within st later size command) e n))
    × (drop n s' ≡ t)

Element-Stores :
    (bulk : ℤ) (size : ℕ) (command : List Bytes) (e t s : Bytes)
    → Element e t s
    → Stores bulk size command e t s
Element-Stores bulk size command e t s (null_element empty line) =
    let p = within expect_bulk_size bulk size command in
    let (digits, reads, same) = at_number b'$' (negsuc 0) t s p tt line in
    (
      expect_bulk_size,
      expect_bulk_size,
      bulk,
      suc (length digits) + 2,
      numbered b'$' digits t,
      tt,
      same,
      (
        negsuc 0,
        element_round p digits t (negsuc 0) refl reads
            ∙ (unfold on_bulk_len set_bulk_len in
                ap
                  (λ d.
                    push_element (within expect_bulk_size (negsuc 0) size command) d
                      (suc (length digits) + 2))
                  (sym empty)),
      ),
      drop-numbered b'$' digits t,
    )
Element-Stores bulk size command e t s (bulk_element line) =
    let p = within expect_bulk_size bulk size command in
    let rest = e ++ 13 ∷ 10 ∷ t in
    let (digits, reads, same) = at_number b'$' (pos (length e)) rest s p tt line in
    let fits : length e ≤ int64_max = from_chars-InRange digits (pos (length e)) [] reads in
    (
      expect_bulk_data,
      expect_bulk_data,
      pos (length e),
      length e + 2,
      rest,
      fits,
      same
          ∙ parse_stream_go p (at_data command size (length e)) (numbered b'$' digits rest)
              (suc (length digits) + 2) tt
              (element_round p digits rest (pos (length e)) refl reads
                ∙ (unfold on_bulk_len in refl))
          ∙ ap (parse_stream (at_data command size (length e))) (drop-numbered b'$' digits rest),
      (pos (length e), data_round_element command size e t fits),
      drop_element e t,
    )

parse-Elements :
    (rest : Bytes) (es : List Bytes) (e : Bytes) (command : List Bytes) (size : ℕ) (bulk : ℤ)
    (s t : Bytes)
    → size ≡ length command + suc (length es)
    → Element e t s
    → Elements rest es t
    → parse_stream (within expect_bulk_size bulk size command) s
      ≡ some (Answers (command ++ e ∷ es) rest)
parse-Elements rest _ e command size bulk s _ h read no_more =
    let (st, before, left, n, s', ok, same, (later, round), behind) =
      Element-Stores bulk size command e rest s read in
    same
    ∙ parse_stream_done (within before left size command) s' n (command ++ e ∷ [])
        (round ∙ stores_last st later size command e n h)
    ∙ ap (λ t. some (Answers (command ++ e ∷ []) t)) behind
parse-Elements rest _ e command size bulk s t h read
      (element {e = e2} {es = es} {t = u} next more) =
    let (st, before, left, n, s', ok, same, (later, round), behind) =
      Element-Stores bulk size command e t s read in
    same
    ∙ parse_stream_go (within before left size command)
        (within expect_bulk_size later size (command ++ e ∷ [])) s' n ok
        (round ∙ stores_more st later size command e n (omega arith))
    ∙ ap (parse_stream (within expect_bulk_size later size (command ++ e ∷ []))) behind
    ∙ parse-Elements rest es e2 (command ++ e ∷ []) size later t u
        (omega (arith, length-append command (e ∷ []))) next more
    ∙ ap (λ c. some (Answers c rest)) (append_assoc command (e ∷ []) (e2 ∷ es))

parse_stream-IsArray :
    (command : List Bytes) (s rest : Bytes)
    → IsArray command s rest
    → parse_stream new_parser s ≡ some (Answers command rest)
parse_stream-IsArray _ s rest (_, line, no_more) =
    let (digits, reads, same) = at_number b'*' (pos 0) rest s new_parser tt line in
    same
    ∙ parse_stream_done new_parser (numbered b'*' digits rest) (suc (length digits) + 2) []
        (array_round digits rest (pos 0) reads ∙ (unfold on_array_size in refl))
    ∙ ap (λ t. some (Answers [] t)) (drop-numbered b'*' digits rest)
parse_stream-IsArray _ s rest (t, line, element {e = e} {es = es} {t = u} read more) =
    let size = suc (length es) in
    let (digits, reads, same) = at_number b'*' (pos size) t s new_parser tt line in
    same
    ∙ parse_stream_go new_parser (within expect_bulk_size (pos 0) size []) (numbered b'*' digits t)
        (suc (length digits) + 2) tt
        (array_round digits t (pos size) reads ∙ (unfold on_array_size in refl))
    ∙ ap (parse_stream (within expect_bulk_size (pos 0) size [])) (drop-numbered b'*' digits t)
    ∙ parse-Elements rest es e [] size (pos 0) t u (omega arith) read more

-- Parse accepts the arrays of the protocol and nothing else. Where a call of a new parser answers
-- SUCCESS, the bytes that the buffer held are an array of exactly the strings of the command, and then
-- the bytes that the buffer still holds. Where the bytes are an array and then any others, the call
-- answers SUCCESS with its strings, a parser ready for the next command and the others left in the
-- buffer. An array has a line with its size and an element for each string: a line with the length,
-- the bytes and an end of a line, or the line of the null for the empty string; the numbers are what
-- std::from_chars takes whole, and empty lines may stand before each line with a number.
pub parse_accepts_arrays :
    (b : NetworkBuffer) (s : Bytes)
    → Holds b s
    → ((r : Parsed NetworkBuffer)
        → parse new_parser b ≡ some r
        → r.status ≡ success
        → (rest : Bytes) × IsArray r.command s rest × Holds r.buffer rest)
      × ((command : List Bytes) (rest : Bytes)
          → IsArray command s rest
          → (r : Parsed NetworkBuffer) × (parse new_parser b ≡ some r)
            × (r.status ≡ success)
            × (r.command ≡ command)
            × (r.parser ≡ new_parser)
            × Holds r.buffer rest)
parse_accepts_arrays b s h = (
  λ r e done. parse-IsArray b s r h e done,
  λ command rest array. reads_back _ command rest (
      subst (SameOutcome (parse new_parser b)) (parse_stream-IsArray command s rest array)
        (parse-parse_stream new_parser b s h)),
)
