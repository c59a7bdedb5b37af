-- ===== src/Resp/RoundTrip.antt =====
-- RESPParser on what RESPEncoder writes for an array.
use nova_kv.Prelude.{
  ℕ, suc, ◌+◌, ◌≤◌, ◌<◌, ◌≡◌, refl, sym, ap, subst, ◌∙◌, arith, true, false, Bytes, List, [], ◌∷◌,
  ◌++◌, Option, none, some, length, length-append, drop, drop_past, append_assoc, append-nil, All,
  ◌==◌, ascii,
}
use nova_kv.NetworkBuffer.{NetworkBuffer, append}
use nova_kv.NetworkBuffer.Queue.{Holds, append-Holds}
use nova_kv.Resp.Decimal.{ℤ, pos, int64_max, decimal}
use nova_kv.Resp.Encoder.{crlf, encode_bulk_string, encode_elements, encode_array}
use nova_kv.Resp.Parser.{
  success, new_parser, return_success, go_on, has_size, push_element, set_array_size, on_array_size,
  state_round, parse_round, Parsed, parse,
}
use nova_kv.Resp.Stream.{parse_stream, SameOutcome, parse-parse_stream}
use nova_kv.Resp.Lines.{
  line_of, bulk_of, at_element, at_data, parse_stream_go, parse_stream_done, drop_line,
  not_empty_line, header_round_line, parse_element_header, data_round_element,
}

unfoldable pub bulks_of : List Bytes → Bytes → Bytes
bulks_of [] rest = rest
bulks_of (e ∷ es) rest = bulk_of e (bulks_of es rest)

push_last :
    (command : List Bytes) (n : ℕ) (e : Bytes) (size consumed : ℕ)
    → size ≡ length command + 1
    → push_element (at_data command size n) e consumed ≡ return_success (command ++ e ∷ []) consumed
unfolding push_element has_size
push_last command n e size consumed h = rw full refl
  where
    full : (length (command ++ e ∷ []) == size) ≡ true
    full = ground (arith, length-append command (e ∷ []))

push_more :
    (command : List Bytes) (n : ℕ) (e : Bytes) (size consumed : ℕ)
    → length command + 1 < size
    → push_element (at_data command size n) e consumed
      ≡ go_on (at_element (command ++ e ∷ []) size (pos n)) consumed
unfolding push_element has_size
push_more command n e size consumed h = rw part refl
  where
    part : (length (command ++ e ∷ []) == size) ≡ false
    part = ground (arith, length-append command (e ∷ []))

pub drop_element : (e rest : Bytes) → drop (length e + 2) (e ++ 13 ∷ 10 ∷ rest) ≡ rest
drop_element e rest = drop_past (length e + 2) 2 e (13 ∷ 10 ∷ rest) refl

-- What Parse gives when `command` is complete and `rest` is behind it.
abbrev pub Answers : List Bytes → Bytes → Parsed Bytes
Answers command rest = record {
  status = success;
  command = command;
  parser = new_parser;
  buffer = rest;
}

abbrev pub Fits : List Bytes → Type 0
Fits es = All (λ e. length e ≤ int64_max) es

parse_elements :
    (es : List Bytes) (e : Bytes) (command : List Bytes) (size : ℕ) (bulk : ℤ) (rest : Bytes)
    → size ≡ length command + suc (length es)
    → Fits (e ∷ es)
    → parse_stream (at_element command size bulk) (bulks_of (e ∷ es) rest)
      ≡ some (Answers (command ++ e ∷ es) rest)
unfolding bulks_of
parse_elements [] e command size bulk rest h fits =
    parse_element_header command size bulk e rest fits.0
    ∙ parse_stream_done (at_data command size (length e)) (e ++ 13 ∷ 10 ∷ rest) (length e + 2)
        (command ++ e ∷ [])
        (data_round_element command size e rest fits.0
          ∙ push_last command (length e) e size (length e + 2) h)
    ∙ ap (λ t. some (Answers (command ++ e ∷ []) t)) (drop_element e rest)
parse_elements (e' ∷ es) e command size bulk rest h fits =
    parse_element_header command size bulk e (bulks_of (e' ∷ es) rest) fits.0
    ∙ parse_stream_go (at_data command size (length e))
        (at_element (command ++ e ∷ []) size (pos (length e)))
        (e ++ 13 ∷ 10 ∷ bulks_of (e' ∷ es) rest) (length e + 2) fits.0
        (data_round_element command size e (bulks_of (e' ∷ es) rest) fits.0
          ∙ push_more command (length e) e size (length e + 2) (omega arith))
    ∙ ap (parse_stream (at_element (command ++ e ∷ []) size (pos (length e))))
        (drop_element e (bulks_of (e' ∷ es) rest))
    ∙ parse_elements es e' (command ++ e ∷ []) size (pos (length e)) rest
        (omega (arith, length-append command (e ∷ []))) fits.1
    ∙ ap (λ t. some (Answers t rest)) (append_assoc command (e ∷ []) (e' ∷ es))

abbrev array_of : List Bytes → Bytes → Bytes
array_of es rest = line_of b'*' (length es) (bulks_of es rest)

array_header_round :
    (n : ℕ) (rest : Bytes)
    → n ≤ int64_max
    → parse_round new_parser (line_of b'*' n rest)
      ≡ on_array_size new_parser (suc (length (decimal n)) + 2) (pos n)
unfolding parse_round state_round
array_header_round n rest fits =
    rw
      (
        not_empty_line b'*' n rest,
        header_round_line new_parser b'*' n set_array_size on_array_size rest
            (λ h. omega (arith, h)) fits,
      )
      refl

parse_array :
    (es : List Bytes) (rest : Bytes)
    → length es ≤ int64_max
    → Fits es
    → parse_stream new_parser (array_of es rest) ≡ some (Answers es rest)
parse_array [] rest few fits =
    parse_stream_done new_parser (array_of [] rest) (suc (length (decimal 0)) + 2) []
      (array_header_round 0 (bulks_of [] rest) few ∙ (unfold on_array_size in refl))
    ∙ ap (λ t. some (Answers [] t))
        (drop_line b'*' 0 (bulks_of [] rest) ∙ (unfold bulks_of in refl))
parse_array (e ∷ es) rest few fits =
    let n = suc (length es) in
    parse_stream_go new_parser (at_element [] n (pos 0)) (array_of (e ∷ es) rest)
      (suc (length (decimal n)) + 2) tt
      (array_header_round n (bulks_of (e ∷ es) rest) few ∙ (unfold on_array_size in refl))
    ∙ ap (parse_stream (at_element [] n (pos 0))) (drop_line b'*' n (bulks_of (e ∷ es) rest))
    ∙ parse_elements es e [] n (pos 0) rest (omega arith) fits

bulks_of-append : (es : List Bytes) (t : Bytes) → bulks_of es [] ++ t ≡ bulks_of es t
unfolding bulks_of
bulks_of-append [] t = refl
bulks_of-append (e ∷ es) t = simp (append_assoc, bulks_of-append es t)

encode_bulk_string-Holds :
    (x : Bytes) {c : NetworkBuffer} {u : Bytes}
    → Holds c u
    → Holds
        (encode_bulk_string c x)
        (((((u ++ ascii "$") ++ decimal (length x)) ++ crlf) ++ x) ++ crlf)
unfolding encode_bulk_string
encode_bulk_string-Holds x h =
    (append-Holds crlf
      (append-Holds x
        (append-Holds crlf
          (append-Holds (decimal (length x)) (append-Holds (ascii "$") h).0).0).0).0).0

encode_elements-Holds :
    (es : List Bytes) {b : NetworkBuffer} {s : Bytes}
    → Holds b s
    → Holds (encode_elements b es) (s ++ bulks_of es [])
unfolding encode_elements bulks_of
encode_elements-Holds [] {b} {s} h = subst (Holds b) (sym (append-nil s)) h
encode_elements-Holds (e ∷ es) {b} {s} h =
    subst (Holds (encode_elements (encode_bulk_string b e) es)) (simp append_assoc)
      (encode_elements-Holds es (encode_bulk_string-Holds e h))

encode_array-Holds :
    (es : List Bytes) (t : Bytes) {b : NetworkBuffer}
    → Holds b []
    → Holds (append (encode_array b es) t) (array_of es t)
unfolding encode_array
encode_array-Holds es t {b} h =
    let header =
      (append-Holds crlf (append-Holds (decimal (length es)) (append-Holds (ascii "*") h).0).0).0 in
    subst (Holds (append (encode_array b es) t)) (simp (append_assoc, bulks_of-append es t))
      (append-Holds t (encode_elements-Holds es header)).0

pub reads_back :
    (o : Option (Parsed NetworkBuffer)) (command : List Bytes) (rest : Bytes)
    → SameOutcome o (some (Answers command rest))
    → (r : Parsed NetworkBuffer) × (o ≡ some r)
      × (r.status ≡ success)
      × (r.command ≡ command)
      × (r.parser ≡ new_parser)
      × Holds r.buffer rest
reads_back none command rest h = absurd h
reads_back (some r) command rest h = (r, refl, h.status, h.command, h.parser, h.buffer)

-- An array that EncodeArray writes into an empty buffer, with any bytes `t` sent after it, is read
-- back by one call of Parse of a new parser: the answer is SUCCESS with the same strings, the parser is
-- ready for the next command, and `t` is what is left. The number of strings and each length fit an
-- int64_t.
pub parse-encode_array :
    (es : List Bytes) (t : Bytes) (b : NetworkBuffer)
    → Holds b []
    → length es ≤ int64_max
    → Fits es
    → (r : Parsed NetworkBuffer) × (parse new_parser (append (encode_array b es) t) ≡ some r)
      × (r.status ≡ success)
      × (r.command ≡ es)
      × (r.parser ≡ new_parser)
      × Holds r.buffer t
parse-encode_array es t b h few fits = reads_back _ es t (
    subst (SameOutcome (parse new_parser (append (encode_array b es) t)))
      (parse_array es t few fits)
      (parse-parse_stream new_parser _ (array_of es t) (encode_array-Holds es t h)))
