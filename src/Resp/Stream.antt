-- ===== src/Resp/Stream.antt =====
-- Parse over the bytes themselves, which is what Parse over a buffer that holds them does, and what
-- each round takes.
use nova_kv.Prelude.{ℕ, zero, suc, ◌≡◌, refl, sym, subst, Bytes, Option, none, some, length, drop}
use nova_kv.NetworkBuffer.{NetworkBuffer, retrieve}
use nova_kv.NetworkBuffer.Queue.{Holds, peek-Holds, retrieve-Holds}
use nova_kv.Resp.Parser.{
  Parser, Round, return_error, return_incomplete, return_success, go_on, parse_round, Parsed,
  after_round, parse_loop, parse,
}

unfoldable pub stream_loop : ℕ → Parser → Bytes → Option (Parsed Bytes)
stream_loop zero p s = none
stream_loop (suc fuel) p s = after_round drop (stream_loop fuel) p s (parse_round p s)

unfoldable pub parse_stream : Parser → Bytes → Option (Parsed Bytes)
parse_stream p s = stream_loop (suc (length s)) p s

-- Two results that differ in how the bytes that are left are held.
pub record SameParsed (r : Parsed NetworkBuffer) (q : Parsed Bytes) : Type 0 where
  pub status : r.status ≡ q.status
  pub command : r.command ≡ q.command
  pub parser : r.parser ≡ q.parser
  pub buffer : Holds r.buffer q.buffer

abbrev pub SameOutcome : Option (Parsed NetworkBuffer) → Option (Parsed Bytes) → Type 0
SameOutcome none none = Unit
SameOutcome none (some q) = ⊥
SameOutcome (some r) none = ⊥
SameOutcome (some r) (some q) = SameParsed r q

after_round_same :
    (more : Parser → NetworkBuffer → Option (Parsed NetworkBuffer))
    (more' : Parser → Bytes → Option (Parsed Bytes)) (p : Parser) (b : NetworkBuffer) (s : Bytes)
    (r : Round)
    → Holds b s
    → ((p' : Parser) (n : ℕ) → SameOutcome (more p' (retrieve n b)) (more' p' (drop n s)))
    → SameOutcome (after_round retrieve more p b r) (after_round drop more' p s r)
unfolding after_round
after_round_same more more' p b s (return_error p') h k = record {
  status = refl;
  command = refl;
  parser = refl;
  buffer = h;
}
after_round_same more more' p b s return_incomplete h k = record {
  status = refl;
  command = refl;
  parser = refl;
  buffer = h;
}
after_round_same more more' p b s (return_success command n) h k = record {
  status = refl;
  command = refl;
  parser = refl;
  buffer = retrieve-Holds n h;
}
after_round_same more more' p b s (go_on p' n) h k = k p' n

parse_loop-stream_loop :
    (fuel : ℕ) (p : Parser) (b : NetworkBuffer) (s : Bytes)
    → Holds b s
    → SameOutcome (parse_loop fuel p b) (stream_loop fuel p s)
unfolding parse_loop stream_loop
parse_loop-stream_loop zero p b s h = tt
parse_loop-stream_loop (suc fuel) p b s h =
    subst
      (λ t.
        SameOutcome (after_round retrieve (parse_loop fuel) p b (parse_round p t))
          (after_round drop (stream_loop fuel) p s (parse_round p s)))
      (sym (peek-Holds h))
      (after_round_same (parse_loop fuel) (stream_loop fuel) p b s (parse_round p s) h
        (λ p' n. parse_loop-stream_loop fuel p' (retrieve n b) (drop n s) (retrieve-Holds n h)))

-- On a buffer that holds the bytes `s`, Parse looks at them and at nothing else of it: status,
-- command, parser and what stays in the buffer are those of the loop over the bytes.
pub parse-parse_stream :
    (p : Parser) (b : NetworkBuffer) (s : Bytes)
    → Holds b s
    → SameOutcome (parse p b) (parse_stream p s)
unfolding parse parse_stream
parse-parse_stream p b s h =
    subst (λ t. SameOutcome (parse_loop (suc (length t)) p b) (stream_loop (suc (length s)) p s))
      (sym (peek-Holds h)) (parse_loop-stream_loop (suc (length s)) p b s h)
