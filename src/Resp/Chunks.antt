-- ===== src/Resp/Chunks.antt =====
-- src/network/RespProtocol.cpp: Parse called again and again while its input comes in pieces.
use nova_kv.Prelude.{
  ℕ, zero, suc, ◌≤◌, ◌<◌, ◌≡◌, ◌≢◌, refl, sym, ap, subst, ◌∙◌, ◌⊎◌, inl, inr, arith, Bytes, ◌++◌,
  Option, none, some, length, length-append, length-drop, drop, drop-append, ◌>>=◌,
}
use nova_kv.Resp.Parser.{
  success, incomplete, error, Parser, Round, return_error, return_incomplete, return_success, go_on,
  parse_round, Parsed, after_round,
}
use nova_kv.Resp.Stream.{stream_loop, parse_stream}
use nova_kv.Resp.Rounds.{IsParser, Bounded, parse_round-Bounded}
use nova_kv.Resp.Stable.{Ready, parse_round_stable}
use nova_kv.Resp.Stream.{SameOutcome, SameParsed, parse-parse_stream}
use nova_kv.Resp.Parser.{parse}
use nova_kv.NetworkBuffer.{NetworkBuffer, append}
use nova_kv.NetworkBuffer.Queue.{Holds, append-Holds}

-- The parser that a call goes on with.
abbrev resume : Bytes → Parsed Bytes → Option (Parsed Bytes)
resume t r = elim (r.status) [
  | success ↦ some (record r { buffer = r.buffer ++ t })
  | error ↦ some (record r { buffer = r.buffer ++ t })
  | incomplete ↦ parse_stream r.parser (r.buffer ++ t)
]

-- Facts about what follows a round, from facts about the rounds to come.
abbrev Rounds : Type 0
Rounds = Parser → Bytes → Option (Parsed Bytes)

module _ (p : Parser) (s : Bytes) (len : ℕ) where
  after_round_eq :
      (more more' : Rounds) (r : Round)
      → Bounded len r
      → ((p' : Parser) (n : ℕ)
          → 0 < n
          → n ≤ len
          → IsParser p'
          → more p' (drop n s) ≡ more' p' (drop n s))
      → after_round drop more p s r ≡ after_round drop more' p s r
  unfolding after_round
  after_round_eq more more' (return_error p') h k = refl
  after_round_eq more more' return_incomplete h k = refl
  after_round_eq more more' (return_success command n) h k = refl
  after_round_eq more more' (go_on p' n) h k = k p' n h.0 h.1 h.2

  after_round-some :
      (more : Rounds) (r : Round)
      → Bounded len r
      → ((p' : Parser) (n : ℕ)
          → 0 < n
          → n ≤ len
          → IsParser p'
          → (q : Parsed Bytes) × (more p' (drop n s) ≡ some q)
            × (q.status ≡ incomplete → IsParser q.parser))
      → IsParser p
      → (q : Parsed Bytes) × (after_round drop more p s r ≡ some q)
        × (q.status ≡ incomplete → IsParser q.parser)
  unfolding after_round
  after_round-some more (return_error p') h k ok = (_, refl, λ e. cc)
  after_round-some more return_incomplete h k ok = (_, refl, λ e. ok)
  after_round-some more (return_success command n) h k ok = (_, refl, λ e. cc)
  after_round-some more (go_on p' n) h k ok = k p' n h.0 h.1 h.2

  after_round-resume :
      (t : Bytes) (more more' : Rounds) (r : Round)
      → Bounded (length s) r
      → Ready r
      → ((p' : Parser) (n : ℕ)
          → 0 < n
          → n ≤ length s
          → IsParser p'
          → more p' (drop n s ++ t) ≡ (more' p' (drop n s) >>= resume t))
      → after_round drop more p (s ++ t) r ≡ (after_round drop more' p s r >>= resume t)
  unfolding after_round
  after_round-resume t more more' (return_error p') h ready k = refl
  after_round-resume t more more' return_incomplete h ready k = absurd ready
  after_round-resume t more more' (return_success command n) h ready k =
      rw (drop-append n s t h.1) refl
  after_round-resume t more more' (go_on p' n) h ready k =
      ap (more p') (drop-append n s t h.1) ∙ k p' n h.0 h.1 h.2

-- Any fuel above the length gives one result.
pub stream_loop_fuel :
    (f g : ℕ) (p : Parser) (s : Bytes)
    → IsParser p
    → length s < f
    → length s < g
    → stream_loop f p s ≡ stream_loop g p s
unfolding stream_loop
stream_loop_fuel zero g p s ok hf hg = absurd (omega arith)
stream_loop_fuel (suc f) zero p s ok hf hg = absurd (omega arith)
stream_loop_fuel (suc f) (suc g) p s ok hf hg =
    after_round_eq p s (length s) (stream_loop f) (stream_loop g) (parse_round p s)
      (parse_round-Bounded p s ok)
      (λ p' n pos' le ok'.
        stream_loop_fuel f g p' (drop n s) ok' (omega (arith, length-drop n s))
          (omega (arith, length-drop n s)))

stream_loop-some :
    (f : ℕ) (p : Parser) (s : Bytes)
    → IsParser p
    → length s < f
    → (q : Parsed Bytes) × (stream_loop f p s ≡ some q)
      × (q.status ≡ incomplete → IsParser q.parser)
unfolding stream_loop
stream_loop-some zero p s ok h = absurd (omega arith)
stream_loop-some (suc f) p s ok h =
    after_round-some p s (length s) (stream_loop f) (parse_round p s) (parse_round-Bounded p s ok)
      (λ p' n pos' le ok'. stream_loop-some f p' (drop n s) ok' (omega (arith, length-drop n s))) ok

Ready-cases : (r : Round) → Ready r ⊎ (r ≡ return_incomplete)
Ready-cases (return_error p) = inl tt
Ready-cases return_incomplete = inr refl
Ready-cases (return_success command n) = inl tt
Ready-cases (go_on p n) = inl tt

stream_loop-append :
    (f g : ℕ) (p : Parser) (s t : Bytes)
    → IsParser p
    → length (s ++ t) < f
    → length s < g
    → stream_loop f p (s ++ t) ≡ (stream_loop g p s >>= resume t)
unfolding stream_loop
stream_loop-append zero g p s t ok hf hg = absurd (omega arith)
stream_loop-append (suc f) zero p s t ok hf hg = absurd (omega arith)
stream_loop-append (suc f) (suc g) p s t ok hf hg = elim (Ready-cases (parse_round p s)) [
  | inl ready ↦
      ap (after_round drop (stream_loop f) p (s ++ t)) (parse_round_stable p s t ok ready)
      ∙ after_round-resume p s (length s) t (stream_loop f) (stream_loop g) (parse_round p s)
          (parse_round-Bounded p s ok) ready
          (λ p' n pos' le ok'.
            stream_loop-append f g p' (drop n s) t ok'
              (omega (arith, length-drop n s, length-append (drop n s) t, length-append s t))
              (omega (arith, length-drop n s)))
  | inr wait ↦
      stream_loop_fuel (suc f) (suc (length (s ++ t))) p (s ++ t) ok hf (omega arith) ∙ waiting wait
]
  where
    waiting :
        parse_round p s ≡ return_incomplete
        → stream_loop (suc (length (s ++ t))) p (s ++ t)
          ≡ (after_round drop (stream_loop g) p s (parse_round p s) >>= resume t)
    waiting wait = rw wait (unfold after_round parse_stream in refl)

-- Parse on a whole stream is Parse on its first bytes, and then, if those were not enough, Parse by
-- the parser that it left on what it left together with the bytes that came later.
parse_stream-append :
    (p : Parser) (s t : Bytes)
    → IsParser p
    → parse_stream p (s ++ t) ≡ (parse_stream p s >>= resume t)
unfolding parse_stream
parse_stream-append p s t ok = stream_loop-append _ _ p s t ok (omega arith) (omega arith)

-- A result over a buffer, from the result over the bytes that it held.
same_result :
    (o : Option (Parsed NetworkBuffer)) (q : Parsed Bytes)
    → SameOutcome o (some q)
    → (r : Parsed NetworkBuffer) × (o ≡ some r) × SameParsed r q
same_result none q h = absurd h
same_result (some r) q h = (r, refl, h)

resume_incomplete :
    (t : Bytes) (q : Parsed Bytes)
    → q.status ≡ incomplete
    → resume t q ≡ parse_stream q.parser (q.buffer ++ t)
resume_incomplete t q h = ground arith

resume_done :
    (t : Bytes) (q : Parsed Bytes)
    → q.status ≢ incomplete
    → resume t q ≡ some (record q { buffer = q.buffer ++ t })
resume_done t q h = ground arith

-- What two calls of Parse have in common when they give one status, one command and one parser, and
-- leave the same bytes.
abbrev pub SameAnswer : Option (Parsed NetworkBuffer) → Option (Parsed NetworkBuffer) → Type 0
SameAnswer x y = (q : Parsed Bytes) × SameOutcome x (some q) × SameOutcome y (some q)

parse_stream-some :
    (p : Parser) (s : Bytes)
    → IsParser p
    → (q : Parsed Bytes) × (parse_stream p s ≡ some q) × (q.status ≡ incomplete → IsParser q.parser)
unfolding parse_stream
parse_stream-some p s ok = stream_loop-some (suc (length s)) p s ok (omega arith)

continue_incomplete :
    (t : Bytes) (r : Parsed NetworkBuffer) (q : Parsed Bytes)
    (whole : Option (Parsed NetworkBuffer))
    → SameParsed r q
    → (q.status ≡ incomplete → IsParser q.parser)
    → q.status ≡ incomplete
    → SameOutcome whole (resume t q)
    → SameAnswer (parse r.parser (append r.buffer t)) whole
continue_incomplete t r q whole same okq wait h =
    let (q2, eq2, ok2) = parse_stream-some q.parser (q.buffer ++ t) (okq wait) in
    (
      q2,
      subst (SameOutcome (parse r.parser (append r.buffer t)))
          (ap (λ p. parse_stream p (q.buffer ++ t)) same.parser ∙ eq2)
          (parse-parse_stream r.parser (append r.buffer t) (q.buffer ++ t)
            (append-Holds t same.buffer).0),
      subst (SameOutcome whole) (resume_incomplete t q wait ∙ eq2) h,
    )

-- What must hold of the call on the longer buffer, `whole`, when a call has answered `r`.
abbrev pub Continues : Bytes → Parsed NetworkBuffer → Option (Parsed NetworkBuffer) → Type 0
Continues t r whole =
    (r.status ≡ incomplete → SameAnswer (parse r.parser (append r.buffer t)) whole)
    × (r.status ≢ incomplete → SameAnswer (some (record r { buffer = append r.buffer t })) whole)

-- A call of Parse always returns. If it answers INCOMPLETE, then appending the bytes `t` that come
-- next and calling again gives what one call gives on all the bytes at once. If it answers SUCCESS
-- or ERROR, the call on all the bytes gives the same, and leaves `t` behind what is left. The
-- buffer holds some bytes, and the parser expects data only of a length that it has read.
pub parse_in_pieces :
    (p : Parser) (b : NetworkBuffer) (s t : Bytes)
    → IsParser p
    → Holds b s
    → (r : Parsed NetworkBuffer) × (parse p b ≡ some r) × Continues t r (parse p (append b t))
parse_in_pieces p b s t ok h =
    let (q, eq, okq) = parse_stream-some p s ok in
    let (r, er, same) =
      same_result (parse p b) q (subst (SameOutcome (parse p b)) eq (parse-parse_stream p b s h)) in
    let resumed : parse_stream p (s ++ t) ≡ resume t q =
      parse_stream-append p s t ok ∙ ap (λ o. o >>= resume t) eq in
    let whole =
      subst (SameOutcome (parse p (append b t))) resumed
        (parse-parse_stream p (append b t) (s ++ t) (append-Holds t h).0) in
    (
      r,
      er,
      (
        λ wait.
            continue_incomplete t r q (parse p (append b t)) same okq (sym same.status ∙ wait)
              whole,
        λ done'. (
          record q { buffer = q.buffer ++ t },
          record {
            status = same.status;
            command = same.command;
            parser = same.parser;
            buffer = (append-Holds t same.buffer).0;
          },
          subst (SameOutcome (parse p (append b t)))
              (resume_done t q (λ e. done' (same.status ∙ e))) whole,
        ),
      ),
    )
