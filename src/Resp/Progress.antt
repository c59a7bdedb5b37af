-- ===== src/Resp/Progress.antt =====
-- What a call of Parse leaves, for a caller that calls it again after each command.
use nova_kv.Prelude.{
  ℕ, zero, suc, ◌<◌, ◌≤◌, ◌≡◌, refl, sym, subst, ◌∙◌, arith, Bytes, Option, none, some, length,
  drop, length-drop,
}
use nova_kv.NetworkBuffer.{NetworkBuffer}
use nova_kv.NetworkBuffer.Queue.{Holds}
use nova_kv.Resp.Parser.{
  Parser, success, incomplete, Round, return_error, return_incomplete, return_success, go_on,
  parse_round, Parsed, after_round, parse, reset,
}
use nova_kv.Resp.Stream.{stream_loop, parse_stream, SameOutcome, parse-parse_stream}
use nova_kv.Resp.Rounds.{IsParser, Bounded, parse_round-Bounded}

-- A command takes something, and what is left can be parsed on.
abbrev pub Moves : {B : Type 0} → ℕ → ℕ → Parsed B → Type 0
Moves before after r =
    (r.status ≡ success → (after < before) × IsParser r.parser)
    × (r.status ≡ incomplete → IsParser r.parser)

after_round-Moves :
    (p : Parser) (s : Bytes) (more : Parser → Bytes → Option (Parsed Bytes)) (r : Round)
    → Bounded (length s) r
    → IsParser p
    → ((p' : Parser) (n : ℕ)
        → 0 < n
        → n ≤ length s
        → IsParser p'
        → (q : Parsed Bytes) × (more p' (drop n s) ≡ some q)
          × Moves (length (drop n s)) (length q.buffer) q)
    → (q : Parsed Bytes) × (after_round drop more p s r ≡ some q)
      × Moves (length s) (length q.buffer) q
unfolding after_round reset
after_round-Moves p s more (return_error p') h ok k = (_, refl, ((λ e. cc e), λ e. cc e))
after_round-Moves p s more return_incomplete h ok k = (_, refl, ((λ e. cc e), λ e. ok))
after_round-Moves p s more (return_success command n) h ok k =
    (_, refl, ((λ e. (omega (arith, h, length-drop n s), tt)), λ e. tt))
after_round-Moves p s more (go_on p' n) h ok k =
    let (q, e, moves) = k p' n h.0 h.1 h.2 in
    (q, e, (λ done. (omega (arith, (moves.0 done).0, length-drop n s), (moves.0 done).1), moves.1))

stream_loop-Moves :
    (f : ℕ) (p : Parser) (s : Bytes)
    → IsParser p
    → length s < f
    → (q : Parsed Bytes) × (stream_loop f p s ≡ some q) × Moves (length s) (length q.buffer) q
unfolding stream_loop
stream_loop-Moves zero p s ok h = absurd (omega arith)
stream_loop-Moves (suc f) p s ok h =
    after_round-Moves p s (stream_loop f) (parse_round p s) (parse_round-Bounded p s ok) ok
      (λ p' n pos' le ok'. stream_loop-Moves f p' (drop n s) ok' (omega (arith, length-drop n s)))

held_result :
    (o : Option (Parsed NetworkBuffer)) (q : Parsed Bytes) (n : ℕ)
    → SameOutcome o (some q)
    → Moves n (length q.buffer) q
    → (r : Parsed NetworkBuffer) × (o ≡ some r)
      × Holds r.buffer q.buffer
      × Moves n (length q.buffer) r
held_result none q n h m = absurd h
held_result (some r) q n h m = (
  r,
  refl,
  h.buffer,
  (
    λ e. let (lt, ok) = m.0 (sym h.status ∙ e) in (lt, subst (λ p. IsParser p) (sym h.parser) ok),
    λ e. subst (λ p. IsParser p) (sym h.parser) (m.1 (sym h.status ∙ e)),
  ),
)

-- A call of Parse returns, and leaves a buffer that holds some bytes: fewer than before where it
-- gives a command.
pub parse-Moves :
    (p : Parser) (b : NetworkBuffer) (s : Bytes)
    → IsParser p
    → Holds b s
    → (r : Parsed NetworkBuffer) × (parse p b ≡ some r)
      × (s' : Bytes) × Holds r.buffer s'
      × Moves (length s) (length s') r
unfolding parse_stream
parse-Moves p b s ok h =
    let (q, eq, moves) = stream_loop-Moves (suc (length s)) p s ok (omega arith) in
    let same : SameOutcome (parse p b) (some q) =
      subst (SameOutcome (parse p b)) eq (parse-parse_stream p b s h) in
    let (r, er, holds, left) = held_result (parse p b) q (length s) same moves in
    (r, er, q.buffer, holds, left)
