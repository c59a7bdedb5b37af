-- ===== src/Resp/Accepts.antt =====
-- Parse accepts nothing but the arrays of the grammar.
use nova_kv.Prelude.{
  ℕ, zero, suc, ◌+◌, ◌%◌, ◌≡◌, refl, sym, ap, subst, ◌∙◌, inl, inr, arith, true, ◌&&◌, Bytes, List,
  [], ◌∷◌, ◌++◌, Option, none, some, length, length-take, take, drop, ltb, ◌==◌, ==_iff, Bool-cases,
  u64_mod,
}
use nova_kv.NetworkBuffer.{NetworkBuffer}
use nova_kv.NetworkBuffer.Queue.{Holds}
use nova_kv.Resp.Decimal.{ℤ, pos, negsuc}
use nova_kv.Resp.Parser.{
  State, expect_array_size, expect_bulk_size, expect_bulk_data, Parser, new_parser, success, Round,
  return_error, return_incomplete, return_success, go_on, has_size, push_element, set_array_size,
  set_bulk_len, on_array_size, on_bulk_len, byte_is, data_len, data_round, state_round, parse_round,
  Parsed, after_round, parse,
}
use nova_kv.Resp.Stream.{stream_loop, parse_stream, SameOutcome, parse-parse_stream}
use nova_kv.Resp.Rounds.{StateFits, IsParser, Bounded, parse_round-Bounded, byte_is_fits}
use nova_kv.Resp.Grammar.{
  Line, blank, Element, null_element, bulk_element, Elements, no_more, element, IsArray, After,
  RestIn, Sound, map-Sound, push_element-Sound, header_round-Sound,
}

on_array_size-Sound :
    (p : Parser) (s : Bytes) (n : ℕ) (z : ℤ)
    → Line b'*' z (drop n s) s
    → Sound (RestIn expect_array_size p s) s (on_array_size p n z)
unfolding on_array_size has_size
on_array_size-Sound p s n (negsuc z) line = tt
on_array_size-Sound p s n (pos zero) line = λ none_yet. (drop n s, line, no_more)
on_array_size-Sound p s n (pos (suc z)) line =
    λ command rest (e, t, read, (more, same, elements, full)) none_yet.
      let whole : command ≡ e ∷ more = same ∙ ap (λ c. c ++ e ∷ more) none_yet in
      let size : length command ≡ suc z = (==_iff (length command) (suc z)).0 full in
      (
        drop n s,
        subst (λ k. Line b'*' (pos k) (drop n s) s) (sym size) line,
        subst (λ c. Elements rest c (drop n s)) (sym whole) (element read elements),
      )

on_bulk_len-Sound :
    (p : Parser) (s : Bytes) (n : ℕ) (z : ℤ)
    → Line b'$' z (drop n s) s
    → Sound (RestIn expect_bulk_size p s) s (on_bulk_len p n z)
unfolding on_bulk_len set_bulk_len
on_bulk_len-Sound p s n (negsuc zero) line =
    map-Sound (After p [] (drop n s)) (RestIn expect_bulk_size p s) s
      (push_element (set_bulk_len p (negsuc 0)) [] n)
      (λ command rest after. ([], drop n s, null_element refl line, after))
      (push_element-Sound (set_bulk_len p (negsuc 0)) [] n s)
on_bulk_len-Sound p s n (negsuc (suc z)) line = tt
on_bulk_len-Sound p s n (pos z) line = λ command rest (e, t, len, layout, after).
    let sized : Line b'$' (pos (length e)) (drop n s) s =
      subst (λ k. Line b'$' k (drop n s) s) len line in
    (e, t, bulk_element (subst (λ w. Line b'$' (pos (length e)) w s) layout sized), after)

suc_add : (n k : ℕ) → suc n + k ≡ suc (n + k)
suc_add n k = omega arith

-- The end of a line behind the first `n` bytes.
crlf_at :
    (n : ℕ) (s : Bytes)
    → byte_is n 13 s ≡ true
    → byte_is (n + 1) 10 s ≡ true
    → s ≡ take n s ++ 13 ∷ 10 ∷ drop (n + 2) s
unfolding byte_is
crlf_at n [] h k = cc
crlf_at zero (a ∷ []) h k = cc
crlf_at zero (a ∷ b ∷ s) h k = ground arith
crlf_at (suc n) (a ∷ s) h k =
    let next : byte_is (n + 1) 10 s ≡ true =
      subst (λ j. byte_is j 10 (a ∷ s) ≡ true) (suc_add n 1) k in
    subst (λ j. a ∷ s ≡ a ∷ take n s ++ 13 ∷ 10 ∷ drop j (a ∷ s)) (sym (suc_add n 2))
      (ap (λ t. a ∷ t) (crlf_at n s h next))

data_round-Sound :
    (p : Parser) (s : Bytes)
    → StateFits expect_bulk_data p.bulk_len
    → Sound (RestIn expect_bulk_data p s) s (data_round p s)
unfolding data_round data_len
data_round-Sound p s fits = by_len p.bulk_len refl fits
  where
    whole : (n : ℕ) → (byte_is n 13 s && byte_is (n + 1) 10 s) ≡ true → n ≡ length (take n s)
    whole n good = omega (arith, length-take n s, byte_is_fits n 13 s (ground arith))

    by_len :
        (z : ℤ)
        → p.bulk_len ≡ z
        → StateFits expect_bulk_data z
        → Sound (RestIn expect_bulk_data p s) s (data_round p s)
    by_len (negsuc n) e f = absurd f
    by_len (pos n) e f =
        rw (e, data_round)
          (elim (Bool-cases (ltb (length s) ((n + 2) % u64_mod))) [
            | inl few ↦ rw few tt
            | inr enough ↦ rw enough (elim (Bool-cases (byte_is n 13 s && byte_is (n + 1) 10 s)) [
              | inl good ↦ rw good (
                  map-Sound (After (record p { bulk_len = pos n }) (take n s) (drop (n + 2) s))
                    (RestIn expect_bulk_data (record p { bulk_len = pos n }) s) s _
                    (λ command rest after. (
                      take n s,
                      drop (n + 2) s,
                      ap pos (whole n good),
                      crlf_at n s (ground arith) (ground arith),
                      after,
                    ))
                    (push_element-Sound (record p { bulk_len = pos n }) (take n s) (n + 2) s))
              | inr bad ↦ rw bad tt
            ])
          ])

blank-Element : {e t s : Bytes} → Element e t s → Element e t (13 ∷ 10 ∷ s)
blank-Element (null_element empty line) = null_element empty (blank line)
blank-Element (bulk_element line) = bulk_element (blank line)

state_round-Sound :
    (st : State) (p : Parser) (s : Bytes)
    → p.state ≡ st
    → IsParser p
    → Sound (RestIn st p s) s (state_round st p s)
unfolding state_round
state_round-Sound expect_array_size p s e ok =
    header_round-Sound p b'*' set_array_size on_array_size s expect_array_size e
      (λ command rest t h none_yet.
        let (u, line, elements) = h none_yet in (u, blank line, elements))
      (on_array_size-Sound p s)
state_round-Sound expect_bulk_size p s e ok =
    header_round-Sound p b'$' set_bulk_len on_bulk_len s expect_bulk_size e
      (λ command rest t (e1, u, read, after). (e1, u, blank-Element read, after))
      (on_bulk_len-Sound p s)
state_round-Sound expect_bulk_data p s e ok =
    data_round-Sound p s (subst (λ st. StateFits st p.bulk_len) e ok)

parse_round-Sound :
    (p : Parser) (s : Bytes) → IsParser p → Sound (RestIn p.state p s) s (parse_round p s)
unfolding parse_round
parse_round-Sound p s ok = elim (Bool-cases (length s == 0)) [
  | inl empty ↦ rw empty tt
  | inr more ↦ rw more (state_round-Sound p.state p s refl ok)
]

-- What is left of a command is what the parser reads before it.
abbrev Accepts : {B : Type 0} → (List Bytes → B → Type 0) → Option (Parsed B) → Type 0
Accepts P none = Unit
Accepts P (some r) = r.status ≡ success → P r.command r.buffer

map-Accepts :
    {B : Type 0} (P Q : List Bytes → B → Type 0) (o : Option (Parsed B))
    → ((command : List Bytes) (rest : B) → P command rest → Q command rest)
    → Accepts P o
    → Accepts Q o
map-Accepts P Q none f h = tt
map-Accepts P Q (some r) f h = λ e. f r.command r.buffer (h e)

after_round-Accepts :
    (p : Parser) (s : Bytes) (more : Parser → Bytes → Option (Parsed Bytes)) (r : Round)
    → Bounded (length s) r
    → Sound (RestIn p.state p s) s r
    → ((p' : Parser) (n : ℕ)
        → IsParser p'
        → Accepts (RestIn p'.state p' (drop n s)) (more p' (drop n s)))
    → Accepts (RestIn p.state p s) (after_round drop more p s r)
unfolding after_round
after_round-Accepts p s more (return_error p') h sound k = λ e. cc e
after_round-Accepts p s more return_incomplete h sound k = λ e. cc e
after_round-Accepts p s more (return_success command n) h sound k = λ e. sound
after_round-Accepts p s more (go_on p' n) h sound k =
    map-Accepts (RestIn p'.state p' (drop n s)) (RestIn p.state p s) (more p' (drop n s)) sound
      (k p' n h.2)

stream_loop-Accepts :
    (f : ℕ) (p : Parser) (s : Bytes) → IsParser p → Accepts (RestIn p.state p s) (stream_loop f p s)
unfolding stream_loop
stream_loop-Accepts zero p s ok = tt
stream_loop-Accepts (suc f) p s ok =
    after_round-Accepts p s (stream_loop f) (parse_round p s) (parse_round-Bounded p s ok)
      (parse_round-Sound p s ok) (λ p' n ok'. stream_loop-Accepts f p' (drop n s) ok')

held :
    (s : Bytes) (r : Parsed NetworkBuffer) (o : Option (Parsed Bytes))
    → SameOutcome (some r) o
    → Accepts (λ command rest. IsArray command s rest) o
    → r.status ≡ success
    → (rest : Bytes) × IsArray r.command s rest × Holds r.buffer rest
held s r none same accepts done = absurd same
held s r (some q) same accepts done = (
  q.buffer,
  subst (λ c. IsArray c s q.buffer) (sym same.command) (accepts (sym same.status ∙ done)),
  same.buffer,
)

-- Parse accepts nothing but arrays: where a call of a new parser answers SUCCESS, the bytes that the
-- buffer held are an array of the protocol, of exactly the strings of the command, and then the bytes
-- that the buffer still holds. Empty lines may stand before the array and before each of its strings,
-- and a string may be the null, which is read as the empty one.
pub parse-IsArray :
    (b : NetworkBuffer) (s : Bytes) (r : Parsed NetworkBuffer)
    → Holds b s
    → parse new_parser b ≡ some r
    → r.status ≡ success
    → (rest : Bytes) × IsArray r.command s rest × Holds r.buffer rest
unfolding parse_stream
parse-IsArray b s r h e done =
    held s r (parse_stream new_parser s)
      (subst (λ o. SameOutcome o (parse_stream new_parser s)) e
        (parse-parse_stream new_parser b s h))
      (map-Accepts (RestIn expect_array_size new_parser s) (λ command rest. IsArray command s rest)
        (parse_stream new_parser s) (λ command rest f. f refl)
        (stream_loop-Accepts (suc (length s)) new_parser s tt))
      done
