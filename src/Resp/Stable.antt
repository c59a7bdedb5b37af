-- ===== src/Resp/Stable.antt =====
-- A round that does not wait for more answers the same when more bytes stand behind.
use nova_kv.Prelude.{
  ℕ, ◌+◌, ◌-◌, ◌≤◌, ◌<◌, ◌%◌, ◌≡◌, refl, ap, subst, ◌∙◌, inl, inr, arith, false, Bytes, [], ◌∷◌,
  ◌++◌, length, length-append, length-drop, take, drop, take-append, drop-append, ltb, ◌==◌,
  Bool-cases, Option-cases, u64_mod,
}
use nova_kv.NetworkBuffer.{search_crlf}
use nova_kv.Resp.Decimal.{ℤ, pos, negsuc}
use nova_kv.Resp.Parser.{
  State, expect_array_size, expect_bulk_size, expect_bulk_data, Parser, Round, return_error,
  return_incomplete, return_success, go_on, header_round, first_is, data_len, data_round,
  state_round, parse_round,
}
use nova_kv.Resp.Rounds.{search_crlf-append, search_crlf_fits, StateFits, IsParser, byte_is-append}

abbrev pub Ready : Round → Type 0
Ready (return_error p) = Unit
Ready return_incomplete = ⊥
Ready (return_success command n) = Unit
Ready (go_on p n) = Unit

first_is-append : (c i : ℕ) (s t : Bytes) → i < length s → first_is c (s ++ t) ≡ first_is c s
unfolding first_is
first_is-append c i [] t h = absurd (omega arith)
first_is-append c i (d ∷ s) t h = refl

line-append :
    (i : ℕ) (s t : Bytes)
    → i + 2 ≤ length s
    → take (i - 1) (drop 1 (s ++ t)) ≡ take (i - 1) (drop 1 s)
line-append i s t h =
    ap (take (i - 1)) (drop-append 1 s t (omega arith))
    ∙ take-append (i - 1) (drop 1 s) t (omega (arith, length-drop 1 s))

header_round_stable :
    (p : Parser) (marker : ℕ) (store : Parser → ℤ → Parser) (next : Parser → ℕ → ℤ → Round)
    (s t : Bytes)
    → Ready (header_round p marker store next s)
    → header_round p marker store next (s ++ t) ≡ header_round p marker store next s
unfolding header_round
header_round_stable p marker store next s t ready = elim (Option-cases (search_crlf s)) [
  | inl off ↦ absurd (rw (off, header_round) at ready)
  | inr (i, found) ↦
      let fits = search_crlf_fits s i found in
      rw (found, search_crlf-append s t i found, header_round)
        (rw (first_is-append marker i s t (omega arith), line-append i s t fits) refl)
]

data_round_stable :
    (p : Parser) (s t : Bytes)
    → p.state ≡ expect_bulk_data
    → IsParser p
    → Ready (data_round p s)
    → data_round p (s ++ t) ≡ data_round p s
unfolding data_round
data_round_stable p s t e ok ready =
    elim (Bool-cases (ltb (length s) ((data_len p.bulk_len + 2) % u64_mod))) [
      | inl few ↦ absurd (rw few at ready)
      | inr enough ↦
          let fits =
            data_fits p.bulk_len (length s) (subst (λ st. StateFits st p.bulk_len) e ok) enough in
          rw
            (
              enough,
              still (length s) (length (s ++ t)) ((data_len p.bulk_len + 2) % u64_mod) enough
                  (omega (arith, length-append s t)),
            )
            (rw
              (
                byte_is-append (data_len p.bulk_len) 13 s t (omega arith),
                byte_is-append (data_len p.bulk_len + 1) 10 s t (omega arith),
                take-append (data_len p.bulk_len) s t (omega arith),
              )
              refl)
    ]
  where
    data_fits :
        (z : ℤ) (len : ℕ)
        → StateFits expect_bulk_data z
        → ltb len ((data_len z + 2) % u64_mod) ≡ false
        → data_len z + 2 ≤ len
    data_fits (pos n) len h enough = unfold data_len in ground arith
    data_fits (negsuc n) len h enough = absurd h

    still : (a b c : ℕ) → ltb a c ≡ false → a ≤ b → ltb b c ≡ false
    still a b c h k = ground arith

state_round_stable :
    (st : State) (p : Parser) (s t : Bytes)
    → p.state ≡ st
    → IsParser p
    → Ready (state_round st p s)
    → state_round st p (s ++ t) ≡ state_round st p s
unfolding state_round
state_round_stable expect_array_size p s t e ok ready = header_round_stable p _ _ _ s t ready
state_round_stable expect_bulk_size p s t e ok ready = header_round_stable p _ _ _ s t ready
state_round_stable expect_bulk_data p s t e ok ready = data_round_stable p s t e ok ready

-- A round that does not wait for more answers the same on more.
pub parse_round_stable :
    (p : Parser) (s t : Bytes)
    → IsParser p
    → Ready (parse_round p s)
    → parse_round p (s ++ t) ≡ parse_round p s
unfolding parse_round
parse_round_stable p s t ok ready = elim (Bool-cases (length s == 0)) [
  | inl empty ↦ absurd (rw empty at ready)
  | inr more ↦
      rw (more, still_more more) (state_round_stable p.state p s t refl ok (rw more at ready))
]
  where
    still_more : (length s == 0) ≡ false → (length (s ++ t) == 0) ≡ false
    still_more h = ground (arith, length-append s t)
