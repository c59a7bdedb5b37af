-- ===== src/Resp/Grammar.antt =====
-- The arrays of the protocol as a grammar, and what the rounds of Parse read of it.
use nova_kv.Prelude.{
  ℕ, zero, suc, ◌+◌, ◌-◌, ◌≡◌, refl, sym, ap, subst, ◌∙◌, inl, inr, arith, true, false, Bytes, List,
  [], ◌∷◌, ◌++◌, Option, none, some, length, take, drop, ◌==◌, append_assoc, ==_iff, Bool-cases,
  Option-cases,
}
use nova_kv.NetworkBuffer.{search_crlf}
use nova_kv.Resp.Decimal.{ℤ, pos, negsuc, from_chars}
use nova_kv.Resp.Parser.{
  State, expect_array_size, expect_bulk_size, expect_bulk_data, Parser, Round, return_error,
  return_incomplete, return_success, go_on, has_size, push_element, whole_number, header_round,
  first_is,
}

-- The bytes `s` up to `rest` are empty lines, the marker, the number `z` as from_chars reads it, and
-- the end of the line.
pub data Line (marker : ℕ) (z : ℤ) (rest : Bytes) : Bytes → Type 0 where
  blank : {s : Bytes} → Line marker z rest s → Line marker z rest (13 ∷ 10 ∷ s)
  number :
      (digits : Bytes)
      → from_chars digits ≡ some (z, [])
      → Line marker z rest (marker ∷ digits ++ 13 ∷ 10 ∷ rest)

-- A bulk string: a line with its length, the data, and the end of a line; the null for the empty one.
pub data Element (data_bytes : Bytes) (rest : Bytes) : Bytes → Type 0 where
  null_element :
      {s : Bytes} → data_bytes ≡ [] → Line b'$' (negsuc 0) rest s → Element data_bytes rest s
  bulk_element :
      {s : Bytes}
      → Line b'$' (pos (length data_bytes)) (data_bytes ++ 13 ∷ 10 ∷ rest) s
      → Element data_bytes rest s

pub data Elements (rest : Bytes) : List Bytes → Bytes → Type 0 where
  no_more : Elements rest [] rest
  element :
      {e : Bytes} {es : List Bytes} {s t : Bytes}
      → Element e t s
      → Elements rest es t
      → Elements rest (e ∷ es) s

-- The bytes `s` up to `rest` are an array of the strings of `command`.
abbrev pub IsArray : List Bytes → Bytes → Bytes → Type 0
IsArray command s rest =
    (t : Bytes) × Line b'*' (pos (length command)) t s × Elements rest command t

-- The elements behind the first `e` of those that are still to come.
abbrev pub After : Parser → Bytes → Bytes → List Bytes → Bytes → Type 0
After p e t command rest =
    (more : List Bytes) × (command ≡ p.current_command ++ e ∷ more)
    × Elements rest more t
    × (has_size command p.array_size ≡ true)

-- What the bytes up to `rest` are, for a parser that gives `command` after them.
abbrev pub RestIn : State → Parser → Bytes → List Bytes → Bytes → Type 0
RestIn expect_array_size p s command rest = p.current_command ≡ [] → IsArray command s rest
RestIn expect_bulk_size p s command rest =
    (e : Bytes) × (t : Bytes) × Element e t s × After p e t command rest
RestIn expect_bulk_data p s command rest =
    (e : Bytes) × (t : Bytes) × (p.bulk_len ≡ pos (length e))
    × (s ≡ e ++ 13 ∷ 10 ∷ t)
    × After p e t command rest

-- A round on the bytes `s` that gives a command, or goes on to one, has read what `P` says.
abbrev pub Sound : (List Bytes → Bytes → Type 0) → Bytes → Round → Type 0
Sound P s (return_error p) = Unit
Sound P s return_incomplete = Unit
Sound P s (return_success command n) = P command (drop n s)
Sound P s (go_on p n) =
    (command : List Bytes) (rest : Bytes)
    → RestIn p.state p (drop n s) command rest
    → P command rest

pub map-Sound :
    (P Q : List Bytes → Bytes → Type 0) (s : Bytes) (r : Round)
    → ((command : List Bytes) (rest : Bytes) → P command rest → Q command rest)
    → Sound P s r
    → Sound Q s r
map-Sound P Q s (return_error p) f h = tt
map-Sound P Q s return_incomplete f h = tt
map-Sound P Q s (return_success command n) f h = f command (drop n s) h
map-Sound P Q s (go_on p n) f h = λ command rest more. f command rest (h command rest more)

search_crlf_split :
    (s : Bytes) (i : ℕ) → search_crlf s ≡ some i → s ≡ take i s ++ 13 ∷ 10 ∷ drop (i + 2) s
unfolding search_crlf
search_crlf_split [] i h = cc
search_crlf_split (a ∷ []) i h = cc
search_crlf_split (a ∷ b ∷ s) zero h = ground arith
search_crlf_split (a ∷ b ∷ s) (suc i) h = ground (arith, search_crlf_split (b ∷ s) i)

pub push_element-Sound :
    (p : Parser) (e : Bytes) (n : ℕ) (s : Bytes)
    → Sound (After p e (drop n s)) s (push_element p e n)
unfolding push_element
push_element-Sound p e n s =
    elim (Bool-cases (has_size (p.current_command ++ e ∷ []) p.array_size)) [
      | inl full ↦ rw full ([], refl, no_more, full)
      | inr part ↦ rw part (λ command rest (e2, t, read, (more, same, elements, full)). (
        e2 ∷ more,
        same ∙ append_assoc p.current_command (e ∷ []) (e2 ∷ more),
        element read elements,
        full,
      ))
    ]

less_one : (i : ℕ) → suc i - 1 ≡ i
less_one i = omega arith

-- The number on the first line, where it is not empty.
number-Line :
    (marker : ℕ) (s : Bytes) (i : ℕ) (z : ℤ)
    → search_crlf s ≡ some i
    → (i == 0) ≡ false
    → first_is marker s ≡ true
    → from_chars (take (i - 1) (drop 1 s)) ≡ some (z, [])
    → Line marker z (drop (i + 2) s) s
unfolding first_is
number-Line marker [] i z found line good h = cc
number-Line marker (c ∷ s) zero z found line good h = cc
number-Line marker (c ∷ s) (suc i) z found line good h =
    subst (Line marker z (drop (suc i + 2) (c ∷ s)))
      (ap (λ d. d ∷ take i s ++ 13 ∷ 10 ∷ drop (suc i + 2) (c ∷ s)) (sym ((==_iff c marker).0 good))
        ∙ sym (search_crlf_split (c ∷ s) (suc i) found))
      (number (take i s) (subst (λ j. from_chars (take j s) ≡ some (z, [])) (less_one i) h))

whole_number-Sound :
    (P : List Bytes → Bytes → Type 0) (p : Parser) (s line : Bytes) (store : ℤ → Parser)
    (next : ℤ → Round)
    → ((z : ℤ) → from_chars line ≡ some (z, []) → Sound P s (next z))
    → Sound P s (whole_number p (from_chars line) store next)
unfolding whole_number
whole_number-Sound P p s line store next h = by_result (from_chars line) refl
  where
    by_result :
        (o : Option (ℤ × Bytes)) → from_chars line ≡ o → Sound P s (whole_number p o store next)
    by_result none e = tt
    by_result (some (z, [])) e = h z e
    by_result (some (z, c ∷ rest)) e = tt

-- A state that reads a line goes on after an empty one, and otherwise reads the number.
pub header_round-Sound :
    (p : Parser) (marker : ℕ) (store : Parser → ℤ → Parser) (next : Parser → ℕ → ℤ → Round)
    (s : Bytes) (st : State)
    → p.state ≡ st
    → ((command : List Bytes) (rest t : Bytes)
        → RestIn st p t command rest
        → RestIn st p (13 ∷ 10 ∷ t) command rest)
    → ((n : ℕ) (z : ℤ) → Line marker z (drop n s) s → Sound (RestIn st p s) s (next p n z))
    → Sound (RestIn st p s) s (header_round p marker store next s)
unfolding header_round
header_round-Sound p marker store next s st at_state skips reads =
    elim (Option-cases (search_crlf s)) [
      | inl off ↦ rw (off, header_round) tt
      | inr (i, found) ↦
          rw (found, header_round)
            (elim (Bool-cases (i == 0)) [
              | inl blank_line ↦ rw blank_line (λ command rest more.
                  subst (λ t. RestIn st p t command rest)
                    (sym (starts_blank i ((==_iff i 0).0 blank_line) found))
                    (skips command rest (drop 2 s)
                      (subst (λ st. RestIn st p (drop 2 s) command rest) at_state more)))
              | inr line ↦ rw line (elim (Bool-cases (first_is marker s)) [
                | inl good ↦ rw good (
                    whole_number-Sound (RestIn st p s) p s _ _ _
                      (λ z e. reads (i + 2) z (number-Line marker s i z found line good e)))
                | inr bad ↦ rw bad tt
              ])
            ])
    ]
  where
    starts_blank : (i : ℕ) → i ≡ 0 → search_crlf s ≡ some i → s ≡ 13 ∷ 10 ∷ drop 2 s
    starts_blank zero e found = search_crlf_split s 0 found
    starts_blank (suc i) e found = cc
