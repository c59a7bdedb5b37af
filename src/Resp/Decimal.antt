-- ===== src/Resp/Decimal.antt =====
-- std::to_string and std::from_chars on 64-bit integers.
use nova_kv.Prelude.{
  ℕ, zero, suc, ◌+◌, ◌-◌, ◌*◌, ◌/◌, ◌%◌, ◌≤◌, ◌<◌, ◌≡◌, refl, ap, subst, ◌∙◌, arith, Bool, true,
  false, ◌&&◌, Bytes, [], ◌∷◌, ◌++◌, Option, none, some, All, append-nil, Bool-cases, inl, inr,
  ltb→lt, le→leb, leb→le, ltb, leb, ◌==◌, if◌then◌else◌,
}

-- A signed integer; `negsuc n` is -(n + 1).
pub data ℤ : Type 0 where
  pos : ℕ → ℤ
  negsuc : ℕ → ℤ

-- The decimal digits of `n` in front of `acc`. The fuel is more than the number of digits.
decimal_loop : ℕ → ℕ → Bytes → Bytes
decimal_loop zero n acc = acc
decimal_loop (suc fuel) n acc =
    let more = decimal_loop fuel (n / 10) ((48 + n % 10) ∷ acc) in
    if ltb n 10 then (48 + n) ∷ acc else more

-- std::to_string of a size_t.
unfoldable pub decimal : ℕ → Bytes
unfolding decimal_loop
decimal n = decimal_loop (suc n) n []

-- std::to_string of an int64_t.
unfoldable pub decimal_ℤ : ℤ → Bytes
decimal_ℤ (pos n) = decimal n
decimal_ℤ (negsuc n) = b'-' ∷ decimal (n + 1)

unfoldable pub is_digit : ℕ → Bool
is_digit c = leb 48 c && leb c 57

-- The value of the digits in front, after `acc`, and what follows them.
unfoldable pub read_digits : ℕ → Bytes → ℕ × Bytes
read_digits acc [] = (acc, [])
read_digits acc (c ∷ s) =
    let more = read_digits (acc * 10 + (c - 48)) s in if is_digit c then more else (acc, c ∷ s)

abbrev pub int64_max : ℕ
int64_max = 0x7fff_ffff_ffff_ffff

unfoldable pub starts_with_digit : Bytes → Bool
starts_with_digit [] = false
starts_with_digit (c ∷ s) = is_digit c

-- The sign is applied, and the range of int64_t tested.
unfoldable pub signed : Bool → ℕ × Bytes → Option (ℤ × Bytes)
signed false (n, rest) = if leb n int64_max then some (pos n, rest) else none
signed true (zero, rest) = some (pos 0, rest)
signed true (suc n, rest) = if leb n int64_max then some (negsuc n, rest) else none

unfoldable pub from_digits : Bool → Bytes → Option (ℤ × Bytes)
from_digits minus s = if starts_with_digit s then signed minus (read_digits 0 s) else none

-- std::from_chars into an int64_t: the value and what is behind it, or `none` on an error, which
-- leaves the variable as it was.
unfoldable pub from_chars : Bytes → Option (ℤ × Bytes)
from_chars [] = none
from_chars (c ∷ s) = if c == b'-' then from_digits true s else from_digits false (c ∷ s)

read_digits_digit :
    (acc d : ℕ) (s : Bytes) → d < 10 → read_digits acc ((48 + d) ∷ s) ≡ read_digits (acc * 10 + d) s
unfolding read_digits
read_digits_digit acc d s h = rw (digit, value) refl
  where
    digit : is_digit (48 + d) ≡ true
    digit = unfold is_digit in ground arith

    value : acc * 10 + (48 + d - 48) ≡ acc * 10 + d
    value = omega arith

read_digits-decimal_loop :
    (fuel n : ℕ) (acc rest : Bytes)
    → n < fuel
    → read_digits 0 (decimal_loop fuel n acc ++ rest) ≡ read_digits n (acc ++ rest)
unfolding decimal_loop
read_digits-decimal_loop zero n acc rest h = absurd (omega arith)
read_digits-decimal_loop (suc fuel) n acc rest h = elim (Bool-cases (ltb n 10)) [
  | inl small ↦ rw small (
      read_digits_digit 0 n (acc ++ rest) (ltb→lt _ _ small)
      ∙ ap (λ k. read_digits k (acc ++ rest)) (omega arith))
  | inr large ↦ rw large (
      read_digits-decimal_loop fuel (n / 10) ((48 + n % 10) ∷ acc) rest (ground arith)
      ∙ read_digits_digit (n / 10) (n % 10) (acc ++ rest) (omega arith)
      ∙ ap (λ k. read_digits k (acc ++ rest)) (omega arith))
]

-- Reading the digits of `n` gives `n` and whatever follows.
pub read_digits-decimal :
    (n : ℕ) (rest : Bytes) → read_digits 0 (decimal n ++ rest) ≡ read_digits n rest
unfolding decimal
read_digits-decimal n rest = read_digits-decimal_loop (suc n) n [] rest (omega arith)

abbrev pub IsDigit : ℕ → Type 0
IsDigit c = (48 ≤ c) × (c ≤ 57)

decimal_loop-IsDigit :
    (fuel n : ℕ) (acc : Bytes) → All IsDigit acc → All IsDigit (decimal_loop fuel n acc)
unfolding decimal_loop
decimal_loop-IsDigit zero n acc h = h
decimal_loop-IsDigit (suc fuel) n acc h = ground (
  arith,
  decimal_loop-IsDigit fuel (n / 10) ((48 + n % 10) ∷ acc) ((omega arith, omega arith), h),
)

pub decimal-IsDigit : (n : ℕ) → All IsDigit (decimal n)
unfolding decimal
decimal-IsDigit n = decimal_loop-IsDigit (suc n) n [] tt

-- A number has a first digit.
decimal_loop-cons :
    (fuel n : ℕ) (acc : Bytes)
    → n < fuel
    → (c : ℕ) × (s : Bytes) × (decimal_loop fuel n acc ≡ c ∷ s)
unfolding decimal_loop
decimal_loop-cons zero n acc h = absurd (omega arith)
decimal_loop-cons (suc fuel) n acc h = elim (Bool-cases (ltb n 10)) [
  | inl small ↦ rw small (48 + n, acc, refl)
  | inr large ↦ rw large (decimal_loop-cons fuel (n / 10) ((48 + n % 10) ∷ acc) (ground arith))
]

decimal-cons : (n : ℕ) → (c : ℕ) × (s : Bytes) × (decimal n ≡ c ∷ s)
unfolding decimal
decimal-cons n = decimal_loop-cons (suc n) n [] (omega arith)

-- What is printed is read back.
pub from_chars-decimal : (n : ℕ) → n ≤ int64_max → from_chars (decimal n) ≡ some (pos n, [])
unfolding from_chars from_digits starts_with_digit signed
from_chars-decimal n h =
    let (c, s, e) = decimal-cons n in
    let digit = rw e at (decimal-IsDigit n) in
    let value = rw (append-nil, e) at (read_digits-decimal n []) in
    rw e (read_first c s digit.0 value)
  where
    is_minus : (c : ℕ) → IsDigit c → (c == b'-') ≡ false
    is_minus c d = ground arith

    is_first : (c : ℕ) → IsDigit c → is_digit c ≡ true
    is_first c d = unfold is_digit in ground arith

    read_first :
        (c : ℕ) (s : Bytes)
        → IsDigit c
        → read_digits 0 (c ∷ s) ≡ read_digits n []
        → from_chars (c ∷ s) ≡ some (pos n, [])
    read_first c s d value =
        rw (is_minus c d)
          (rw (is_first c d, value) (unfold read_digits in rw (le→leb n int64_max h) refl))

-- A number that is read fits an int64_t.
abbrev pub InRange : ℤ → Type 0
InRange (pos n) = n ≤ int64_max
InRange (negsuc n) = n ≤ int64_max

abbrev ResultFits : Option (ℤ × Bytes) → Type 0
ResultFits none = Unit
ResultFits (some (z, rest)) = InRange z

signed-InRange : (minus : Bool) (r : ℕ × Bytes) → ResultFits (signed minus r)
unfolding signed
signed-InRange false (n, rest) = elim (Bool-cases (leb n int64_max)) [
  | inl fits ↦ rw fits (leb→le _ _ fits)
  | inr over ↦ rw over tt
]
signed-InRange true (zero, rest) = omega arith
signed-InRange true (suc n, rest) = elim (Bool-cases (leb n int64_max)) [
  | inl fits ↦ rw fits (leb→le _ _ fits)
  | inr over ↦ rw over tt
]

from_digits-InRange : (minus : Bool) (s : Bytes) → ResultFits (from_digits minus s)
unfolding from_digits
from_digits-InRange minus s = elim (Bool-cases (starts_with_digit s)) [
  | inl good ↦ rw good (signed-InRange minus (read_digits 0 s))
  | inr bad ↦ rw bad tt
]

from_chars-fits : (s : Bytes) → ResultFits (from_chars s)
unfolding from_chars
from_chars-fits [] = tt
from_chars-fits (c ∷ s) = elim (Bool-cases (c == b'-')) [
  | inl minus ↦ rw minus (from_digits-InRange true s)
  | inr plus ↦ rw plus (from_digits-InRange false (c ∷ s))
]

pub from_chars-InRange :
    (s : Bytes) (z : ℤ) (rest : Bytes) → from_chars s ≡ some (z, rest) → InRange z
from_chars-InRange s z rest e = subst ResultFits e (from_chars-fits s)
