-- ===== src/BloomFilter/Bits.antt =====
-- What |= of a mask leaves under &.
use Prim.Native.Nat.{bit_and, bit_or, bit_and-bitwise, bit_or-bitwise, digits, min, max}
use nova_kv.Prelude.{ℕ, zero, suc, ◌+◌, ◌*◌, ◌/◌, ◌%◌, ◌≤◌, ◌≡◌, refl, sym, ap, ◌∙◌, arith}

-- The count of digits to go does not matter once it is enough.
digits_enough :
    (z : ℕ → ℕ) (f : ℕ → ℕ → ℕ) (n m a b : ℕ) → a ≤ n → a ≤ m → digits z f n a b ≡ digits z f m a b
digits_enough z f zero zero a b p q = refl
digits_enough z f zero (suc m) zero b p q = refl
digits_enough z f zero (suc m) (suc a) b p q = absurd (omega arith)
digits_enough z f (suc n) zero zero b p q = refl
digits_enough z f (suc n) zero (suc a) b p q = absurd (omega arith)
digits_enough z f (suc n) (suc m) zero b p q = refl
digits_enough z f (suc n) (suc m) (suc a) b p q =
    ap (λ k. k * 2 + f (suc a % 2) (b % 2))
      (digits_enough z f n m (suc a / 2) (b / 2) (omega arith) (omega arith))

and_nothing : (b : ℕ) → bit_and 0 b ≡ 0
and_nothing b = bit_and-bitwise 0 b

or_nothing : (b : ℕ) → bit_or 0 b ≡ b
or_nothing b = bit_or-bitwise 0 b

-- The lowest digit and the others.
and_halves : (a b : ℕ) → bit_and a b ≡ bit_and (a / 2) (b / 2) * 2 + min (a % 2) (b % 2)
and_halves zero b = and_nothing b ∙ omega (arith, and_nothing (b / 2))
and_halves (suc a) b =
    bit_and-bitwise (suc a) b
    ∙ ap (λ k. k * 2 + min (suc a % 2) (b % 2))
        (digits_enough (λ x. zero) min a (suc a / 2) (suc a / 2) (b / 2) (omega arith) (omega arith)
          ∙ sym (bit_and-bitwise (suc a / 2) (b / 2)))

or_halves : (a b : ℕ) → bit_or a b ≡ bit_or (a / 2) (b / 2) * 2 + max (a % 2) (b % 2)
or_halves zero b = or_nothing b ∙ omega (arith, or_nothing (b / 2))
or_halves (suc a) b =
    bit_or-bitwise (suc a) b
    ∙ ap (λ k. k * 2 + max (suc a % 2) (b % 2))
        (digits_enough (λ x. x) max a (suc a / 2) (suc a / 2) (b / 2) (omega arith) (omega arith)
          ∙ sym (bit_or-bitwise (suc a / 2) (b / 2)))

or_half : (a b : ℕ) → bit_or a b / 2 ≡ bit_or (a / 2) (b / 2)
or_half a b = omega (arith, or_halves a b)

or_digit : (a b : ℕ) → bit_or a b % 2 ≡ max (a % 2) (b % 2)
or_digit a b = omega (arith, or_halves a b)

-- The halves of (a | b) & m.
and_or_halves :
    (a b m : ℕ)
    → bit_and (bit_or a b) m
      ≡ bit_and (bit_or (a / 2) (b / 2)) (m / 2) * 2 + min (max (a % 2) (b % 2)) (m % 2)
and_or_halves a b m =
    and_halves (bit_or a b) m
    ∙ ap (λ k. bit_and k (m / 2) * 2 + min (bit_or a b % 2) (m % 2)) (or_half a b)
    ∙ ap (λ k. bit_and (bit_or (a / 2) (b / 2)) (m / 2) * 2 + min k (m % 2)) (or_digit a b)

old_bits_fuel : (n a b m : ℕ) → a ≤ n → bit_and a m ≤ bit_and (bit_or a b) m
old_bits_fuel n zero b m h = omega (arith, and_nothing m)
old_bits_fuel zero (suc a) b m h = absurd (omega arith)
old_bits_fuel (suc n) (suc a) b m h = omega (
  arith,
  and_halves (suc a) m,
  and_or_halves (suc a) b m,
  old_bits_fuel n (suc a / 2) (b / 2) (m / 2) (omega arith),
)

-- The bits that were set stay set.
pub old_bits : (a b m : ℕ) → bit_and a m ≤ bit_and (bit_or a b) m
old_bits a b m = old_bits_fuel a a b m (omega arith)

new_bits_fuel : (n a m : ℕ) → m ≤ n → m ≤ bit_and (bit_or a m) m
new_bits_fuel n a zero h = omega arith
new_bits_fuel zero a (suc m) h = absurd (omega arith)
new_bits_fuel (suc n) a (suc m) h =
    omega
      (arith, and_or_halves a (suc m) (suc m), new_bits_fuel n (a / 2) (suc m / 2) (omega arith))

-- The bits of the mask are set.
pub new_bits : (a m : ℕ) → m ≤ bit_and (bit_or a m) m
new_bits a m = new_bits_fuel m a m (omega arith)
