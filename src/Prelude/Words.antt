-- ===== src/Prelude/Words.antt =====
-- Unsigned machine words as their little-endian bytes: what `reinterpret_cast<char*>(&x)` shows of
-- a uint32_t or uint64_t on the x86-64 hosts that the program is built for.
use Prim.Native.Nat.{ℕ, zero, suc, ◌+◌, ◌-◌, ◌*◌, ◌/◌, ◌%◌, ◌<◌}
use mathlib.Core.Path.{◌≡◌, refl, ap}
use mathlib.Core.List.{[], ◌∷◌, ◌++◌}
use mathlib.Core.Option
use mathlib.Core.Option.{Option, none, some}
use mathlib.Core.Logic.{inl, inr}
use nova_kv.Prelude.Tests.{ltb, if◌then◌else◌, Bool-cases}
use native.Mathlib.Omega.{arith}
use nova_kv.Prelude.Lists.{length, take, All}
use nova_kv.Prelude.Strings.{Bytes, IsByte}

abbrev pub u32_mod : ℕ
u32_mod = 0x1_0000_0000

abbrev pub u64_mod : ℕ
u64_mod = 0x1_0000_0000_0000_0000

-- The low `w` bytes of `x`, the lowest first.
unfoldable pub encode_le : ℕ → ℕ → Bytes
encode_le zero x = []
encode_le (suc w) x = x % 256 ∷ encode_le w (x / 256)

unfoldable pub decode_le : Bytes → ℕ
decode_le [] = 0
decode_le (b ∷ bs) = b + 256 * decode_le bs

pub length-encode_le : (w x : ℕ) → length (encode_le w x) ≡ w
unfolding encode_le
length-encode_le zero x = refl
length-encode_le (suc w) x = ap suc (length-encode_le w (x / 256))

pub encode_le-IsByte : (w x : ℕ) → All IsByte (encode_le w x)
unfolding encode_le
encode_le-IsByte zero x = tt
encode_le-IsByte (suc w) x = (omega arith, encode_le-IsByte w (x / 256))

pub decode_le-encode_le4 : (x : ℕ) → x < u32_mod → decode_le (encode_le 4 x) ≡ x
unfolding encode_le decode_le
decode_le-encode_le4 x h = omega arith

pub decode_le-encode_le8 : (x : ℕ) → x < u64_mod → decode_le (encode_le 8 x) ≡ x
unfolding encode_le decode_le
decode_le-encode_le8 x h = omega arith

pub decode_le-encode_le1 : (x : ℕ) → x < 256 → decode_le (encode_le 1 x) ≡ x
unfolding encode_le decode_le
decode_le-encode_le1 x h = omega arith

-- A read of `n` bytes that fails as a whole where there are fewer, and the rest.
unfoldable pub read : ℕ → Bytes → Option (Bytes × Bytes)
read zero s = some ([], s)
read (suc n) [] = none
read (suc n) (b ∷ s) = Option.map (λ p. (b ∷ p.0, p.1)) (read n s)

-- A read of a word of `w` bytes.
unfoldable pub read_word : ℕ → Bytes → Option (ℕ × Bytes)
read_word w s = Option.map (λ p. (decode_le p.0, p.1)) (read w s)

read_cut :
    (xs ys : Bytes) (n : ℕ)
    → read (length xs) (take n (xs ++ ys))
      ≡ (if ltb n (length xs) then none else some (xs, take (n - length xs) ys))
unfolding read
read_cut [] ys n = ground arith
read_cut (x ∷ xs) ys zero = ground arith
read_cut (x ∷ xs) ys (suc n) = ground (arith, read_cut xs ys n)

-- Reading a word back from the first `n` bytes of what was written.
read_word_cut :
    (w x : ℕ) (ys : Bytes) (n : ℕ)
    → decode_le (encode_le w x) ≡ x
    → read_word w (take n (encode_le w x ++ ys))
      ≡ (if ltb n w then none else some (x, take (n - w) ys))
unfolding read_word
read_word_cut w x ys n e =
    let l = length-encode_le w x in
    let r = rw l at (read_cut (encode_le w x) ys n) in
    elim (Bool-cases (ltb n w)) [ inl cut ↦ rw (r, cut) refl | inr whole ↦ rw (r, whole, e) refl ]

pub read_word_cut1 :
    (x : ℕ) (ys : Bytes) (n : ℕ)
    → x < 256
    → read_word 1 (take n (encode_le 1 x ++ ys))
      ≡ (if ltb n 1 then none else some (x, take (n - 1) ys))
read_word_cut1 x ys n h = read_word_cut 1 x ys n (decode_le-encode_le1 x h)

pub read_word_cut4 :
    (x : ℕ) (ys : Bytes) (n : ℕ)
    → x < u32_mod
    → read_word 4 (take n (encode_le 4 x ++ ys))
      ≡ (if ltb n 4 then none else some (x, take (n - 4) ys))
read_word_cut4 x ys n h = read_word_cut 4 x ys n (decode_le-encode_le4 x h)

pub read_word_cut8 :
    (x : ℕ) (ys : Bytes) (n : ℕ)
    → x < u64_mod
    → read_word 8 (take n (encode_le 8 x ++ ys))
      ≡ (if ltb n 8 then none else some (x, take (n - 8) ys))
read_word_cut8 x ys n h = read_word_cut 8 x ys n (decode_le-encode_le8 x h)

read-append : (xs ys : Bytes) → read (length xs) (xs ++ ys) ≡ some (xs, ys)
unfolding read
read-append [] ys = refl
read-append (x ∷ xs) ys = rw (read-append xs ys) refl

read_word-encode_le :
    (w x : ℕ) (ys : Bytes)
    → decode_le (encode_le w x) ≡ x
    → read_word w (encode_le w x ++ ys) ≡ some (x, ys)
unfolding read_word
read_word-encode_le w x ys e =
    rw (rw (length-encode_le w x) at (read-append (encode_le w x) ys), e) refl

pub read_word-encode_le1 :
    (x : ℕ) (ys : Bytes) → x < 256 → read_word 1 (encode_le 1 x ++ ys) ≡ some (x, ys)
read_word-encode_le1 x ys h = read_word-encode_le 1 x ys (decode_le-encode_le1 x h)

pub read_word-encode_le4 :
    (x : ℕ) (ys : Bytes) → x < u32_mod → read_word 4 (encode_le 4 x ++ ys) ≡ some (x, ys)
read_word-encode_le4 x ys h = read_word-encode_le 4 x ys (decode_le-encode_le4 x h)

pub read_word-encode_le8 :
    (x : ℕ) (ys : Bytes) → x < u64_mod → read_word 8 (encode_le 8 x ++ ys) ≡ some (x, ys)
read_word-encode_le8 x ys h = read_word-encode_le 8 x ys (decode_le-encode_le8 x h)
