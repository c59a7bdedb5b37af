-- ===== src/BloomFilter/Members.antt =====
-- The keys that were added, and KeyMayMatch.
use nova_kv.Prelude.{
  ℕ, zero, suc, ◌+◌, ◌-◌, ◌*◌, ◌/◌, ◌%◌, ◌^◌, ◌≤◌, ◌<◌, ◌≡◌, refl, sym, subst, ◌∙◌, inl, inr, arith,
  true, false, Bytes, List, [], ◌∷◌, ◌++◌, length, length-append, length-replicate, replicate, All,
  ltb, if◌then◌else◌, Bool-cases, u32_mod, u64_mod,
}
use native.Mathlib.Nat.{mod-lt, one-le-pow}
use nova_kv.BloomFilter.{
  bloom_hash, delta, or_at, test_at, set_bit, test_bit, set_bits, test_bits, add_keys, hash_count,
  filter_bytes, create_filter, stored_count, key_may_match,
}
use nova_kv.BloomFilter.Bits.{old_bits, new_bits}

length-or_at : (i m : ℕ) (res : Bytes) → length (or_at i m res) ≡ length res
unfolding or_at
length-or_at i m [] = refl
length-or_at zero m (b ∷ res) = refl
length-or_at (suc i) m (b ∷ res) = omega (arith, length-or_at i m res)

test_at-or_at :
    (i m : ℕ) (res : Bytes) → i < length res → 0 < m → test_at i m (or_at i m res) ≡ true
unfolding test_at or_at
test_at-or_at i m [] lt pos = absurd (omega arith)
test_at-or_at zero m (b ∷ res) lt pos = ground (arith, new_bits b m)
test_at-or_at (suc i) m (b ∷ res) lt pos = test_at-or_at i m res (omega arith) pos

test_at-or_at_old :
    (i x j m : ℕ) (res : Bytes) → test_at j m res ≡ true → test_at j m (or_at i x res) ≡ true
unfolding test_at or_at
test_at-or_at_old i x j m [] h = h
test_at-or_at_old zero x zero m (b ∷ res) h = ground (arith, old_bits b x m)
test_at-or_at_old zero x (suc j) m (b ∷ res) h = h
test_at-or_at_old (suc i) x zero m (b ∷ res) h = h
test_at-or_at_old (suc i) x (suc j) m (b ∷ res) h = test_at-or_at_old i x j m res h

test_at-append : (j m : ℕ) (res t : Bytes) → test_at j m res ≡ true → test_at j m (res ++ t) ≡ true
unfolding test_at
test_at-append j m [] t h = cc
test_at-append zero m (b ∷ res) t h = h
test_at-append (suc j) m (b ∷ res) t h = test_at-append j m res t h

-- Every bit of `res` is one of `res'`.
abbrev HasBits : Bytes → Bytes → Type 0
HasBits res res' = (q : ℕ) → test_bit q res ≡ true → test_bit q res' ≡ true

set_bit-HasBits : (p : ℕ) (res : Bytes) → HasBits res (set_bit p res)
unfolding set_bit test_bit
set_bit-HasBits p res q h = test_at-or_at_old (p / 8) (2 ^ (p % 8)) (q / 8) (2 ^ (q % 8)) res h

test_bit-set_bit : (p : ℕ) (res : Bytes) → p < length res * 8 → test_bit p (set_bit p res) ≡ true
unfolding set_bit test_bit
test_bit-set_bit p res lt =
    test_at-or_at (p / 8) (2 ^ (p % 8)) res (omega (arith, lt))
      (omega (arith, one-le-pow (p % 8) 2 (omega arith)))

length-set_bits : (k h d bits : ℕ) (res : Bytes) → length (set_bits k h d bits res) ≡ length res
unfolding set_bits set_bit
length-set_bits zero h d bits res = refl
length-set_bits (suc k) h d bits res =
    length-set_bits k ((h + d) % u32_mod) d bits (set_bit (h % bits) res)
    ∙ length-or_at (h % bits / 8) (2 ^ (h % bits % 8)) res

set_bits-HasBits : (k h d bits : ℕ) (res : Bytes) → HasBits res (set_bits k h d bits res)
unfolding set_bits
set_bits-HasBits zero h d bits res q e = e
set_bits-HasBits (suc k) h d bits res q e =
    set_bits-HasBits k ((h + d) % u32_mod) d bits (set_bit (h % bits) res) q
      (set_bit-HasBits (h % bits) res q e)

test_bits-set_bits :
    (k h d bits : ℕ) (res : Bytes)
    → 0 < bits
    → bits ≤ length res * 8
    → test_bits k h d bits (set_bits k h d bits res) ≡ true
unfolding set_bits test_bits
test_bits-set_bits zero h d bits res pos fits = refl
test_bits-set_bits (suc k) h d bits res pos fits =
    let res1 = set_bit (h % bits) res in
    let first =
      set_bits-HasBits k ((h + d) % u32_mod) d bits res1 (h % bits)
        (test_bit-set_bit (h % bits) res in_range) in
    rw first (
      test_bits-set_bits k ((h + d) % u32_mod) d bits res1 pos
        (subst (λ n. bits ≤ n * 8) (sym same_length) fits))
  where
    in_range : h % bits < length res * 8
    in_range = omega (arith, mod-lt h pos, fits)

    same_length : length (set_bit (h % bits) res) ≡ length res
    same_length = unfold set_bit in length-or_at (h % bits / 8) (2 ^ (h % bits % 8)) res

test_bits-HasBits :
    (k h d bits : ℕ) (res res' : Bytes)
    → HasBits res res'
    → test_bits k h d bits res ≡ true
    → test_bits k h d bits res' ≡ true
unfolding test_bits
test_bits-HasBits zero h d bits res res' keep e = refl
test_bits-HasBits (suc k) h d bits res res' keep e = elim (Bool-cases (test_bit (h % bits) res)) [
  | inl set ↦
      rw (keep (h % bits) set)
        (test_bits-HasBits k ((h + d) % u32_mod) d bits res res' keep (rw set at e))
  | inr off ↦ let e' : false ≡ true = rw off at e in cc
]

add_keys-HasBits :
    (k bits : ℕ) (keys : List Bytes) (res : Bytes) → HasBits res (add_keys k bits keys res)
unfolding add_keys
add_keys-HasBits k bits [] res q e = e
add_keys-HasBits k bits (key ∷ keys) res q e =
    add_keys-HasBits k bits keys (set_bits k (bloom_hash key) (delta (bloom_hash key)) bits res) q
      (set_bits-HasBits k (bloom_hash key) (delta (bloom_hash key)) bits res q e)

length-add_keys :
    (k bits : ℕ) (keys : List Bytes) (res : Bytes) → length (add_keys k bits keys res) ≡ length res
unfolding add_keys
length-add_keys k bits [] res = refl
length-add_keys k bits (key ∷ keys) res =
    length-add_keys k bits keys _
    ∙ length-set_bits k (bloom_hash key) (delta (bloom_hash key)) bits res

-- The bits of a key are all set.
abbrev Matches : ℕ → ℕ → Bytes → Bytes → Type 0
Matches k bits filter key = test_bits k (bloom_hash key) (delta (bloom_hash key)) bits filter ≡ true

add_keys-Matches :
    (k bits : ℕ) (keys : List Bytes) (res : Bytes)
    → 0 < bits
    → bits ≤ length res * 8
    → All (Matches k bits (add_keys k bits keys res)) keys
unfolding add_keys
add_keys-Matches k bits [] res pos fits = tt
add_keys-Matches k bits (key ∷ keys) res pos fits =
    let h = bloom_hash key in
    let res1 = set_bits k h (delta h) bits res in
    (
      test_bits-HasBits k h (delta h) bits res1 (add_keys k bits keys res1)
          (add_keys-HasBits k bits keys res1) (test_bits-set_bits k h (delta h) bits res pos fits),
      add_keys-Matches k bits keys res1 pos
          (subst (λ n. bits ≤ n * 8) (sym (length-set_bits k h (delta h) bits res)) fits),
    )

stored_count-append : (k : ℕ) (res : Bytes) → k < 128 → stored_count (res ++ k ∷ []) ≡ k
unfolding stored_count
stored_count-append k [] small = ground arith
stored_count-append k (b ∷ []) small = ground arith
stored_count-append k (b ∷ c ∷ res) small = stored_count-append k (c ∷ res) small

hash_count_small : (n : ℕ) → hash_count n < 128
unfolding hash_count
hash_count_small n = ground arith

filter_bytes_positive :
    (bits_per_key n : ℕ) → n * bits_per_key + 7 < u64_mod → 0 < filter_bytes bits_per_key n
unfolding filter_bytes
filter_bytes_positive bits_per_key n fits = sized (n * bits_per_key) fits
  where
    sized :
        (x : ℕ)
        → x + 7 < u64_mod
        → 0 < ((if ltb (x % u64_mod) 64 then 64 else x % u64_mod) + 7) % u64_mod / 8
    sized x small = ground arith

All-map {ℓ κ} :
    {A : Type ℓ} (P Q : A → Type κ) → ((a : A) → P a → Q a) → (xs : List A) → All P xs → All Q xs
All-map P Q f [] h = tt
All-map P Q f (a ∷ xs) (h, hs) = (f a h, All-map P Q f xs hs)

-- KeyMayMatch on bytes with the count behind them is the test of the bits.
key_may_match-append :
    (k bytes : ℕ) (body key : Bytes)
    → k < 128
    → length body ≡ bytes
    → 0 < bytes
    → Matches k (bytes * 8) body key
    → key_may_match key (body ++ k ∷ []) ≡ true
unfolding key_may_match test_bit
key_may_match-append k bytes body key small size pos h =
    rw (long, stored_count-append k body small, whole)
      (test_bits-HasBits k (bloom_hash key) (delta (bloom_hash key)) (bytes * 8) body
        (body ++ k ∷ []) (λ q e. test_at-append (q / 8) (2 ^ (q % 8)) body (k ∷ []) e) h)
  where
    long : ltb (length (body ++ k ∷ [])) 2 ≡ false
    long = ground (arith, length-append body (k ∷ []), size)

    whole : (length (body ++ k ∷ []) - 1) * 8 ≡ bytes * 8
    whole = omega (arith, length-append body (k ∷ []), size)

-- No false negatives: every key that a filter was made of may match it, for any number of bits per
-- key, where the number of bits fits a size_t.
pub members_match :
    (bits_per_key : ℕ) (keys : List Bytes)
    → length keys * bits_per_key + 7 < u64_mod
    → All (λ key. key_may_match key (create_filter bits_per_key keys) ≡ true) keys
members_match bits_per_key [] fits = tt
members_match bits_per_key (key ∷ keys) fits =
    unfold create_filter in
    All-map (Matches k (bytes * 8) body) (λ x. key_may_match x (body ++ k ∷ []) ≡ true)
      (λ x h. key_may_match-append k bytes body x (hash_count_small bits_per_key) size pos h)
      (key ∷ keys)
      (add_keys-Matches k (bytes * 8) (key ∷ keys) (replicate bytes 0) (omega (arith, pos))
        (omega (arith, length-replicate {A = ℕ} bytes 0)))
  where
    k : ℕ
    k = hash_count bits_per_key

    bytes : ℕ
    bytes = filter_bytes bits_per_key (length (key ∷ keys))

    body : Bytes
    body = add_keys k (bytes * 8) (key ∷ keys) (replicate bytes 0)

    size : length body ≡ bytes
    size = length-add_keys k (bytes * 8) (key ∷ keys) (replicate bytes 0) ∙ length-replicate bytes 0

    pos : 0 < bytes
    pos = filter_bytes_positive bits_per_key (length (key ∷ keys)) fits
