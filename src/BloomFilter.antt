-- ===== src/BloomFilter.antt =====
-- include/BloomFilter.h: the filter that a table on disk has for its keys.
pub mod Bits
pub mod Members
mod Runs
use nova_kv.Prelude.{
  ℕ, zero, suc, ◌+◌, ◌-◌, ◌*◌, ◌/◌, ◌%◌, ◌^◌, bit_xor, Bool, true, false, not, Bytes, List, [], ◌∷◌,
  ◌++◌, length, replicate, take, ltb, ◌==◌, if◌then◌else◌, u32_mod, u64_mod,
}
use Prim.Native.Nat.{bit_and, bit_or}

-- static_cast<uint32_t>(c) of a char, which is signed.
unfoldable pub char_word : ℕ → ℕ
char_word c = if ltb c 128 then c else c + (u32_mod - 256)

unfoldable pub hash_byte : ℕ → ℕ → ℕ
hash_byte h c =
    let mixed = bit_xor h (char_word c) * 0x5bd1e995 % u32_mod in bit_xor mixed (mixed / 2 ^ 15)

unfoldable pub hash_bytes : ℕ → Bytes → ℕ
hash_bytes h [] = h
hash_bytes h (c ∷ key) = hash_bytes (hash_byte h c) key

unfoldable pub bloom_hash : Bytes → ℕ
bloom_hash key = hash_bytes (bit_xor 0xbc9f1d34 (length key % u32_mod)) key

-- (h >> 17) | (h << 15)
unfoldable pub delta : ℕ → ℕ
delta h = bit_or (h / 2 ^ 17) (h * 2 ^ 15 % u32_mod)

-- res[i] |= mask
unfoldable pub or_at : ℕ → ℕ → Bytes → Bytes
or_at i mask [] = []
or_at zero mask (b ∷ res) = bit_or b mask ∷ res
or_at (suc i) mask (b ∷ res) = b ∷ or_at i mask res

-- filter[i] & mask, as a test
unfoldable pub test_at : ℕ → ℕ → Bytes → Bool
test_at i mask [] = false
test_at zero mask (b ∷ res) = not (bit_and b mask == 0)
test_at (suc i) mask (b ∷ res) = test_at i mask res

unfoldable pub set_bit : ℕ → Bytes → Bytes
set_bit bitpos res = or_at (bitpos / 8) (2 ^ (bitpos % 8)) res

unfoldable pub test_bit : ℕ → Bytes → Bool
test_bit bitpos filter = test_at (bitpos / 8) (2 ^ (bitpos % 8)) filter

-- The loop over the `k` hash functions.
unfoldable pub set_bits : ℕ → ℕ → ℕ → ℕ → Bytes → Bytes
set_bits zero h d bits res = res
set_bits (suc k) h d bits res = set_bits k ((h + d) % u32_mod) d bits (set_bit (h % bits) res)

unfoldable pub test_bits : ℕ → ℕ → ℕ → ℕ → Bytes → Bool
test_bits zero h d bits filter = true
test_bits (suc k) h d bits filter =
    let rest = test_bits k ((h + d) % u32_mod) d bits filter in
    if test_bit (h % bits) filter then rest else false

unfoldable pub add_keys : ℕ → ℕ → List Bytes → Bytes → Bytes
add_keys k bits [] res = res
add_keys k bits (key ∷ keys) res =
    add_keys k bits keys (set_bits k (bloom_hash key) (delta (bloom_hash key)) bits res)

-- static_cast<int>(bits_per_key_ * 0.69), between 1 and 30. The product of a double is written as the
-- one of integers, which gives the same for 10, the only value that is used.
unfoldable pub hash_count : ℕ → ℕ
hash_count bits_per_key =
    let k = bits_per_key * 69 / 100 in if ltb k 1 then 1 else if ltb 30 k then 30 else k

unfoldable pub filter_bytes : ℕ → ℕ → ℕ
filter_bytes bits_per_key n =
    let bits = n * bits_per_key % u64_mod in ((if ltb bits 64 then 64 else bits) + 7) % u64_mod / 8

unfoldable pub create_filter : ℕ → List Bytes → Bytes
create_filter bits_per_key [] = []
create_filter bits_per_key (key ∷ keys) =
    let bytes = filter_bytes bits_per_key (length (key ∷ keys)) in
    add_keys (hash_count bits_per_key) (bytes * 8) (key ∷ keys) (replicate bytes 0)
    ++ hash_count bits_per_key ∷ []

-- The last byte as an int, where a negative one lets the loop run no round.
unfoldable pub stored_count : Bytes → ℕ
stored_count [] = 0
stored_count (k ∷ []) = if ltb k 128 then k else 0
stored_count (b ∷ c ∷ filter) = stored_count (c ∷ filter)

unfoldable pub key_may_match : Bytes → Bytes → Bool
key_may_match key filter =
    if ltb (length filter) 2
    then false
    else test_bits (stored_count filter) (bloom_hash key) (delta (bloom_hash key))
        ((length filter - 1) * 8) filter
