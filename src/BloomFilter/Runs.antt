-- ===== src/BloomFilter/Runs.antt =====
-- A filter of three keys, and the theorem for it.
use nova_kv.Prelude.{◌≡◌, refl, arith, true, false, Bytes, ascii, List, [], ◌∷◌, length, All}
use nova_kv.BloomFilter.{
  char_word, hash_byte, hash_bytes, bloom_hash, delta, or_at, test_at, set_bit, test_bit, set_bits,
  test_bits, add_keys, hash_count, filter_bytes, create_filter, stored_count, key_may_match,
}
use nova_kv.BloomFilter.Members.{members_match}

opened : Unit {0}
unfolding char_word hash_byte hash_bytes bloom_hash delta or_at test_at set_bit test_bit set_bits
    test_bits add_keys hash_count filter_bytes create_filter stored_count key_may_match
opened = tt

abbrev keys : List Bytes
keys = ascii "apple" ∷ ascii "pear" ∷ (255 ∷ 0 ∷ []) ∷ []

filter_size : length (create_filter 10 keys) ≡ 9
unfolding opened
filter_size = refl

apple_matches : key_may_match (ascii "apple") (create_filter 10 keys) ≡ true
unfolding opened
apple_matches = refl

plum_does_not : key_may_match (ascii "plum") (create_filter 10 keys) ≡ false
unfolding opened
plum_does_not = refl

members_match_example : All (λ key. key_may_match key (create_filter 10 keys) ≡ true) keys
members_match_example = members_match 10 keys (omega arith)
