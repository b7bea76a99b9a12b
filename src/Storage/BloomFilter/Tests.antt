-- ===== src/Storage/BloomFilter/Tests.antt =====
-- A filter of 128 bits and three hashes, with two keys.
use nebula_kv.Prelude.{◌≡◌, refl, Bytes, true, false, [], ◌∷◌, ◌++◌, arith}
use nebula_kv.Storage.BloomFilter.{
  BloomFilter, make_filter, add, may_contain, mix64, primary_hash, secondary_hash, bit_index,
  set_in, has_in, set_bit, has_bit, add_loop, contains_loop,
}
use nebula_kv.Storage.BloomFilter.Members.{
  IsValid, add_all, may_contain-add_all, make_filter-IsValid,
}

abbrev apple : Bytes
apple = b'a' ∷ []

abbrev banana : Bytes
banana = b'b' ∷ []

abbrev filter : BloomFilter
filter = make_filter 100 3

filter-IsValid : IsValid filter
filter-IsValid = make_filter-IsValid 100 3 (omega arith) (omega arith)

may_contain-add_all_example :
    may_contain banana (add_all ((apple ∷ []) ++ banana ∷ []) filter) ≡ true
may_contain-add_all_example = may_contain-add_all (apple ∷ []) [] banana filter filter-IsValid

-- A key that was not added.
cherry_absent : may_contain (b'c' ∷ []) (add apple filter) ≡ false
unfolding may_contain contains_loop add add_loop primary_hash secondary_hash mix64 bit_index set_in
    has_in set_bit has_bit make_filter
cherry_absent = refl
