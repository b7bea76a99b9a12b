-- ===== src/Storage/BloomFilter.antt =====
-- src/bloom_filter.cpp and include/nebulakv/bloom_filter.hpp. A word of the vector is the list of its 64
-- bits, the lowest first. The numbers of bits and hashes that the constructor computes in floating point
-- are arguments here.
pub mod Members
mod Tests
use Prim.Native.Nat.{bit_xor}
use nebula_kv.Prelude.{
  ℕ, zero, suc, ◌+◌, ◌-◌, ◌*◌, ◌/◌, ◌%◌, ◌^◌, Bytes, Bool, true, false, List, [], ◌∷◌, ◌==◌, length,
  if◌then◌else◌,
}
use nebula_kv.Storage.MemTable.{word}

abbrev pub bits_per_word : ℕ
bits_per_word = 64

pub record BloomFilter : Type 0 where
  pub words : List (List Bool)
  pub bit_count : ℕ
  pub hash_count : ℕ
  pub inserted_keys : ℕ

abbrev pub zeros : ℕ → List Bool
zeros zero = []
zeros (suc n) = false ∷ zeros n

abbrev pub zero_words : ℕ → List (List Bool)
zero_words zero = []
zero_words (suc n) = zeros bits_per_word ∷ zero_words n

-- The end of the constructor, from `word_count` on.
unfoldable pub make_filter : ℕ → ℕ → BloomFilter
make_filter bits hashes =
    let word_count = (bits + bits_per_word - 1) % word / bits_per_word in
    record {
      words = zero_words word_count;
      bit_count = word_count * bits_per_word % word;
      hash_count = hashes;
      inserted_keys = 0;
    }

abbrev shift_right : ℕ → ℕ → ℕ
shift_right v n = v / 2 ^ n

unfoldable pub mix64 : ℕ → ℕ
mix64 v0 =
    let v1 = bit_xor v0 (shift_right v0 30) * 13_787_848_793_156_543_929 % word in
    let v2 = bit_xor v1 (shift_right v1 27) * 10_723_151_780_598_845_931 % word in
    bit_xor v2 (shift_right v2 31)

abbrev primary_loop : Bytes → ℕ → ℕ
primary_loop [] hash = hash
primary_loop (b ∷ bs) hash = primary_loop bs (bit_xor hash b * 1_099_511_628_211 % word)

unfoldable pub primary_hash : Bytes → ℕ
unfolding mix64
primary_hash key = mix64 (primary_loop key 14_695_981_039_346_656_037)

abbrev secondary_loop : Bytes → ℕ → ℕ
secondary_loop [] hash = hash
secondary_loop (b ∷ bs) hash =
    secondary_loop bs (
      bit_xor hash
        ((b + 11_400_714_819_323_198_485 + hash * 64 % word + shift_right hash 2) % word))

unfoldable pub secondary_hash : Bytes → ℕ
unfolding mix64
secondary_hash key =
    let hash =
      mix64 (bit_xor (secondary_loop key 11_400_714_819_323_198_485) 15_485_907_386_658_061_715) in
    if hash == 0 then 11_562_461_410_679_940_143 else hash

unfoldable pub bit_index : ℕ → ℕ → ℕ → BloomFilter → ℕ
bit_index first second hash_index f = (first + hash_index * second) % word % f.bit_count

-- `word |= 1 << bit` and `word & (1 << bit)`
unfoldable pub set_bit : ℕ → List Bool → List Bool
set_bit bit [] = []
set_bit zero (b ∷ bs) = true ∷ bs
set_bit (suc bit) (b ∷ bs) = b ∷ set_bit bit bs

unfoldable pub has_bit : ℕ → List Bool → Bool
has_bit bit [] = false
has_bit zero (b ∷ bs) = b
has_bit (suc bit) (b ∷ bs) = has_bit bit bs

unfoldable pub set_in : ℕ → ℕ → List (List Bool) → List (List Bool)
set_in index bit [] = []
set_in zero bit (w ∷ ws) = set_bit bit w ∷ ws
set_in (suc index) bit (w ∷ ws) = w ∷ set_in index bit ws

unfoldable pub has_in : ℕ → ℕ → List (List Bool) → Bool
has_in index bit [] = false
has_in zero bit (w ∷ ws) = has_bit bit w
has_in (suc index) bit (w ∷ ws) = has_in index bit ws

-- The loops run from `index` for the rounds that are left.
unfoldable pub add_loop : ℕ → ℕ → ℕ → ℕ → BloomFilter → BloomFilter
unfolding set_in bit_index
add_loop zero index first second f = f
add_loop (suc rounds) index first second f =
    let bit = bit_index first second index f in
    add_loop rounds (index + 1) first second
      (record f { words = set_in (bit / bits_per_word) (bit % bits_per_word) f.words })

unfoldable pub add : Bytes → BloomFilter → BloomFilter
unfolding add_loop primary_hash secondary_hash
add key f0 =
    let f = add_loop f0.hash_count 0 (primary_hash key) (secondary_hash key) f0 in
    record f { inserted_keys = (f.inserted_keys + 1) % word }

unfoldable pub contains_loop : ℕ → ℕ → ℕ → ℕ → BloomFilter → Bool
unfolding has_in bit_index
contains_loop zero index first second f = true
contains_loop (suc rounds) index first second f =
    let bit = bit_index first second index f in
    let rest = contains_loop rounds (index + 1) first second f in
    if has_in (bit / bits_per_word) (bit % bits_per_word) f.words then rest else false

unfoldable pub may_contain : Bytes → BloomFilter → Bool
unfolding contains_loop primary_hash secondary_hash
may_contain key f = contains_loop f.hash_count 0 (primary_hash key) (secondary_hash key) f
