-- ===== src/Storage/BloomFilter/Members.antt =====
-- A filter has no false negatives.
use native.Mathlib.Nat.{mod-lt}
use nebula_kv.Prelude.{
  ℕ, zero, suc, ◌+◌, ◌-◌, ◌*◌, ◌/◌, ◌%◌, ◌≤◌, ◌<◌, ◌≡◌, refl, ◌∙◌, ap, Bytes, Bool, true, List, [],
  ◌∷◌, ◌++◌, arith, length,
}
use nebula_kv.Storage.MemTable.{word}
use nebula_kv.Storage.BloomFilter.{
  BloomFilter, bits_per_word, bit_index, set_bit, has_bit, set_in, has_in, add_loop, add,
  contains_loop, may_contain, primary_hash, secondary_hash, make_filter, zeros, zero_words,
}

abbrev pub AllWords : List (List Bool) → Type 0
AllWords [] = Unit
AllWords (w ∷ ws) = (length w ≡ bits_per_word) × AllWords ws

-- The words have all their bits, and there are as many as the filter counts.
pub record IsValid (f : BloomFilter) : Type 0 where
  pub whole : AllWords f.words
  pub counted : f.bit_count ≡ length f.words * bits_per_word
  pub some_bits : 1 ≤ f.bit_count

has_bit-set_bit : (i : ℕ) (w : List Bool) → i < length w → has_bit i (set_bit i w) ≡ true
unfolding has_bit set_bit
has_bit-set_bit i [] h = absurd (omega arith)
has_bit-set_bit zero (b ∷ bs) h = refl
has_bit-set_bit (suc i) (b ∷ bs) h = has_bit-set_bit i bs (omega arith)

set_bit_keeps : (i j : ℕ) (w : List Bool) → has_bit j w ≡ true → has_bit j (set_bit i w) ≡ true
unfolding has_bit set_bit
set_bit_keeps i j [] h = h
set_bit_keeps zero zero (b ∷ bs) h = refl
set_bit_keeps zero (suc j) (b ∷ bs) h = h
set_bit_keeps (suc i) zero (b ∷ bs) h = h
set_bit_keeps (suc i) (suc j) (b ∷ bs) h = set_bit_keeps i j bs h

length-set_bit : (i : ℕ) (w : List Bool) → length (set_bit i w) ≡ length w
unfolding set_bit
length-set_bit i [] = refl
length-set_bit zero (b ∷ bs) = refl
length-set_bit (suc i) (b ∷ bs) = ap suc (length-set_bit i bs)

has_in-set_in :
    (k i : ℕ) (ws : List (List Bool))
    → AllWords ws
    → k < length ws
    → i < bits_per_word
    → has_in k i (set_in k i ws) ≡ true
unfolding has_in set_in
has_in-set_in k i [] v h l = absurd (omega arith)
has_in-set_in zero i (w ∷ ws) v h l = has_bit-set_bit i w (omega (arith, v.0))
has_in-set_in (suc k) i (w ∷ ws) v h l = has_in-set_in k i ws v.1 (omega arith) l

set_in_keeps :
    (k i m j : ℕ) (ws : List (List Bool)) → has_in m j ws ≡ true → has_in m j (set_in k i ws) ≡ true
unfolding has_in set_in
set_in_keeps k i m j [] h = h
set_in_keeps zero i zero j (w ∷ ws) h = set_bit_keeps i j w h
set_in_keeps zero i (suc m) j (w ∷ ws) h = h
set_in_keeps (suc k) i zero j (w ∷ ws) h = h
set_in_keeps (suc k) i (suc m) j (w ∷ ws) h = set_in_keeps k i m j ws h

set_in-AllWords :
    (k i : ℕ) (ws : List (List Bool))
    → AllWords ws
    → AllWords (set_in k i ws) × (length (set_in k i ws) ≡ length ws)
unfolding set_in
set_in-AllWords k i [] v = (tt, refl)
set_in-AllWords zero i (w ∷ ws) v = ((length-set_bit i w ∙ v.0, v.1), refl)
set_in-AllWords (suc k) i (w ∷ ws) v =
    let (p, q) = set_in-AllWords k i ws v.1 in ((v.0, p), ap suc q)

-- `g` has the bits of `f`, and counts them the same.
pub record Extends (f g : BloomFilter) : Type 0 where
  pub bits : (m j : ℕ) → has_in m j f.words ≡ true → has_in m j g.words ≡ true
  pub bit_count : g.bit_count ≡ f.bit_count
  pub hash_count : g.hash_count ≡ f.hash_count

Extends-refl : (f : BloomFilter) → Extends f f
Extends-refl f = record { bits = λ m j h. h; bit_count = refl; hash_count = refl }

Extends-trans : (f g h : BloomFilter) → Extends f g → Extends g h → Extends f h
Extends-trans f g h p q = record {
  bits = λ m j x. q.bits m j (p.bits m j x);
  bit_count = q.bit_count ∙ p.bit_count;
  hash_count = q.hash_count ∙ p.hash_count;
}

-- The filter with one bit set.
abbrev with_bit : ℕ → BloomFilter → BloomFilter
with_bit bit f = record f { words = set_in (bit / bits_per_word) (bit % bits_per_word) f.words }

with_bit-Extends : (bit : ℕ) (f : BloomFilter) → Extends f (with_bit bit f)
with_bit-Extends bit f = record {
  bits = λ m j. set_in_keeps (bit / bits_per_word) (bit % bits_per_word) m j f.words;
  bit_count = refl;
  hash_count = refl;
}

with_bit-IsValid : (bit : ℕ) (f : BloomFilter) → IsValid f → IsValid (with_bit bit f)
with_bit-IsValid bit f v =
    let (w, l) = set_in-AllWords (bit / bits_per_word) (bit % bits_per_word) f.words v.whole in
    record { whole = w; counted = omega (arith, v.counted, l); some_bits = v.some_bits }

with_bit_has :
    (bit : ℕ) (f : BloomFilter)
    → IsValid f
    → bit < f.bit_count
    → has_in (bit / bits_per_word) (bit % bits_per_word) (with_bit bit f).words ≡ true
with_bit_has bit f v h =
    has_in-set_in (bit / bits_per_word) (bit % bits_per_word) f.words v.whole
      (omega (arith, h, v.counted)) (omega arith)

add_loop-Extends :
    (rounds index a b : ℕ) (f : BloomFilter)
    → IsValid f
    → Extends f (add_loop rounds index a b f) × IsValid (add_loop rounds index a b f)
unfolding add_loop
add_loop-Extends zero index a b f v = (Extends-refl f, v)
add_loop-Extends (suc rounds) index a b f v =
    let bit = bit_index a b index f in
    let (e, w) =
      add_loop-Extends rounds (index + 1) a b (with_bit bit f) (with_bit-IsValid bit f v) in
    (Extends-trans f (with_bit bit f) _ (with_bit-Extends bit f) e, w)

bit_index-lt :
    (a b index : ℕ) (f : BloomFilter) → 1 ≤ f.bit_count → bit_index a b index f < f.bit_count
unfolding bit_index
bit_index-lt a b index f h = mod-lt _ (omega (arith, h))

contains_loop-add_loop :
    (rounds index a b : ℕ) (f g : BloomFilter)
    → IsValid f
    → Extends (add_loop rounds index a b f) g
    → contains_loop rounds index a b g ≡ true
unfolding contains_loop add_loop
contains_loop-add_loop zero index a b f g v e = refl
contains_loop-add_loop (suc rounds) index a b f g v e =
    let bit = bit_index a b index f in
    let f1 = with_bit bit f in
    let v1 = with_bit-IsValid bit f v in
    let (x, w) = add_loop-Extends rounds (index + 1) a b f1 v1 in
    let here : has_in (bit / bits_per_word) (bit % bits_per_word) g.words ≡ true =
      e.bits _ _ (x.bits _ _ (with_bit_has bit f v (bit_index-lt a b index f v.some_bits))) in
    let same : bit_index a b index g ≡ bit =
      unfold bit_index in ap (λ n. (a + index * b) % word % n) (e.bit_count ∙ x.bit_count) in
    rw (same, here) (contains_loop-add_loop rounds (index + 1) a b f1 g v1 e)

add-Extends :
    (key : Bytes) (f : BloomFilter) → IsValid f → Extends f (add key f) × IsValid (add key f)
unfolding add
add-Extends key f v =
    let (e, w) = add_loop-Extends f.hash_count 0 (primary_hash key) (secondary_hash key) f v in
    (
      record { bits = e.bits; bit_count = e.bit_count; hash_count = e.hash_count },
      record { whole = w.whole; counted = w.counted; some_bits = w.some_bits },
    )

may_contain-Extends :
    (key : Bytes) (f g : BloomFilter) → IsValid f → Extends (add key f) g → may_contain key g ≡ true
unfolding may_contain add
may_contain-Extends key f g v e =
    let a = primary_hash key in
    let b = secondary_hash key in
    let (x, w) = add_loop-Extends f.hash_count 0 a b f v in
    let c =
      contains_loop-add_loop f.hash_count 0 a b f g v
        (record { bits = e.bits; bit_count = e.bit_count; hash_count = e.hash_count }) in
    ap (λ n. contains_loop n 0 a b g) (e.hash_count ∙ x.hash_count) ∙ c

unfoldable pub add_all : List Bytes → BloomFilter → BloomFilter
add_all [] f = f
add_all (key ∷ keys) f = add_all keys (add key f)

add_all-Extends :
    (keys : List Bytes) (f : BloomFilter)
    → IsValid f
    → Extends f (add_all keys f) × IsValid (add_all keys f)
unfolding add_all
add_all-Extends [] f v = (Extends-refl f, v)
add_all-Extends (key ∷ keys) f v =
    let (e, w) = add-Extends key f v in
    let (x, u) = add_all-Extends keys (add key f) w in (Extends-trans f (add key f) _ e x, u)

-- A key that was added to a valid filter may be contained in it, whatever was added before and
-- after: the filter has no false negatives.
pub may_contain-add_all :
    (before after : List Bytes) (key : Bytes) (f : BloomFilter)
    → IsValid f
    → may_contain key (add_all (before ++ key ∷ after) f) ≡ true
unfolding add_all
may_contain-add_all [] after key f v =
    let (e, w) = add-Extends key f v in
    may_contain-Extends key f (add_all after (add key f)) v (add_all-Extends after (add key f) w).0
may_contain-add_all (k ∷ before) after key f v =
    may_contain-add_all before after key (add k f) (add-Extends k f v).1

length-zeros : (n : ℕ) → length (zeros n) ≡ n
length-zeros zero = refl
length-zeros (suc n) = ap suc (length-zeros n)

zero_words-AllWords : (n : ℕ) → AllWords (zero_words n) × (length (zero_words n) ≡ n)
zero_words-AllWords zero = (tt, refl)
zero_words-AllWords (suc n) =
    let (p, q) = zero_words-AllWords n in ((length-zeros bits_per_word, p), ap suc q)

-- A new filter with at least one bit, and room to round up, is valid.
pub make_filter-IsValid :
    (bits hashes : ℕ) → 1 ≤ bits → bits + bits_per_word < word → IsValid (make_filter bits hashes)
unfolding make_filter
make_filter-IsValid bits hashes h l =
    let n = (bits + bits_per_word - 1) % word / bits_per_word in
    let (p, q) = zero_words-AllWords n in
    record { whole = p; counted = omega (arith, q, l); some_bits = omega (arith, h, l) }
