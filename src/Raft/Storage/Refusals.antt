-- ===== src/Raft/Storage/Refusals.antt =====
-- The envelope of a file (`unwrap_payload` of src/raft/storage.cpp) takes only what was wrapped.
use nebula_kv.Prelude.{
  ℕ, zero, suc, ◌+◌, ◌-◌, ◌≤◌, ◌==◌, ◌≡◌, ◌≢◌, refl, sym, ◌∙◌, ap, Bytes, beq, beq→eq, arith, not,
  [], ◌∷◌, ◌++◌, ltb, length, length-take, length-drop, take, drop, ◌⊎◌, inl, inr,
}
use nebula_kv.Prelude.Result.{
  Exception, ok, throw, throw_if_passes, outcome, runtime_error, bind_returns,
}
use nebula_kv.Prelude.LittleEndian.{AreBytes, read_low_bytes, low_bytes-read_low_bytes}
use nebula_kv.Storage.Checksum.{crc32}
use nebula_kv.Raft.Codec.{append_u32, read_u32}
use nebula_kv.Raft.Storage.{version, wrap_payload, unwrap_payload}
use nebula_kv.Raft.Storage.RoundTrip.{magic, unwrap_payload-wrap_payload}

take-drop : (n : ℕ) (xs : Bytes) → take n xs ++ drop n xs ≡ xs
take-drop zero xs = refl
take-drop (suc n) [] = refl
take-drop (suc n) (x ∷ xs) = ap (◌∷◌ x) (take-drop n xs)

drop_nil : (n : ℕ) → drop {A = ℕ} n [] ≡ []
drop_nil zero = refl
drop_nil (suc n) = refl

drop-drop : (n k : ℕ) (xs : Bytes) → drop n (drop k xs) ≡ drop (k + n) xs
drop-drop n zero xs = ap (λ i. drop i xs) {x = n} {y = zero + n} (omega arith)
drop-drop n (suc k) [] = drop_nil n ∙ sym (drop_nil (suc k + n))
drop-drop n (suc k) (x ∷ xs) =
    drop-drop n k xs ∙ ap (λ i. drop i (x ∷ xs)) {x = suc (k + n)} {y = suc k + n} (omega arith)

AreBytes-drop : (n : ℕ) (xs : Bytes) → AreBytes xs → AreBytes (drop n xs)
AreBytes-drop zero xs a = a
AreBytes-drop (suc n) [] a = tt
AreBytes-drop (suc n) (x ∷ xs) a = AreBytes-drop n xs a.1

AreBytes-take : (n : ℕ) (xs : Bytes) → AreBytes xs → AreBytes (take n xs)
AreBytes-take zero xs a = tt
AreBytes-take (suc n) [] a = tt
AreBytes-take (suc n) (x ∷ xs) a = (a.0, AreBytes-take n xs a.1)

only : (v : ℕ) (xs rest : Bytes) → length xs ≡ 4 → append_u32 v ++ rest ≡ xs → append_u32 v ≡ xs
unfolding append_u32
only v xs [] l e = ground arith
only v xs (x ∷ rest) l e = absurd (omega (arith, l, ap length e))

-- Four bytes that are read as a number are what the number is written as.
append_u32-read_u32 :
    (v : ℕ) (xs rest : Bytes)
    → AreBytes xs
    → length xs ≡ 4
    → read_u32 xs ≡ ok (v, rest)
    → append_u32 v ≡ xs
unfolding read_u32 append_u32
append_u32-read_u32 v xs rest a l h = only v xs rest l (low_bytes-read_low_bytes 4 v xs rest a h)

-- The parts that the envelope is read as.
record Parts (expected encoded p : Bytes) : Type 0 where
  size : 12 ≤ length encoded
  magic : take 4 encoded ≡ expected
  version : append_u32 version ≡ take 4 (drop 4 encoded)
  payload : take (length encoded - 12) (drop 8 encoded) ≡ p
  checksum : append_u32 (crc32 p) ≡ drop (length encoded - 4) encoded

unwrap_payload-Parts :
    (expected encoded p : Bytes)
    → AreBytes encoded
    → unwrap_payload expected encoded ≡ ok p
    → Parts expected encoded p
unfolding unwrap_payload
unwrap_payload-Parts expected encoded p a h =
    let (s, h1) = throw_if_passes (ltb (length encoded) 12) runtime_error _ p h in
    let (m, h2) = throw_if_passes (not (beq (take 4 encoded) expected)) runtime_error _ p h1 in
    let ((v, vr), ve, h3) = bind_returns (read_u32 (take 4 (drop 4 encoded))) _ p h2 in
    let (t, h4) = throw_if_passes (not (v == version)) runtime_error _ p h3 in
    let ((c, cr), ce, h5) = bind_returns (read_u32 (drop (length encoded - 4) encoded)) _ p h4 in
    let (q, h6) =
      throw_if_passes (not (c == crc32 (take (length encoded - 12) (drop 8 encoded)))) runtime_error
        _ p h5 in
    let size : 12 ≤ length encoded = ground (arith, s) in
    record {
      size = size;
      magic = beq→eq (take 4 encoded) expected (ground (arith, m));
      version =
          append_u32-read_u32 version (take 4 (drop 4 encoded)) vr
            (AreBytes-take 4 (drop 4 encoded) (AreBytes-drop 4 encoded a))
            (omega (arith, length-take 4 (drop 4 encoded), length-drop 4 encoded, size))
            (ground (arith, ve, t));
      payload = ground (arith, h6);
      checksum =
          append_u32-read_u32 (crc32 p) (drop (length encoded - 4) encoded) cr
            (AreBytes-drop (length encoded - 4) encoded a)
            (omega (arith, length-drop (length encoded - 4) encoded, size))
            (ground (arith, ce, q, h6));
    }

joined :
    (e a b p c : Bytes) (n : ℕ)
    → take 4 e ≡ a
    → b ≡ take 4 (drop 4 e)
    → take n (drop 8 e) ≡ p
    → c ≡ drop n (drop 8 e)
    → a ++ (b ++ (p ++ c)) ≡ e
joined e a b p c n ha hb hp hc =
    let d0 = take-drop n (drop 8 e) in
    let d1 = take-drop 4 (drop 4 e) in let d2 = take-drop 4 e in let d3 = drop-drop 4 4 e in cc

Parts-wrap_payload :
    (expected encoded p : Bytes) → Parts expected encoded p → wrap_payload expected p ≡ encoded
unfolding wrap_payload
Parts-wrap_payload expected encoded p k =
    let n = length encoded - 12 in
    joined encoded expected (append_u32 version) p (append_u32 (crc32 p)) n k.magic k.version
      k.payload
      (k.checksum
        ∙ ap (λ i. drop i encoded) {x = length encoded - 4} {y = 8 + n} (omega (arith, k.size))
        ∙ sym (drop-drop n 8 encoded))

read_low_bytes_throws :
    (e : Exception) (count : ℕ) (input : Bytes)
    → read_low_bytes count input ≡ throw e
    → e ≡ runtime_error
unfolding read_low_bytes
read_low_bytes_throws e zero input h = absurd (cc h)
read_low_bytes_throws e (suc count) [] h = ground (arith, h)
read_low_bytes_throws e (suc count) (b ∷ bs) h = ground (arith, read_low_bytes_throws e count bs, h)

unwrap_payload_throws :
    (e : Exception) (expected encoded : Bytes)
    → unwrap_payload expected encoded ≡ throw e
    → e ≡ runtime_error
unfolding unwrap_payload read_u32
unwrap_payload_throws e expected encoded h = ground (
  arith,
  read_low_bytes_throws e 4 (take 4 (drop 4 encoded)),
  read_low_bytes_throws e 4 (drop (length encoded - 4) encoded),
)

-- A file of bytes is read as a payload exactly if it is what wrap_payload writes for that payload
-- under the same four-byte magic; every other file is refused with a runtime_error.
pub unwrap_payload-wrap_payload_only :
    (a b c d : ℕ) (encoded : Bytes)
    → AreBytes encoded
    → ((p : Bytes) × (unwrap_payload (magic a b c d) encoded ≡ ok p)
        × (encoded ≡ wrap_payload (magic a b c d) p))
      ⊎ ((unwrap_payload (magic a b c d) encoded ≡ throw runtime_error)
          × ((p : Bytes) → encoded ≢ wrap_payload (magic a b c d) p))
unwrap_payload-wrap_payload_only a b c d encoded h =
    let expected = magic a b c d in
    elim (outcome (unwrap_payload expected encoded)) [
      | inl (p, q) ↦
          inl (p, q, sym (Parts-wrap_payload _ encoded p (unwrap_payload-Parts _ encoded p h q)))
      | inr (e, q) ↦ inr (
        q ∙ ap throw (unwrap_payload_throws e expected encoded q),
        λ p w.
            absurd (cc (q, ap (unwrap_payload expected) w, unwrap_payload-wrap_payload a b c d p)),
      )
    ]
