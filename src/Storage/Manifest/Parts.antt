-- ===== src/Storage/Manifest/Parts.antt =====
-- The parts of the metadata files (src/manifest.cpp) read back as they were written, each in front of
-- the parts after it.
use mathlib.Core.List.{append_assoc}
use nebula_kv.Prelude.{
  ℕ, ◌+◌, ◌-◌, ◌^◌, ◌<◌, ◌≡◌, refl, Bytes, beq_self, arith, ltb, length, length-append, take, drop,
  take-append, drop-append, false, [], ◌++◌,
}
use nebula_kv.Prelude.Result.{ok}
use nebula_kv.Prelude.LittleEndian.{read_low_bytes-low_bytes}
use nebula_kv.Storage.Checksum.{crc32, crc32-lt}
use nebula_kv.Storage.MemTable.{word}
use nebula_kv.Storage.Manifest.Format.{
  append_uint8, append_uint16, append_uint32, append_uint64, read_uint8, read_uint16, read_uint32,
  read_uint64, read_string, expect_magic, append_checksum, verified_payload, checked_uint32,
}

module _ (xs tail : Bytes) where
  pub read_uint8-append_uint8 :
      (v : ℕ) → read_uint8 ((append_uint8 v ++ xs) ++ tail) ≡ ok (v, xs ++ tail)
  unfolding read_uint8
  read_uint8-append_uint8 v = refl

  pub read_uint16-append_uint16 :
      (v : ℕ) → v < 2 ^ 16 → read_uint16 ((append_uint16 v ++ xs) ++ tail) ≡ ok (v, xs ++ tail)
  unfolding read_uint16 append_uint16
  read_uint16-append_uint16 v h = read_low_bytes-low_bytes 2 v (xs ++ tail) (omega (arith, h))

  pub read_uint32-append_uint32 :
      (v : ℕ) → v < 2 ^ 32 → read_uint32 ((append_uint32 v ++ xs) ++ tail) ≡ ok (v, xs ++ tail)
  unfolding read_uint32 append_uint32
  read_uint32-append_uint32 v h = read_low_bytes-low_bytes 4 v (xs ++ tail) (omega (arith, h))

  pub read_uint64-append_uint64 :
      (v : ℕ) → v < word → read_uint64 ((append_uint64 v ++ xs) ++ tail) ≡ ok (v, xs ++ tail)
  unfolding read_uint64 append_uint64
  read_uint64-append_uint64 v h = read_low_bytes-low_bytes 8 v (xs ++ tail) (omega (arith, h))

pub read_string_lem : (v tail : Bytes) → read_string (length v) (v ++ tail) ≡ ok (v, tail)
unfolding read_string
read_string_lem v tail = rw (long_enough, take-append v tail, drop-append v tail) refl
  where
    long_enough : ltb (length (v ++ tail)) (length v) ≡ false
    long_enough = ground (arith, length-append v tail)

pub read_string_more :
    (v xs tail : Bytes) → read_string (length v) ((v ++ xs) ++ tail) ≡ ok (v, xs ++ tail)
read_string_more v xs tail = rw (append_assoc v xs tail) (read_string_lem v (xs ++ tail))

pub expect_magic_lem : (magic rest : Bytes) → expect_magic magic (magic ++ rest) ≡ ok rest
unfolding expect_magic
expect_magic_lem magic rest =
    rw (long_enough, take-append magic rest, beq_self magic, drop-append magic rest) refl
  where
    long_enough : ltb (length (magic ++ rest)) (length magic) ≡ false
    long_enough = ground (arith, length-append magic rest)

pub checked_uint32_lem : (v : ℕ) → v < 2 ^ 32 → checked_uint32 v ≡ ok v
unfolding checked_uint32
checked_uint32_lem v h = ground arith

module _ (p : Bytes) where
  length-append_checksum : length (append_checksum p) ≡ length p + 4
  unfolding append_checksum append_uint32
  length-append_checksum = length-append p (append_uint32 (crc32 p))

  size_part : length (append_checksum p) - 4 ≡ length p
  size_part = omega (arith, length-append_checksum)

  payload_part : take (length p) (append_checksum p) ≡ p
  unfolding append_checksum
  payload_part = take-append p (append_uint32 (crc32 p))

  read_checksum : read_uint32 (append_uint32 (crc32 p)) ≡ ok (crc32 p, [])
  unfolding append_uint32
  read_checksum = read_uint32-append_uint32 [] [] (crc32 p) (crc32-lt p)

  checksum_part : read_uint32 (drop (length p) (append_checksum p)) ≡ ok (crc32 p, [])
  unfolding append_checksum
  checksum_part = rw (drop-append p (append_uint32 (crc32 p))) read_checksum

  not_short : ltb (length (append_checksum p)) 4 ≡ false
  not_short = ground (arith, length-append_checksum)

  pub verified_payload-append_checksum : verified_payload (append_checksum p) ≡ ok p
  unfolding verified_payload
  verified_payload-append_checksum =
      rw (not_short, size_part, payload_part, checksum_part) (ground arith)
