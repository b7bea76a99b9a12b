-- ===== src/Storage/Wal/Format.antt =====
-- src/wal_format.cpp: the bytes of a record.
use nebula_kv.Prelude.{
  ℕ, ◌+◌, ◌-◌, ◌*◌, ◌/◌, ◌%◌, ◌<◌, ◌≡◌, Bytes, ◌||◌, [], ◌∷◌, ◌++◌, ap, arith, ltb, length,
}
use nebula_kv.Prelude.Result.{Result, ok, throw, throw_if, invalid_argument, length_error, ◌>>◌}
use nebula_kv.Storage.Validation.{validate_key, validate_value}
use nebula_kv.Storage.Checksum.{crc32, word32}

pub data OperationType : Type 0 where
  put delete : OperationType

pub record WalRecord : Type 0 where
  pub operation : OperationType
  pub key : Bytes
  pub value : Bytes

abbrev pub operation_value : OperationType → ℕ
operation_value put = 1
operation_value delete = 2

abbrev pub magic : Bytes
magic = b'N' ∷ b'K' ∷ b'V' ∷ b'W' ∷ []

abbrev pub version : ℕ
version = 1

abbrev pub header_size : ℕ
header_size = 16

abbrev pub checksum_size : ℕ
checksum_size = 4

-- The bytes that `append_uint16_le` and `append_uint32_le` push.
unfoldable pub uint16_le : ℕ → Bytes
uint16_le v = v % 256 ∷ v / 256 % 256 ∷ []

unfoldable pub uint32_le : ℕ → Bytes
uint32_le v = v % 256 ∷ v / 256 % 256 ∷ v / 65_536 % 256 ∷ v / 16_777_216 % 256 ∷ []

-- The bytes are below 256, so the `|=` of shifted bytes is a sum.
unfoldable pub read_uint16_le : Bytes → Result ℕ
read_uint16_le (a ∷ b ∷ _) = ok (a + b * 256)
read_uint16_le _ = throw invalid_argument

unfoldable pub read_uint32_le : Bytes → Result ℕ
read_uint32_le (a ∷ b ∷ c ∷ d ∷ _) = ok (a + b * 256 + c * 65_536 + d * 16_777_216)
read_uint32_le _ = throw invalid_argument

unfoldable pub check_operation : OperationType → Bytes → Result (Unit {0})
check_operation put value = validate_value value
check_operation delete [] = ok tt
check_operation delete (b ∷ bs) = throw invalid_argument

unfoldable pub header : OperationType → ℕ → ℕ → Bytes
header operation key_size value_size =
    magic
    ++ uint16_le version
    ++ (operation_value operation ∷ 0 ∷ [])
    ++ uint32_le key_size
    ++ uint32_le value_size

unfoldable pub serialize : WalRecord → Result Bytes
unfolding check_operation
serialize r = do
  validate_key r.key
  check_operation r.operation r.value
  throw_if (ltb (word32 - 1) (length r.key) || ltb (word32 - 1) (length r.value)) length_error
  let encoded : Bytes =
      header r.operation (length r.key % word32) (length r.value % word32) ++ r.key ++ r.value
  ok (encoded ++ uint32_le (crc32 encoded))

pub read_uint32_le-uint32_le :
    (v : ℕ) (bs : Bytes) → v < word32 → read_uint32_le (uint32_le v ++ bs) ≡ ok v
unfolding read_uint32_le uint32_le
read_uint32_le-uint32_le v bs h = ap ok (omega arith)
