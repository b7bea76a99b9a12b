-- ===== src/Storage/Wal/Reader.antt =====
-- `WalReader::scan` of src/wal_reader.cpp.
use nebula_kv.Prelude.{
  ℕ, zero, suc, ◌+◌, ◌%◌, Bytes, Bool, true, false, ◌&&◌, ◌||◌, not, Option, none, some, ◌++◌, beq,
  ltb, ◌==◌, length, get_elem?, take, drop, if◌then◌else◌,
}
use nebula_kv.Prelude.Result.{Result, ok, throw, ◌>>=◌}
use nebula_kv.Prelude.Exec.{Exec, resume}
use nebula_kv.Storage.Validation.{max_key_size, max_value_size}
use nebula_kv.Storage.MemTable.{word}
use nebula_kv.Storage.Checksum.{crc32}
use nebula_kv.Storage.Wal.Format.{
  OperationType, put, delete, WalRecord, magic, version, header_size, checksum_size, read_uint16_le,
  read_uint32_le,
}

pub data WalReadIssueCode : Type 0 where
  incomplete_record invalid_magic unsupported_version invalid_operation : WalReadIssueCode
  invalid_record_length invalid_delete_record checksum_mismatch io_error : WalReadIssueCode

pub record WalReadIssue : Type 0 where
  pub code : WalReadIssueCode
  pub byte_offset : ℕ

pub record WalScanResult : Type 0 where
  pub records_read : ℕ
  pub valid_bytes : ℕ
  pub issue : Option WalReadIssue

-- How one round of the loop goes on before the visitor is called: it returns, or it has a record, with
-- the number of its bytes and what is left of the file.
pub data Round : Type 0 where
  end_of_file : Round
  failed : WalReadIssueCode → Round
  decoded : WalRecord → ℕ → Bytes → Round

-- `header[6]` and `header[7]` of a whole header
abbrev pub byte_at : Bytes → ℕ → ℕ
byte_at bytes i = elim (get_elem? bytes i) [ some b ↦ b | none ↦ 0 ]

abbrev pub operation_of : ℕ → Option OperationType
operation_of v = if v == 1 then some put else if v == 2 then some delete else none

abbrev pub is_delete : OperationType → Bool
is_delete put = false
is_delete delete = true

-- From the checksum on.
unfoldable pub read_checksum : OperationType → Bytes → ℕ → Bytes → Bytes → Result Round
read_checksum operation header key_size payload rest =
    let checksum_bytes = take checksum_size rest in
    if not (length checksum_bytes == checksum_size) then ok (failed incomplete_record) else (do
      expected ← read_uint32_le checksum_bytes
      ok (
          if not (crc32 (header ++ payload) == expected)
          then failed checksum_mismatch
          else decoded
              (record {
                operation = operation;
                key = take key_size payload;
                value = drop key_size payload;
              })
              (header_size + length payload + checksum_size) (drop checksum_size rest)))

unfoldable pub read_payload : OperationType → Bytes → ℕ → ℕ → Bytes → Result Round
unfolding read_checksum
read_payload operation header key_size value_size rest =
    let payload = take (key_size + value_size) rest in
    if not (length payload == key_size + value_size)
    then ok (failed incomplete_record)
    else read_checksum operation header key_size payload (drop (key_size + value_size) rest)

unfoldable pub read_sizes : OperationType → Bytes → Bytes → Result Round
unfolding read_payload
read_sizes operation header rest = do
  key_size ← read_uint32_le (take 4 (drop 8 header))
  value_size ← read_uint32_le (take 4 (drop 12 header))
  if key_size == 0 || ltb max_key_size key_size || ltb max_value_size value_size
      then ok (failed invalid_record_length)
      else if is_delete operation && not (value_size == 0)
      then ok (failed invalid_delete_record)
      else read_payload operation header key_size value_size rest

unfoldable pub read_operation : Option OperationType → Bytes → Bytes → Result Round
unfolding read_sizes
read_operation none header rest = ok (failed invalid_operation)
read_operation (some operation) header rest =
    if not (byte_at header 7 == 0)
    then ok (failed invalid_record_length)
    else read_sizes operation header rest

unfoldable pub read_version : Bytes → Bytes → Result Round
unfolding read_operation
read_version header rest = do
  v ← read_uint16_le (take 2 (drop 4 header))
  if not (v == version)
      then ok (failed unsupported_version)
      else read_operation (operation_of (byte_at header 6)) header rest

-- `read_exact` fills its buffer from what is left of the file, as far as that goes.
unfoldable pub read_record : Bytes → Result Round
unfolding read_version
read_record file =
    let header = take header_size file in
    if length header == 0
    then ok end_of_file
    else if not (length header == header_size)
    then ok (failed incomplete_record)
    else if not (beq (take 4 header) magic)
    then ok (failed invalid_magic)
    else read_version header (drop header_size file)

abbrev pub make_issue : WalScanResult → WalReadIssueCode → ℕ → WalScanResult
make_issue result code offset = record result {
  issue = some (record { code = code; byte_offset = offset });
}

abbrev pub advance : ℕ → WalScanResult → WalScanResult
advance size result = record result {
  records_read = (result.records_read + 1) % word;
  valid_bytes = (result.valid_bytes + size) % word;
}

module _ {ℓ} {D : Type ℓ} (visitor : WalRecord → Exec D (Unit {0})) where
  unfoldable pub scan_loop : ℕ → Bytes → WalScanResult → Exec D WalScanResult
  scan_loop zero file result d = (ok result, d)
  scan_loop (suc fuel) file result d = elim (read_record file) [
    | throw x ↦ (throw x, d)
    | ok end_of_file ↦ (ok result, d)
    | ok (failed code) ↦ (ok (make_issue result code result.valid_bytes), d)
    | ok (decoded r size rest) ↦
        resume (λ _. scan_loop fuel rest (advance size result)) (visitor r d)
  ]

  -- Every record takes bytes from the file, so its length is fuel enough.
  unfoldable pub scan : Bytes → Exec D WalScanResult
  unfolding scan_loop
  scan file =
      scan_loop (suc (length file)) file
        (record { records_read = 0; valid_bytes = 0; issue = none })
