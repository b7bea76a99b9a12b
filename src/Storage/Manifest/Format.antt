-- ===== src/Storage/Manifest/Format.antt =====
-- The parts of the metadata files, and the file CURRENT (src/manifest.cpp). A file name has a parent
-- path, or is absolute, exactly if it has a slash in it.
use nebula_kv.Prelude.{
  ℕ, ◌-◌, ◌*◌, ◌^◌, ◌==◌, Bytes, beq, Bool, true, false, not, ◌||◌, [], ◌∷◌, ◌++◌, ltb, length,
  take, drop,
}
use nebula_kv.Prelude.Result.{
  Result, ok, throw, throw_if, runtime_error, invalid_argument, length_error, ◌>>=◌, ◌>>◌,
}
use nebula_kv.Prelude.LittleEndian.{low_bytes, read_low_bytes}
use nebula_kv.Storage.Checksum.{crc32}

abbrev pub manifest_magic : Bytes
manifest_magic = b'N' ∷ b'B' ∷ b'L' ∷ b'M' ∷ b'A' ∷ b'N' ∷ b'0' ∷ b'1' ∷ []

abbrev pub current_magic : Bytes
current_magic = b'N' ∷ b'B' ∷ b'L' ∷ b'C' ∷ b'U' ∷ b'R' ∷ b'0' ∷ b'1' ∷ []

-- "MANIFEST-"
abbrev pub manifest_prefix : Bytes
manifest_prefix = b'M' ∷ b'A' ∷ b'N' ∷ b'I' ∷ b'F' ∷ b'E' ∷ b'S' ∷ b'T' ∷ b'-' ∷ []

abbrev pub manifest_version : ℕ
manifest_version = 1

abbrev pub max_metadata_file_bytes : ℕ
max_metadata_file_bytes = 64 * 1024 * 1024

abbrev pub max_manifest_tables : ℕ
max_manifest_tables = 2 ^ 20

abbrev pub max_filename_bytes : ℕ
max_filename_bytes = 4096

abbrev pub append_uint8 : ℕ → Bytes
append_uint8 value = value ∷ []

unfoldable pub append_uint16 : ℕ → Bytes
append_uint16 value = low_bytes 2 value

unfoldable pub append_uint32 : ℕ → Bytes
append_uint32 value = low_bytes 4 value

unfoldable pub append_uint64 : ℕ → Bytes
append_uint64 value = low_bytes 8 value

-- The decoder is the input behind its offset.
abbrev pub Reads : Type 0 → Type 0
Reads A = Bytes → Result (A × Bytes)

unfoldable pub read_uint8 : Reads ℕ
read_uint8 [] = throw runtime_error
read_uint8 (b ∷ rest) = ok (b, rest)

unfoldable pub read_uint16 : Reads ℕ
unfolding read_low_bytes
read_uint16 input = read_low_bytes 2 input

unfoldable pub read_uint32 : Reads ℕ
unfolding read_low_bytes
read_uint32 input = read_low_bytes 4 input

unfoldable pub read_uint64 : Reads ℕ
unfolding read_low_bytes
read_uint64 input = read_low_bytes 8 input

unfoldable pub read_string : ℕ → Reads Bytes
read_string size input = do
  throw_if (ltb (length input) size) runtime_error
  ok (take size input, drop size input)

unfoldable pub expect_magic : Bytes → Bytes → Result Bytes
expect_magic magic input = do
  throw_if (ltb (length input) (length magic)) runtime_error
  throw_if (not (beq (take (length magic) input) magic)) runtime_error
  ok (drop (length magic) input)

unfoldable pub ensure_at_end : Bytes → Result (Unit {0})
ensure_at_end [] = ok tt
ensure_at_end (b ∷ bs) = throw runtime_error

unfoldable pub append_checksum : Bytes → Bytes
append_checksum bytes = bytes ++ append_uint32 (crc32 bytes)

unfoldable pub verified_payload : Bytes → Result Bytes
verified_payload bytes = do
  throw_if (ltb (length bytes) 4) runtime_error
  let payload_size = length bytes - 4
  (expected, _) ← read_uint32 (drop payload_size bytes)
  throw_if (not (crc32 (take payload_size bytes) == expected)) runtime_error
  ok (take payload_size bytes)

unfoldable pub checked_uint32 : ℕ → Result ℕ
checked_uint32 value = do throw_if (ltb (2 ^ 32 - 1) value) length_error; ok value

abbrev pub is_empty : Bytes → Bool
is_empty [] = true
is_empty (b ∷ bs) = false

unfoldable pub has_parent_path : Bytes → Bool
has_parent_path [] = false
has_parent_path (b ∷ bs) = b == b'/' || has_parent_path bs

unfoldable pub serialize_current : Bytes → Result Bytes
serialize_current manifest_filename = do
  throw_if (is_empty manifest_filename || ltb max_filename_bytes (length manifest_filename))
      invalid_argument
  size ← checked_uint32 (length manifest_filename)
  ok (
      append_checksum (
        current_magic
        ++ (append_uint16 manifest_version
            ++ (append_uint16 0 ++ (append_uint32 size ++ manifest_filename)))))

unfoldable pub parse_current : Bytes → Result Bytes
parse_current bytes = do
  payload ← verified_payload bytes
  rest ← expect_magic current_magic payload
  (file_version, rest1) ← read_uint16 rest
  throw_if (not (file_version == manifest_version)) runtime_error
  (flags, rest2) ← read_uint16 rest1
  throw_if (not (flags == 0)) runtime_error
  (size, rest3) ← read_uint32 rest2
  throw_if (size == 0 || ltb max_filename_bytes size) runtime_error
  (filename, rest4) ← read_string size rest3
  ensure_at_end rest4
  throw_if (has_parent_path filename || not (beq (take 9 filename) manifest_prefix)) runtime_error
  ok filename
