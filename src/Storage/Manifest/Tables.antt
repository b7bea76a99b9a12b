-- ===== src/Storage/Manifest/Tables.antt =====
-- The manifest: `serialize_manifest` and `parse_manifest` of src/manifest.cpp.
use nebula_kv.Prelude.{
  ℕ, zero, suc, ◌==◌, Bytes, beq, blt, Bool, false, not, ◌||◌, List, [], ◌∷◌, ◌++◌, ltb, length,
  if◌then◌else◌,
}
use nebula_kv.Prelude.Result.{
  Result, ok, throw, throw_if, runtime_error, invalid_argument, length_error, ◌>>=◌, ◌>>◌,
}
use nebula_kv.Storage.SsTable.{SsTableLevel, level0, level1, SsTableMetadata}
use nebula_kv.Storage.Manifest.Format.{
  manifest_magic, manifest_version, max_manifest_tables, max_filename_bytes, append_uint8,
  append_uint16, append_uint32, append_uint64, Reads, read_uint8, read_uint16, read_uint32,
  read_uint64, read_string, expect_magic, ensure_at_end, append_checksum, verified_payload,
  checked_uint32, is_empty, has_parent_path,
}

pub record ManifestSnapshot : Type 0 where
  pub generation : ℕ
  pub next_file_id : ℕ
  pub tables : List SsTableMetadata

abbrev pub level_value : SsTableLevel → ℕ
level_value level0 = 0
level_value level1 = 1

abbrev pub level_of : ℕ → Result SsTableLevel
level_of raw = if raw == 0 then ok level0 else if raw == 1 then ok level1 else throw runtime_error

-- Whether a set of file names has a name.
unfoldable pub contains : Bytes → List Bytes → Bool
contains name [] = false
contains name (f ∷ fs) = beq name f || contains name fs

unfoldable pub serialize_table : List Bytes → SsTableMetadata → Result Bytes
serialize_table filenames table = do
  throw_if
      (is_empty table.path
        || ltb max_filename_bytes (length table.path)
        || has_parent_path table.path)
      invalid_argument
  throw_if (contains table.path filenames) invalid_argument
  throw_if
      (is_empty table.smallest_key
        || is_empty table.largest_key
        || blt table.largest_key table.smallest_key)
      invalid_argument
  filename_size ← checked_uint32 (length table.path)
  smallest_size ← checked_uint32 (length table.smallest_key)
  largest_size ← checked_uint32 (length table.largest_key)
  ok (
      append_uint8 (level_value table.level)
      ++ (append_uint8 0
          ++ (append_uint16 0
              ++ (append_uint64 table.generation
                  ++ (append_uint64 table.entry_count
                      ++ (append_uint32 table.block_count
                          ++ (append_uint64 table.min_sequence_number
                              ++ (append_uint64 table.max_sequence_number
                                  ++ (append_uint32 filename_size
                                      ++ (append_uint32 smallest_size
                                          ++ (append_uint32 largest_size
                                              ++ (table.path
                                                  ++ (table.smallest_key
                                                      ++ table.largest_key)))))))))))))

unfoldable pub serialize_tables : List Bytes → List SsTableMetadata → Result Bytes
serialize_tables filenames [] = ok []
serialize_tables filenames (t ∷ ts) = do
  bytes ← serialize_table filenames t
  rest ← serialize_tables (t.path ∷ filenames) ts
  ok (bytes ++ rest)

unfoldable pub serialize_manifest : ManifestSnapshot → Result Bytes
serialize_manifest snapshot = do
  throw_if (snapshot.generation == 0 || snapshot.next_file_id == 0) invalid_argument
  throw_if (ltb max_manifest_tables (length snapshot.tables)) length_error
  count ← checked_uint32 (length snapshot.tables)
  tables ← serialize_tables [] snapshot.tables
  ok (
      append_checksum (
        manifest_magic
        ++ (append_uint16 manifest_version
            ++ (append_uint16 0
                ++ (append_uint64 snapshot.generation
                    ++ (append_uint64 snapshot.next_file_id
                        ++ (append_uint32 count ++ (append_uint32 0 ++ tables))))))))

-- The checks of a table's record that follow its fields.
unfoldable pub check_table : List Bytes → SsTableMetadata → Result (Unit {0})
check_table filenames table = do
  throw_if (has_parent_path table.path || contains table.path filenames) runtime_error
  throw_if
      (blt table.largest_key table.smallest_key
        || table.entry_count == 0
        || table.block_count == 0
        || table.min_sequence_number == 0
        || ltb table.max_sequence_number table.min_sequence_number)
      runtime_error

unfoldable pub parse_table : List Bytes → Reads SsTableMetadata
parse_table filenames input = do
  (raw_level, rest) ← read_uint8 input
  (flags, rest1) ← read_uint8 rest
  throw_if (not (flags == 0)) runtime_error
  (flags16, rest2) ← read_uint16 rest1
  throw_if (not (flags16 == 0)) runtime_error
  level ← level_of raw_level
  (generation, rest3) ← read_uint64 rest2
  (entry_count, rest4) ← read_uint64 rest3
  (block_count, rest5) ← read_uint32 rest4
  (min_sequence_number, rest6) ← read_uint64 rest5
  (max_sequence_number, rest7) ← read_uint64 rest6
  (filename_size, rest8) ← read_uint32 rest7
  (smallest_size, rest9) ← read_uint32 rest8
  (largest_size, rest10) ← read_uint32 rest9
  throw_if
      (filename_size == 0
        || ltb max_filename_bytes filename_size
        || smallest_size == 0
        || largest_size == 0)
      runtime_error
  (path, rest11) ← read_string filename_size rest10
  (smallest_key, rest12) ← read_string smallest_size rest11
  (largest_key, rest13) ← read_string largest_size rest12
  let table : SsTableMetadata = record {
    path = path;
    generation = generation;
    entry_count = entry_count;
    block_count = block_count;
    min_sequence_number = min_sequence_number;
    max_sequence_number = max_sequence_number;
    smallest_key = smallest_key;
    largest_key = largest_key;
    level = level;
  }
  check_table filenames table
  ok (table, rest13)

unfoldable pub parse_tables : ℕ → List Bytes → Reads (List SsTableMetadata)
parse_tables zero filenames input = ok ([], input)
parse_tables (suc count) filenames input = do
  (t, rest) ← parse_table filenames input
  (ts, rest1) ← parse_tables count (t.path ∷ filenames) rest
  ok (t ∷ ts, rest1)

unfoldable pub parse_manifest : Bytes → Result ManifestSnapshot
parse_manifest bytes = do
  payload ← verified_payload bytes
  rest ← expect_magic manifest_magic payload
  (file_version, rest1) ← read_uint16 rest
  throw_if (not (file_version == manifest_version)) runtime_error
  (flags, rest2) ← read_uint16 rest1
  throw_if (not (flags == 0)) runtime_error
  (generation, rest3) ← read_uint64 rest2
  (next_file_id, rest4) ← read_uint64 rest3
  (table_count, rest5) ← read_uint32 rest4
  (flags32, rest6) ← read_uint32 rest5
  throw_if (not (flags32 == 0)) runtime_error
  throw_if (generation == 0 || next_file_id == 0 || ltb max_manifest_tables table_count)
      runtime_error
  (tables, rest7) ← parse_tables table_count [] rest6
  ensure_at_end rest7
  ok (record { generation = generation; next_file_id = next_file_id; tables = tables })
