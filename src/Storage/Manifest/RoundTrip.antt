-- ===== src/Storage/Manifest/RoundTrip.antt =====
-- The manifest and CURRENT (src/manifest.cpp) read back as they were written.
use mathlib.Core.List.{append_assoc, append-nil}
use nebula_kv.Prelude.{
  ◌^◌, ◌<◌, ◌≤◌, ◌==◌, ◌≡◌, refl, Bytes, blt, arith, ltb, length, false, List, [], ◌∷◌, ◌++◌, ◌||◌,
}
use nebula_kv.Prelude.Result.{ok}
use nebula_kv.Storage.MemTable.{word}
use nebula_kv.Storage.SsTable.{SsTableLevel, level0, level1, SsTableMetadata}
use nebula_kv.Storage.Manifest.Format.{
  manifest_magic, manifest_version, max_manifest_tables, max_filename_bytes, append_uint8,
  append_uint16, append_uint32, append_uint64, ensure_at_end, append_checksum, is_empty,
  has_parent_path,
}
use nebula_kv.Storage.Manifest.Tables.{
  ManifestSnapshot, level_value, level_of, contains, serialize_table, serialize_tables,
  serialize_manifest, check_table, parse_table, parse_tables, parse_manifest,
}
use nebula_kv.Storage.Manifest.Parts.{
  read_uint8-append_uint8, read_uint16-append_uint16, read_uint32-append_uint32,
  read_uint64-append_uint64, read_string_lem, read_string_more, expect_magic_lem,
  checked_uint32_lem, verified_payload-append_checksum,
}

-- What the format asks of a table: the checks of the writer and of the reader, and numbers that fit.
pub record IsTable (t : SsTableMetadata) : Type 0 where
  pub path :
      (is_empty t.path ≡ false)
      × (length t.path ≤ max_filename_bytes)
      × (has_parent_path t.path ≡ false)
  pub smallest_key : (is_empty t.smallest_key ≡ false) × (length t.smallest_key < 2 ^ 32)
  pub largest_key : (is_empty t.largest_key ≡ false) × (length t.largest_key < 2 ^ 32)
  pub range : blt t.largest_key t.smallest_key ≡ false
  pub generation : t.generation < word
  pub entry_count : (1 ≤ t.entry_count) × (t.entry_count < word)
  pub block_count : (1 ≤ t.block_count) × (t.block_count < 2 ^ 32)
  pub sequence_numbers :
      (1 ≤ t.min_sequence_number)
      × (t.min_sequence_number ≤ t.max_sequence_number)
      × (t.max_sequence_number < word)

-- No two tables have one file name, nor has one of them a name of the list.
unfoldable pub AreDistinct : List Bytes → List SsTableMetadata → Type 0
AreDistinct names [] = Unit
AreDistinct names (t ∷ ts) = (contains t.path names ≡ false) × AreDistinct (t.path ∷ names) ts

abbrev pub AreTables : List SsTableMetadata → Type 0
AreTables [] = Unit
AreTables (t ∷ ts) = IsTable t × AreTables ts

abbrev table_bytes : SsTableMetadata → Bytes
table_bytes t =
    append_uint8 (level_value t.level)
    ++ (append_uint8 0
        ++ (append_uint16 0
            ++ (append_uint64 t.generation
                ++ (append_uint64 t.entry_count
                    ++ (append_uint32 t.block_count
                        ++ (append_uint64 t.min_sequence_number
                            ++ (append_uint64 t.max_sequence_number
                                ++ (append_uint32 (length t.path)
                                    ++ (append_uint32 (length t.smallest_key)
                                        ++ (append_uint32 (length t.largest_key)
                                            ++ (t.path
                                                ++ (t.smallest_key ++ t.largest_key))))))))))))

serialize_table_lem :
    (names : List Bytes) (t : SsTableMetadata)
    → IsTable t
    → contains t.path names ≡ false
    → serialize_table names t ≡ ok (table_bytes t)
unfolding serialize_table
serialize_table_lem names t h d =
    rw
      (
        h.path.0,
        long h.path.1,
        h.path.2,
        d,
        h.smallest_key.0,
        h.largest_key.0,
        h.range,
        checked_uint32_lem (length t.path) (omega (arith, h.path.1)),
        checked_uint32_lem (length t.smallest_key) h.smallest_key.1,
        checked_uint32_lem (length t.largest_key) h.largest_key.1,
      )
      refl
  where
    long : length t.path ≤ max_filename_bytes → ltb max_filename_bytes (length t.path) ≡ false
    long l = ground arith

level_of-level_value : (l : SsTableLevel) → level_of (level_value l) ≡ ok l
level_of-level_value level0 = refl
level_of-level_value level1 = refl

check_table_lem :
    (names : List Bytes) (t : SsTableMetadata)
    → IsTable t
    → contains t.path names ≡ false
    → check_table names t ≡ ok tt
unfolding check_table
check_table_lem names t h d =
    rw (h.path.2, d, h.range) (ground (arith, h.entry_count, h.block_count, h.sequence_numbers))

-- The sizes pass the reader's check.
sizes_pass :
    (t : SsTableMetadata)
    → IsTable t
    → (length t.path == 0
        || ltb max_filename_bytes (length t.path)
        || length t.smallest_key == 0
        || length t.largest_key == 0)
      ≡ false
sizes_pass t h = ground (arith, h.path, h.smallest_key, h.largest_key)

parse_table-table_bytes :
    (names : List Bytes) (t : SsTableMetadata) (tail : Bytes)
    → IsTable t
    → contains t.path names ≡ false
    → parse_table names (table_bytes t ++ tail) ≡ ok (t, tail)
unfolding parse_table
parse_table-table_bytes names t tail h d =
    rw
      (
        read_uint8-append_uint8 _ tail (level_value t.level),
        read_uint8-append_uint8 _ tail 0,
        read_uint16-append_uint16 _ tail 0 (omega arith),
        level_of-level_value t.level,
        read_uint64-append_uint64 _ tail t.generation h.generation,
        read_uint64-append_uint64 _ tail t.entry_count h.entry_count.1,
        read_uint32-append_uint32 _ tail t.block_count h.block_count.1,
        read_uint64-append_uint64 _ tail t.min_sequence_number (omega (arith, h.sequence_numbers)),
        read_uint64-append_uint64 _ tail t.max_sequence_number h.sequence_numbers.2,
        read_uint32-append_uint32 _ tail (length t.path) (omega (arith, h.path.1)),
        read_uint32-append_uint32 _ tail (length t.smallest_key) h.smallest_key.1,
        read_uint32-append_uint32 _ tail (length t.largest_key) h.largest_key.1,
        sizes_pass t h,
        read_string_more t.path (t.smallest_key ++ t.largest_key) tail,
        read_string_more t.smallest_key t.largest_key tail,
        read_string_lem t.largest_key tail,
        check_table_lem names t h d,
      )
      refl

parse_tables-serialize_tables :
    (names : List Bytes) (ts : List SsTableMetadata) (tail : Bytes)
    → AreTables ts
    → AreDistinct names ts
    → (bytes : Bytes) × (serialize_tables names ts ≡ ok bytes)
      × (parse_tables (length ts) names (bytes ++ tail) ≡ ok (ts, tail))
unfolding serialize_tables parse_tables AreDistinct
parse_tables-serialize_tables names [] tail h d = ([], refl, refl)
parse_tables-serialize_tables names (t ∷ ts) tail h d =
    let (rest, p, q) = parse_tables-serialize_tables (t.path ∷ names) ts tail h.1 d.1 in
    (
      table_bytes t ++ rest,
      rw (serialize_table_lem names t h.0 d.0, p) refl,
      rw
          (
            append_assoc (table_bytes t) rest tail,
            parse_table-table_bytes names t (rest ++ tail) h.0 d.0,
            q,
          )
          refl,
    )

pub record IsManifest (s : ManifestSnapshot) : Type 0 where
  pub generation : (1 ≤ s.generation) × (s.generation < word)
  pub next_file_id : (1 ≤ s.next_file_id) × (s.next_file_id < word)
  pub size : length s.tables ≤ max_manifest_tables
  pub tables : AreTables s.tables
  pub distinct : AreDistinct [] s.tables

abbrev manifest_bytes : ManifestSnapshot → Bytes → Bytes
manifest_bytes s tables =
    append_uint16 manifest_version
    ++ (append_uint16 0
        ++ (append_uint64 s.generation
            ++ (append_uint64 s.next_file_id
                ++ (append_uint32 (length s.tables) ++ (append_uint32 0 ++ tables)))))

counters_pass :
    (s : ManifestSnapshot)
    → IsManifest s
    → ((s.generation == 0 || s.next_file_id == 0) ≡ false)
      × (ltb max_manifest_tables (length s.tables) ≡ false)
counters_pass s h = (ground (arith, h.generation, h.next_file_id), ground (arith, h.size))

counters_read :
    (s : ManifestSnapshot)
    → IsManifest s
    → (s.generation == 0 || s.next_file_id == 0 || ltb max_manifest_tables (length s.tables))
      ≡ false
counters_read s h = ground (arith, h.generation, h.next_file_id, h.size)

parse_manifest_parts :
    (s : ManifestSnapshot) (tables : Bytes)
    → IsManifest s
    → parse_tables (length s.tables) [] (tables ++ []) ≡ ok (s.tables, [])
    → parse_manifest (append_checksum (manifest_magic ++ manifest_bytes s tables)) ≡ ok s
unfolding parse_manifest ensure_at_end
parse_manifest_parts s tables h q =
    rw
      (
        verified_payload-append_checksum (manifest_magic ++ manifest_bytes s tables),
        expect_magic_lem manifest_magic (manifest_bytes s tables),
        ← append-nil (manifest_bytes s tables),
        read_uint16-append_uint16 _ [] manifest_version (omega arith),
        read_uint16-append_uint16 _ [] 0 (omega arith),
        read_uint64-append_uint64 _ [] s.generation h.generation.1,
        read_uint64-append_uint64 _ [] s.next_file_id h.next_file_id.1,
        read_uint32-append_uint32 _ [] (length s.tables) (omega (arith, h.size)),
        read_uint32-append_uint32 _ [] 0 (omega arith),
        counters_read s h,
        q,
      )
      refl

-- A manifest with counters above 0 and at most 2^20 tables, each with a valid file name of its
-- own, keys that are not empty and in order, at least one entry and one block, sequence numbers
-- from 1 on with the smallest at most the largest, and numbers that fit their fields, is written
-- without an exception and is read back as it was.
pub parse_manifest-serialize_manifest :
    (s : ManifestSnapshot)
    → IsManifest s
    → (bytes : Bytes) × (serialize_manifest s ≡ ok bytes) × (parse_manifest bytes ≡ ok s)
unfolding serialize_manifest
parse_manifest-serialize_manifest s h =
    let (tables, p, q) = parse_tables-serialize_tables [] s.tables [] h.tables h.distinct in
    let (c1, c2) = counters_pass s h in
    (
      append_checksum (manifest_magic ++ manifest_bytes s tables),
      rw (c1, c2, checked_uint32_lem (length s.tables) (omega (arith, h.size)), p) refl,
      parse_manifest_parts s tables h q,
    )
