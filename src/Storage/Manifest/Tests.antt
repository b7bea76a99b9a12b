-- ===== src/Storage/Manifest/Tests.antt =====
-- A directory whose first manifest is written, and a commit of a second one.
use nebula_kv.Prelude.{
  ◌≡◌, refl, Bytes, true, none, some, [], ◌∷◌, Bool, arith, subst, blt, length, ◌≤◌,
}
use nebula_kv.Prelude.Result.{Result, ok, throw, runtime_error}
use nebula_kv.Storage.SsTable.{SsTableMetadata, level0}
use nebula_kv.Storage.Manifest.Format.{
  has_parent_path, max_metadata_file_bytes, append_checksum, append_uint16, append_uint32,
  append_uint64, checked_uint32,
}
use nebula_kv.Storage.Manifest.Tables.{
  ManifestSnapshot, serialize_manifest, serialize_table, serialize_tables, contains, parse_manifest,
}
use nebula_kv.Storage.Manifest.Manager.{ManifestManager, load, commit, commit_manifest}
use nebula_kv.Storage.Manifest.RoundTrip.{
  IsTable, AreDistinct, IsManifest, parse_manifest-serialize_manifest,
}
use nebula_kv.Storage.Manifest.Commits.{
  next_snapshot, committed, commit-load, commit_lem, load-commit,
}

abbrev table : SsTableMetadata
table = record {
  path = b't' ∷ [];
  generation = 0;
  entry_count = 1;
  block_count = 1;
  min_sequence_number = 4;
  max_sequence_number = 4;
  smallest_key = b'k' ∷ [];
  largest_key = b'k' ∷ [];
  level = level0;
}

abbrev before : ManifestManager
before = record {
  current_generation = 0;
  active_manifest_path = [];
  current = none;
  manifests = [];
}

abbrev exists : Bytes → Bool
exists path = true

abbrev first : ManifestSnapshot
first = next_snapshot [] 1 before

abbrev bytes_of : Result Bytes → Bytes
bytes_of (ok bytes) = bytes
bytes_of (throw e) = []

abbrev first_bytes : Bytes
first_bytes = bytes_of (serialize_manifest first)

first_serialized : serialize_manifest first ≡ ok first_bytes
unfolding serialize_manifest checked_uint32 serialize_tables
first_serialized = refl

first-IsManifest : IsManifest first
unfolding AreDistinct
first-IsManifest = record {
  generation = (omega arith, omega arith);
  next_file_id = (omega arith, omega arith);
  size = omega arith;
  tables = tt;
  distinct = tt;
}

first_length : length first_bytes ≤ max_metadata_file_bytes
unfolding serialize_manifest checked_uint32 serialize_tables append_checksum append_uint16
    append_uint32 append_uint64
first_length = omega arith

abbrev one : ManifestManager
one = committed first first_bytes before

one-load : (load exists one).0 ≡ ok (some first)
one-load =
    subst (λ (x : Result ManifestSnapshot × ManifestManager). (load exists x.1).0 ≡ ok (some first))
      (commit_lem [] 1 before first_bytes (omega arith) first_serialized)
      (load-commit exists [] 1 before first_bytes first-IsManifest first_serialized first_length tt)

abbrev second : ManifestSnapshot
second = next_snapshot (table ∷ []) 2 one

abbrev second_bytes : Bytes
second_bytes = bytes_of (serialize_manifest second)

second_serialized : serialize_manifest second ≡ ok second_bytes
unfolding serialize_manifest checked_uint32 serialize_tables serialize_table has_parent_path
    contains blt
second_serialized = refl

second_length : length second_bytes ≤ max_metadata_file_bytes
unfolding serialize_manifest checked_uint32 serialize_tables serialize_table has_parent_path
    contains blt append_checksum append_uint16 append_uint32 append_uint64
second_length = omega arith

table-IsTable : IsTable table
unfolding has_parent_path blt
table-IsTable = record {
  path = (refl, omega arith, refl);
  smallest_key = (refl, omega arith);
  largest_key = (refl, omega arith);
  range = refl;
  generation = omega arith;
  entry_count = (omega arith, omega arith);
  block_count = (omega arith, omega arith);
  sequence_numbers = (omega arith, omega arith, omega arith);
}

second-IsManifest : IsManifest second
unfolding AreDistinct contains
second-IsManifest = record {
  generation = (omega arith, omega arith);
  next_file_id = (omega arith, omega arith);
  size = omega arith;
  tables = (table-IsTable, tt);
  distinct = (refl, tt);
}

commit-load_example :
    ((load exists (commit_manifest second second_bytes one)).0 ≡ ok (some first))
    × ((commit (table ∷ []) 2 one).0 ≡ ok second)
    × ((load exists (commit (table ∷ []) 2 one).1).0 ≡ ok (some second))
    × ((load exists (record (commit_manifest second second_bytes one) { current = none })).0
        ≡ throw runtime_error)
commit-load_example =
    commit-load exists (table ∷ []) 2 one first second_bytes one-load refl second-IsManifest
      second_serialized second_length (refl, tt)

parse_manifest-serialize_manifest_example :
    (bytes : Bytes) × (serialize_manifest second ≡ ok bytes) × (parse_manifest bytes ≡ ok second)
parse_manifest-serialize_manifest_example =
    parse_manifest-serialize_manifest second second-IsManifest
