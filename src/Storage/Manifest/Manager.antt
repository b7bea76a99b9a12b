-- ===== src/Storage/Manifest/Manager.antt =====
-- `ManifestManager` of src/manifest.cpp. Its directory is the files that the class writes; a file that is
-- written replaces the one of its name, and like a read this is taken to succeed.
use nebula_kv.Prelude.{
  ℕ, ◌+◌, ◌-◌, ◌==◌, Bytes, beq, Bool, not, Option, none, some, List, [], ◌∷◌, ◌++◌, ltb, length,
  if◌then◌else◌,
}
use nebula_kv.Prelude.Result.{
  Result, ok, throw, throw_if, runtime_error, overflow_error, ◌>>=◌, ◌>>◌,
}
use nebula_kv.Prelude.Exec.{Exec, resume}
use nebula_kv.Prelude.OrderedMap.{OrderedMap, find, insert_or_assign}
use nebula_kv.Prelude.Decimal.{padded}
use nebula_kv.Storage.MemTable.{word}
use nebula_kv.Storage.SsTable.{SsTableMetadata}
use nebula_kv.Storage.Manifest.Format.{
  manifest_prefix, max_metadata_file_bytes, serialize_current, parse_current,
}
use nebula_kv.Storage.Manifest.Tables.{ManifestSnapshot, serialize_manifest, parse_manifest}

pub record ManifestManager : Type 0 where
  pub current_generation : ℕ
  pub active_manifest_path : Bytes
  pub current : Option Bytes
  pub manifests : OrderedMap Bytes

unfoldable pub manifest_path : ℕ → Bytes
unfolding padded
manifest_path generation = manifest_prefix ++ padded generation

unfoldable pub read_file : Bytes → Result Bytes
read_file bytes = do throw_if (ltb max_metadata_file_bytes (length bytes)) runtime_error; ok bytes

abbrev pub found : Option Bytes → Result Bytes
found none = throw runtime_error
found (some bytes) = ok bytes

unfoldable pub check_tables : (Bytes → Bool) → List SsTableMetadata → Result (Unit {0})
check_tables exists [] = ok tt
check_tables exists (t ∷ ts) = do
  throw_if (not (exists t.path)) runtime_error
  check_tables exists ts

-- The file that `load` reads after CURRENT, parsed and checked. `exists` tells whether the directory
-- has a table's file.
unfoldable pub load_named :
    (Bytes → Bool) → Bytes → OrderedMap Bytes → Result (Bytes × ManifestSnapshot)
load_named exists current manifests = do
  current_bytes ← read_file current
  filename ← parse_current current_bytes
  file ← found (find filename manifests)
  bytes ← read_file file
  snapshot ← parse_manifest bytes
  throw_if (not (beq filename (manifest_path snapshot.generation))) runtime_error
  check_tables exists snapshot.tables
  ok (filename, snapshot)

unfoldable pub load : (Bytes → Bool) → Exec ManifestManager (Option ManifestSnapshot)
load exists m = elim m.current [
  | none ↦ elim m.manifests [ [] ↦ (ok none, m) | _ ∷ _ ↦ (throw runtime_error, m) ]
  | some current ↦
      resume
        (λ (found : Bytes × ManifestSnapshot) (m' : ManifestManager). (
          ok (some found.1),
          record m' { current_generation = found.1.generation; active_manifest_path = found.0 },
        ))
        (load_named exists current m.manifests, m)
]

-- The first of the two writes of `commit`.
unfoldable pub commit_manifest : ManifestSnapshot → Bytes → ManifestManager → ManifestManager
commit_manifest snapshot bytes m = record m {
  manifests = insert_or_assign (manifest_path snapshot.generation) bytes m.manifests;
}

unfoldable pub commit_current : ManifestSnapshot → Bytes → Exec ManifestManager ManifestSnapshot
commit_current snapshot bytes m =
    let path = manifest_path snapshot.generation in
    resume
      (λ (current : Bytes) (m' : ManifestManager). (
        ok snapshot,
        record m' {
          current = some current;
          current_generation = snapshot.generation;
          active_manifest_path = path;
        },
      ))
      (serialize_current path, commit_manifest snapshot bytes m)

unfoldable pub commit : List SsTableMetadata → ℕ → Exec ManifestManager ManifestSnapshot
commit tables next_file_id m =
    let snapshot : ManifestSnapshot = record {
      generation = m.current_generation + 1;
      next_file_id = next_file_id;
      tables = tables;
    } in
    if m.current_generation == word - 1
    then (throw overflow_error, m)
    else resume (commit_current snapshot) (serialize_manifest snapshot, m)
