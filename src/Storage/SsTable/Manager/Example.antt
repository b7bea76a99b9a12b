-- ===== src/Storage/SsTable/Manager/Example.antt =====
-- Tables whose files are held in memory, and a manager with a value and a tombstone over it.
use nebula_kv.Prelude.{Bytes, true, false, none, [], ◌∷◌, length}
use nebula_kv.Prelude.Result.{ok, ◌>>◌}
use nebula_kv.Prelude.OrderedMap.{OrderedMap, find}
use nebula_kv.Storage.Validation.{validate_key}
use nebula_kv.Storage.MemTable.{Entry}
use nebula_kv.Storage.SsTable.{SsTableMetadata, SsTableWriterOptions, TableFiles, level0}
use nebula_kv.Storage.SsTable.Manager.{ManagedTable, SsTableManager, table_path, max_sequence_of}

abbrev pub key : Bytes
key = b'k' ∷ []

pub record File : Type 0 where
  pub described : SsTableMetadata
  pub entries : OrderedMap Entry

abbrev pub describe : OrderedMap Entry → SsTableWriterOptions → SsTableMetadata
describe es o = record {
  path = o.output_path;
  generation = o.generation;
  entry_count = length es;
  block_count = 1;
  min_sequence_number = 1;
  max_sequence_number = max_sequence_of es;
  smallest_key = key;
  largest_key = key;
  level = level0;
}

abbrev pub files : TableFiles File
files = record {
  metadata = λ f. f.described;
  get = λ k f. (validate_key k >> ok (find k f.entries));
  read_all = λ f. ok f.entries;
  write = λ es o. ok (describe es o, record { described = describe es o; entries = es });
}

abbrev pub value : Entry
value = record { value = 7 ∷ []; sequence_number = 1; deleted = false }

abbrev pub tombstone : Entry
tombstone = record { value = []; sequence_number = 2; deleted = true }

abbrev pub options : Entry → SsTableWriterOptions
options e = record {
  output_path = table_path level0 e.sequence_number 0 e.sequence_number;
  target_data_block_bytes = 100;
  generation = 0;
}

abbrev pub table : Entry → ManagedTable File
table e =
    let es = (key, e) ∷ [] in
    record { reader = record { described = describe es (options e); entries = es }; level = level0 }

abbrev pub manager : SsTableManager File
manager = record {
  target_data_block_bytes = 100;
  level0_compaction_trigger = 2;
  level0_compaction_max_tables = 2;
  manifest = record {
    current_generation = 0;
    active_manifest_path = [];
    current = none;
    manifests = [];
  };
  readers = table tombstone ∷ table value ∷ [];
  live_key_count = 0;
  max_sequence_number = 2;
  next_generation = 1;
  next_file_id = 3;
  compaction_statistics = record {
    runs = 0;
    input_tables = 0;
    output_tables = 0;
    input_entries = 0;
    output_entries = 0;
    tombstones_dropped = 0;
  };
  state_version = 0;
}
