-- ===== src/Storage/SsTable.antt =====
-- The tables on disk: include/nebulakv/sstable_level.hpp, include/nebulakv/sstable_metadata.hpp, and what
-- the manager calls of the reader and the writer (include/nebulakv/sstable_reader.hpp,
-- include/nebulakv/sstable_writer.hpp). The files of a store lie in one directory, so a path is the name
-- of a file in it.
pub mod Manager
use nebula_kv.Prelude.{ℕ, Bytes, Option}
use nebula_kv.Prelude.Result.{Result}
use nebula_kv.Prelude.OrderedMap.{OrderedMap}
use nebula_kv.Storage.MemTable.{Entry}

pub data SsTableLevel : Type 0 where
  level0 level1 : SsTableLevel

pub record SsTableMetadata : Type 0 where
  pub path : Bytes
  pub generation : ℕ
  pub entry_count : ℕ
  pub block_count : ℕ
  pub min_sequence_number : ℕ
  pub max_sequence_number : ℕ
  pub smallest_key : Bytes
  pub largest_key : Bytes
  pub level : SsTableLevel

pub record SsTableWriterOptions : Type 0 where
  pub output_path : Bytes
  pub target_data_block_bytes : ℕ
  pub generation : ℕ

-- The readers of table files, over the type of a reader. `write` is `SSTableWriter::write` and the reader
-- that is opened on the file it wrote, with the Bloom filter of the same entries.
pub record TableFiles (R : Type 0) : Type 0 where
  pub metadata : R → SsTableMetadata
  pub get : Bytes → R → Result (Option Entry)
  pub read_all : R → Result (OrderedMap Entry)
  pub write : OrderedMap Entry → SsTableWriterOptions → Result (SsTableMetadata × R)
