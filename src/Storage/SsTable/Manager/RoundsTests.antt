-- ===== src/Storage/SsTable/Manager/RoundsTests.antt =====
-- A flush at the example manager, whose first round another thread disturbs.
use nebula_kv.Prelude.{◌+◌, [], ◌∷◌, false, arith}
use nebula_kv.Prelude.Members.{Among}
use nebula_kv.Storage.MemTable.{Entry}
use nebula_kv.Storage.SsTable.Manager.{SsTableManager}
use nebula_kv.Storage.SsTable.Manager.Flush.{publish_rounds}
use nebula_kv.Storage.SsTable.Manager.Rounds.{
  ShowsInVersion, found_by, Settled, publish_rounds-sort_tables,
}
use nebula_kv.Storage.SsTable.Manager.Example.{File, files, key, tombstone, table, manager}

abbrev newest : Entry
newest = record { value = 8 ∷ []; sequence_number = 3; deleted = false }

-- A compaction that leaves the tombstone alone.
abbrev compacted : SsTableManager File → SsTableManager File
compacted m = record m { readers = table tombstone ∷ []; state_version = m.state_version + 1 }

compacted-ShowsInVersion : ShowsInVersion compacted
compacted-ShowsInVersion m e = absurd (omega (arith, e))

publish_rounds-sort_tables_example :
    (n : SsTableManager File) × Among n (found_by (compacted ∷ []) manager)
    × Settled files
        ((key, newest) ∷ [])
        (table newest)
        n
        (publish_rounds files ((key, newest) ∷ []) (table newest) (compacted ∷ []) manager)
publish_rounds-sort_tables_example =
    publish_rounds-sort_tables files ((key, newest) ∷ []) (table newest) (compacted ∷ []) manager
      (compacted-ShowsInVersion, tt)
