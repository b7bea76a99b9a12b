-- ===== src/Storage/Wal/Tests.antt =====
-- A log of two records, over a store that is an ordered map.
use nebula_kv.Prelude.{
  ◌≡◌, refl, Bytes, true, some, [], ◌∷◌, ◌++◌, arith, length, take, beq, blt, none, ◌%◌, false,
}
use nebula_kv.Prelude.Result.{ok}
use nebula_kv.Prelude.OrderedMap.{OrderedMap, insert_or_assign, erase}
use nebula_kv.Storage.Validation.{IsKey}
use nebula_kv.Storage.MemTable.{word}
use nebula_kv.Storage.Checksum.{crc32}
use nebula_kv.Storage.Wal.Format.{WalRecord, put, delete, serialize, header, uint16_le, uint32_le}
use nebula_kv.Storage.Wal.Reader.{decoded, incomplete_record, read_record}
use nebula_kv.Storage.Wal.RoundTrip.{IsRecord, bytes_of, serialize-read_record, length-bytes_of}
use nebula_kv.Storage.Wal.Scan.{log_of}
use nebula_kv.Storage.Wal.Writer.{WalWriter, sync_mode, IsFlushed, append_all, append_all-IsFlushed}
use nebula_kv.Storage.Wal.Recovery.{KeyValueStore, empty_report, recover, apply_record}
use nebula_kv.Storage.Wal.Recovery.Repair.{tally, apply_all, recover-log_of, recover_torn}

-- The check value of CRC-32.
crc32_check :
    crc32 (b'1' ∷ b'2' ∷ b'3' ∷ b'4' ∷ b'5' ∷ b'6' ∷ b'7' ∷ b'8' ∷ b'9' ∷ []) ≡ 3_421_780_262
unfolding crc32
crc32_check = refl

abbrev map_store : KeyValueStore (OrderedMap Bytes)
map_store = record {
  put = λ key value m. (ok tt, insert_or_assign key value m);
  remove = λ key m. (ok true, erase key m);
}

abbrev key : Bytes
key = b'k' ∷ []

abbrev written : WalRecord
written = record { operation = put; key = key; value = 1 ∷ 2 ∷ [] }

abbrev deleted : WalRecord
deleted = record { operation = delete; key = key; value = [] }

key-IsKey : IsKey key
key-IsKey = record { not_empty = λ e. cc; fits = omega arith }

written-IsRecord : IsRecord written
written-IsRecord = record { key = key-IsKey; value = omega arith; delete = λ e. cc }

deleted-IsRecord : IsRecord deleted
deleted-IsRecord = record { key = key-IsKey; value = omega arith; delete = λ e. refl }

serialize-read_record_example :
    (bytes : Bytes) × (serialize written ≡ ok bytes)
    × (read_record (bytes ++ 7 ∷ []) ≡ ok (decoded written (length bytes) (7 ∷ [])))
serialize-read_record_example = serialize-read_record written (7 ∷ []) written-IsRecord

log-fits : length (log_of (written ∷ [])) ≡ 23
unfolding log_of header uint16_le uint32_le
log-fits = refl

-- The second write was cut short in its header.
recover_torn_example :
    recover map_store true ([], log_of (written ∷ []) ++ take 9 (bytes_of deleted)) ≡ (
      ok (record (tally (written ∷ []) empty_report) {
        valid_wal_bytes = length (log_of (written ∷ []));
        issue =
            some
              (record { code = incomplete_record; byte_offset = length (log_of (written ∷ [])) });
        invalid_tail_truncated = true;
      }),
      ((key, 1 ∷ 2 ∷ []) ∷ [], log_of (written ∷ [])),
    )
unfolding apply_all apply_record insert_or_assign
recover_torn_example =
    recover_torn map_store (written ∷ []) deleted 9 [] ((key, 1 ∷ 2 ∷ []) ∷ [])
      (written-IsRecord, tt) deleted-IsRecord (omega arith) (omega (arith, length-bytes_of deleted))
      (omega (arith, log-fits)) refl

recover-log_of_example : recover map_store true ([], log_of (written ∷ deleted ∷ [])) ≡ (
  ok (record (tally (written ∷ deleted ∷ []) empty_report) {
    valid_wal_bytes = length (log_of (written ∷ deleted ∷ [])) % word;
    issue = none;
  }),
  ([], log_of (written ∷ deleted ∷ [])),
)
unfolding apply_all apply_record insert_or_assign erase beq blt
recover-log_of_example =
    recover-log_of map_store (written ∷ deleted ∷ []) [] [] true
      (written-IsRecord, (deleted-IsRecord, tt)) refl

abbrev writer : WalWriter
writer = record {
  durability_mode = sync_mode;
  file = [];
  durable = [];
  bytes_appended = 0;
  dirty = false;
}

append_all-IsFlushed_example :
    (w : WalWriter) × (append_all (written ∷ deleted ∷ []) writer ≡ ok w)
    × IsFlushed w
    × (w.file ≡ [] ++ log_of (written ∷ deleted ∷ []))
append_all-IsFlushed_example =
    append_all-IsFlushed (written ∷ deleted ∷ []) writer (written-IsRecord, (deleted-IsRecord, tt))
      (record { synced = refl; durable = refl })
