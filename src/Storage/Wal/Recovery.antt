-- ===== src/Storage/Wal/Recovery.antt =====
-- `RecoveryManager::recover` of src/recovery_manager.cpp, over any store with the interface of
-- include/nebulakv/key_value_store.hpp. The diagnostics are only printed.
pub mod Repair
use nebula_kv.Prelude.{
  ℕ, ◌+◌, ◌%◌, Bytes, Bool, true, false, Option, none, some, take, if◌then◌else◌,
}
use nebula_kv.Prelude.Result.{Result, ok, throw}
use nebula_kv.Prelude.Exec.{Exec, resume}
use nebula_kv.Storage.MemTable.{word}
use nebula_kv.Storage.Wal.Format.{WalRecord, OperationType, put, delete}
use nebula_kv.Storage.Wal.Reader.{WalReadIssueCode, io_error, WalReadIssue, WalScanResult, scan}

-- The methods of a store that recovery calls, over the type of its state.
pub record KeyValueStore (D : Type 0) : Type 0 where
  pub put : Bytes → Bytes → Exec D (Unit {0})
  pub remove : Bytes → Exec D Bool

pub record RecoveryReport : Type 0 where
  pub records_applied : ℕ
  pub puts_applied : ℕ
  pub deletes_applied : ℕ
  pub valid_wal_bytes : ℕ
  pub issue : Option WalReadIssue
  pub invalid_tail_truncated : Bool

abbrev pub empty_report : RecoveryReport
empty_report = record {
  records_applied = 0;
  puts_applied = 0;
  deletes_applied = 0;
  valid_wal_bytes = 0;
  issue = none;
  invalid_tail_truncated = false;
}

-- The counters of `std::size_t` that a record moves.
abbrev pub count_record : OperationType → RecoveryReport → RecoveryReport
count_record put report = record report {
  puts_applied = (report.puts_applied + 1) % word;
  records_applied = (report.records_applied + 1) % word;
}
count_record delete report = record report {
  deletes_applied = (report.deletes_applied + 1) % word;
  records_applied = (report.records_applied + 1) % word;
}

module _ {D : Type 0} (store : KeyValueStore D) where
  unfoldable pub apply_record : WalRecord → Exec D (Unit {0})
  apply_record r d = elim r.operation [
    | put ↦ store.put r.key r.value d
    | delete ↦ resume (λ _ d'. (ok tt, d')) (store.remove r.key d)
  ]

  abbrev pub visited :
      OperationType
      → RecoveryReport
      → Result (Unit {0}) × D
      → Result (Unit {0}) × (D × RecoveryReport)
  visited operation report (ok _, d) = (ok tt, (d, count_record operation report))
  visited operation report (throw e, d) = (throw e, (d, report))

  -- The lambda that `recover` gives to the scan, which keeps the store and the report.
  unfoldable pub visit : WalRecord → Exec (D × RecoveryReport) (Unit {0})
  unfolding apply_record
  visit r (d, report) = visited r.operation report (apply_record r d)

  -- The issues that truncation mends.
  abbrev pub is_mended : Option WalReadIssue → Bool
  is_mended none = false
  is_mended (some i) = elim i.code [ io_error ↦ false | _ ↦ true ]

  -- After the scan: the report, and the file that is left.
  abbrev pub finish :
      Bool
      → Bytes
      → Result WalScanResult × (D × RecoveryReport)
      → Result RecoveryReport × (D × Bytes)
  finish truncate_invalid_tail file (throw e, (d, report)) = (throw e, (d, file))
  finish truncate_invalid_tail file (ok s, (d, report0)) =
      let report = record report0 { valid_wal_bytes = s.valid_bytes; issue = s.issue } in
      if is_mended s.issue
      then (if truncate_invalid_tail
          then (ok (record report { invalid_tail_truncated = true }), (d, take s.valid_bytes file))
          else (ok report, (d, file)))
      else (ok report, (d, file))

  -- A missing file reads as an empty one.
  unfoldable pub recover : Bool → Exec (D × Bytes) RecoveryReport
  unfolding visit
  recover truncate_invalid_tail (d, file) =
      finish truncate_invalid_tail file (scan visit file (d, empty_report))
