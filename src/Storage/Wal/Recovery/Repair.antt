-- ===== src/Storage/Wal/Recovery/Repair.antt =====
-- What recovery makes of a log whose last write was cut short by a crash.
use nebula_kv.Prelude.{
  ℕ, ◌%◌, ◌≤◌, ◌<◌, ◌≡◌, refl, ap, Bool, true, none, some, List, [], ◌∷◌, ◌++◌, arith, length, take,
  take-append,
}
use nebula_kv.Prelude.Result.{ok}
use nebula_kv.Prelude.Exec.{Exec, resume, resume_returns}
use nebula_kv.Storage.MemTable.{word}
use nebula_kv.Storage.Wal.Format.{WalRecord}
use nebula_kv.Storage.Wal.Reader.{incomplete_record}
use nebula_kv.Storage.Wal.RoundTrip.{IsRecord, bytes_of}
use nebula_kv.Storage.Wal.Scan.{AllRecords, log_of, visit_all, scan-log_of, scan_torn}
use nebula_kv.Storage.Wal.Recovery.{
  KeyValueStore, RecoveryReport, empty_report, count_record, apply_record, visit, recover,
}

abbrev pub tally : List WalRecord → RecoveryReport → RecoveryReport
tally [] report = report
tally (r ∷ rs) report = tally rs (count_record r.operation report)

module _ {D : Type 0} (store : KeyValueStore D) where
  -- The calls of the store alone.
  unfoldable pub apply_all : List WalRecord → Exec D (Unit {0})
  apply_all [] d = (ok tt, d)
  apply_all (r ∷ rs) d = resume (λ _. apply_all rs) (apply_record store r d)

  visit_all-apply_all :
      (rs : List WalRecord) (d d' : D) (report : RecoveryReport)
      → apply_all rs d ≡ (ok tt, d')
      → visit_all (visit store) rs (d, report) ≡ (ok tt, (d', tally rs report))
  unfolding visit_all apply_all visit
  visit_all-apply_all [] d d' report h = ap (λ x. (ok tt, (x.1, report))) h
  visit_all-apply_all (r ∷ rs) d d' report h =
      let (u, d1, p, q) = resume_returns (λ _. apply_all rs) (apply_record store r d) tt d' h in
      rw (visit_all, visit, p) (visit_all-apply_all rs d1 d' (count_record r.operation report) q)

  -- Recovery of a log of valid records leaves the file as it is, reports no issue, and leaves the
  -- store as after the calls for these records alone, provided none of them threw.
  pub recover-log_of :
      (rs : List WalRecord) (d d' : D) (truncate_invalid_tail : Bool)
      → AllRecords rs
      → apply_all rs d ≡ (ok tt, d')
      → recover store truncate_invalid_tail (d, log_of rs) ≡ (
        ok (record (tally rs empty_report) {
          valid_wal_bytes = length (log_of rs) % word;
          issue = none;
        }),
        (d', log_of rs),
      )
  unfolding recover
  recover-log_of rs d d' t v h =
      rw
        (
          scan-log_of (visit store) rs (d, empty_report) v,
          visit_all-apply_all rs d d' empty_report h,
        )
        refl

  -- Recovery of a log of valid records whose last write was cut short anywhere inside it cuts the
  -- file back to the whole records, leaves the store as after the calls for these records alone,
  -- provided none of them threw and the file is shorter than 2^64 bytes, and names the incomplete
  -- record.
  pub recover_torn :
      (rs : List WalRecord) (r : WalRecord) (n : ℕ) (d d' : D)
      → AllRecords rs
      → IsRecord r
      → 1 ≤ n
      → n < length (bytes_of r)
      → length (log_of rs) < word
      → apply_all rs d ≡ (ok tt, d')
      → recover store true (d, log_of rs ++ take n (bytes_of r)) ≡ (
        ok (record (tally rs empty_report) {
          valid_wal_bytes = length (log_of rs);
          issue = some (record { code = incomplete_record; byte_offset = length (log_of rs) });
          invalid_tail_truncated = true;
        }),
        (d', log_of rs),
      )
  unfolding recover
  recover_torn rs r n d d' v w l u fits h =
      let size : length (log_of rs) % word ≡ length (log_of rs) = omega (arith, fits) in
      rw
        (
          scan_torn (visit store) rs r n (d, empty_report) v w l u,
          visit_all-apply_all rs d d' empty_report h,
          size,
          take-append (log_of rs) (take n (bytes_of r)),
        )
        refl
