-- ===== src/Storage/Wal/Scan.antt =====
-- Scanning a file that valid records were appended to, also where the last write was cut short.
use nebula_kv.Prelude.{
  ℕ, zero, suc, ◌+◌, ◌-◌, ◌%◌, ◌≤◌, ◌<◌, ◌≡◌, refl, sym, ◌∙◌, ap, Bytes, Option, none, some, List,
  [], ◌∷◌, ◌++◌, arith, length, length-append, take,
}
use mathlib.Core.List.{append_assoc, append-nil}
use nebula_kv.Prelude.Result.{Result, ok, throw}
use nebula_kv.Prelude.Exec.{Exec, resume, resume_ext}
use nebula_kv.Storage.MemTable.{word}
use nebula_kv.Storage.Wal.Format.{WalRecord}
use nebula_kv.Storage.Wal.Reader.{
  WalScanResult, WalReadIssue, incomplete_record, read_record, advance, scan_loop, scan,
}
use nebula_kv.Storage.Wal.RoundTrip.{
  IsRecord, bytes_of, read_record-bytes_of, read_record_torn, length-bytes_of,
}

abbrev pub AllRecords : List WalRecord → Type 0
AllRecords [] = Unit
AllRecords (r ∷ rs) = IsRecord r × AllRecords rs

-- The file after the records were appended one by one.
unfoldable pub log_of : List WalRecord → Bytes
log_of [] = []
log_of (r ∷ rs) = bytes_of r ++ log_of rs

-- What a scan reports after some records, before it looks further.
abbrev pub scanned : List WalRecord → Option WalReadIssue → WalScanResult
scanned rs issue = record {
  records_read = length rs % word;
  valid_bytes = length (log_of rs) % word;
  issue = issue;
}

unfoldable after : List WalRecord → WalScanResult → WalScanResult
after [] res = res
after (r ∷ rs) res = after rs (advance (length (bytes_of r)) res)

after_closed :
    (rs : List WalRecord) (a b : ℕ) (i : Option WalReadIssue)
    → after rs (record { records_read = a % word; valid_bytes = b % word; issue = i }) ≡ record {
      records_read = (a + length rs) % word;
      valid_bytes = (b + length (log_of rs)) % word;
      issue = i;
    }
unfolding after log_of
after_closed [] a b i = ground arith
after_closed (r ∷ rs) a b i =
    let size = length (bytes_of r) in
    after_closed rs (a % word + 1) (b % word + size) i
    ∙ rw
        (
          rounds a (length rs),
          bytes b size (length (log_of rs)),
          length-append (bytes_of r) (log_of rs),
        )
        refl
  where
    rounds : (m n : ℕ) → (m % word + 1 + n) % word ≡ (m + suc n) % word
    rounds m n = omega arith

    bytes : (m s n : ℕ) → (m % word + s + n) % word ≡ (m + (s + n)) % word
    bytes m s n = omega arith

after-scanned :
    (rs : List WalRecord)
    → after rs (record { records_read = 0; valid_bytes = 0; issue = none }) ≡ scanned rs none
after-scanned rs =
    after_closed rs 0 0 none ∙ rw (none_before (length rs), none_before (length (log_of rs))) refl
  where
    none_before : (n : ℕ) → 0 + n ≡ n
    none_before n = omega arith

length-log_of : (rs : List WalRecord) → length rs ≤ length (log_of rs)
unfolding log_of
length-log_of [] = omega arith
length-log_of (r ∷ rs) =
    omega (arith, length-append (bytes_of r) (log_of rs), length-bytes_of r, length-log_of rs)

module _ {D : Type 0} (visitor : WalRecord → Exec D (Unit {0})) where
  -- The calls of the visitor alone.
  unfoldable pub visit_all : List WalRecord → Exec D (Unit {0})
  visit_all [] d = (ok tt, d)
  visit_all (r ∷ rs) d = resume (λ _. visit_all rs) (visitor r d)

  then_visit :
      (rs : List WalRecord) (f g : Exec D WalScanResult) (x : Result (Unit {0}) × D)
      → ((d : D) → f d ≡ resume (λ _. g) (visit_all rs d))
      → resume (λ _. f) x ≡ resume (λ _. g) (resume (λ _. visit_all rs) x)
  then_visit rs f g (throw e, d) h = refl
  then_visit rs f g (ok _, d) h = h d

  scan_loop-log_of :
      (rs : List WalRecord) (k fuel : ℕ) (tail : Bytes) (res : WalScanResult) (d : D)
      → AllRecords rs
      → k ≡ length rs + fuel
      → scan_loop visitor k (log_of rs ++ tail) res d
        ≡ resume (λ _. scan_loop visitor fuel tail (after rs res)) (visit_all rs d)
  unfolding scan_loop visit_all log_of after
  scan_loop-log_of [] k fuel tail res d v h =
      ap (λ j. scan_loop visitor j tail res d) {x = k} {y = fuel} (omega (arith, h))
  scan_loop-log_of (r ∷ rs) zero fuel tail res d v h = absurd (omega (arith, h))
  scan_loop-log_of (r ∷ rs) (suc k) fuel tail res d v h =
      rw
        (
          append_assoc (bytes_of r) (log_of rs) tail,
          scan_loop,
          read_record-bytes_of r (log_of rs ++ tail) v.0,
        )
        (then_visit rs _ _ (visitor r d)
          λ d'. scan_loop-log_of rs k fuel tail _ d' v.1 (omega (arith, h)))

  -- A scan passes over the whole records and goes on with what is left.
  scan-after :
      (rs : List WalRecord) (tail : Bytes) (d : D)
      → AllRecords rs
      → scan visitor (log_of rs ++ tail) d
        ≡ resume
            (λ _.
              scan_loop visitor
                (suc (length (log_of rs ++ tail) - length rs))
                tail
                (scanned rs none))
            (visit_all rs d)
  unfolding scan
  scan-after rs tail d v =
      let k = length (log_of rs ++ tail) in
      rw (← after-scanned rs) (
        scan_loop-log_of rs (suc k) (suc (k - length rs)) tail _ d v
          (omega (arith, length-append (log_of rs) tail, length-log_of rs)))

  end_rounds :
      (fuel : ℕ) (res : WalScanResult) (d : D) → scan_loop visitor (suc fuel) [] res d ≡ (ok res, d)
  unfolding scan_loop read_record
  end_rounds fuel res d = refl

  -- A file of whole records is read to its end, and the visitor sees each of them once, in order.
  pub scan-log_of :
      (rs : List WalRecord) (d : D)
      → AllRecords rs
      → scan visitor (log_of rs) d ≡ resume (λ _ d'. (ok (scanned rs none), d')) (visit_all rs d)
  scan-log_of rs d v =
      ap (λ file. scan visitor file d) (sym (append-nil (log_of rs)))
      ∙ scan-after rs [] d v
      ∙ resume_ext _ _ (visit_all rs d) (λ _ d'. end_rounds _ (scanned rs none) d')

  -- Where the last write was cut short, the visitor sees the records before it, each once and in order,
  -- and the scan reports an incomplete record at the end of these.
  pub scan_torn :
      (rs : List WalRecord) (r : WalRecord) (n : ℕ) (d : D)
      → AllRecords rs
      → IsRecord r
      → 1 ≤ n
      → n < length (bytes_of r)
      → scan visitor (log_of rs ++ take n (bytes_of r)) d
        ≡ resume
            (λ _ d'. (
              ok (
                  scanned rs (
                    some (record {
                      code = incomplete_record;
                      byte_offset = length (log_of rs) % word;
                    }))),
              d',
            ))
            (visit_all rs d)
  unfolding scan_loop
  scan_torn rs r n d v w h l =
      scan-after rs (take n (bytes_of r)) d v
      ∙ resume_ext _ _ (visit_all rs d) (λ _ d'. rw (scan_loop, read_record_torn r n w h l) refl)
