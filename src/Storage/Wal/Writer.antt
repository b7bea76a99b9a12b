-- ===== src/Storage/Wal/Writer.antt =====
-- `WalWriter` of src/wal_writer.cpp. The mutex makes each method one step. Writing and `fsync` are taken
-- to succeed, so no background flush fails; the flush thread does what `flush` does.
use nebula_kv.Prelude.{
  ℕ, ◌+◌, ◌%◌, ◌≡◌, refl, sym, ◌∙◌, Bytes, Bool, true, false, List, [], ◌∷◌, ◌++◌, length,
  if◌then◌else◌,
}
use mathlib.Core.List.{append_assoc, append-nil}
use nebula_kv.Prelude.Result.{Result, ok, ◌>>=◌}
use nebula_kv.Storage.MemTable.{word}
use nebula_kv.Storage.Wal.Format.{WalRecord, serialize}
use nebula_kv.Storage.Wal.RoundTrip.{bytes_of, serialize-IsRecord}
use nebula_kv.Storage.Wal.Scan.{AllRecords, log_of}

pub data DurabilityMode : Type 0 where
  none_mode batch_mode sync_mode : DurabilityMode

-- `file` is what a reader sees, `durable` what the last `fsync` left on the device.
pub record WalWriter : Type 0 where
  pub durability_mode : DurabilityMode
  pub file : Bytes
  pub durable : Bytes
  pub bytes_appended : ℕ
  pub dirty : Bool

unfoldable pub flush : WalWriter → WalWriter
flush w = if w.dirty then record w { durable = w.file; dirty = false } else w

abbrev pub flush_if_sync : DurabilityMode → WalWriter → WalWriter
flush_if_sync sync_mode w = flush w
flush_if_sync _ w = w

unfoldable pub append : WalRecord → WalWriter → Result WalWriter
unfolding flush
append r w = do
  encoded ← serialize r
  ok (
      flush_if_sync w.durability_mode (record w {
        file = w.file ++ encoded;
        bytes_appended = (w.bytes_appended + length encoded) % word;
        dirty = true;
      }))

unfoldable pub reset : WalWriter → WalWriter
reset w = record w { file = []; durable = []; bytes_appended = 0; dirty = false }

unfoldable pub append_all : List WalRecord → WalWriter → Result WalWriter
append_all [] w = ok w
append_all (r ∷ rs) w = do w' ← append r w; append_all rs w'

-- A writer in the sync mode that has its whole file on the device.
pub record IsFlushed (w : WalWriter) : Type 0 where
  pub synced : w.durability_mode ≡ sync_mode
  pub durable : w.durable ≡ w.file

append-IsFlushed :
    (r : WalRecord) (w : WalWriter)
    → w.durability_mode ≡ sync_mode
    → serialize r ≡ ok (bytes_of r)
    → (w' : WalWriter) × (append r w ≡ ok w') × IsFlushed w' × (w'.file ≡ w.file ++ bytes_of r)
unfolding append flush
append-IsFlushed r w m s = (
  record w {
    file = w.file ++ bytes_of r;
    durable = w.file ++ bytes_of r;
    bytes_appended = (w.bytes_appended + length (bytes_of r)) % word;
    dirty = false;
  },
  rw (s, m) refl,
  record { synced = m; durable = refl },
  refl,
)

-- In the sync mode a writer whose file is on the device accepts valid records, and when append
-- returns they are on the device, at the end of the file and in order.
pub append_all-IsFlushed :
    (rs : List WalRecord) (w : WalWriter)
    → AllRecords rs
    → IsFlushed w
    → (w' : WalWriter) × (append_all rs w ≡ ok w') × IsFlushed w' × (w'.file ≡ w.file ++ log_of rs)
unfolding append_all log_of
append_all-IsFlushed [] w v f = (w, refl, f, sym (append-nil w.file))
append_all-IsFlushed (r ∷ rs) w v f =
    let (w1, p, f1, e) = append-IsFlushed r w f.synced (serialize-IsRecord r v.0) in
    let (w2, q, f2, g) = append_all-IsFlushed rs w1 v.1 f1 in
    (w2, rw p q, f2, g ∙ rw e (append_assoc w.file (bytes_of r) (log_of rs)))
