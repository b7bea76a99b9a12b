-- ===== src/Storage/Wal/RoundTrip.antt =====
-- A record reads back as it was written, and a record that was cut short is seen as such.
use mathlib.Core.List.{append_assoc}
use nebula_kv.Prelude.{
  ℕ, ◌+◌, ◌-◌, ◌*◌, ◌/◌, ◌%◌, ◌≤◌, ◌<◌, ◌≡◌, refl, ◌∙◌, ap, Bytes, true, false, [], ◌∷◌, ◌++◌,
  arith, length, length-append, length-take, length-drop, take, drop, take-append, drop-append, beq,
  ltb, ◌==◌, take_past, Bool-cases, inl, inr,
}
use nebula_kv.Prelude.Result.{ok}
use nebula_kv.Storage.Validation.{
  IsKey, IsValue, max_key_size, max_value_size, validate_key-IsKey, validate_value-IsValue,
}
use nebula_kv.Storage.Checksum.{crc32, word32, crc32-lt}
use nebula_kv.Storage.Wal.Format.{
  OperationType, put, delete, WalRecord, header, uint16_le, uint32_le, read_uint16_le,
  read_uint32_le, serialize, check_operation,
}
use nebula_kv.Storage.Wal.Reader.{
  failed, decoded, incomplete_record, is_delete, read_record, read_version, read_operation,
  read_sizes, read_payload, read_checksum,
}

-- The records that the format holds.
pub record IsRecord (r : WalRecord) : Type 0 where
  pub key : IsKey r.key
  pub value : IsValue r.value
  pub delete : is_delete r.operation ≡ true → r.value ≡ []

abbrev pub payload_of : WalRecord → Bytes
payload_of r = r.key ++ r.value

abbrev pub header_of : WalRecord → Bytes
header_of r = header r.operation (length r.key) (length r.value)

abbrev pub checksum_of : WalRecord → Bytes
checksum_of r = uint32_le (crc32 (header_of r ++ payload_of r))

-- The header, the payload and the checksum.
abbrev pub bytes_of : WalRecord → Bytes
bytes_of r = header_of r ++ (payload_of r ++ checksum_of r)

below_word32 : (n : ℕ) → n < word32 → ltb (word32 - 1) n ≡ false
below_word32 n h = ground arith

check_operation_ok :
    (operation : OperationType) (value : Bytes)
    → IsValue value
    → (is_delete operation ≡ true → value ≡ [])
    → check_operation operation value ≡ ok tt
unfolding check_operation
check_operation_ok put value v d = validate_value-IsValue value v
check_operation_ok delete [] v d = refl
check_operation_ok delete (b ∷ bs) v d = absurd (cc (d refl))

-- A valid record is written as its header, its payload and the checksum of both.
pub serialize-IsRecord : (r : WalRecord) → IsRecord r → serialize r ≡ ok (bytes_of r)
unfolding serialize
serialize-IsRecord r v =
    let fits : length r.key % word32 ≡ length r.key = omega (arith, v.key.fits) in
    let fits' : length r.value % word32 ≡ length r.value = omega (arith, v.value) in
    rw
      (
        validate_key-IsKey r.key v.key,
        check_operation_ok r.operation r.value v.value v.delete,
        fits,
        fits',
        below_word32 (length r.key) (omega (arith, v.key.fits)),
        below_word32 (length r.value) (omega (arith, v.value)),
      )
      (ap (λ b. ok (b ++ uint32_le (crc32 b))) (append_assoc (header_of r) r.key r.value)
        ∙ ap ok (append_assoc (header_of r) (payload_of r) (checksum_of r)))

pub length-bytes_of : (r : WalRecord) → length (bytes_of r) ≡ 20 + length r.key + length r.value
unfolding header uint16_le uint32_le
length-bytes_of r =
    omega (arith, length-append r.key r.value, length-append (r.key ++ r.value) (checksum_of r))

digits :
    (v : ℕ)
    → v < word32
    → v % 256 + v / 256 % 256 * 256 + v / 65_536 % 256 * 65_536 + v / 16_777_216 % 256 * 16_777_216
      ≡ v
digits v h = omega arith

-- A whole header with fitting sizes is accepted.
read_record-header :
    (operation : OperationType) (ks vs : ℕ) (rest : Bytes)
    → 1 ≤ ks
    → ks ≤ max_key_size
    → vs ≤ max_value_size
    → (is_delete operation ≡ true → vs ≡ 0)
    → read_record (header operation ks vs ++ rest)
      ≡ read_payload operation (header operation ks vs) ks vs rest
unfolding read_record read_version read_operation read_sizes header uint16_le uint32_le
    read_uint16_le read_uint32_le beq
read_record-header put ks vs rest k1 k2 v d =
    rw (digits ks (omega (arith, k2)), digits vs (omega (arith, v))) (ground arith)
read_record-header delete ks vs rest k1 k2 v d =
    rw (digits ks (omega (arith, k2)), digits vs (omega (arith, v))) (ground (arith, d refl))

read_checksum_back :
    (r : WalRecord) (tail : Bytes)
    → read_checksum r.operation (header_of r) (length r.key) (payload_of r) (checksum_of r ++ tail)
      ≡ ok (decoded r (length (bytes_of r)) tail)
unfolding read_checksum uint32_le read_uint32_le
read_checksum_back r tail =
    rw
      (
        digits (crc32 (header_of r ++ payload_of r)) (crc32-lt _),
        take-append r.key r.value,
        drop-append r.key r.value,
      )
      (ground (arith, length-bytes_of r, length-append r.key r.value))

beq_length : (bs : Bytes) → (length bs == length bs) ≡ true
beq_length bs = ground arith

-- The payload and the checksum behind an accepted header.
read_payload_back :
    (r : WalRecord) (tail : Bytes)
    → read_payload r.operation
        (header_of r)
        (length r.key)
        (length r.value)
        ((payload_of r ++ checksum_of r) ++ tail)
      ≡ ok (decoded r (length (bytes_of r)) tail)
unfolding read_payload
read_payload_back r tail =
    let p = payload_of r in
    let c = checksum_of r in
    rw
      (
        ← length-append r.key r.value,
        append_assoc p c tail,
        take-append p (c ++ tail),
        drop-append p (c ++ tail),
        beq_length p,
      )
      (read_checksum_back r tail)

-- Where the payload or the checksum is cut short, the record is incomplete.
read_payload_torn :
    (operation : OperationType) (h rest : Bytes) (ks vs : ℕ)
    → length rest < ks + vs + 4
    → read_payload operation h ks vs rest ≡ ok (failed incomplete_record)
unfolding read_payload read_checksum
read_payload_torn operation h rest ks vs l = ground (
  arith,
  length-take (ks + vs) rest,
  length-drop (ks + vs) rest,
  length-take 4 (drop (ks + vs) rest),
)

length-IsKey : (key : Bytes) → IsKey key → 1 ≤ length key
length-IsKey [] k = absurd (k.not_empty refl)
length-IsKey (b ∷ bs) k = omega arith

-- The header of a valid record is accepted, whatever follows it.
read_record-header_of :
    (r : WalRecord) (rest : Bytes)
    → IsRecord r
    → read_record (header_of r ++ rest)
      ≡ read_payload r.operation (header_of r) (length r.key) (length r.value) rest
read_record-header_of r rest v =
    read_record-header r.operation (length r.key) (length r.value) rest (length-IsKey r.key v.key)
      v.key.fits v.value (λ e. ap length (v.delete e))

-- The bytes of a valid record read back as the record, whatever follows them.
pub read_record-bytes_of :
    (r : WalRecord) (tail : Bytes)
    → IsRecord r
    → read_record (bytes_of r ++ tail) ≡ ok (decoded r (length (bytes_of r)) tail)
read_record-bytes_of r tail v =
    ap read_record (append_assoc (header_of r) (payload_of r ++ checksum_of r) tail)
    ∙ read_record-header_of r ((payload_of r ++ checksum_of r) ++ tail) v
    ∙ read_payload_back r tail

read_record_short :
    (file : Bytes)
    → 1 ≤ length file
    → length file < 16
    → read_record file ≡ ok (failed incomplete_record)
unfolding read_record
read_record_short file h l = ground (arith, length-take 16 file)

length-header : (operation : OperationType) (ks vs : ℕ) → length (header operation ks vs) ≡ 16
unfolding header uint16_le uint32_le
length-header operation ks vs = refl

-- What is left of the bytes of a valid record after a write that was cut short is incomplete.
pub read_record_torn :
    (r : WalRecord) (n : ℕ)
    → IsRecord r
    → 1 ≤ n
    → n < length (bytes_of r)
    → read_record (take n (bytes_of r)) ≡ ok (failed incomplete_record)
read_record_torn r n v h l = elim (Bool-cases (ltb n 16)) [
  | inl p ↦
      let e = length-take n (bytes_of r) in
      read_record_short (take n (bytes_of r)) (omega (arith, e, h, l)) (ground (arith, e))
  | inr p ↦
      let h16 = length-header r.operation (length r.key) (length r.value) in
      let back = payload_of r ++ checksum_of r in
      let rest = take (n - length (header_of r)) back in
      let cut : take n (bytes_of r) ≡ header_of r ++ rest =
        take_past (header_of r) back n (ground (arith, h16)) in
      let size = length-take (n - length (header_of r)) back in
      ap read_record cut
      ∙ read_record-header_of r rest v
      ∙ read_payload_torn r.operation (header_of r) rest (length r.key) (length r.value)
          (omega (arith, size, h16, l, length-bytes_of r, length-append (header_of r) back))
]

-- What serialize writes for a valid record reads back as the record, with the length of what it
-- wrote, whatever follows it in the file.
pub serialize-read_record :
    (r : WalRecord) (tail : Bytes)
    → IsRecord r
    → (bytes : Bytes) × (serialize r ≡ ok bytes)
      × (read_record (bytes ++ tail) ≡ ok (decoded r (length bytes) tail))
serialize-read_record r tail v = (bytes_of r, serialize-IsRecord r v, read_record-bytes_of r tail v)
