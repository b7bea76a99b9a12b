-- ===== src/Raft/Storage/RoundTrip.antt =====
-- The files of the storage (src/raft/storage.cpp) read back as they were written.
use mathlib.Core.List.{append_assoc, append-nil}
use nebula_kv.Prelude.{
  ℕ, suc, ◌+◌, ◌-◌, ◌^◌, ◌<◌, ◌≡◌, refl, ◌∙◌, ap, Bytes, beq, beq_self, arith, ltb, length,
  length-append, take, drop, take-append, drop-append, false, true, List, [], ◌∷◌, ◌++◌,
}
use nebula_kv.Prelude.Result.{ok}
use nebula_kv.Storage.Checksum.{crc32, crc32-lt}
use nebula_kv.Raft.Types.{HardState, LogEntry, Snapshot, word}
use nebula_kv.Raft.Codec.{append_u32, append_u64, read_u32, read_u64, read_bytes}
use nebula_kv.Raft.Codec.RoundTrip.{
  read_u32-append_u32, read_u64-append_u64, read_bytes-append_bytes, IsEntry,
  decode_entry-encode_entry,
}
use nebula_kv.Raft.Storage.{
  version, wrap_payload, unwrap_payload, ensure_empty, decode_hard_state, decode_entries, has_jump,
  decode_log, decode_snapshot, encode_entries,
}

module _ (a b c d : ℕ) where
  abbrev pub magic : Bytes
  magic = a ∷ b ∷ c ∷ d ∷ []

  pub length-wrap_payload : (p : Bytes) → length (wrap_payload magic p) ≡ length p + 12
  unfolding wrap_payload append_u32
  length-wrap_payload p = omega (arith, length-append p (append_u32 (crc32 p)))

  read_version : (p : Bytes) → read_u32 (take 4 (drop 4 (wrap_payload magic p))) ≡ ok (version, [])
  unfolding wrap_payload append_u32
  read_version p = read_u32-append_u32 version [] (omega arith)

  payload_part :
      (p : Bytes) → take (length (wrap_payload magic p) - 12) (drop 8 (wrap_payload magic p)) ≡ p
  unfolding wrap_payload append_u32
  payload_part p =
      ap (λ n. take n (p ++ append_u32 (crc32 p)))
        (omega (arith, length-append p (append_u32 (crc32 p))))
      ∙ take-append p (append_u32 (crc32 p))

  checksum_part :
      (p : Bytes)
      → drop (length (wrap_payload magic p) - 4) (wrap_payload magic p) ≡ append_u32 (crc32 p)
  unfolding wrap_payload append_u32
  checksum_part p =
      ap (λ n. drop n (wrap_payload magic p)) {x = length (wrap_payload magic p) - 4}
        {y = suc (suc (suc (suc (suc (suc (suc (suc (length p))))))))}
        (omega (arith, length-wrap_payload p))
      ∙ drop-append p (append_u32 (crc32 p))

  not_short : (p : Bytes) → ltb (length (wrap_payload magic p)) 12 ≡ false
  not_short p = ground (arith, length-wrap_payload p)

  has_magic : (p : Bytes) → beq (take 4 (wrap_payload magic p)) magic ≡ true
  unfolding wrap_payload
  has_magic p = beq_self magic

  read_checksum : (p : Bytes) → read_u32 (append_u32 (crc32 p)) ≡ ok (crc32 p, [])
  unfolding append_u32
  read_checksum p = read_u32-append_u32 (crc32 p) [] (crc32-lt p)

  unwrap_parts :
      (encoded p : Bytes)
      → ltb (length encoded) 12 ≡ false
      → beq (take 4 encoded) magic ≡ true
      → read_u32 (take 4 (drop 4 encoded)) ≡ ok (version, [])
      → take (length encoded - 12) (drop 8 encoded) ≡ p
      → drop (length encoded - 4) encoded ≡ append_u32 (crc32 p)
      → unwrap_payload magic encoded ≡ ok p
  unfolding unwrap_payload
  unwrap_parts encoded p s m v t c = rw (s, m, v, t, c, read_checksum p) (ground arith)

  pub unwrap_payload-wrap_payload : (p : Bytes) → unwrap_payload magic (wrap_payload magic p) ≡ ok p
  unwrap_payload-wrap_payload p =
      unwrap_parts (wrap_payload magic p) p (not_short p) (has_magic p) (read_version p)
        (payload_part p) (checksum_part p)

-- The states that the format has room for.
pub record IsHardState (h : HardState) : Type 0 where
  pub current_term : h.current_term < word
  pub voted_for : length h.voted_for < 2 ^ 32
  pub commit_index : h.commit_index < word
  pub last_applied : h.last_applied < word

pub record IsSnapshot (s : Snapshot) : Type 0 where
  pub last_included_index : s.last_included_index < word
  pub last_included_term : s.last_included_term < word
  pub payload : length s.payload < 2 ^ 32

abbrev pub AreEntries : List LogEntry → Type 0
AreEntries [] = Unit
AreEntries (e ∷ es) = IsEntry e × AreEntries es

pub record IsLog (es : List LogEntry) : Type 0 where
  pub size : length es < word
  pub entries : AreEntries es
  pub contiguous : has_jump es ≡ false

abbrev pub part : Bytes → Bytes
part value = append_u32 (length value) ++ value

abbrev pub hard_payload : HardState → Bytes
hard_payload h =
    append_u64 h.current_term
    ++ (part h.voted_for ++ (append_u64 h.commit_index ++ append_u64 h.last_applied))

read_last : (v : ℕ) → v < word → read_u64 (append_u64 v) ≡ ok (v, [])
unfolding append_u64
read_last v h = read_u64-append_u64 v [] h

pub decode_hard_state-hard_payload :
    (h : HardState) → IsHardState h → decode_hard_state (hard_payload h) ≡ ok h
unfolding decode_hard_state ensure_empty
decode_hard_state-hard_payload h v =
    rw
      (
        read_u64-append_u64 h.current_term
            (part h.voted_for ++ (append_u64 h.commit_index ++ append_u64 h.last_applied))
            v.current_term,
        read_bytes-append_bytes h.voted_for (append_u64 h.commit_index ++ append_u64 h.last_applied)
            v.voted_for,
        read_u64-append_u64 h.commit_index (append_u64 h.last_applied) v.commit_index,
        read_last h.last_applied v.last_applied,
      )
      refl

abbrev pub snapshot_payload : Snapshot → Bytes
snapshot_payload s =
    append_u64 s.last_included_index ++ (append_u64 s.last_included_term ++ part s.payload)

read_last_bytes : (v : Bytes) → length v < 2 ^ 32 → read_bytes (part v) ≡ ok (v, [])
read_last_bytes v h = rw (← append-nil (part v)) (read_bytes-append_bytes v [] h)

pub decode_snapshot-snapshot_payload :
    (s : Snapshot) → IsSnapshot s → decode_snapshot (snapshot_payload s) ≡ ok s
unfolding decode_snapshot ensure_empty
decode_snapshot-snapshot_payload s v =
    rw
      (
        read_u64-append_u64 s.last_included_index
            (append_u64 s.last_included_term ++ part s.payload) v.last_included_index,
        read_u64-append_u64 s.last_included_term (part s.payload) v.last_included_term,
        read_last_bytes s.payload v.payload,
      )
      refl

decode_entries-encode_entries :
    (es : List LogEntry) (tail : Bytes)
    → AreEntries es
    → (bytes : Bytes) × (encode_entries es ≡ ok bytes)
      × (decode_entries (length es) (bytes ++ tail) ≡ ok (es, tail))
unfolding encode_entries decode_entries
decode_entries-encode_entries [] tail v = ([], refl, refl)
decode_entries-encode_entries (e ∷ es) tail v =
    let (rest, p, q) = decode_entries-encode_entries es tail v.1 in
    let (bytes, p1, q1) = decode_entry-encode_entry e (rest ++ tail) v.0 in
    (bytes ++ rest, rw (p1, p) refl, rw (append_assoc bytes rest tail, q1, q) refl)

pub decode_log-encode_entries :
    (es : List LogEntry)
    → IsLog es
    → (bytes : Bytes) × (encode_entries es ≡ ok bytes)
      × (decode_log (append_u64 (length es) ++ bytes) ≡ ok es)
unfolding decode_log ensure_empty
decode_log-encode_entries es v =
    let (bytes, p, q) = decode_entries-encode_entries es [] v.entries in
    (
      bytes,
      p,
      rw (read_u64-append_u64 (length es) bytes v.size, ← append-nil bytes, q, v.contiguous) refl,
    )
